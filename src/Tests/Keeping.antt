-- ===== src/Tests/Keeping.antt =====
-- The server with a database: a registration and a login.
use passkey_auth_rs.Prelude.{
  true, ◌≡◌, ◌≢◌, arith, ◌↔◌, refl, some, [], ◌∷◌, list_beq, list_eq, length, nat_eq, string_eq,
}
use passkey_auth_rs.Error.{success}
use passkey_auth_rs.Types.{from_b64url, b64url_decode, credential_to_b64url}
use passkey_auth_rs.Servers.Handler.{reply}
use passkey_auth_rs.Servers.Table.{get_entry, set_entry, take_field}
use passkey_auth_rs.Servers.Cookies.{sid_from_cookies}
use passkey_auth_rs.SqlStore.{
  row_of, join, read_transports, row_to_credential, ensure_user, insert_credential, find_credential,
  update_counter,
}
use passkey_auth_rs.SqlStore.Rows.{IsStorable, row_to_credential-row_of_iff}
use passkey_auth_rs.Sqlite.{
  AppState, RegisterFinishReply, AuthFinishReply, take_reg_state, take_auth_state, register_finish,
  authenticate_finish,
}
use passkey_auth_rs.Sqlite.Storing.{Stored, register_finish-Stored}
use passkey_auth_rs.Sqlite.Saving.{Saved, authenticate_finish-Saved}
use passkey_auth_rs.Sqlite.Requests.{serve, at_once, served, restarted, starts_authentication}
use passkey_auth_rs.Sqlite.NeverAgain.{authenticate_finish-never_again}
use passkey_auth_rs.Tests.Unary.{encode, decode, decode_from, prepend, repeat}
use passkey_auth_rs.Tests.Demo.{libs, world, has_size}
use passkey_auth_rs.Tests.Registering
use passkey_auth_rs.Tests.Registering.{wa, credential, registers}
use passkey_auth_rs.Tests.Logging
use passkey_auth_rs.Tests.Logging.{accepted}
use passkey_auth_rs.Tests.Tables.{Tables, sql, laws, find_user, find_row, renumber}

abbrev pub both_in_flight : Tables → AppState sql
both_in_flight store = record {
  store = store;
  sessions =
      ("a1", record { reg_state = some Registering.state; auth_state = some Logging.state }) ∷ [];
  wa = wa;
}

abbrev fresh_store : Tables
fresh_store = record { users = []; rows = [] }

abbrev registered : RegisterFinishReply
registered = record { is_ok = true; credential_id = encode (7 ∷ []) }

stores :
    (register_finish sql libs world
      (some "sid=a1")
      (Registering.response 0xa2)
      (3 ∷ [])
      (both_in_flight fresh_store)).1
    ≡ reply registered
unfolding register_finish take_reg_state take_field get_entry set_entry sid_from_cookies ensure_user
    find_user insert_credential row_of join find_row encode repeat credential_to_b64url
stores = rw (registers.0) refl

storable : IsStorable ("internal" ∷ [])
unfolding row_to_credential row_of join read_transports
storable = ((row_to_credential-row_of_iff (3 ∷ []) credential).0 refl).1

register_finish-Stored_example :
    Stored sql laws libs world
      (both_in_flight fresh_store)
      (some "sid=a1")
      (Registering.response 0xa2)
      (3 ∷ [])
      (register_finish sql libs world
        (some "sid=a1")
        (Registering.response 0xa2)
        (3 ∷ [])
        (both_in_flight fresh_store))
register_finish-Stored_example =
    register_finish-Stored sql laws libs world (both_in_flight fresh_store) (some "sid=a1")
      (Registering.response 0xa2) (3 ∷ []) has_size storable registered stores

-- The credential is in the table.
unfoldable pub filled_store : Tables
unfolding row_of join
filled_store = record {
  users = (3 ∷ [], "alice@example.com") ∷ [];
  rows = row_of (3 ∷ []) credential ∷ [];
}

answer : AuthFinishReply
answer = record { is_ok = true; user_verified = true; new_counter = 2 }

counted_up : answer.new_counter ≢ 0
unfolding answer
counted_up = λ h. ground arith

logs_in :
    (authenticate_finish sql libs world
      (some "sid=a1")
      Logging.response
      (both_in_flight filled_store)).1
    ≡ reply answer
unfolding authenticate_finish take_auth_state take_field get_entry set_entry sid_from_cookies
    from_b64url b64url_decode encode repeat decode decode_from prepend find_credential filled_store
    find_row list_beq row_to_credential read_transports update_counter renumber row_of join answer
logs_in = rw accepted refl

authenticate_finish-Saved_example :
    Saved sql laws libs world (both_in_flight filled_store) (some "sid=a1") Logging.response (
      authenticate_finish sql libs world
        (some "sid=a1")
        Logging.response
        (both_in_flight filled_store))
authenticate_finish-Saved_example =
    authenticate_finish-Saved sql laws libs world (both_in_flight filled_store) (some "sid=a1")
      Logging.response answer logs_in

logged_in : AppState sql
logged_in =
    (authenticate_finish sql libs world (some "sid=a1") Logging.response
      (both_in_flight filled_store)).0

-- The session starts another authentication.
in_flight_again : AppState sql
in_flight_again =
    serve sql libs world (starts_authentication (some "sid=a1") "b2" (4 ∷ []))
      (record logged_in { sessions = [] })

authenticate_finish-never_again_example :
    (authenticate_finish sql libs world (some "sid=a1") Logging.response in_flight_again).1
    ≢ reply answer
unfolding logged_in in_flight_again
authenticate_finish-never_again_example =
    authenticate_finish-never_again sql laws libs has_size Logging.response world
      (both_in_flight filled_store) (some "sid=a1") answer world in_flight_again (some "sid=a1")
      answer counted_up logs_in
      (served world (starts_authentication (some "sid=a1") "b2" (4 ∷ []))
        (record logged_in { sessions = [] }) (restarted logged_in at_once))

row_to_credential-row_of_iff_example :
    (row_to_credential (row_of (3 ∷ []) credential) ≡ success credential)
    ↔ ((length credential.aaguid ≡ 16) × IsStorable ("internal" ∷ []))
row_to_credential-row_of_iff_example = row_to_credential-row_of_iff (3 ∷ []) credential

creates :
    ensure_user sql fresh_store (3 ∷ [])
    ≡ success (record { users = (3 ∷ [], "alice@example.com") ∷ []; rows = [] }, 3 ∷ [])
unfolding ensure_user find_user
creates = refl
