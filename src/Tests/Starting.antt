-- ===== src/Tests/Starting.antt =====
-- The server with a database: a login that is started.
use passkey_auth_rs.Prelude.{◌≡◌, refl, some, [], ◌∷◌, list_beq, list_eq, nat_eq, string_eq, arith}
use passkey_auth_rs.Error.{success}
use passkey_auth_rs.Types.{AuthenticationChallenge}
use passkey_auth_rs.Ceremony.Start.{start_authentication_with_creds_for_user}
use passkey_auth_rs.Servers.Handler.{reply}
use passkey_auth_rs.Servers.Cookies.{sid_from_cookies, get_or_create_sid}
use passkey_auth_rs.SqlStore.{
  row_of, join, read_transports, row_to_credential, collect, ensure_user, list_credentials,
  username,
}
use passkey_auth_rs.Sqlite.{AppState, WithSid, json_with_sid, put_auth_state, authenticate_start}
use passkey_auth_rs.Sqlite.Starting.{Offers, authenticate_start-Offers}
use passkey_auth_rs.Tests.Demo.{libs, world, round_trips, fills}
use passkey_auth_rs.Tests.Registering.{wa, credential}
use passkey_auth_rs.Tests.Tables.{sql, laws, find_user, of_user}
use passkey_auth_rs.Tests.Keeping.{filled_store, both_in_flight}

abbrev challenged : WithSid AuthenticationChallenge
challenged =
    json_with_sid
      (start_authentication_with_creds_for_user libs world wa (3 ∷ []) (credential ∷ [])).0 "a1"

abbrev started : AppState sql
started =
    (authenticate_start sql libs world (some "sid=a1") "b2" (4 ∷ [])
      (both_in_flight filled_store)).0

has_user : sql.select_user started.store username ≡ success (some (3 ∷ []))
unfolding authenticate_start put_auth_state ensure_user find_user filled_store row_of
    list_credentials collect of_user row_to_credential read_transports join list_beq
has_user = refl

has_one : list_credentials sql started.store (3 ∷ []) ≡ success (credential ∷ [])
unfolding authenticate_start put_auth_state ensure_user find_user filled_store row_of
    list_credentials collect of_user row_to_credential read_transports join list_beq
has_one = refl

answers :
    (authenticate_start sql libs world
      (some "sid=a1")
      "b2"
      (4 ∷ [])
      (both_in_flight filled_store)).1
    ≡ reply challenged
unfolding authenticate_start put_auth_state ensure_user find_user filled_store row_of
    list_credentials collect of_user row_to_credential read_transports join list_beq
    get_or_create_sid sid_from_cookies
answers = refl

authenticate_start-Offers_example :
    Offers sql laws libs world
      (both_in_flight filled_store)
      (some "sid=a1")
      "b2"
      (4 ∷ [])
      (3 ∷ [])
      (credential ∷ [])
      started
      challenged
authenticate_start-Offers_example =
    authenticate_start-Offers sql laws libs world (both_in_flight filled_store) (some "sid=a1") "b2"
      (4 ∷ []) round_trips fills (3 ∷ []) (credential ∷ []) challenged has_user has_one
      ((omega arith, tt), tt) answers
