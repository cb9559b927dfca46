-- ===== src/Tests/Managing.antt =====
-- The credential manager from its boot to a login, and its other requests.
use passkey_auth_rs.Prelude.{
  ℕ, suc, ◌<◌, String, true, ◌≡◌, ◌⊎◌, refl, some, [], ◌∷◌, list_beq, list_eq, any, as_bytes,
  as_i64, test_bits, length, List, arith, string_eq, string_eq,
}
use passkey_auth_rs.Error.{ok}
use passkey_auth_rs.Slice.{index, slice, slice_from, to_array}
use passkey_auth_rs.Types.{
  b64url_decode, b64url_decode_strict, from_b64url, random, now_secs, PasskeyCredential,
}
use passkey_auth_rs.ClientData.{decoder, check_parsed, validate}
use passkey_auth_rs.AuthData
use passkey_auth_rs.AuthData.{
  parse_attested, parse_optional, check_extensions, cose_blob_length, user_present, user_verified,
}
use passkey_auth_rs.Cose
use passkey_auth_rs.Cose.{build, build_es256}
use passkey_auth_rs.Crypto.{verify, verify_es256}
use passkey_auth_rs.Attestation
use passkey_auth_rs.Attestation.U2f.{verify_statement}
use passkey_auth_rs.Ceremony.{decode_b64, sha256_32, check_not_expired}
use passkey_auth_rs.Ceremony.Start.{
  start_registration, start_authentication_with_creds_for_user, build_auth_challenge,
}
use passkey_auth_rs.Ceremony.Registration.{is_allowed, finish_registration}
use passkey_auth_rs.Ceremony.Authentication.{
  is_listed, check_user_handle, check_counter, finish_authentication,
}
use passkey_auth_rs.Servers.Handler.{reply}
use passkey_auth_rs.Servers.Table.{get_entry, set_entry, remove_entry, take_field}
use passkey_auth_rs.Servers.Credentials.{find_credential, set_counter}
use passkey_auth_rs.CredentialManager.{
  AppState, is_signed_in, take_reg, take_reg_state, take_auth_state, put_reg_state, put_auth_state,
  set_credentials, push_credential, rotate, register_start, store_verified, register_finish,
  authenticate_start, authenticate_finish, delete_credential, signed_in_session, empty_session,
  require_signed_in, without,
}
use passkey_auth_rs.CredentialManager.Requests.{
  starts_registration, finishes_registration, starts_authentication, finishes_authentication, serve,
  Reachable, at_boot, served,
}
use passkey_auth_rs.CredentialManager.Access.{Earlier, Reachable-Earlier}
use passkey_auth_rs.CredentialManager.Rotation.{rotated, authenticate_finish_rotates}
use passkey_auth_rs.CredentialManager.Login.{answer_of}
use passkey_auth_rs.CredentialManager.Without.{AreDistinct}
use passkey_auth_rs.CredentialManager.Deleting.{
  Deletes, Refuses, delete_credential_cases, delete_credential-keeps_one,
}
use passkey_auth_rs.CredentialManager.Lockouts.{delete_credential_empties}
use passkey_auth_rs.Tests.Unary.{encode, decode, decode_from, prepend, repeat}
use passkey_auth_rs.Tests.Demo.{libs, world}
use passkey_auth_rs.Tests.Registering
use passkey_auth_rs.Tests.Registering.{wa, credential, registers}
use passkey_auth_rs.Tests.Logging

abbrev hex_encode : List ℕ → String
hex_encode = encode

abbrev booted : AppState
booted = record { user = record { handle = []; credentials = [] }; sessions = []; wa = wa }

-- Registered and logged in, in two sessions.
entered : AppState
entered = serve libs hex_encode world (finishes_authentication (some "a1") Logging.response "b2") (
    serve libs hex_encode world (starts_authentication (some "a1") "") (
      serve libs hex_encode world (finishes_registration (some "a1") (Registering.response 0xa2))
        (serve libs hex_encode world (starts_registration (some "a1") "" (3 ∷ [])) booted)))

entered-Reachable : Reachable libs hex_encode entered
unfolding entered
entered-Reachable =
    served world _ _ (served world _ _ (served world _ _ (served world _ _ (at_boot wa))))

enters : is_signed_in entered "b2" ≡ true
unfolding entered serve register_start register_finish authenticate_start authenticate_finish
    store_verified take_reg_state take_auth_state put_reg_state put_auth_state set_credentials
    push_credential rotate is_signed_in get_entry set_entry remove_entry take_field find_credential
    set_counter start_registration start_authentication_with_creds_for_user build_auth_challenge
    random from_b64url b64url_decode finish_registration finish_authentication check_not_expired
    now_secs validate decoder check_parsed b64url_decode_strict decode_b64 sha256_32 to_array encode
    repeat decode decode_from prepend list_beq Attestation.parse Attestation.collect
    Attestation.assign AuthData.parse index slice slice_from parse_attested parse_optional
    check_extensions cose_blob_length user_present user_verified test_bits as_bytes Cose.parse
    Cose.collect Cose.assign build build_es256 is_allowed any verify_statement as_i64 is_listed
    check_user_handle verify verify_es256 check_counter
enters = refl

Reachable-Earlier_example : Earlier libs hex_encode "b2" entered
Reachable-Earlier_example = Reachable-Earlier libs hex_encode "b2" entered-Reachable enters

-- One session with a login in flight and one that is signed in, over two credentials.
abbrev other_credential : PasskeyCredential
other_credential = record credential { id = record { bytes = 8 ∷ [] } }

abbrev dashboard : AppState
dashboard = record {
  user = record { handle = 3 ∷ []; credentials = credential ∷ other_credential ∷ [] };
  sessions =
      (
        "a1",
        record empty_session {
          auth_state = some Logging.state;
          reg_state = some Registering.state;
        },
      )
      ∷ ("c3", signed_in_session)
      ∷ [];
  wa = wa;
}

logs_in :
    (authenticate_finish libs world (some "a1") Logging.response "b2" dashboard).1
    ≡ reply (answer_of Logging.success)
unfolding authenticate_finish take_auth_state take_field get_entry set_entry from_b64url
    b64url_decode encode repeat decode decode_from prepend find_credential list_beq
logs_in = rw Logging.accepted refl

authenticate_finish_rotates_example :
    get_entry
      (authenticate_finish libs world (some "a1") Logging.response "b2" dashboard).0.sessions
      "a1"
    ≡ rotated dashboard.sessions "a1" "b2" "a1"
authenticate_finish_rotates_example =
    authenticate_finish_rotates libs world dashboard "a1" Logging.response "b2" logs_in "a1"

deletes :
    (delete_credential libs (some "c3") (encode (8 ∷ [])) dashboard).1
    ≡ reply (record { is_ok = true })
unfolding delete_credential require_signed_in is_signed_in get_entry from_b64url b64url_decode
    encode repeat decode decode_from prepend without list_beq set_credentials
deletes = refl

delete_credential_cases_example :
    Deletes libs dashboard
      (some "c3")
      (encode (8 ∷ []))
      (delete_credential libs (some "c3") (encode (8 ∷ [])) dashboard)
    ⊎ Refuses libs dashboard
        (some "c3")
        (encode (8 ∷ []))
        (delete_credential libs (some "c3") (encode (8 ∷ [])) dashboard)
delete_credential_cases_example =
    delete_credential_cases libs dashboard (some "c3") (encode (8 ∷ []))

distinct : AreDistinct dashboard.user.credentials
unfolding find_credential list_beq
distinct = (refl, (refl, tt))

delete_credential-keeps_one_example :
    (suc
        (length (delete_credential libs (some "c3") (encode (8 ∷ [])) dashboard).0.user.credentials)
      ≡ 2)
    × (0
        < length
            (delete_credential libs (some "c3") (encode (8 ∷ [])) dashboard).0.user.credentials)
delete_credential-keeps_one_example =
    delete_credential-keeps_one libs dashboard (some "c3") (encode (8 ∷ [])) distinct deletes

-- The same authenticator was registered twice.
abbrev doubled : AppState
doubled = record dashboard {
  user = record { handle = 3 ∷ []; credentials = credential ∷ credential ∷ [] };
}

c3_signed_in : is_signed_in doubled "c3" ≡ true
unfolding is_signed_in get_entry
c3_signed_in = refl

seven_decodes : from_b64url libs (encode (7 ∷ [])) ≡ ok credential.id
unfolding from_b64url b64url_decode encode repeat decode decode_from prepend
seven_decodes = refl

delete_credential_empties_example :
    ((delete_credential libs (some "c3") (encode (7 ∷ [])) doubled).1
      ≡ reply (record { is_ok = true }))
    × ((delete_credential libs (some "c3") (encode (7 ∷ [])) doubled).0.user.credentials ≡ [])
delete_credential_empties_example =
    delete_credential_empties libs doubled "c3" (encode (7 ∷ [])) credential.id c3_signed_in
      seven_decodes (omega arith) (refl, (refl, tt))

in_flight : (take_reg dashboard.sessions "a1").1 ≡ some Registering.state
unfolding take_field get_entry
in_flight = refl
