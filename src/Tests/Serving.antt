-- ===== src/Tests/Serving.antt =====
-- The demo server over a registered credential.
use passkey_auth_rs.Prelude.{replicate, ◌≡◌, refl, some, [], ◌∷◌, list_beq}
use passkey_auth_rs.Types.{b64url_decode, from_b64url, AuthenticationState}
use passkey_auth_rs.Servers.Handler.{reply}
use passkey_auth_rs.Servers.Credentials.{find_credential}
use passkey_auth_rs.Servers.Table.{get_entry, set_entry}
use passkey_auth_rs.DemoServer.{
  AppState, empty_session, take_auth, store_counter, check_found, check_id, finish_taken_auth,
  authenticate_finish, register_finish,
}
use passkey_auth_rs.DemoServer.Logins.{answer_of, LoggedIn, authenticate_finish-LoggedIn}
use passkey_auth_rs.DemoServer.{register_start, authenticate_start}
use passkey_auth_rs.RocketServer
use passkey_auth_rs.RocketServer.Same.{handlers_same}
use passkey_auth_rs.Tests.Unary.{encode, decode, decode_from, prepend, repeat}
use passkey_auth_rs.Tests.Demo.{libs, world}
use passkey_auth_rs.Tests.Registering
use passkey_auth_rs.Tests.Registering.{wa, credential}
use passkey_auth_rs.Tests.Logging
use passkey_auth_rs.Tests.Logging.{accepted}

abbrev server : AppState
server = record {
  user = record { id = 3 ∷ []; credentials = credential ∷ [] };
  sessions =
      (
        "a1",
        record empty_session {
          auth_state = some Logging.state;
          reg_state = some Registering.state;
        },
      )
      ∷ [];
  wa = wa;
}

-- The handler on the accepted login.
logs_in :
    (authenticate_finish libs world server (some "a1") Logging.response).1
    ≡ reply (answer_of Logging.success)
unfolding authenticate_finish take_auth get_entry set_entry finish_taken_auth check_id from_b64url
    b64url_decode encode repeat decode decode_from prepend check_found find_credential list_beq
logs_in = rw accepted (unfold store_counter in refl)

authenticate_finish-LoggedIn_example :
    (auth_state : AuthenticationState) × ((take_auth server.sessions "a1").1 ≡ some auth_state)
    × LoggedIn libs world server.wa Logging.response server.user.credentials auth_state
        (authenticate_finish libs world server (some "a1") Logging.response).0.user.credentials
        (answer_of Logging.success)
authenticate_finish-LoggedIn_example =
    authenticate_finish-LoggedIn libs world server "a1" Logging.response (answer_of Logging.success)
      logs_in

handlers_same_example :
    (RocketServer.register_start libs world (some "a1") "" (replicate 16 6) server
      ≡ register_start libs world server "a1" (replicate 16 6))
    × (RocketServer.register_finish libs world (some "a1") (Registering.response 0xa2) server
        ≡ register_finish libs world server (some "a1") (Registering.response 0xa2))
    × (RocketServer.authenticate_start libs world (some "a1") "" server
        ≡ authenticate_start libs world server "a1")
    × (RocketServer.authenticate_finish libs world (some "a1") Logging.response server
        ≡ authenticate_finish libs world server (some "a1") Logging.response)
handlers_same_example =
    handlers_same libs world server (some "a1") "" (replicate 16 6) (Registering.response 0xa2)
      Logging.response
