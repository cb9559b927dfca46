-- ===== src/CredentialManager/Requests.antt =====
-- The routes of examples/rocket_credential_manager.rs and the states that requests lead to, one
-- request after the other.
use passkey_auth_rs.Prelude.{ℕ, String, Option, List, []}
use passkey_auth_rs.Deps.{Libs, World}
use passkey_auth_rs.Types.{RegistrationResponse, AuthenticationResponse}
use passkey_auth_rs.Ceremony.{Webauthn}
use passkey_auth_rs.CredentialManager.{
  AppState, register_start, register_finish, authenticate_start, authenticate_finish,
  add_credential_start, add_credential_finish, list_credentials, delete_credential, whoami,
}

-- A request with the random values that its handler draws.
pub data Request : Type 0 where
  starts_registration : Option String → String → List ℕ → Request
  finishes_registration : Option String → RegistrationResponse → Request
  starts_authentication : Option String → String → Request
  finishes_authentication : Option String → AuthenticationResponse → String → Request
  starts_adding : Option String → Request
  finishes_adding : Option String → RegistrationResponse → Request
  lists : Request
  deletes : Option String → String → Request
  asks_who : Option String → Request

module _ (libs : Libs) (hex_encode : List ℕ → String) where
  -- The state behind a request.
  unfoldable pub serve : World → Request → AppState → AppState
  serve world (starts_registration cookie fresh_sid handle) s =
      (register_start libs world cookie fresh_sid handle s).0
  serve world (finishes_registration cookie body) s = (register_finish libs world cookie body s).0
  serve world (starts_authentication cookie fresh_sid) s =
      (authenticate_start libs world cookie fresh_sid s).0
  serve world (finishes_authentication cookie body new_sid) s =
      (authenticate_finish libs world cookie body new_sid s).0
  serve world (starts_adding cookie) s = (add_credential_start libs world cookie s).0
  serve world (finishes_adding cookie body) s = (add_credential_finish libs world cookie body s).0
  serve world lists s = (list_credentials libs hex_encode s).0
  serve world (deletes cookie id_b64) s = (delete_credential libs cookie id_b64 s).0
  serve world (asks_who cookie) s = (whoami cookie s).0

  pub data Reachable : AppState → Type 0 where
    at_boot :
        (wa : Webauthn)
        → Reachable
            (record { user = record { handle = []; credentials = [] }; sessions = []; wa = wa })
    served :
        (world : World) (request : Request) (state : AppState)
        → Reachable state
        → Reachable (serve world request state)
