-- ===== src/Passwordless/Requests.antt =====
-- The routes of examples/axum_passwordless.rs and the states that requests lead to, one request after
-- the other.
use passkey_auth_rs.Prelude.{String, Option, []}
use passkey_auth_rs.Deps.{Libs, World}
use passkey_auth_rs.Types.{RegistrationResponse, AuthenticationResponse}
use passkey_auth_rs.Ceremony.{Webauthn}
use passkey_auth_rs.Passwordless.{
  AppState, register_start, register_finish, authenticate_start, authenticate_finish, whoami,
}

-- A request with its `Cookie` header and the random id that its handler draws.
pub data Request : Type 0 where
  starts_registration : String → Option String → String → Request
  finishes_registration : Option String → RegistrationResponse → Request
  starts_authentication : Option String → String → Request
  finishes_authentication : Option String → AuthenticationResponse → String → Request
  asks_who : Option String → Request

module _ (libs : Libs) where
  -- The state behind a request.
  unfoldable pub serve : World → Request → AppState → AppState
  serve world (starts_registration username cookies fresh_sid) s =
      (register_start libs world username cookies fresh_sid s).0
  serve world (finishes_registration cookies body) s = (register_finish libs world cookies body s).0
  serve world (starts_authentication cookies fresh_sid) s =
      (authenticate_start libs world cookies fresh_sid s).0
  serve world (finishes_authentication cookies body new_sid) s =
      (authenticate_finish libs world cookies body new_sid s).0
  serve world (asks_who cookies) s = (whoami cookies s).0

  -- The states of a server that was booted with a relying party.
  pub data Reachable (wa : Webauthn) : AppState → Type 0 where
    at_boot : Reachable wa (record { users = []; sessions = []; wa = wa })
    served :
        (world : World) (request : Request) (state : AppState)
        → Reachable wa state
        → Reachable wa (serve world request state)
