-- ===== src/RocketServer/Same.antt =====
-- examples/rocket_server.rs beside examples/axum_server.rs.
use passkey_auth_rs.Prelude.{
  ℕ, String, ◌≡◌, inl, inr, refl, Option, List, is_empty, Bool-cases, arith,
}
use passkey_auth_rs.Deps.{Libs, World}
use passkey_auth_rs.Types.{RegistrationResponse, AuthenticationResponse}
use passkey_auth_rs.DemoServer
use passkey_auth_rs.DemoServer.{AppState, take_reg, take_auth}
use passkey_auth_rs.RocketServer
use passkey_auth_rs.RocketServer.{sid_or_new, take_reg_state, take_auth_state}

module _ (libs : Libs) (world : World) (s : AppState) where
  register_finish_same :
      (cookie : Option String) (body : RegistrationResponse)
      → RocketServer.register_finish libs world cookie body s
        ≡ DemoServer.register_finish libs world s cookie body
  unfolding RocketServer.register_finish DemoServer.register_finish take_reg_state
      DemoServer.finish_taken_reg DemoServer.store_credential
  register_finish_same cookie body = ground arith

  authenticate_finish_same :
      (cookie : Option String) (body : AuthenticationResponse)
      → RocketServer.authenticate_finish libs world cookie body s
        ≡ DemoServer.authenticate_finish libs world s cookie body
  unfolding RocketServer.authenticate_finish DemoServer.authenticate_finish take_auth_state
      DemoServer.finish_taken_auth DemoServer.check_id DemoServer.check_found
      DemoServer.store_counter
  authenticate_finish_same cookie body = ground arith

  authenticate_start_same :
      (cookie : Option String) (fresh_sid : String)
      → RocketServer.authenticate_start libs world cookie fresh_sid s
        ≡ DemoServer.authenticate_start libs world s (sid_or_new cookie fresh_sid)
  unfolding RocketServer.authenticate_start DemoServer.authenticate_start
  authenticate_start_same cookie fresh_sid = elim (Bool-cases (is_empty s.user.credentials)) [
    | inl none_yet ↦ rw none_yet refl
    | inr some_there ↦ rw some_there refl
  ]

  -- Each handler of the Rocket server does on a state and a request what the handler of the Axum server
  -- does that has its name: it leaves the same state and gives the same answer, refusals included. A
  -- start takes the session of the cookie, or a fresh one.
  pub handlers_same :
      (cookie : Option String) (fresh_sid : String) (fresh_id : List ℕ)
      (registration : RegistrationResponse) (assertion : AuthenticationResponse)
      → (RocketServer.register_start libs world cookie fresh_sid fresh_id s
          ≡ DemoServer.register_start libs world s (sid_or_new cookie fresh_sid) fresh_id)
        × (RocketServer.register_finish libs world cookie registration s
            ≡ DemoServer.register_finish libs world s cookie registration)
        × (RocketServer.authenticate_start libs world cookie fresh_sid s
            ≡ DemoServer.authenticate_start libs world s (sid_or_new cookie fresh_sid))
        × (RocketServer.authenticate_finish libs world cookie assertion s
            ≡ DemoServer.authenticate_finish libs world s cookie assertion)
  unfolding RocketServer.register_start DemoServer.register_start
  handlers_same cookie fresh_sid fresh_id registration assertion = (
    refl,
    register_finish_same cookie registration,
    authenticate_start_same cookie fresh_sid,
    authenticate_finish_same cookie assertion,
  )
