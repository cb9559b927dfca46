-- ===== src/Sqlite/Requests.antt =====
-- The routes of examples/axum_sqlite.rs and the states that requests and restarts lead to,
-- one after the other.
use passkey_auth_rs.Prelude.{ℕ, String, Option, List, []}
use passkey_auth_rs.Deps.{Libs, World}
use passkey_auth_rs.Types.{RegistrationResponse, AuthenticationResponse}
use passkey_auth_rs.SqlStore.{Sql}
use passkey_auth_rs.Sqlite.{
  AppState, register_start, register_finish, authenticate_start, authenticate_finish,
}

-- A request with its `Cookie` header and the random values that its handler may draw.
pub data Request : Type 0 where
  starts_registration : Option String → String → List ℕ → Request
  finishes_registration : Option String → RegistrationResponse → List ℕ → Request
  starts_authentication : Option String → String → List ℕ → Request
  finishes_authentication : Option String → AuthenticationResponse → Request

module _ (sql : Sql) (libs : Libs) where
  -- The state behind a request.
  unfoldable pub serve : World → Request → AppState sql → AppState sql
  serve world (starts_registration cookies fresh_sid fresh_handle) s =
      (register_start sql libs world cookies fresh_sid fresh_handle s).0
  serve world (finishes_registration cookies body fresh_handle) s =
      (register_finish sql libs world cookies body fresh_handle s).0
  serve world (starts_authentication cookies fresh_sid fresh_handle) s =
      (authenticate_start sql libs world cookies fresh_sid fresh_handle s).0
  serve world (finishes_authentication cookies body) s =
      (authenticate_finish sql libs world cookies body s).0

  -- The states that any number of requests and restarts lead to from a first one. The ceremonies in
  -- flight are lost when the process ends; the database and the settings in `main` are not.
  pub data Later (first : AppState sql) : AppState sql → Type 0 where
    at_once : Later first first
    served :
        (world : World) (request : Request) (state : AppState sql)
        → Later first state
        → Later first (serve world request state)
    restarted :
        (state : AppState sql) → Later first state → Later first (record state { sessions = [] })
