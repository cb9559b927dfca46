-- ===== src/Sqlite.antt =====
-- examples/axum_sqlite.rs: the handlers of the server that keeps its one user in a database. A handler
-- takes the text of the `Cookie` header and the random values that it may draw; the lock on the store
-- is held from a handler's first call of it to its last, so each handler is one step.
pub mod Kept
pub mod Storing
pub mod Saving
pub mod Starting
pub mod Requests
pub mod Counters
pub mod Counting
pub mod NeverAgain
use passkey_auth_rs.Prelude.{
  ℕ, String, Bool, true, Option, none, some, List, [], ◌∷◌, map, is_empty,
}
use passkey_auth_rs.Error.{Try, success, failure}
use passkey_auth_rs.Deps.{Libs, World}
use passkey_auth_rs.Types.{
  CredentialId, PasskeyCredential, RegistrationResponse, RegistrationState, RegistrationChallenge,
  AuthenticationResponse, AuthenticationState, AuthenticationChallenge, credential_to_b64url,
  from_b64url,
}
use passkey_auth_rs.Ceremony.{Webauthn}
use passkey_auth_rs.Ceremony.Start.{start_registration, start_authentication_with_creds_for_user}
use passkey_auth_rs.Ceremony.Registration.{finish_registration}
use passkey_auth_rs.Ceremony.Authentication.{finish_authentication}
use passkey_auth_rs.Servers.Handler.{
  Handler, Reply, reply, db_error, ◌>>=◌, ◌>>◌, pure, gets, modify, or_bad_request,
  or_bad_request_of, or_unauthorized, verified, decoded, refuse_if,
}
use passkey_auth_rs.Servers.Table.{get_entry, set_entry, take_field}
use passkey_auth_rs.Servers.Cookies.{sid_from_cookies, get_or_create_sid, set_cookie}
use passkey_auth_rs.SqlStore.{
  Sql, username, ensure_user, insert_credential, list_credentials, find_credential, update_counter,
}

pub record Session : Type 0 where
  pub reg_state : Option RegistrationState
  pub auth_state : Option AuthenticationState

pub record RegisterFinishReply : Type 0 where
  pub is_ok : Bool
  pub credential_id : String

pub record AuthFinishReply : Type 0 where
  pub is_ok : Bool
  pub user_verified : Bool
  pub new_counter : ℕ

-- What `json_with_sid` answers with: the body and the `Set-Cookie` header.
pub record WithSid (A : Type 0) : Type 0 where
  pub body : A
  pub cookie : String

abbrev pub json_with_sid : {A : Type 0} → A → String → WithSid A
json_with_sid body sid = record { body = body; cookie = set_cookie sid }

abbrev pub empty_session : Session
empty_session = record { reg_state = none; auth_state = none }

-- `sessions.entry(sid).or_default()`
abbrev pub or_default : Option Session → Session
or_default none = empty_session
or_default (some s) = s

module _ (sql : Sql) where
  pub record AppState : Type 0 where
    pub store : sql.Db
    pub sessions : List (String × Session)
    pub wa : Webauthn

-- `.map_err(db_err)?` of a query.
abbrev pub db_err_of : {A : Type 0} → Try A → Reply A
db_err_of (success a) = reply a
db_err_of (failure e) = db_error e

module _ {sql : Sql} where
  unfoldable pub take_reg_state : String → Handler (AppState sql) RegistrationState
  take_reg_state sid state =
      let (sessions, taken) =
        take_field {A = Session} (λ s. s.reg_state) (λ s. record s { reg_state = none })
          state.sessions sid in
      (record state { sessions = sessions }, or_bad_request_of taken "no registration in flight")

  unfoldable pub take_auth_state : String → Handler (AppState sql) AuthenticationState
  take_auth_state sid state =
      let (sessions, taken) =
        take_field {A = Session} (λ s. s.auth_state) (λ s. record s { auth_state = none })
          state.sessions sid in
      (record state { sessions = sessions }, or_bad_request_of taken "no authentication in flight")

  unfoldable pub put_reg_state : String → RegistrationState → AppState sql → AppState sql
  put_reg_state sid reg_state state = record state {
    sessions =
        set_entry state.sessions sid
          (record (or_default (get_entry state.sessions sid)) { reg_state = some reg_state });
  }

  unfoldable pub put_auth_state : String → AuthenticationState → AppState sql → AppState sql
  put_auth_state sid auth_state state = record state {
    sessions =
        set_entry state.sessions sid
          (record (or_default (get_entry state.sessions sid)) { auth_state = some auth_state });
  }

  abbrev pub query : {A : Type 0} → Try A → Handler (AppState sql) A
  query t state = (state, db_err_of t)

  -- A statement that changes the store.
  abbrev pub statement_of : AppState sql → Try (sql.Db) → AppState sql × Reply (Unit {0})
  statement_of state (success db) = (record state { store = db }, reply tt)
  statement_of state (failure e) = (state, db_error e)

  abbrev pub statement : (sql.Db → Try (sql.Db)) → Handler (AppState sql) (Unit {0})
  statement f state = statement_of state (f state.store)

  abbrev pub user_of : AppState sql → Try (sql.Db × List ℕ) → AppState sql × Reply (List ℕ)
  user_of state (success found) = (record state { store = found.0 }, reply found.1)
  user_of state (failure e) = (state, db_error e)

  -- `store.ensure_user().map_err(db_err)?`
  abbrev pub the_user : List ℕ → Handler (AppState sql) (List ℕ)
  the_user fresh state = user_of state (ensure_user sql state.store fresh)

module _ (sql : Sql) (libs : Libs) (world : World) where
  unfoldable pub register_start :
      Option String → String → List ℕ → Handler (AppState sql) (WithSid RegistrationChallenge)
  register_start cookies fresh_sid fresh_handle = do
    let sid = get_or_create_sid cookies fresh_sid
    user_handle ← the_user fresh_handle
    store ← gets (λ s. s.store)
    existing ← query (list_credentials sql store user_handle)
    wa ← gets (λ s. s.wa)
    let started =
        start_registration libs world wa user_handle username "Alice" (map (λ c. c.id) existing)
    modify (put_reg_state sid started.1)
    pure (json_with_sid started.0 sid)

  unfoldable pub register_finish :
      Option String → RegistrationResponse → List ℕ → Handler (AppState sql) RegisterFinishReply
  register_finish cookies body fresh_handle = do
    sid ← or_bad_request (sid_from_cookies cookies) "missing sid cookie"
    reg_state ← take_reg_state sid
    wa ← gets (λ s. s.wa)
    credential ←
        verified (finish_registration libs world wa reg_state body) "registration verify failed: "
    user_handle ← the_user fresh_handle
    statement (λ db. insert_credential sql db user_handle credential)
    pure (record { is_ok = true; credential_id = credential_to_b64url libs credential.id })

  unfoldable pub authenticate_start :
      Option String → String → List ℕ → Handler (AppState sql) (WithSid AuthenticationChallenge)
  authenticate_start cookies fresh_sid fresh_handle = do
    let sid = get_or_create_sid cookies fresh_sid
    user_handle ← the_user fresh_handle
    store ← gets (λ s. s.store)
    creds ← query (list_credentials sql store user_handle)
    refuse_if (is_empty creds) "no registered credentials - register first"
    wa ← gets (λ s. s.wa)
    let started = start_authentication_with_creds_for_user libs world wa user_handle creds
    modify (put_auth_state sid started.1)
    pure (json_with_sid started.0 sid)

  unfoldable pub authenticate_finish :
      Option String → AuthenticationResponse → Handler (AppState sql) AuthFinishReply
  authenticate_finish cookies body = do
    sid ← or_bad_request (sid_from_cookies cookies) "missing sid cookie"
    auth_state ← take_auth_state sid
    asserted_id ← decoded (from_b64url libs body.id) "bad credential id"
    store ← gets (λ s. s.store)
    found ← query (find_credential sql store asserted_id.bytes)
    stored ← or_unauthorized found "unknown credential"
    wa ← gets (λ s. s.wa)
    outcome ←
        verified (finish_authentication libs world wa auth_state body stored) "auth verify failed: "
    statement (λ db. update_counter sql db stored.id.bytes outcome.new_counter)
    pure (record {
      is_ok = true;
      user_verified = outcome.user_verified;
      new_counter = outcome.new_counter;
    })
