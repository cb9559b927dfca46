-- ===== src/DemoServer.antt =====
-- examples/axum_server.rs: the handlers of the demo server with one user. Each handler is a function
-- on the server's state; the HTTP layer and the parsing of the cookie header are left out, so a
-- handler takes the `sid` cookie, if there is one, and the random values that it draws.
pub mod SingleUse
pub mod Logins
pub mod Reachable
pub mod Races
use passkey_auth_rs.Prelude.{
  ℕ, String, Bool, true, false, Option, none, some, List, [], ◌∷◌, ◌++◌, ◌<>◌, map, ◌==◌, string_eq,
  nat_eq, list_eq, is_empty, if◌then◌else◌,
}
use passkey_auth_rs.Error.{Error, Result, ok, err, panic, display}
use passkey_auth_rs.Deps.{Libs, World}
use passkey_auth_rs.Servers.Handler.{Reply, reply, bad_request, unauthorized, aborted}
use passkey_auth_rs.Servers.Table.{get_entry, set_entry}
use passkey_auth_rs.Servers.Credentials.{find_credential, set_counter}
use passkey_auth_rs.Types.{
  CredentialId, PasskeyCredential, RegistrationResponse, RegistrationState, RegistrationChallenge,
  AuthenticationResponse, AuthenticationState, AuthenticationChallenge, AuthSuccess,
  credential_to_b64url, from_b64url,
}
use passkey_auth_rs.Ceremony.{Webauthn}
use passkey_auth_rs.Ceremony.Start.{start_registration, start_authentication_with_creds}
use passkey_auth_rs.Ceremony.Registration.{finish_registration}
use passkey_auth_rs.Ceremony.Authentication.{finish_authentication}

pub record User : Type 0 where
  pub id : List ℕ
  pub credentials : List PasskeyCredential

pub record Session : Type 0 where
  pub reg_state : Option RegistrationState
  pub auth_state : Option AuthenticationState

pub record AppState : Type 0 where
  pub user : User
  pub sessions : List (String × Session)
  pub wa : Webauthn

pub record RegisterFinishReply : Type 0 where
  pub is_ok : Bool
  pub credential_id : String

pub record AuthFinishReply : Type 0 where
  pub is_ok : Bool
  pub user_verified : Bool
  pub new_counter : ℕ

-- ---------- the session map

abbrev pub empty_session : Session
empty_session = record { reg_state = none; auth_state = none }

-- `sessions.entry(sid).or_default()`
abbrev pub or_default : Option Session → Session
or_default none = empty_session
or_default (some s) = s

-- `.get_mut(sid).and_then(|s| s.auth_state.take())`: the state, and the map without it.
abbrev pub take_auth_of :
    List (String × Session)
    → String
    → Option Session
    → List (String × Session) × Option AuthenticationState
take_auth_of sessions sid none = (sessions, none)
take_auth_of sessions sid (some s) =
    (set_entry sessions sid (record s { auth_state = none }), s.auth_state)

unfoldable pub take_auth :
    List (String × Session) → String → List (String × Session) × Option AuthenticationState
take_auth sessions sid = take_auth_of sessions sid (get_entry sessions sid)

-- The same for the registration.
abbrev pub take_reg_of :
    List (String × Session)
    → String
    → Option Session
    → List (String × Session) × Option RegistrationState
take_reg_of sessions sid none = (sessions, none)
take_reg_of sessions sid (some s) =
    (set_entry sessions sid (record s { reg_state = none }), s.reg_state)

unfoldable pub take_reg :
    List (String × Session) → String → List (String × Session) × Option RegistrationState
take_reg sessions sid = take_reg_of sessions sid (get_entry sessions sid)

module _ (libs : Libs) (world : World) where
  -- ---------- handlers

  -- `register_start`: the `sid` is that of the cookie or a fresh one.
  unfoldable pub register_start :
      AppState → String → List ℕ → AppState × Reply RegistrationChallenge
  register_start state sid fresh_id =
      let user_id = if is_empty state.user.id then fresh_id else state.user.id in
      let (challenge, reg_state) =
        start_registration libs world state.wa user_id "alice@example.com" "Alice"
          (map (λ c. c.id) state.user.credentials) in
      (
        record state {
          sessions =
              set_entry state.sessions sid
                (record (or_default (get_entry state.sessions sid)) { reg_state = some reg_state });
          user = record state.user { id = user_id };
        },
        reply challenge,
      )

  -- The part of `register_finish` behind the check of the answer.
  unfoldable pub store_credential :
      AppState → Result PasskeyCredential → AppState × Reply RegisterFinishReply
  store_credential state (ok credential) = (
    record state {
      user = record state.user { credentials = state.user.credentials ++ (credential ∷ []) };
    },
    reply (record { is_ok = true; credential_id = credential_to_b64url libs credential.id }),
  )
  store_credential state (err e) =
      (state, unauthorized ("registration verify failed: " <> display e))
  store_credential state panic = (state, aborted)

  -- `register_finish` from the taken state on.
  unfoldable pub finish_taken_reg :
      AppState
      → Option RegistrationState
      → RegistrationResponse
      → AppState × Reply RegisterFinishReply
  finish_taken_reg state none body = (state, bad_request "no registration in flight")
  finish_taken_reg state (some reg_state) body =
      store_credential state (finish_registration libs world state.wa reg_state body)

  unfoldable pub register_finish :
      AppState → Option String → RegistrationResponse → AppState × Reply RegisterFinishReply
  register_finish state none body = (state, bad_request "missing sid cookie")
  register_finish state (some sid) body =
      let (sessions, taken) = take_reg state.sessions sid in
      finish_taken_reg (record state { sessions = sessions }) taken body

  unfoldable pub authenticate_start : AppState → String → AppState × Reply AuthenticationChallenge
  authenticate_start state sid =
      if is_empty state.user.credentials
      then (state, bad_request "no registered credentials - register first")
      else let (challenge, auth_state) =
          start_authentication_with_creds libs world state.wa state.user.credentials in
        (
          record state {
            sessions =
                set_entry state.sessions sid (record (or_default (get_entry state.sessions sid)) {
                  auth_state = some auth_state;
                });
          },
          reply challenge,
        )

  -- The part of `authenticate_finish` behind the check of the assertion.
  unfoldable pub store_counter :
      AppState → List ℕ → Result AuthSuccess → AppState × Reply AuthFinishReply
  store_counter state id (ok outcome) = (
    record state {
      user = record state.user {
        credentials = set_counter state.user.credentials id outcome.new_counter;
      };
    },
    reply (record {
      is_ok = true;
      user_verified = outcome.user_verified;
      new_counter = outcome.new_counter;
    }),
  )
  store_counter state id (err e) = (state, unauthorized ("auth verify failed: " <> display e))
  store_counter state id panic = (state, aborted)

  -- The part of it from the lookup on.
  unfoldable pub check_found :
      AppState
      → AuthenticationState
      → AuthenticationResponse
      → List ℕ
      → Option PasskeyCredential
      → AppState × Reply AuthFinishReply
  check_found state auth_state body id none = (state, unauthorized "unknown credential")
  check_found state auth_state body id (some stored) =
      store_counter state id (finish_authentication libs world state.wa auth_state body stored)

  -- The part of it from the decoding of the id on.
  unfoldable pub check_id :
      AppState
      → AuthenticationState
      → AuthenticationResponse
      → Result CredentialId
      → AppState × Reply AuthFinishReply
  check_id state auth_state body (ok id) =
      check_found state auth_state body id.bytes (find_credential state.user.credentials id.bytes)
  check_id state auth_state body (err e) = (state, bad_request "bad credential id")
  check_id state auth_state body panic = (state, aborted)

  -- `authenticate_finish` from the taken state on.
  unfoldable pub finish_taken_auth :
      AppState
      → Option AuthenticationState
      → AuthenticationResponse
      → AppState × Reply AuthFinishReply
  finish_taken_auth state none body = (state, bad_request "no authentication in flight")
  finish_taken_auth state (some auth_state) body =
      check_id state auth_state body (from_b64url libs body.id)

  unfoldable pub authenticate_finish :
      AppState → Option String → AuthenticationResponse → AppState × Reply AuthFinishReply
  authenticate_finish state none body = (state, bad_request "missing sid cookie")
  authenticate_finish state (some sid) body =
      let (sessions, taken) = take_auth state.sessions sid in
      finish_taken_auth (record state { sessions = sessions }) taken body
