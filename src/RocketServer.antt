-- ===== src/RocketServer.antt =====
-- examples/rocket_server.rs: the handlers of the Rocket server with one user. Its structs are those of
-- examples/axum_server.rs, which `DemoServer` declares. A handler takes the `sid` cookie, if there is
-- one, and the random values that it may draw.
pub mod Same
pub mod Sections
pub mod Interleaved
use passkey_auth_rs.Prelude.{
  ℕ, String, true, Option, none, some, List, [], ◌∷◌, ◌++◌, map, is_empty, if◌then◌else◌,
}
use passkey_auth_rs.Deps.{Libs, World}
use passkey_auth_rs.Types.{
  RegistrationResponse, RegistrationState, RegistrationChallenge, AuthenticationResponse,
  AuthenticationState, AuthenticationChallenge, credential_to_b64url, from_b64url,
}
use passkey_auth_rs.Ceremony.Start.{start_registration, start_authentication_with_creds}
use passkey_auth_rs.Ceremony.Registration.{finish_registration}
use passkey_auth_rs.Ceremony.Authentication.{finish_authentication}
use passkey_auth_rs.Servers.Handler.{
  Handler, ◌>>=◌, ◌>>◌, pure, gets, modify, or_bad_request, or_bad_request_of, or_unauthorized,
  verified, decoded, refuse_if,
}
use passkey_auth_rs.Servers.Table.{get_entry, set_entry}
use passkey_auth_rs.Servers.Credentials.{find_credential, set_counter}
use passkey_auth_rs.DemoServer.{
  AppState, RegisterFinishReply, AuthFinishReply, or_default, take_reg, take_auth,
}

-- `cookies.get("sid")`, or a fresh id.
abbrev pub sid_or_new : Option String → String → String
sid_or_new none fresh_sid = fresh_sid
sid_or_new (some sid) fresh_sid = sid

unfoldable pub take_reg_state : String → Handler AppState RegistrationState
take_reg_state sid state =
    let (sessions, taken) = take_reg state.sessions sid in
    (record state { sessions = sessions }, or_bad_request_of taken "no registration in flight")

unfoldable pub take_auth_state : String → Handler AppState AuthenticationState
take_auth_state sid state =
    let (sessions, taken) = take_auth state.sessions sid in
    (record state { sessions = sessions }, or_bad_request_of taken "no authentication in flight")

module _ (libs : Libs) (world : World) where
  unfoldable pub register_start :
      Option String → String → List ℕ → Handler AppState RegistrationChallenge
  register_start cookie fresh_sid fresh_id = do
    let sid = sid_or_new cookie fresh_sid
    user ← gets (λ s. s.user)
    let user_id = if is_empty user.id then fresh_id else user.id
    modify (λ s. record s { user = record s.user { id = user_id } })
    let existing = map (λ c. c.id) user.credentials
    wa ← gets (λ s. s.wa)
    let started = start_registration libs world wa user_id "alice@example.com" "Alice" existing
    modify (λ s. record s {
      sessions =
          set_entry s.sessions sid
            (record (or_default (get_entry s.sessions sid)) { reg_state = some started.1 });
    })
    pure started.0

  unfoldable pub register_finish :
      Option String → RegistrationResponse → Handler AppState RegisterFinishReply
  register_finish cookie body = do
    sid ← or_bad_request cookie "missing sid cookie"
    reg_state ← take_reg_state sid
    wa ← gets (λ s. s.wa)
    credential ←
        verified (finish_registration libs world wa reg_state body) "registration verify failed: "
    modify (λ s. record s {
      user = record s.user { credentials = s.user.credentials ++ (credential ∷ []) };
    })
    pure (record { is_ok = true; credential_id = credential_to_b64url libs credential.id })

  unfoldable pub authenticate_start :
      Option String → String → Handler AppState AuthenticationChallenge
  authenticate_start cookie fresh_sid = do
    let sid = sid_or_new cookie fresh_sid
    user ← gets (λ s. s.user)
    refuse_if (is_empty user.credentials) "no registered credentials - register first"
    wa ← gets (λ s. s.wa)
    let started = start_authentication_with_creds libs world wa user.credentials
    modify (λ s. record s {
      sessions =
          set_entry s.sessions sid
            (record (or_default (get_entry s.sessions sid)) { auth_state = some started.1 });
    })
    pure started.0

  unfoldable pub authenticate_finish :
      Option String → AuthenticationResponse → Handler AppState AuthFinishReply
  authenticate_finish cookie body = do
    sid ← or_bad_request cookie "missing sid cookie"
    auth_state ← take_auth_state sid
    asserted_id ← decoded (from_b64url libs body.id) "bad credential id"
    user ← gets (λ s. s.user)
    stored ←
        or_unauthorized (find_credential user.credentials asserted_id.bytes) "unknown credential"
    wa ← gets (λ s. s.wa)
    outcome ←
        verified (finish_authentication libs world wa auth_state body stored) "auth verify failed: "
    modify (λ s. record s {
      user = record s.user {
        credentials = set_counter s.user.credentials asserted_id.bytes outcome.new_counter;
      };
    })
    pure (record {
      is_ok = true;
      user_verified = outcome.user_verified;
      new_counter = outcome.new_counter;
    })

unfoldable pub healthz : String
healthz = "ok"
