-- ===== src/CredentialManager.antt =====
-- examples/rocket_credential_manager.rs: the handlers of the server whose one user registers, lists
-- and deletes several credentials. A handler takes the `sid` cookie, if there is one, and the random
-- values that it draws; the HTTP layer, and that a response carries the cookie, are left out.
pub mod Requests
pub mod SignedIn
pub mod Login
pub mod Access
pub mod Rotation
pub mod Without
pub mod Deleting
pub mod Lockouts
use passkey_auth_rs.Prelude.{
  ℕ, String, Bool, true, false, not, Option, none, some, List, [], ◌∷◌, ◌++◌, map, ◌==◌, nat_eq,
  list_eq, is_empty, length, leb, if◌then◌else◌,
}
use passkey_auth_rs.Deps.{Libs, World}
use passkey_auth_rs.Types.{
  PasskeyCredential, RegistrationResponse, RegistrationState, RegistrationChallenge,
  AuthenticationResponse, AuthenticationState, AuthenticationChallenge, credential_to_b64url,
  from_b64url,
}
use passkey_auth_rs.Ceremony.{Webauthn}
use passkey_auth_rs.Ceremony.Start.{start_registration, start_authentication_with_creds_for_user}
use passkey_auth_rs.Ceremony.Registration.{finish_registration}
use passkey_auth_rs.Ceremony.Authentication.{finish_authentication}
use passkey_auth_rs.Servers.Handler.{
  Handler, ◌>>=◌, ◌>>◌, pure, gets, modify, or_bad_request, or_bad_request_of, or_unauthorized,
  verified, decoded, refuse_if, demand,
}
use passkey_auth_rs.Servers.Table.{get_entry, set_entry, remove_entry, take_field}
use passkey_auth_rs.Servers.Credentials.{find_credential, set_counter}

pub record User : Type 0 where
  pub handle : List ℕ
  pub credentials : List PasskeyCredential

pub record Session : Type 0 where
  pub reg_state : Option RegistrationState
  pub auth_state : Option AuthenticationState
  pub signed_in : Bool

pub record AppState : Type 0 where
  pub user : User
  pub sessions : List (String × Session)
  pub wa : Webauthn

pub record RegisterFinishReply : Type 0 where
  pub is_ok : Bool
  pub credential_id : String

pub record AuthFinishReply : Type 0 where
  pub is_ok : Bool
  pub user_verified : Bool
  pub new_counter : ℕ

pub record CredentialView : Type 0 where
  pub id : String
  pub aaguid_hex : String
  pub transports : List String
  pub counter : ℕ

pub record DeleteReply : Type 0 where
  pub is_ok : Bool

pub record WhoamiReply : Type 0 where
  pub username : String

abbrev pub username : String
username = "alice@example.com"

abbrev pub empty_session : Session
empty_session = record { reg_state = none; auth_state = none; signed_in = false }

abbrev pub signed_in_session : Session
signed_in_session = record { reg_state = none; auth_state = none; signed_in = true }

-- ---------- helpers

-- `sessions.entry(sid).or_default()`
abbrev pub or_default : Option Session → Session
or_default none = empty_session
or_default (some s) = s

-- `.map(|s| s.signed_in).unwrap_or(false)`
abbrev pub is_signed_in_of : Option Session → Bool
is_signed_in_of none = false
is_signed_in_of (some s) = s.signed_in

unfoldable pub is_signed_in : AppState → String → Bool
is_signed_in state sid = is_signed_in_of (get_entry state.sessions sid)

-- `cookies.get("sid")`, or a fresh id.
abbrev pub sid_or_new : Option String → String → String
sid_or_new none fresh_sid = fresh_sid
sid_or_new (some sid) fresh_sid = sid

abbrev pub sid_from_cookies : Option String → Handler AppState String
sid_from_cookies cookie = or_bad_request cookie "missing sid cookie"

unfoldable pub require_signed_in : Option String → Handler AppState (Unit {0})
require_signed_in cookie = do
  sid ← sid_from_cookies cookie
  signed_in ← gets (λ s. is_signed_in s sid)
  demand signed_in "not signed in"

abbrev pub take_reg :
    List (String × Session) → String → List (String × Session) × Option RegistrationState
take_reg = take_field (λ s. s.reg_state) (λ s. record s { reg_state = none })

abbrev pub take_auth :
    List (String × Session) → String → List (String × Session) × Option AuthenticationState
take_auth = take_field (λ s. s.auth_state) (λ s. record s { auth_state = none })

unfoldable pub take_reg_state : String → Handler AppState RegistrationState
take_reg_state sid state =
    let (sessions, taken) = take_reg state.sessions sid in
    (record state { sessions = sessions }, or_bad_request_of taken "no registration in flight")

unfoldable pub take_auth_state : String → Handler AppState AuthenticationState
take_auth_state sid state =
    let (sessions, taken) = take_auth state.sessions sid in
    (record state { sessions = sessions }, or_bad_request_of taken "no authentication in flight")

-- `sessions.entry(sid).or_default().reg_state = Some(reg_state)`
unfoldable pub put_reg_state : String → RegistrationState → AppState → AppState
put_reg_state sid reg_state state = record state {
  sessions =
      set_entry state.sessions sid
        (record (or_default (get_entry state.sessions sid)) { reg_state = some reg_state });
}

-- The same for the authentication.
unfoldable pub put_auth_state : String → AuthenticationState → AppState → AppState
put_auth_state sid auth_state state = record state {
  sessions =
      set_entry state.sessions sid
        (record (or_default (get_entry state.sessions sid)) { auth_state = some auth_state });
}

unfoldable pub set_credentials : List PasskeyCredential → AppState → AppState
set_credentials credentials state = record state {
  user = record state.user { credentials = credentials };
}

-- `credentials.push(credential)`
unfoldable pub push_credential : PasskeyCredential → AppState → AppState
unfolding set_credentials
push_credential credential state =
    set_credentials (state.user.credentials ++ (credential ∷ [])) state

-- The old session goes, a signed-in one comes in under a fresh id.
unfoldable pub rotate : String → String → AppState → AppState
rotate sid new_sid state = record state {
  sessions = set_entry (remove_entry state.sessions sid) new_sid signed_in_session;
}

-- `credentials.retain(|c| c.id != target)`
unfoldable pub without : List ℕ → List PasskeyCredential → List PasskeyCredential
without target [] = []
without target (c ∷ cs) =
    let rest = without target cs in if c.id.bytes == target then rest else c ∷ rest

module _ (libs : Libs) (world : World) where
  -- ---------- handlers

  unfoldable pub register_start :
      Option String → String → List ℕ → Handler AppState RegistrationChallenge
  register_start cookie fresh_sid user_handle = do
    user ← gets (λ s. s.user)
    refuse_if (not (is_empty user.credentials))
        "already registered - use /credentials/add to add another device"
    let sid = sid_or_new cookie fresh_sid
    modify (λ s. record s { user = record s.user { handle = user_handle } })
    wa ← gets (λ s. s.wa)
    let started = start_registration libs world wa user_handle username "Alice" []
    modify (put_reg_state sid started.1)
    pure started.0

  -- What `register_finish` and `add_credential_finish` do for a session, but for the text of the
  -- refusal.
  unfoldable pub store_verified :
      String → String → RegistrationResponse → Handler AppState RegisterFinishReply
  store_verified refusal sid body = do
    reg_state ← take_reg_state sid
    wa ← gets (λ s. s.wa)
    credential ← verified (finish_registration libs world wa reg_state body) refusal
    modify (push_credential credential)
    pure (record { is_ok = true; credential_id = credential_to_b64url libs credential.id })

  unfoldable pub register_finish :
      Option String → RegistrationResponse → Handler AppState RegisterFinishReply
  register_finish cookie body = do
    sid ← sid_from_cookies cookie
    store_verified "registration verify failed: " sid body

  unfoldable pub authenticate_start :
      Option String → String → Handler AppState AuthenticationChallenge
  authenticate_start cookie fresh_sid = do
    user ← gets (λ s. s.user)
    refuse_if (is_empty user.credentials) "no credentials yet - register first"
    let sid = sid_or_new cookie fresh_sid
    wa ← gets (λ s. s.wa)
    let started =
        start_authentication_with_creds_for_user libs world wa user.handle user.credentials
    modify (put_auth_state sid started.1)
    pure started.0

  unfoldable pub authenticate_finish :
      Option String → AuthenticationResponse → String → Handler AppState AuthFinishReply
  authenticate_finish cookie body new_sid = do
    sid ← sid_from_cookies cookie
    auth_state ← take_auth_state sid
    asserted_id ← decoded (from_b64url libs body.id) "bad credential id"
    user ← gets (λ s. s.user)
    stored ←
        or_unauthorized (find_credential user.credentials asserted_id.bytes) "unknown credential"
    wa ← gets (λ s. s.wa)
    outcome ←
        verified (finish_authentication libs world wa auth_state body stored) "auth verify failed: "
    modify (set_credentials (set_counter user.credentials asserted_id.bytes outcome.new_counter))
    modify (rotate sid new_sid)
    pure (record {
      is_ok = true;
      user_verified = outcome.user_verified;
      new_counter = outcome.new_counter;
    })

  unfoldable pub add_credential_start : Option String → Handler AppState RegistrationChallenge
  add_credential_start cookie = do
    require_signed_in cookie
    sid ← sid_from_cookies cookie
    user ← gets (λ s. s.user)
    wa ← gets (λ s. s.wa)
    let started =
        start_registration libs world wa user.handle username "Alice"
          (map (λ c. c.id) user.credentials)
    modify (put_reg_state sid started.1)
    pure started.0

  unfoldable pub add_credential_finish :
      Option String → RegistrationResponse → Handler AppState RegisterFinishReply
  add_credential_finish cookie body = do
    require_signed_in cookie
    sid ← sid_from_cookies cookie
    store_verified "add-credential verify failed: " sid body

module _ (libs : Libs) where
  -- `hex_encode` is that of the crate `hex`.
  unfoldable pub view : (List ℕ → String) → PasskeyCredential → CredentialView
  view hex_encode c = record {
    id = credential_to_b64url libs c.id;
    aaguid_hex = hex_encode c.aaguid;
    transports = c.transports;
    counter = c.counter;
  }

  unfoldable pub list_credentials : (List ℕ → String) → Handler AppState (List CredentialView)
  list_credentials hex_encode = gets (λ s. map (view hex_encode) s.user.credentials)

  unfoldable pub delete_credential : Option String → String → Handler AppState DeleteReply
  delete_credential cookie id_b64 = do
    require_signed_in cookie
    target ← decoded (from_b64url libs id_b64) "bad credential id"
    user ← gets (λ s. s.user)
    refuse_if (leb (length user.credentials) 1)
        "cannot delete your last credential - you would be locked out"
    let left = without target.bytes user.credentials
    modify (set_credentials left)
    refuse_if (length left == length user.credentials) "credential not found"
    pure (record { is_ok = true })

-- The name of the user, if the session is signed in.
unfoldable pub whoami_of : AppState → Option String → Bool
whoami_of state none = false
whoami_of state (some sid) = is_signed_in state sid

unfoldable pub whoami : Option String → Handler AppState WhoamiReply
whoami cookie = do
  signed_in ← gets (λ s. whoami_of s cookie)
  demand signed_in ""
  pure (record { username = username })
