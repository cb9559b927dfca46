-- ===== src/Passwordless.antt =====
-- examples/axum_passwordless.rs: the handlers of the server with several users, who sign in without
-- naming themselves. A handler takes the text of the `Cookie` header and the random values that it
-- draws. A map of the code is a list here; its order stands for the order in which the code's `find`
-- meets the entries, which a `HashMap` leaves open.
pub mod Requests
pub mod Login
pub mod Handles
pub mod Invariant
pub mod SignedIn
pub mod Access
pub mod Lenient
pub mod Takeover
use passkey_auth_rs.Prelude.{
  ℕ, String, Bool, true, false, Option, none, some, List, [], ◌∷◌, ◌++◌, map, take, as_bytes, ◌==◌,
  nat_eq, string_eq, list_eq, if◌then◌else◌,
}
use passkey_auth_rs.Error.{Try, success, failure, Result, ok, err, panic}
use passkey_auth_rs.Deps.{Libs, World}
use passkey_auth_rs.Types.{
  PasskeyCredential, RegistrationResponse, RegistrationState, RegistrationChallenge,
  AuthenticationResponse, AuthenticationState, AuthenticationChallenge, from_b64url,
}
use passkey_auth_rs.Ceremony.{
  Webauthn, new, any_attachment, authenticator_attachment, require_user_verification,
}
use passkey_auth_rs.Ceremony.Start.{start_registration, start_authentication}
use passkey_auth_rs.Ceremony.Registration.{finish_registration}
use passkey_auth_rs.Ceremony.Authentication.{finish_authentication}
use passkey_auth_rs.Servers.Handler.{
  Handler, ◌>>=◌, ◌>>◌, pure, gets, modify, or_bad_request, or_bad_request_of, or_unauthorized,
  verified, decoded, refuse_if,
}
use passkey_auth_rs.Servers.Table.{get_entry, set_entry, remove_entry, take_field}
use passkey_auth_rs.Servers.Credentials.{find_credential, set_counter}
use passkey_auth_rs.Servers.Cookies.{sid_from_cookies, get_or_create_sid, set_cookie, trim}

pub record User : Type 0 where
  pub handle : List ℕ
  pub credentials : List PasskeyCredential

pub record Session : Type 0 where
  pub reg_state : Option (String × RegistrationState)
  pub auth_state : Option AuthenticationState
  pub signed_in_as : Option String

pub record AppState : Type 0 where
  pub users : List (String × User)
  pub sessions : List (String × Session)
  pub wa : Webauthn

pub record RegisterFinishReply : Type 0 where
  pub is_ok : Bool
  pub username : String

pub record AuthFinishReply : Type 0 where
  pub is_ok : Bool
  pub username : String
  pub user_verified : Bool

pub record WhoamiReply : Type 0 where
  pub username : String

-- What `json_with_sid` answers with: the body and the `Set-Cookie` header.
pub record WithSid (A : Type 0) : Type 0 where
  pub body : A
  pub cookie : String

abbrev pub json_with_sid : {A : Type 0} → A → String → WithSid A
json_with_sid body sid = record { body = body; cookie = set_cookie sid }

abbrev pub empty_session : Session
empty_session = record { reg_state = none; auth_state = none; signed_in_as = none }

-- `Session { signed_in_as: Some(username), ..Session::default() }`
abbrev pub session_of : String → Session
session_of username = record { reg_state = none; auth_state = none; signed_in_as = some username }

abbrev pub empty_user : User
empty_user = record { handle = []; credentials = [] }

-- ---------- maps

-- `entry(…).or_default()` of both maps.
abbrev pub or_default : Option Session → Session
or_default none = empty_session
or_default (some s) = s

abbrev pub or_default_user : Option User → User
or_default_user none = empty_user
or_default_user (some u) = u

abbrev is_there : Option User → Bool
is_there none = false
is_there (some u) = true

-- `users.contains_key(username)`
unfoldable pub contains_key : List (String × User) → String → Bool
contains_key users username = is_there (get_entry users username)

-- `users.iter_mut().find(|(_, u)| u.handle == user_handle)`
unfoldable pub find_user : List (String × User) → List ℕ → Option (String × User)
find_user [] user_handle = none
find_user ((username, u) ∷ users) user_handle =
    if u.handle == user_handle then some (username, u) else find_user users user_handle

unfoldable pub take_reg_state : String → Handler AppState (String × RegistrationState)
take_reg_state sid state =
    let (sessions, taken) =
      take_field {A = Session} (λ s. s.reg_state) (λ s. record s { reg_state = none })
        state.sessions sid in
    (record state { sessions = sessions }, or_bad_request_of taken "no registration in flight")

unfoldable pub take_auth_state : String → Handler AppState AuthenticationState
take_auth_state sid state =
    let (sessions, taken) =
      take_field {A = Session} (λ s. s.auth_state) (λ s. record s { auth_state = none })
        state.sessions sid in
    (record state { sessions = sessions }, or_bad_request_of taken "no authentication in flight")

unfoldable pub put_reg_state : String → String × RegistrationState → AppState → AppState
put_reg_state sid reg_state state = record state {
  sessions =
      set_entry state.sessions sid
        (record (or_default (get_entry state.sessions sid)) { reg_state = some reg_state });
}

unfoldable pub put_auth_state : String → AuthenticationState → AppState → AppState
put_auth_state sid auth_state state = record state {
  sessions =
      set_entry state.sessions sid
        (record (or_default (get_entry state.sessions sid)) { auth_state = some auth_state });
}

-- The old session goes, a signed-in one comes in under a fresh id.
unfoldable pub rotate : String → String → String → AppState → AppState
rotate sid new_sid username state = record state {
  sessions = set_entry (remove_entry state.sessions sid) new_sid (session_of username);
}

-- The write to the counter through the references that the two `find`s return.
unfoldable pub save_counter : String → User → List ℕ → ℕ → AppState → AppState
save_counter username user id counter state = record state {
  users =
      set_entry state.users username
        (record user { credentials = set_counter user.credentials id counter });
}

module _ (libs : Libs) where
  -- `Sha256::digest(username.as_bytes())[..16].to_vec()`
  unfoldable pub handle_of : String → List ℕ
  handle_of username = take 16 (libs.sha256 (as_bytes username))

  -- The last four statements of `register_finish`.
  unfoldable pub add_credential : String → PasskeyCredential → AppState → AppState
  unfolding handle_of
  add_credential username credential state =
      let entry = or_default_user (get_entry state.users username) in
      record state {
        users = set_entry state.users username (record {
          handle = handle_of username;
          credentials = entry.credentials ++ (credential ∷ []);
        });
      }

  unfoldable pub base64_decode_lenient : String → Option (List ℕ)
  base64_decode_lenient s = elim (libs.url_no_pad_decode s) [
    | success v ↦ some v
    | failure _ ↦ elim (libs.url_pad_decode s) [
      | success v ↦ some v
      | failure _ ↦ elim (libs.std_no_pad_decode s) [
        | success v ↦ some v
        | failure _ ↦ elim (libs.std_pad_decode s) [ success v ↦ some v | failure _ ↦ none ]
      ]
    ]
  ]

  module _ (world : World) where
    -- ---------- handlers

    unfoldable pub register_start :
        String → Option String → String → Handler AppState (WithSid RegistrationChallenge)
    register_start body_username cookies fresh_sid = do
      let username = trim body_username
      refuse_if (username == "") "username required"
      let sid = get_or_create_sid cookies fresh_sid
      users ← gets (λ s. s.users)
      refuse_if (contains_key users username) "username already exists - sign in instead"
      let user_handle = handle_of username
      wa ← gets (λ s. s.wa)
      let started = start_registration libs world wa user_handle username username []
      modify (put_reg_state sid (username, started.1))
      pure (json_with_sid started.0 sid)

    unfoldable pub register_finish :
        Option String → RegistrationResponse → Handler AppState RegisterFinishReply
    register_finish cookies body = do
      sid ← or_bad_request (sid_from_cookies cookies) "missing sid cookie"
      taken ← take_reg_state sid
      let username = taken.0
      wa ← gets (λ s. s.wa)
      credential ←
          verified (finish_registration libs world wa taken.1 body) "registration verify failed: "
      modify (add_credential username credential)
      pure (record { is_ok = true; username = username })

    unfoldable pub authenticate_start :
        Option String → String → Handler AppState (WithSid AuthenticationChallenge)
    authenticate_start cookies fresh_sid = do
      let sid = get_or_create_sid cookies fresh_sid
      wa ← gets (λ s. s.wa)
      let started = start_authentication libs world wa []
      modify (put_auth_state sid started.1)
      pure (json_with_sid started.0 sid)

    unfoldable pub authenticate_finish :
        Option String → AuthenticationResponse → String → Handler AppState (WithSid AuthFinishReply)
    authenticate_finish cookies body new_sid = do
      sid ← or_bad_request (sid_from_cookies cookies) "missing sid cookie"
      auth_state ← take_auth_state sid
      user_handle_b64 ← or_bad_request body.user_handle "response missing userHandle"
      user_handle ←
          or_bad_request (base64_decode_lenient user_handle_b64) "userHandle not valid base64"
      asserted_id ← decoded (from_b64url libs body.id) "bad credential id"
      users ← gets (λ s. s.users)
      found ← or_unauthorized (find_user users user_handle) "unknown user"
      let username = found.0
      let user = found.1
      stored ←
          or_unauthorized (find_credential user.credentials asserted_id.bytes)
            "unknown credential for user"
      wa ← gets (λ s. s.wa)
      outcome ←
          verified (finish_authentication libs world wa auth_state body stored)
            "auth verify failed: "
      modify (save_counter username user asserted_id.bytes outcome.new_counter)
      modify (rotate sid new_sid username)
      pure (
          json_with_sid
            (record { is_ok = true; username = username; user_verified = outcome.user_verified })
            new_sid)

-- `.get(&sid).and_then(|s| s.signed_in_as.clone())`
abbrev pub signed_in_as_of : Option Session → Option String
signed_in_as_of none = none
signed_in_as_of (some s) = s.signed_in_as

unfoldable pub whoami : Option String → Handler AppState WhoamiReply
whoami cookies = do
  sid ← or_unauthorized (sid_from_cookies cookies) "no session"
  sessions ← gets (λ s. s.sessions)
  user ← or_unauthorized (signed_in_as_of (get_entry sessions sid)) "not signed in"
  pure (record { username = user })

-- The relying party of `main`; `debug` as in `new`.
unfoldable pub relying_party : Bool → Result Webauthn
unfolding new authenticator_attachment require_user_verification
relying_party debug =
    elim (new debug "localhost" "Passkey passwordless demo" "http://localhost:3000") [
      | ok wa ↦ ok (require_user_verification (authenticator_attachment wa any_attachment) true)
      | err e ↦ err e
      | panic ↦ panic
    ]
