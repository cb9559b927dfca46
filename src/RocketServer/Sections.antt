-- ===== src/RocketServer/Sections.antt =====
-- The handlers of examples/rocket_server.rs cut where they let go of a lock: what a handler does under
-- its first lock, what it then holds on to (`Thread`), and what it does under its second lock.
use passkey_auth_rs.Prelude.{
  ℕ, String, ◌≡◌, refl, Option, none, some, List, [], ◌∷◌, ◌++◌, map, is_empty, arith,
  if◌then◌else◌,
}
use passkey_auth_rs.Error.{Result, ok, err, panic}
use passkey_auth_rs.Deps.{Libs, World}
use passkey_auth_rs.Types.{
  CredentialId, PasskeyCredential, RegistrationResponse, RegistrationState, AuthenticationResponse,
  AuthenticationState, AuthSuccess, from_b64url,
}
use passkey_auth_rs.Ceremony.Start.{start_registration, start_authentication_with_creds}
use passkey_auth_rs.Ceremony.Registration.{finish_registration}
use passkey_auth_rs.Ceremony.Authentication.{finish_authentication}
use passkey_auth_rs.Servers.Table.{get_entry, set_entry}
use passkey_auth_rs.Servers.Credentials.{find_credential, set_counter}
use passkey_auth_rs.DemoServer.{AppState, or_default, take_reg, take_auth}
use passkey_auth_rs.RocketServer.{
  sid_or_new, take_reg_state, take_auth_state, register_start, register_finish, authenticate_start,
  authenticate_finish,
}

-- A handler between its two locks.
pub data Thread : Type 0 where
  puts_reg : String → RegistrationState → Thread
  checks_reg : World → RegistrationState → RegistrationResponse → Thread
  puts_auth : String → AuthenticationState → Thread
  checks_auth : World → AuthenticationState → AuthenticationResponse → Thread

-- ---------- under the first lock

abbrev pub then_check {ℓ} : {A : Type ℓ} → (A → Thread) → Option A → Option Thread
then_check f none = none
then_check f (some a) = some (f a)

module _ (libs : Libs) (world : World) where
  unfoldable pub register_start_user :
      Option String → String → List ℕ → AppState → AppState × Thread
  register_start_user cookie fresh_sid fresh_id s =
      let user_id = if is_empty s.user.id then fresh_id else s.user.id in
      (
        record s { user = record s.user { id = user_id } },
        puts_reg (sid_or_new cookie fresh_sid)
            (start_registration libs world s.wa user_id "alice@example.com" "Alice"
              (map (λ c. c.id) s.user.credentials)).1,
      )

  unfoldable pub authenticate_start_user : Option String → String → AppState → Option Thread
  authenticate_start_user cookie fresh_sid s =
      if is_empty s.user.credentials
      then none
      else some (
          puts_auth (sid_or_new cookie fresh_sid)
            (start_authentication_with_creds libs world s.wa s.user.credentials).1)

module _ (world : World) where
  unfoldable pub register_finish_sessions :
      String → RegistrationResponse → AppState → AppState × Option Thread
  register_finish_sessions sid body s =
      let (sessions, taken) = take_reg s.sessions sid in
      (record s { sessions = sessions }, then_check (λ r. checks_reg world r body) taken)

  unfoldable pub authenticate_finish_sessions :
      String → AuthenticationResponse → AppState → AppState × Option Thread
  authenticate_finish_sessions sid body s =
      let (sessions, taken) = take_auth s.sessions sid in
      (record s { sessions = sessions }, then_check (λ a. checks_auth world a body) taken)

-- ---------- under the second lock

abbrev pub push_if : AppState → Result PasskeyCredential → AppState
push_if s (ok credential) = record s {
  user = record s.user { credentials = s.user.credentials ++ (credential ∷ []) };
}
push_if s (err e) = s
push_if s panic = s

abbrev pub count_if : AppState → List ℕ → Result AuthSuccess → AppState
count_if s id (ok outcome) = record s {
  user = record s.user { credentials = set_counter s.user.credentials id outcome.new_counter };
}
count_if s id (err e) = s
count_if s id panic = s

module _ (libs : Libs) where
  abbrev pub check_stored :
      World
      → AuthenticationState
      → AuthenticationResponse
      → List ℕ
      → AppState
      → Option PasskeyCredential
      → AppState
  check_stored world a body id s none = s
  check_stored world a body id s (some stored) =
      count_if s id (finish_authentication libs world s.wa a body stored)

  abbrev pub check_asserted :
      World
      → AuthenticationState
      → AuthenticationResponse
      → AppState
      → Result CredentialId
      → AppState
  check_asserted world a body s (ok id) =
      check_stored world a body id.bytes s (find_credential s.user.credentials id.bytes)
  check_asserted world a body s (err e) = s
  check_asserted world a body s panic = s

  unfoldable pub resume : Thread → AppState → AppState
  resume (puts_reg sid r) s = record s {
    sessions =
        set_entry s.sessions sid
          (record (or_default (get_entry s.sessions sid)) { reg_state = some r });
  }
  resume (checks_reg world r body) s = push_if s (finish_registration libs world s.wa r body)
  resume (puts_auth sid a) s = record s {
    sessions =
        set_entry s.sessions sid
          (record (or_default (get_entry s.sessions sid)) { auth_state = some a });
  }
  resume (checks_auth world a body) s = check_asserted world a body s (from_b64url libs body.id)

  abbrev pub resume_if : Option Thread → AppState → AppState
  resume_if none s = s
  resume_if (some t) s = resume t s

  -- The two parts of each handler, one right after the other, are the handler.
  pub sections_compose :
      (world : World) (s : AppState) (cookie : Option String) (sid fresh_sid : String)
      (fresh_id : List ℕ) (registration : RegistrationResponse) (assertion : AuthenticationResponse)
      → (let (t, thread) = register_start_user libs world cookie fresh_sid fresh_id s in
          resume thread t ≡ (register_start libs world cookie fresh_sid fresh_id s).0)
        × (let (t, thread) = register_finish_sessions world sid registration s in
            resume_if thread t ≡ (register_finish libs world (some sid) registration s).0)
        × (resume_if (authenticate_start_user libs world cookie fresh_sid s) s
            ≡ (authenticate_start libs world cookie fresh_sid s).0)
        × (let (t, thread) = authenticate_finish_sessions world sid assertion s in
            resume_if thread t ≡ (authenticate_finish libs world (some sid) assertion s).0)
  unfolding register_start_user register_start resume register_finish_sessions register_finish
      take_reg_state authenticate_start_user authenticate_start authenticate_finish_sessions
      authenticate_finish take_auth_state
  sections_compose world s cookie sid fresh_sid fresh_id registration assertion =
      (refl, ground arith, ground arith, ground arith)
