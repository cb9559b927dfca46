-- ===== src/CredentialManager/Access.antt =====
-- How a session of examples/rocket_credential_manager.rs comes to be signed in.
use passkey_auth_rs.Prelude.{
  ℕ, String, Bool, true, false, ◌≡◌, ◌⊎◌, inl, inr, refl, sym, ap, ◌∙◌, Option, some, List, ◌==◌,
  ne_of_beq, string_eq, subst, if◌then◌else◌,
}
use mathlib.Core.Option.{some-injective}
use passkey_auth_rs.Deps.{Libs, World}
use passkey_auth_rs.Types.{AuthenticationResponse, AuthSuccess}
use passkey_auth_rs.Servers.Handler.{reply, not-IsRefusal}
use passkey_auth_rs.Servers.Since.{Since, at_once, and_then}
use passkey_auth_rs.Servers.Credentials.{set_counter}
use passkey_auth_rs.Servers.Table.{get_entry}
use passkey_auth_rs.CredentialManager.{
  AppState, AuthFinishReply, is_signed_in, take_auth_state, set_credentials, list_credentials,
  authenticate_finish,
}
use passkey_auth_rs.CredentialManager.SignedIn.{
  register_start-signed_in, register_finish-signed_in, authenticate_start-signed_in,
  add_credential_start-signed_in, add_credential_finish-signed_in, delete_credential-signed_in,
  whoami-signed_in, is_signed_in-rotate, is_signed_in-set_credentials, is_signed_in-take_auth_state,
}
use passkey_auth_rs.CredentialManager.Login.{Login, Idle, logged_in, authenticate_finish_cases}
use passkey_auth_rs.CredentialManager.Requests.{
  Request, starts_registration, finishes_registration, starts_authentication,
  finishes_authentication, starts_adding, finishes_adding, lists, deletes, asks_who, serve,
  Reachable, at_boot, served,
}

is_signed_in-logged_in :
    (s : AppState) (sid new_sid : String) (id : List ℕ) (outcome : AuthSuccess) (other : String)
    → is_signed_in (logged_in s sid new_sid id outcome) other
      ≡ (if new_sid == other then true else if sid == other then false else is_signed_in s other)
is_signed_in-logged_in s sid new_sid id outcome other =
    let t = (take_auth_state sid s).0 in
    let cs = set_counter t.user.credentials id outcome.new_counter in
    is_signed_in-rotate sid new_sid (set_credentials cs t) other
    ∙ ap (λ b. if new_sid == other then true else if sid == other then false else b)
        (is_signed_in-set_credentials cs t other ∙ is_signed_in-take_auth_state sid s other)

if-true :
    (a b c : Bool)
    → (if a then true else if b then false else c) ≡ true
    → (a ≡ true) ⊎ ((b ≡ false) × (c ≡ true))
if-true true b c h = inl refl
if-true false true c h = cc
if-true false false c h = inr (refl, h)

module _ (libs : Libs) (hex_encode : List ℕ → String) where
  -- The request is a login that succeeds and was sent from this session.
  abbrev pub LogsInFrom : String → World → Request → AppState → Type 0
  LogsInFrom sid world (finishes_authentication cookie body new_sid) s =
      (answer : AuthFinishReply) × ((authenticate_finish libs world cookie body new_sid s).1
        ≡ reply answer)
      × (cookie ≡ some sid)
  LogsInFrom sid world (starts_registration cookie fresh handle) s = ⊥
  LogsInFrom sid world (finishes_registration cookie body) s = ⊥
  LogsInFrom sid world (starts_authentication cookie fresh) s = ⊥
  LogsInFrom sid world (starts_adding cookie) s = ⊥
  LogsInFrom sid world (finishes_adding cookie body) s = ⊥
  LogsInFrom sid world lists s = ⊥
  LogsInFrom sid world (deletes cookie id_b64) s = ⊥
  LogsInFrom sid world (asks_who cookie) s = ⊥

  -- The session has been signed in from `first` on, and no login was sent from it.
  abbrev pub SignedInSince : String → AppState → AppState → Type 0
  SignedInSince sid =
      Since (serve libs hex_encode) (λ world request s. ¬ LogsInFrom sid world request s)
        (λ s. is_signed_in s sid ≡ true)

  -- The login that created the session, earlier in the run that led to `state`.
  pub record Earlier (sid : String) (state : AppState) : Type 0 where
    pub before : AppState
    pub reached : Reachable libs hex_encode before
    pub world : World
    pub cookie : Option String
    pub body : AuthenticationResponse
    pub login :
        Login libs world before cookie body sid
          (authenticate_finish libs world cookie body sid before)
    pub since : SignedInSince sid (authenticate_finish libs world cookie body sid before).0 state

  later :
      (world : World) (request : Request) (s : AppState) (sid : String)
      → Earlier sid s
      → ¬ LogsInFrom sid world request s
      → is_signed_in (serve libs hex_encode world request s) sid ≡ true
      → Earlier sid (serve libs hex_encode world request s)
  later world request s sid e quiet h = record {
    before = e.before;
    reached = e.reached;
    world = e.world;
    cookie = e.cookie;
    body = e.body;
    login = e.login;
    since = and_then world request s e.since quiet h;
  }

  -- If the login was not sent from this session, the session is as before.
  sent_from_other :
      (world : World) (cookie : Option String) (body : AuthenticationResponse) (new_sid : String)
      (s : AppState) (sid : String)
      → (login : Login libs world s cookie body new_sid
          (authenticate_finish libs world cookie body new_sid s))
      → (login.sid == sid) ≡ false
      → ¬ LogsInFrom sid world (finishes_authentication cookie body new_sid) s
  sent_from_other world cookie body new_sid s sid login apart (answer, _, sent) =
      ne_of_beq login.sid sid apart (some-injective _ _ (sym login.sent ∙ sent))

  finishes-signed_in :
      (world : World) (cookie : Option String) (body : AuthenticationResponse) (new_sid : String)
      (s : AppState) (sid : String)
      → Reachable libs hex_encode s
      → (is_signed_in s sid ≡ true → Earlier sid s)
      → Login libs world s cookie body new_sid
          (authenticate_finish libs world cookie body new_sid s)
        ⊎ Idle libs world s (authenticate_finish libs world cookie body new_sid s)
      → is_signed_in (authenticate_finish libs world cookie body new_sid s).0 sid ≡ true
      → Earlier sid (authenticate_finish libs world cookie body new_sid s).0
  unfolding serve
  finishes-signed_in world cookie body new_sid s sid before ih (inr idle) h =
      later world (finishes_authentication cookie body new_sid) s sid
        (ih (sym (idle.same_signed_in sid) ∙ h))
        (λ (answer, replied, _). not-IsRefusal _ replied idle.refused) h
  finishes-signed_in world cookie body new_sid s sid before ih (inl login) h =
      elim (if-true (new_sid == sid) (login.sid == sid) (is_signed_in s sid) (
        sym (is_signed_in-logged_in s login.sid new_sid login.id.bytes login.outcome sid)
        ∙ (ap (λ t. is_signed_in t sid) (sym login.after) ∙ h))) [
          | inl here ↦
              let same = (string_eq.same_iff new_sid sid).0 here in
              subst (λ k. Earlier k (authenticate_finish libs world cookie body new_sid s).0) same
                (record {
                  before = s;
                  reached = before;
                  world = world;
                  cookie = cookie;
                  body = body;
                  login = login;
                  since = at_once;
                })
          | inr (apart, old) ↦
              later world (finishes_authentication cookie body new_sid) s sid (ih old)
                (sent_from_other world cookie body new_sid s sid login apart) h
        ]

  -- In every state that the server reaches, a session that is signed in was created in the run that led
  -- to this state by an `authenticate_finish` that drew this session's id: the session it was sent
  -- from had an authentication in flight, the credential was stored then, and `finish_authentication`
  -- accepted the response for both. Since then the session has been signed in after each request, and
  -- no login that was sent from it has succeeded.
  pub Reachable-Earlier :
      {state : AppState} (sid : String)
      → Reachable libs hex_encode state
      → is_signed_in state sid ≡ true
      → Earlier sid state
  unfolding serve
  Reachable-Earlier sid (at_boot wa) h =
      let e : false ≡ true = unfold is_signed_in get_entry in h in cc
  Reachable-Earlier sid (served world (starts_registration cookie fresh handle) s before) h =
      later world (starts_registration cookie fresh handle) s sid
        (Reachable-Earlier sid before
          (sym (register_start-signed_in libs world s sid cookie fresh handle) ∙ h))
        (λ bad. bad) h
  Reachable-Earlier sid (served world (finishes_registration cookie body) s before) h =
      later world (finishes_registration cookie body) s sid
        (Reachable-Earlier sid before
          (sym (register_finish-signed_in libs world s sid cookie body) ∙ h))
        (λ bad. bad) h
  Reachable-Earlier sid (served world (starts_authentication cookie fresh) s before) h =
      later world (starts_authentication cookie fresh) s sid
        (Reachable-Earlier sid before
          (sym (authenticate_start-signed_in libs world s sid cookie fresh) ∙ h))
        (λ bad. bad) h
  Reachable-Earlier sid (served world (finishes_authentication cookie body new_sid) s before) h =
      finishes-signed_in world cookie body new_sid s sid before (Reachable-Earlier sid before)
        (authenticate_finish_cases libs world s cookie body new_sid) h
  Reachable-Earlier sid (served world (starts_adding cookie) s before) h =
      later world (starts_adding cookie) s sid
        (Reachable-Earlier sid before
          (sym (add_credential_start-signed_in libs world s sid cookie) ∙ h))
        (λ bad. bad) h
  Reachable-Earlier sid (served world (finishes_adding cookie body) s before) h =
      later world (finishes_adding cookie body) s sid
        (Reachable-Earlier sid before
          (sym (add_credential_finish-signed_in libs world s sid cookie body) ∙ h))
        (λ bad. bad) h
  Reachable-Earlier sid (served world lists s before) h =
      later world lists s sid (Reachable-Earlier sid before (unfold list_credentials in h))
        (λ bad. bad) h
  Reachable-Earlier sid (served world (deletes cookie id_b64) s before) h =
      later world (deletes cookie id_b64) s sid
        (Reachable-Earlier sid before
          (sym (delete_credential-signed_in libs world s sid cookie id_b64) ∙ h))
        (λ bad. bad) h
  Reachable-Earlier sid (served world (asks_who cookie) s before) h =
      later world (asks_who cookie) s sid
        (Reachable-Earlier sid before (sym (whoami-signed_in libs world s sid cookie) ∙ h))
        (λ bad. bad) h
