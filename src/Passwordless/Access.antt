-- ===== src/Passwordless/Access.antt =====
-- How a session of examples/axum_passwordless.rs comes to be signed in, and as whom.
use passkey_auth_rs.Prelude.{
  ℕ, String, Bool, true, false, ◌≡◌, ◌⊎◌, inl, inr, refl, sym, ap, ◌∙◌, Option, none, some, List,
  ◌==◌, string_eq, ne_of_beq, subst, arith, if◌then◌else◌,
}
use mathlib.Core.Option.{some-injective}
use passkey_auth_rs.Error.{ok}
use passkey_auth_rs.Deps.{Libs, World, Sha256HasSize}
use passkey_auth_rs.Types.{AuthenticationResponse, AuthSuccess}
use passkey_auth_rs.Ceremony.{Webauthn, looks_like_url}
use passkey_auth_rs.Ceremony.Authentication.Accepted.{finish_authentication_iff}
use passkey_auth_rs.Servers.Handler.{Reply, reply, not-IsRefusal}
use passkey_auth_rs.Servers.Since.{Since, at_once, and_then}
use passkey_auth_rs.Servers.Cookies.{sid_from_cookies}
use passkey_auth_rs.Servers.Marks.{mark-rotate}
use passkey_auth_rs.Servers.Table.{get_entry}
use passkey_auth_rs.Types.RpIds.{any_char}
use passkey_auth_rs.Passwordless.{
  AppState, User, AuthFinishReply, WithSid, take_auth_state, save_counter, rotate, session_of,
  authenticate_finish, signed_in_as_of, handle_of, relying_party,
}
use passkey_auth_rs.Passwordless.Login.{signed_in_as, Login, Idle, authenticate_finish_cases}
use passkey_auth_rs.Passwordless.Handles.{IsConsistent, find_user-handle}
use passkey_auth_rs.Passwordless.Invariant.{Reachable-IsConsistent}
use passkey_auth_rs.Passwordless.SignedIn.{
  signed_in_as-take_auth_state, register_start-signed_in_as, register_finish-signed_in_as,
  authenticate_start-signed_in_as, whoami-signed_in_as,
}
use passkey_auth_rs.Passwordless.Requests.{
  Request, starts_registration, finishes_registration, starts_authentication,
  finishes_authentication, asks_who, serve, Reachable, at_boot, served,
}

-- The marks behind a login.
signed_in_as-logged_in :
    (sid new_sid name : String) (u : User) (id : List ℕ) (n : ℕ) (s : AppState) (other : String)
    → signed_in_as
        (rotate sid new_sid name (save_counter name u id n (take_auth_state sid s).0))
        other
      ≡ (if new_sid == other
          then some name
          else if sid == other
          then none
          else signed_in_as s other)
unfolding rotate save_counter
signed_in_as-logged_in sid new_sid name u id n s other =
    mark-rotate signed_in_as_of (take_auth_state sid s).0.sessions sid new_sid other
      (session_of name)
    ∙ ap (λ o. if new_sid == other then some name else if sid == other then none else o)
        (signed_in_as-take_auth_state sid s other)

if-some :
    (a b : Bool) (name : String) (o : Option String) {n : String}
    → (if a then some name else if b then none else o) ≡ some n
    → ((a ≡ true) × (name ≡ n)) ⊎ ((b ≡ false) × (o ≡ some n))
if-some true b name o h = inl (refl, some-injective _ _ h)
if-some false true name o h = cc
if-some false false name o h = inr (refl, h)

relying_party-require_uv :
    (debug : Bool) {wa : Webauthn} → relying_party debug ≡ ok wa → wa.require_uv ≡ true
unfolding relying_party looks_like_url any_char
relying_party-require_uv true h = ground arith
relying_party-require_uv false h = ground arith

module _ (libs : Libs) (wa : Webauthn) where
  -- The request is a login that succeeds and was sent from this session.
  abbrev pub LogsInFrom : String → World → Request → AppState → Type 0
  LogsInFrom sid world (finishes_authentication cookies body new_sid) s =
      (answer : WithSid AuthFinishReply) × ((authenticate_finish libs world cookies body new_sid
          s).1
        ≡ reply answer)
      × (sid_from_cookies cookies ≡ some sid)
  LogsInFrom sid world (starts_registration name cookies fresh) s = ⊥
  LogsInFrom sid world (finishes_registration cookies body) s = ⊥
  LogsInFrom sid world (starts_authentication cookies fresh) s = ⊥
  LogsInFrom sid world (asks_who cookies) s = ⊥

  -- The session has been signed in under the name from `first` on, and no login was sent from it.
  abbrev pub SignedInSince : String → String → AppState → AppState → Type 0
  SignedInSince sid name =
      Since (serve libs) (λ world request s. ¬ LogsInFrom sid world request s)
        (λ s. signed_in_as s sid ≡ some name)

  -- The login that made the session, earlier in the run that led to `state`: it carried the handle of
  -- this name, and the user was verified.
  pub record Identified (sid name : String) (state : AppState) : Type 0 where
    pub before : AppState
    pub reached : Reachable libs wa before
    pub world : World
    pub cookies : Option String
    pub body : AuthenticationResponse
    pub login :
        Login libs world before cookies body sid
          (authenticate_finish libs world cookies body sid before)
    pub who : login.username ≡ name
    pub handled : login.handle ≡ handle_of libs name
    pub verified : login.outcome.user_verified ≡ true
    pub since :
        SignedInSince sid name (authenticate_finish libs world cookies body sid before).0 state

  later :
      (world : World) (request : Request) (s : AppState) (sid name : String)
      → Identified sid name s
      → ¬ LogsInFrom sid world request s
      → signed_in_as (serve libs world request s) sid ≡ some name
      → Identified sid name (serve libs world request s)
  later world request s sid name e quiet h = record {
    before = e.before;
    reached = e.reached;
    world = e.world;
    cookies = e.cookies;
    body = e.body;
    login = e.login;
    who = e.who;
    handled = e.handled;
    verified = e.verified;
    since = and_then world request s e.since quiet h;
  }

  module _ (has_size : Sha256HasSize libs) (uv : wa.require_uv ≡ true) where
    -- Every login in a reachable state is of that kind.
    shown_facts :
        {world : World} {s : AppState} {cookies : Option String} {body : AuthenticationResponse}
        {sid : String} {r : AppState × Reply (WithSid AuthFinishReply)}
        → IsConsistent libs wa s
        → (login : Login libs world s cookies body sid r)
        → (login.handle ≡ handle_of libs login.username) × (login.outcome.user_verified ≡ true)
    shown_facts {world} {s} {cookies} {body} c login =
        let shown =
          (finish_authentication_iff libs world s.wa login.auth_state body login.stored has_size
              login.outcome).0
            login.accepted in
        (
          (find_user-handle libs s.users login.handle c.handled login.user_found).0,
          ap (λ (o : AuthSuccess). o.user_verified) shown.outcome
              ∙ shown.verified (ap (λ (w : Webauthn). w.require_uv) c.same_wa ∙ uv),
        )

    sent_from_other :
        (world : World) (cookies : Option String) (body : AuthenticationResponse) (new_sid : String)
        (s : AppState) (sid : String)
        → (login : Login libs world s cookies body new_sid
            (authenticate_finish libs world cookies body new_sid s))
        → (login.sid == sid) ≡ false
        → ¬ LogsInFrom sid world (finishes_authentication cookies body new_sid) s
    sent_from_other world cookies body new_sid s sid login apart (answer, _, sent) =
        ne_of_beq login.sid sid apart (some-injective _ _ (sym login.sent ∙ sent))

    finishes-signed_in_as :
        (world : World) (cookies : Option String) (body : AuthenticationResponse) (new_sid : String)
        (s : AppState) (sid name : String)
        → Reachable libs wa s
        → (signed_in_as s sid ≡ some name → Identified sid name s)
        → Login libs world s cookies body new_sid
            (authenticate_finish libs world cookies body new_sid s)
          ⊎ Idle libs world s (authenticate_finish libs world cookies body new_sid s)
        → signed_in_as (authenticate_finish libs world cookies body new_sid s).0 sid ≡ some name
        → Identified sid name (authenticate_finish libs world cookies body new_sid s).0
    unfolding serve
    finishes-signed_in_as world cookies body new_sid s sid name before ih (inr idle) h =
        later world (finishes_authentication cookies body new_sid) s sid name
          (elim idle.left [
            | inl same ↦ ih (ap (λ t. signed_in_as t sid) (sym same) ∙ h)
            | inr (old, left) ↦ ih (
                sym (signed_in_as-take_auth_state old s sid)
                ∙ (ap (λ t. signed_in_as t sid) (sym left) ∙ h))
          ])
          (λ (answer, replied, _). not-IsRefusal _ replied idle.refused) h
    finishes-signed_in_as world cookies body new_sid s sid name before ih (inl login) h =
        elim (if-some (new_sid == sid) (login.sid == sid) login.username (signed_in_as s sid) (
          sym (
            signed_in_as-logged_in login.sid new_sid login.username login.user login.id.bytes
              login.outcome.new_counter s sid)
          ∙ (ap (λ t. signed_in_as t sid) (sym login.after) ∙ h))) [
            | inl (here, who) ↦
                let facts = shown_facts (Reachable-IsConsistent libs wa before) login in
                subst
                  (λ k. Identified k name (authenticate_finish libs world cookies body new_sid s).0)
                  ((string_eq.same_iff new_sid sid).0 here)
                  (record {
                    before = s;
                    reached = before;
                    world = world;
                    cookies = cookies;
                    body = body;
                    login = login;
                    who = who;
                    handled = facts.0 ∙ ap (handle_of libs) who;
                    verified = facts.1;
                    since = at_once;
                  })
            | inr (apart, old) ↦
                later world (finishes_authentication cookies body new_sid) s sid name (ih old)
                  (sent_from_other world cookies body new_sid s sid login apart) h
          ]

    reached-Identified :
        {state : AppState} (sid name : String)
        → Reachable libs wa state
        → signed_in_as state sid ≡ some name
        → Identified sid name state
    unfolding serve
    reached-Identified sid name at_boot h =
        let e : ◌≡◌ {A = Option String} none (some name) = unfold get_entry in h in cc
    reached-Identified sid name (served world (starts_registration n cookies fresh) s before) h =
        later world (starts_registration n cookies fresh) s sid name
          (reached-Identified sid name before
            (sym (register_start-signed_in_as libs world s sid n cookies fresh) ∙ h))
          (λ bad. bad) h
    reached-Identified sid name (served world (finishes_registration cookies body) s before) h =
        later world (finishes_registration cookies body) s sid name
          (reached-Identified sid name before
            (sym (register_finish-signed_in_as libs world s sid cookies body) ∙ h))
          (λ bad. bad) h
    reached-Identified sid name (served world (starts_authentication cookies fresh) s before) h =
        later world (starts_authentication cookies fresh) s sid name
          (reached-Identified sid name before
            (sym (authenticate_start-signed_in_as libs world s sid cookies fresh) ∙ h))
          (λ bad. bad) h
    reached-Identified sid name (served world (finishes_authentication cookies body n) s before) h =
        finishes-signed_in_as world cookies body n s sid name before
          (reached-Identified sid name before)
          (authenticate_finish_cases libs world s cookies body n) h
    reached-Identified sid name (served world (asks_who cookies) s before) h =
        later world (asks_who cookies) s sid name
          (reached-Identified sid name before
            (sym (whoami-signed_in_as libs world s sid cookies) ∙ h))
          (λ bad. bad) h

-- In every state that the server reaches with the relying party of its `main`, a session that is
-- signed in under a name was made, in the run that led to this state, by an `authenticate_finish`
-- that drew this session's id. It found an accepted assertion by a credential of that user; the
-- `userHandle` of the response decodes to the handle that is derived from the name, and the
-- authenticator had verified the user. Since then the session has been signed in under this name
-- after each request, and no login that was sent from it has succeeded.
pub signed_in_as-Identified :
    (libs : Libs) (debug : Bool) (wa : Webauthn)
    → Sha256HasSize libs
    → relying_party debug ≡ ok wa
    → {state : AppState} (sid name : String) → Reachable libs wa state
    → signed_in_as state sid ≡ some name
    → Identified libs wa sid name state
signed_in_as-Identified libs debug wa has_size main sid name reached h =
    reached-Identified libs wa has_size (relying_party-require_uv debug main) sid name reached h
