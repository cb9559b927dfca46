-- ===== src/RocketServer/Interleaved.antt =====
-- The states of examples/rocket_server.rs when handlers run at the same time, each letting others in
-- between its two locks.
use passkey_auth_rs.Prelude.{
  ℕ, String, ◌≡◌, ◌≢◌, refl, Option, none, some, List, [], ◌∷◌, ◌++◌, All, Bool, true, false,
  length, is_empty, if◌then◌else◌,
}
use passkey_auth_rs.Error.{Result, ok, err, panic}
use passkey_auth_rs.Deps.{Libs, World}
use passkey_auth_rs.Types.{
  CredentialId, PasskeyCredential, AuthSuccess, RegistrationResponse, AuthenticationResponse,
  AuthenticationState,
}
use passkey_auth_rs.Ceremony.{Webauthn}
use passkey_auth_rs.Ceremony.Start.{start_registration}
use passkey_auth_rs.Servers.Table.{get_entry}
use passkey_auth_rs.DemoServer.{AppState, take_reg, take_auth}
use passkey_auth_rs.DemoServer.Reachable.{
  IsOwned, booted, chosen_id, set_entry-AreFor, get_entry-IsFor, AreFor-chosen_id, chosen_id-ne-nil,
  take_reg-AreFor, take_auth-AreFor, size-ne-nil,
}
use passkey_auth_rs.RocketServer.Sections.{
  Thread, puts_reg, checks_reg, puts_auth, checks_auth, register_start_user,
  authenticate_start_user, register_finish_sessions, authenticate_finish_sessions, push_if,
  count_if, check_stored, check_asserted, resume, then_check,
}

abbrev pub spawn : Option Thread → List Thread → List Thread
spawn none threads = threads
spawn (some t) threads = t ∷ threads

-- A state of the server with the handlers that wait for their second lock. A handler comes in, or one
-- of those that wait goes on; fresh ids have 16 bytes.
pub data Runs (libs : Libs) : AppState → List Thread → Type 0 where
  at_boot : (wa : Webauthn) → Runs libs (booted wa) []
  starts_registration :
      (world : World) (s : AppState) (threads : List Thread) (cookie : Option String)
      (fresh_sid : String) (fresh_id : List ℕ)
      → length fresh_id ≡ 16
      → Runs libs s threads
      → Runs libs
          (register_start_user libs world cookie fresh_sid fresh_id s).0
          ((register_start_user libs world cookie fresh_sid fresh_id s).1 ∷ threads)
  finishes_registration :
      (world : World) (s : AppState) (threads : List Thread) (sid : String)
      (body : RegistrationResponse)
      → Runs libs s threads
      → Runs libs
          (register_finish_sessions world sid body s).0
          (spawn (register_finish_sessions world sid body s).1 threads)
  starts_authentication :
      (world : World) (s : AppState) (threads : List Thread) (cookie : Option String)
      (fresh_sid : String)
      → Runs libs s threads
      → Runs libs s (spawn (authenticate_start_user libs world cookie fresh_sid s) threads)
  finishes_authentication :
      (world : World) (s : AppState) (threads : List Thread) (sid : String)
      (body : AuthenticationResponse)
      → Runs libs s threads
      → Runs libs
          (authenticate_finish_sessions world sid body s).0
          (spawn (authenticate_finish_sessions world sid body s).1 threads)
  goes_on :
      (s : AppState) (before after : List Thread) (t : Thread)
      → Runs libs s (before ++ (t ∷ after))
      → Runs libs (resume libs t s) (before ++ after)

-- A registration that a handler holds on to is for the user with this id, who has one.
abbrev pub WaitsFor : List ℕ → Thread → Type 0
WaitsFor uid (puts_reg sid r) = (r.user_id ≡ uid) × (uid ≢ [])
WaitsFor uid (checks_reg world r body) = Unit
WaitsFor uid (puts_auth sid a) = Unit
WaitsFor uid (checks_auth world a body) = Unit

All-split :
    (P : Thread → Type 0) (before after : List Thread) (t : Thread)
    → All P (before ++ (t ∷ after))
    → P t × All P (before ++ after)
All-split P [] after t all = all
All-split P (b ∷ before) after t all =
    let (here, rest) = All-split P before after t all.1 in (here, (all.0, rest))

-- While the user has no id, no registration is held.
WaitsFor-first : (uid : List ℕ) (t : Thread) → WaitsFor [] t → WaitsFor uid t
WaitsFor-first uid (puts_reg sid r) h = absurd (h.1 refl)
WaitsFor-first uid (checks_reg world r body) h = tt
WaitsFor-first uid (puts_auth sid a) h = tt
WaitsFor-first uid (checks_auth world a body) h = tt

WaitsFor-chosen_id :
    (id fresh : List ℕ) (threads : List Thread)
    → All (WaitsFor id) threads
    → All (WaitsFor (chosen_id id fresh)) threads
WaitsFor-chosen_id (b ∷ bs) fresh threads all = all
WaitsFor-chosen_id [] fresh [] all = tt
WaitsFor-chosen_id [] fresh (t ∷ threads) all =
    (WaitsFor-first fresh t all.0, WaitsFor-chosen_id [] fresh threads all.1)

spawn-check :
    {A : Type 0} (uid : List ℕ) (f : A → Thread) (o : Option A) (threads : List Thread)
    → ((a : A) → WaitsFor uid (f a))
    → All (WaitsFor uid) threads
    → All (WaitsFor uid) (spawn (then_check f o) threads)
spawn-check uid f none threads h all = all
spawn-check uid f (some a) threads h all = (h a, all)

spawn-if :
    (uid : List ℕ) (test : Bool) (t : Thread) (threads : List Thread)
    → WaitsFor uid t
    → All (WaitsFor uid) threads
    → All (WaitsFor uid) (spawn (if test then none else some t) threads)
spawn-if uid true t threads h all = all
spawn-if uid false t threads h all = (h, all)

-- The checks under the second lock leave the id and the sessions alone.
push_if-IsOwned :
    (s : AppState) (r : Result PasskeyCredential)
    → IsOwned s
    → IsOwned (push_if s r) × ((push_if s r).user.id ≡ s.user.id)
push_if-IsOwned s (ok credential) owned = (owned, refl)
push_if-IsOwned s (err e) owned = (owned, refl)
push_if-IsOwned s panic owned = (owned, refl)

count_if-IsOwned :
    (s : AppState) (id : List ℕ) (r : Result AuthSuccess)
    → IsOwned s
    → IsOwned (count_if s id r) × ((count_if s id r).user.id ≡ s.user.id)
count_if-IsOwned s id (ok outcome) owned = (owned, refl)
count_if-IsOwned s id (err e) owned = (owned, refl)
count_if-IsOwned s id panic owned = (owned, refl)

module _ (libs : Libs) where
  check_stored-IsOwned :
      (world : World) (a : AuthenticationState) (body : AuthenticationResponse) (id : List ℕ)
      (s : AppState) (o : Option PasskeyCredential)
      → IsOwned s
      → IsOwned (check_stored libs world a body id s o)
        × ((check_stored libs world a body id s o).user.id ≡ s.user.id)
  check_stored-IsOwned world a body id s none owned = (owned, refl)
  check_stored-IsOwned world a body id s (some stored) owned = count_if-IsOwned s id _ owned

  check_asserted-IsOwned :
      (world : World) (a : AuthenticationState) (body : AuthenticationResponse) (s : AppState)
      (r : Result CredentialId)
      → IsOwned s
      → IsOwned (check_asserted libs world a body s r)
        × ((check_asserted libs world a body s r).user.id ≡ s.user.id)
  check_asserted-IsOwned world a body s (ok id) owned =
      check_stored-IsOwned world a body id.bytes s _ owned
  check_asserted-IsOwned world a body s (err e) owned = (owned, refl)
  check_asserted-IsOwned world a body s panic owned = (owned, refl)

  resume-IsOwned :
      (t : Thread) (s : AppState)
      → WaitsFor s.user.id t
      → IsOwned s
      → IsOwned (resume libs t s) × ((resume libs t s).user.id ≡ s.user.id)
  unfolding resume
  resume-IsOwned (puts_reg sid r) s h owned =
      (set_entry-AreFor s.user.id s.sessions sid _ h owned, refl)
  resume-IsOwned (checks_reg world r body) s h owned = push_if-IsOwned s _ owned
  resume-IsOwned (puts_auth sid a) s h owned = (
    set_entry-AreFor s.user.id s.sessions sid _ (get_entry-IsFor s.user.id s.sessions sid owned)
        owned,
    refl,
  )
  resume-IsOwned (checks_auth world a body) s h owned =
      check_asserted-IsOwned world a body s _ owned

  waiting :
      {s : AppState} {threads : List Thread}
      → Runs libs s threads
      → IsOwned s × All (WaitsFor s.user.id) threads
  unfolding register_start_user start_registration authenticate_start_user register_finish_sessions
      take_reg authenticate_finish_sessions take_auth
  waiting (at_boot wa) = (tt, tt)
  waiting (starts_registration world s threads cookie fresh_sid fresh_id size before) =
      let (owned, all) = waiting before in
      (
        AreFor-chosen_id s.user.id fresh_id s.sessions owned,
        (
          (refl, chosen_id-ne-nil s.user.id fresh_id (size-ne-nil fresh_id size)),
          WaitsFor-chosen_id s.user.id fresh_id threads all,
        ),
      )
  waiting (finishes_registration world s threads sid body before) =
      let (owned, all) = waiting before in
      (
        take_reg-AreFor s.user.id s.sessions sid (get_entry s.sessions sid) owned,
        spawn-check s.user.id (λ r. checks_reg world r body) _ threads (λ r. tt) all,
      )
  waiting (starts_authentication world s threads cookie fresh_sid before) =
      let (owned, all) = waiting before in
      (owned, spawn-if s.user.id (is_empty s.user.credentials) _ threads tt all)
  waiting (finishes_authentication world s threads sid body before) =
      let (owned, all) = waiting before in
      (
        take_auth-AreFor s.user.id s.sessions sid (get_entry s.sessions sid)
            (get_entry-IsFor s.user.id s.sessions sid owned) owned,
        spawn-check s.user.id (λ a. checks_auth world a body) _ threads (λ a. tt) all,
      )
  waiting (goes_on s before after t ran) =
      let (owned, all) = waiting ran in
      let (here, rest) = All-split (WaitsFor s.user.id) before after t all in
      let (kept, same_id) = resume-IsOwned t s here owned in (kept, rw same_id rest)

  -- However the handlers of the Rocket server interleave at their locks, each pending registration is
  -- for the one user that the server has, under the id that the server keeps.
  pub Runs-IsOwned : {s : AppState} {threads : List Thread} → Runs libs s threads → IsOwned s
  Runs-IsOwned run = (waiting run).0
