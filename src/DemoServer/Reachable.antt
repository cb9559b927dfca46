-- ===== src/DemoServer/Reachable.antt =====
-- The states that examples/axum_server.rs reaches from its boot, handler by handler, and to whom the
-- pending registrations in them belong.
use passkey_auth_rs.Prelude.{
  ℕ, String, ◌≡◌, ◌≢◌, inl, inr, refl, Option, none, some, List, [], ◌∷◌, arith, ◌==◌, string_eq,
  Bool-cases, All, length, is_empty, if◌then◌else◌,
}
use passkey_auth_rs.Deps.{Libs, World}
use passkey_auth_rs.Types.{
  RegistrationResponse, RegistrationState, AuthenticationResponse, AuthenticationState,
}
use passkey_auth_rs.Ceremony.{Webauthn}
use passkey_auth_rs.Ceremony.Start.{start_registration}
use passkey_auth_rs.Servers.Table.{get_entry, set_entry}
use passkey_auth_rs.DemoServer.{
  AppState, Session, or_default, take_auth_of, take_reg_of, take_auth, take_reg, register_start,
  store_credential, finish_taken_reg, register_finish, authenticate_start, store_counter,
  check_found, check_id, finish_taken_auth, authenticate_finish,
}
use passkey_auth_rs.DemoServer.SingleUse.{finish_taken_auth-sessions, finish_taken_reg-sessions}

-- A pending registration is for the user with this id, who has one.
abbrev pub IsFor : List ℕ → Option RegistrationState → Type 0
IsFor user_id none = Unit
IsFor user_id (some r) = (r.user_id ≡ user_id) × (user_id ≢ [])

abbrev pub AreFor : List ℕ → List (String × Session) → Type 0
AreFor user_id = All (λ (entry : String × Session). IsFor user_id entry.1.reg_state)

pub set_entry-AreFor :
    (uid : List ℕ) (sessions : List (String × Session)) (sid : String) (new : Session)
    → IsFor uid new.reg_state
    → AreFor uid sessions
    → AreFor uid (set_entry sessions sid new)
unfolding set_entry
set_entry-AreFor uid [] sid new h all = (h, tt)
set_entry-AreFor uid ((key, s) ∷ rest) sid new h all = elim (Bool-cases (key == sid)) [
  | inl here ↦ rw here (h, all.1)
  | inr other ↦ rw other (all.0, set_entry-AreFor uid rest sid new h all.1)
]

pub get_entry-IsFor :
    (uid : List ℕ) (sessions : List (String × Session)) (sid : String)
    → AreFor uid sessions
    → IsFor uid (or_default (get_entry sessions sid)).reg_state
unfolding get_entry
get_entry-IsFor uid [] sid all = tt
get_entry-IsFor uid ((key, s) ∷ rest) sid all = elim (Bool-cases (key == sid)) [
  | inl here ↦ rw here all.0
  | inr other ↦ rw other (get_entry-IsFor uid rest sid all.1)
]

-- While the user has no id, nothing is pending, so any id will do.
IsFor-first : (uid : List ℕ) (o : Option RegistrationState) → IsFor [] o → IsFor uid o
IsFor-first uid none h = tt
IsFor-first uid (some r) h = absurd (h.1 refl)

AreFor-first :
    (uid : List ℕ) (sessions : List (String × Session)) → AreFor [] sessions → AreFor uid sessions
AreFor-first uid [] all = tt
AreFor-first uid ((key, s) ∷ rest) all =
    (IsFor-first uid s.reg_state all.0, AreFor-first uid rest all.1)

-- The id that a registration is started for.
abbrev pub chosen_id : List ℕ → List ℕ → List ℕ
chosen_id id fresh = if is_empty id then fresh else id

pub AreFor-chosen_id :
    (id fresh : List ℕ) (sessions : List (String × Session))
    → AreFor id sessions
    → AreFor (chosen_id id fresh) sessions
AreFor-chosen_id [] fresh sessions all = AreFor-first fresh sessions all
AreFor-chosen_id (b ∷ bs) fresh sessions all = all

pub chosen_id-ne-nil : (id fresh : List ℕ) → fresh ≢ [] → chosen_id id fresh ≢ []
chosen_id-ne-nil [] fresh ne e = ne e
chosen_id-ne-nil (b ∷ bs) fresh ne e = cc

pub take_reg-AreFor :
    (uid : List ℕ) (sessions : List (String × Session)) (sid : String) (o : Option Session)
    → AreFor uid sessions
    → AreFor uid (take_reg_of sessions sid o).0
take_reg-AreFor uid sessions sid none all = all
take_reg-AreFor uid sessions sid (some s) all =
    set_entry-AreFor uid sessions sid (record s { reg_state = none }) tt all

pub take_auth-AreFor :
    (uid : List ℕ) (sessions : List (String × Session)) (sid : String) (o : Option Session)
    → IsFor uid (or_default o).reg_state
    → AreFor uid sessions
    → AreFor uid (take_auth_of sessions sid o).0
take_auth-AreFor uid sessions sid none h all = all
take_auth-AreFor uid sessions sid (some s) h all =
    set_entry-AreFor uid sessions sid (record s { auth_state = none }) h all

-- The invariant of the server's state.
abbrev pub IsOwned : AppState → Type 0
IsOwned state = AreFor state.user.id state.sessions

module _ (libs : Libs) (world : World) where
  register_start-IsOwned :
      (state : AppState) (sid : String) (fresh_id : List ℕ)
      → fresh_id ≢ []
      → IsOwned state
      → IsOwned (register_start libs world state sid fresh_id).0
  unfolding register_start start_registration
  register_start-IsOwned state sid fresh_id ne owned =
      set_entry-AreFor (chosen_id state.user.id fresh_id) state.sessions sid _
        (refl, chosen_id-ne-nil state.user.id fresh_id ne)
        (AreFor-chosen_id state.user.id fresh_id state.sessions owned)

  authenticate_start-IsOwned :
      (state : AppState) (sid : String)
      → IsOwned state
      → IsOwned (authenticate_start libs world state sid).0
  unfolding authenticate_start
  authenticate_start-IsOwned state sid owned = elim (Bool-cases (is_empty state.user.credentials)) [
    | inl none_yet ↦ rw none_yet owned
    | inr some_there ↦ rw some_there (
        set_entry-AreFor state.user.id state.sessions sid _
          (get_entry-IsFor state.user.id state.sessions sid owned) owned)
  ]

  finish_taken_reg-id :
      (state : AppState) (taken : Option RegistrationState) (body : RegistrationResponse)
      → (finish_taken_reg libs world state taken body).0.user.id ≡ state.user.id
  unfolding finish_taken_reg store_credential
  finish_taken_reg-id state none body = refl
  finish_taken_reg-id state (some reg_state) body = ground arith

  finish_taken_auth-id :
      (state : AppState) (taken : Option AuthenticationState) (body : AuthenticationResponse)
      → (finish_taken_auth libs world state taken body).0.user.id ≡ state.user.id
  unfolding finish_taken_auth check_id check_found store_counter
  finish_taken_auth-id state none body = refl
  finish_taken_auth-id state (some auth_state) body = ground arith

  register_finish-IsOwned :
      (state : AppState) (cookie : Option String) (body : RegistrationResponse)
      → IsOwned state
      → IsOwned (register_finish libs world state cookie body).0
  unfolding register_finish take_reg
  register_finish-IsOwned state none body owned = owned
  register_finish-IsOwned state (some sid) body owned =
      let taken = take_reg_of state.sessions sid (get_entry state.sessions sid) in
      let left = record state { sessions = taken.0 } in
      rw
        (
          finish_taken_reg-sessions libs world left taken.1 body,
          finish_taken_reg-id left taken.1 body,
        )
        (take_reg-AreFor state.user.id state.sessions sid (get_entry state.sessions sid) owned)

  authenticate_finish-IsOwned :
      (state : AppState) (cookie : Option String) (body : AuthenticationResponse)
      → IsOwned state
      → IsOwned (authenticate_finish libs world state cookie body).0
  unfolding authenticate_finish take_auth
  authenticate_finish-IsOwned state none body owned = owned
  authenticate_finish-IsOwned state (some sid) body owned =
      let taken = take_auth_of state.sessions sid (get_entry state.sessions sid) in
      let left = record state { sessions = taken.0 } in
      rw
        (
          finish_taken_auth-sessions libs world left taken.1 body,
          finish_taken_auth-id left taken.1 body,
        )
        (take_auth-AreFor state.user.id state.sessions sid (get_entry state.sessions sid)
          (get_entry-IsFor state.user.id state.sessions sid owned) owned)

abbrev pub booted : Webauthn → AppState
booted wa = record { user = record { id = []; credentials = [] }; sessions = []; wa = wa }

-- The states of a server whose handlers run one after the other; fresh ids have 16 bytes.
pub data Reachable (libs : Libs) : AppState → Type 0 where
  at_boot : (wa : Webauthn) → Reachable libs (booted wa)
  started_registration :
      (world : World) (state : AppState) (sid : String) (fresh_id : List ℕ)
      → length fresh_id ≡ 16
      → Reachable libs state
      → Reachable libs (register_start libs world state sid fresh_id).0
  finished_registration :
      (world : World) (state : AppState) (cookie : Option String) (body : RegistrationResponse)
      → Reachable libs state
      → Reachable libs (register_finish libs world state cookie body).0
  started_authentication :
      (world : World) (state : AppState) (sid : String)
      → Reachable libs state
      → Reachable libs (authenticate_start libs world state sid).0
  finished_authentication :
      (world : World) (state : AppState) (cookie : Option String) (body : AuthenticationResponse)
      → Reachable libs state
      → Reachable libs (authenticate_finish libs world state cookie body).0

pub size-ne-nil : (id : List ℕ) → length id ≡ 16 → id ≢ []
size-ne-nil [] h e = omega (arith, h)
size-ne-nil (b ∷ bs) h e = cc

-- In every state that the server reaches by running its handlers one after the other, each pending
-- registration is for the one user that the server has, under the id that the server keeps.
pub Reachable-IsOwned : (libs : Libs) {state : AppState} → Reachable libs state → IsOwned state
Reachable-IsOwned libs (at_boot wa) = tt
Reachable-IsOwned libs (started_registration world state sid fresh_id size before) =
    register_start-IsOwned libs world state sid fresh_id (size-ne-nil fresh_id size)
      (Reachable-IsOwned libs before)
Reachable-IsOwned libs (finished_registration world state cookie body before) =
    register_finish-IsOwned libs world state cookie body (Reachable-IsOwned libs before)
Reachable-IsOwned libs (started_authentication world state sid before) =
    authenticate_start-IsOwned libs world state sid (Reachable-IsOwned libs before)
Reachable-IsOwned libs (finished_authentication world state cookie body before) =
    authenticate_finish-IsOwned libs world state cookie body (Reachable-IsOwned libs before)
