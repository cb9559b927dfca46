-- ===== src/DemoServer/SingleUse.antt =====
-- The pending ceremonies of examples/axum_server.rs, and how often each can be finished.
use passkey_auth_rs.Prelude.{
  String, ◌≡◌, inl, inr, refl, ap, ◌∙◌, Option, none, some, List, arith, string_eq, nat_eq, list_eq,
  beq_refl, Option-cases,
}
use passkey_auth_rs.Deps.{Libs, World}
use passkey_auth_rs.Types.{
  RegistrationResponse, RegistrationState, AuthenticationResponse, AuthenticationState,
}
use passkey_auth_rs.Servers.Table.{get_entry, set_entry, get_entry-set_entry}
use passkey_auth_rs.Servers.Handler.{bad_request}
use passkey_auth_rs.DemoServer.{
  AppState, Session, take_auth_of, take_reg_of, take_auth, take_reg, store_credential,
  finish_taken_reg, register_finish, store_counter, check_found, check_id, finish_taken_auth,
  authenticate_finish,
}

pub get_entry-set_entry_self :
    (sessions : List (String × Session)) (sid : String) (new : Session)
    → get_entry (set_entry sessions sid new) sid ≡ some new
get_entry-set_entry_self sessions sid new =
    get_entry-set_entry sessions sid sid new ∙ rw (beq_refl sid) refl

take_auth-missing :
    (sessions : List (String × Session)) (sid : String)
    → get_entry sessions sid ≡ none
    → take_auth sessions sid ≡ (sessions, none)
unfolding take_auth
take_auth-missing sessions sid h = ap (take_auth_of sessions sid) h

take_auth-found :
    (sessions : List (String × Session)) (sid : String) (s : Session)
    → get_entry sessions sid ≡ some s
    → take_auth sessions sid
      ≡ (set_entry sessions sid (record s { auth_state = none }), s.auth_state)
unfolding take_auth
take_auth-found sessions sid s h = ap (take_auth_of sessions sid) h

take_auth_again :
    (sessions : List (String × Session)) (sid : String)
    → (take_auth (take_auth sessions sid).0 sid).1 ≡ none
take_auth_again sessions sid = elim (Option-cases (get_entry sessions sid)) [
  | inl missing ↦
      let e = take_auth-missing sessions sid missing in
      ap (λ r. (take_auth r.0 sid).1) e ∙ ap (λ r. r.1) e
  | inr (s, found) ↦
      let left = record s { auth_state = none } in
      ap (λ r. (take_auth r.0 sid).1) (take_auth-found sessions sid s found)
      ∙ ap (λ r. r.1)
          (take_auth-found (set_entry sessions sid left) sid left
            (get_entry-set_entry_self sessions sid left))
]

take_reg-missing :
    (sessions : List (String × Session)) (sid : String)
    → get_entry sessions sid ≡ none
    → take_reg sessions sid ≡ (sessions, none)
unfolding take_reg
take_reg-missing sessions sid h = ap (take_reg_of sessions sid) h

take_reg-found :
    (sessions : List (String × Session)) (sid : String) (s : Session)
    → get_entry sessions sid ≡ some s
    → take_reg sessions sid ≡ (set_entry sessions sid (record s { reg_state = none }), s.reg_state)
unfolding take_reg
take_reg-found sessions sid s h = ap (take_reg_of sessions sid) h

take_reg_again :
    (sessions : List (String × Session)) (sid : String)
    → (take_reg (take_reg sessions sid).0 sid).1 ≡ none
take_reg_again sessions sid = elim (Option-cases (get_entry sessions sid)) [
  | inl missing ↦
      let e = take_reg-missing sessions sid missing in
      ap (λ r. (take_reg r.0 sid).1) e ∙ ap (λ r. r.1) e
  | inr (s, found) ↦
      let left = record s { reg_state = none } in
      ap (λ r. (take_reg r.0 sid).1) (take_reg-found sessions sid s found)
      ∙ ap (λ r. r.1)
          (take_reg-found (set_entry sessions sid left) sid left
            (get_entry-set_entry_self sessions sid left))
]

module _ (libs : Libs) (world : World) where
  -- The handlers of a taken state leave the sessions alone.
  pub finish_taken_auth-sessions :
      (state : AppState) (taken : Option AuthenticationState) (body : AuthenticationResponse)
      → (finish_taken_auth libs world state taken body).0.sessions ≡ state.sessions
  unfolding finish_taken_auth check_id check_found store_counter
  finish_taken_auth-sessions state none body = refl
  finish_taken_auth-sessions state (some auth_state) body = ground arith

  pub finish_taken_reg-sessions :
      (state : AppState) (taken : Option RegistrationState) (body : RegistrationResponse)
      → (finish_taken_reg libs world state taken body).0.sessions ≡ state.sessions
  unfolding finish_taken_reg store_credential
  finish_taken_reg-sessions state none body = refl
  finish_taken_reg-sessions state (some reg_state) body = ground arith

  -- After `authenticate_finish` for a session, whether it succeeded or not, the same session cannot
  -- finish an authentication again before it starts one.
  pub authenticate_finish-once :
      (world' : World) (state : AppState) (sid : String) (body body' : AuthenticationResponse)
      → (authenticate_finish libs world'
          (authenticate_finish libs world state (some sid) body).0
          (some sid)
          body').1
        ≡ bad_request "no authentication in flight"
  unfolding authenticate_finish
  authenticate_finish-once world' state sid body body' =
      rw
        (finish_taken_auth-sessions (record state { sessions = (take_auth state.sessions sid).0 })
          (take_auth state.sessions sid).1 body)
        (rw (take_auth_again state.sessions sid) (unfold finish_taken_auth in refl))

  -- The same for a registration: after `register_finish`, whether it succeeded or not, the session
  -- cannot finish a registration again before it starts one.
  pub register_finish-once :
      (world' : World) (state : AppState) (sid : String) (body body' : RegistrationResponse)
      → (register_finish libs world'
          (register_finish libs world state (some sid) body).0
          (some sid)
          body').1
        ≡ bad_request "no registration in flight"
  unfolding register_finish
  register_finish-once world' state sid body body' =
      rw
        (finish_taken_reg-sessions (record state { sessions = (take_reg state.sessions sid).0 })
          (take_reg state.sessions sid).1 body)
        (rw (take_reg_again state.sessions sid) (unfold finish_taken_reg in refl))
