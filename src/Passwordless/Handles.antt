-- ===== src/Passwordless/Handles.antt =====
-- The user handles in the states of examples/axum_passwordless.rs.
use passkey_auth_rs.Prelude.{
  ℕ, String, ◌≡◌, inl, inr, refl, Option, none, some, List, [], ◌∷◌, ◌==◌, nat_eq, string_eq,
  list_eq, Bool-cases, arith,
}
use passkey_auth_rs.Deps.{Libs, World}
use passkey_auth_rs.Types.{PasskeyCredential, RegistrationState}
use passkey_auth_rs.Ceremony.{Webauthn}
use passkey_auth_rs.Ceremony.Start.{start_registration}
use passkey_auth_rs.Servers.Handler.{proceed-elim, or_unauthorized_of, refuse_if_of}
use passkey_auth_rs.Servers.Table.{get_entry, take_of}
use passkey_auth_rs.Servers.Everywhere.{
  Everywhere, set_entry-Everywhere, remove_entry-Everywhere, get_entry-Everywhere,
  take_field-Everywhere,
}
use passkey_auth_rs.Servers.Cookies.{sid_from_cookies, get_or_create_sid, trim}
use passkey_auth_rs.Passwordless.{
  AppState, User, Session, find_user, contains_key, take_reg_state, take_auth_state, put_reg_state,
  put_auth_state, rotate, save_counter, or_default, session_of, handle_of, add_credential,
  register_start, authenticate_start, whoami, signed_in_as_of,
}

module _ (libs : Libs) where
  -- A user has the handle that belongs to the name.
  abbrev pub IsHandled : String → User → Type 0
  IsHandled username u = u.handle ≡ handle_of libs username

  -- A registration in flight is for the handle of its name.
  abbrev pub IsPending : Option (String × RegistrationState) → Type 0
  IsPending none = Unit
  IsPending (some r) = r.1.user_id ≡ handle_of libs r.0

  abbrev pub IsNamed : String → Session → Type 0
  IsNamed sid s = IsPending s.reg_state

  -- The invariant of the server's state; `wa` is the relying party that it was booted with.
  pub record IsConsistent (wa : Webauthn) (state : AppState) : Type 0 where
    pub same_wa : state.wa ≡ wa
    pub handled : Everywhere IsHandled state.users
    pub named : Everywhere IsNamed state.sessions

  -- The user that a lookup by handle finds has this handle, and it belongs to the name.
  pub find_user-handle :
      (users : List (String × User)) (handle : List ℕ) {username : String} {u : User}
      → Everywhere IsHandled users
      → find_user users handle ≡ some (username, u)
      → (handle ≡ handle_of libs username) × IsHandled username u
  unfolding find_user
  find_user-handle [] handle all h = cc
  find_user-handle ((k, v) ∷ rest) handle all h = elim (Bool-cases (v.handle == handle)) [
    | inl here ↦ found (rw here at h) ((list_eq.same_iff v.handle handle).0 here) all.0
    | inr other ↦ find_user-handle rest handle all.1 (rw other at h)
  ]
    where
      found :
          {k username : String} {v u : User} {handle : List ℕ}
          → ◌≡◌ {A = Option (String × User)} (some (k, v)) (some (username, u))
          → v.handle ≡ handle
          → IsHandled k v
          → (handle ≡ handle_of libs username) × IsHandled username u
      found e p q = ground arith

  or_default-IsNamed :
      (sessions : List (String × Session)) (sid : String) (o : Option Session)
      → Everywhere IsNamed sessions
      → get_entry sessions sid ≡ o
      → IsPending (or_default o).reg_state
  or_default-IsNamed sessions sid none all h = tt
  or_default-IsNamed sessions sid (some s) all h = get_entry-Everywhere IsNamed sessions sid all h

  -- The registration that a session gives up was in it.
  take_of-IsPending :
      (sessions : List (String × Session)) (sid : String) (o : Option Session)
      → Everywhere IsNamed sessions
      → get_entry sessions sid ≡ o
      → IsPending
          (take_of {A = Session}
            (λ s. s.reg_state)
            (λ s. record s { reg_state = none })
            sessions
            sid
            o).1
  take_of-IsPending sessions sid none all h = tt
  take_of-IsPending sessions sid (some s) all h = get_entry-Everywhere IsNamed sessions sid all h

  module _ (world : World) (wa : Webauthn) (s : AppState) (c : IsConsistent wa s) where
    pub take_reg_state-IsConsistent : (sid : String) → IsConsistent wa (take_reg_state sid s).0
    unfolding take_reg_state
    take_reg_state-IsConsistent sid = record {
      same_wa = c.same_wa;
      handled = c.handled;
      named = take_field-Everywhere IsNamed _ _ (λ key a h. tt) s.sessions sid c.named;
    }

    pub take_auth_state-IsConsistent : (sid : String) → IsConsistent wa (take_auth_state sid s).0
    unfolding take_auth_state
    take_auth_state-IsConsistent sid = record {
      same_wa = c.same_wa;
      handled = c.handled;
      named = take_field-Everywhere IsNamed _ _ (λ key a h. h) s.sessions sid c.named;
    }

    pub register_start-IsConsistent :
        (name : String) (cookies : Option String) (fresh : String)
        → IsConsistent wa (register_start libs world name cookies fresh s).0
    unfolding register_start put_reg_state start_registration
    register_start-IsConsistent name cookies fresh =
        proceed-elim (λ r. IsConsistent wa r.0)
          (s, refuse_if_of (trim name == "") "username required") _ (λ _ _. c)
          λ _ _.
            proceed-elim (λ r. IsConsistent wa r.0)
              (
                s,
                refuse_if_of (contains_key s.users (trim name))
                    "username already exists - sign in instead",
              )
              _ (λ _ _. c)
              λ _ _. record {
                same_wa = c.same_wa;
                handled = c.handled;
                named =
                    set_entry-Everywhere IsNamed s.sessions (get_or_create_sid cookies fresh) _ refl
                      c.named;
              }

    pub authenticate_start-IsConsistent :
        (cookies : Option String) (fresh : String)
        → IsConsistent wa (authenticate_start libs world cookies fresh s).0
    unfolding authenticate_start put_auth_state
    authenticate_start-IsConsistent cookies fresh =
        let sid = get_or_create_sid cookies fresh in
        record {
          same_wa = c.same_wa;
          handled = c.handled;
          named =
              set_entry-Everywhere IsNamed s.sessions sid _
                (or_default-IsNamed s.sessions sid (get_entry s.sessions sid) c.named refl) c.named;
        }

    pub whoami-IsConsistent : (cookies : Option String) → IsConsistent wa (whoami cookies s).0
    unfolding whoami
    whoami-IsConsistent cookies =
        proceed-elim (λ r. IsConsistent wa r.0)
          (s, or_unauthorized_of (sid_from_cookies cookies) "no session") _ (λ _ _. c)
          λ sid _.
            proceed-elim (λ r. IsConsistent wa r.0)
              (s, or_unauthorized_of (signed_in_as_of (get_entry s.sessions sid)) "not signed in") _
              (λ _ _. c) (λ _ _. c)

    pub add_credential-IsConsistent :
        (name : String) (credential : PasskeyCredential)
        → IsConsistent wa (add_credential libs name credential s)
    unfolding add_credential
    add_credential-IsConsistent name credential = record {
      same_wa = c.same_wa;
      handled = set_entry-Everywhere IsHandled s.users name _ refl c.handled;
      named = c.named;
    }

    pub logged_in-IsConsistent :
        (sid new_sid name : String) (u : User) (id : List ℕ) (n : ℕ)
        → IsHandled name u
        → IsConsistent wa (rotate sid new_sid name (save_counter name u id n s))
    unfolding rotate save_counter
    logged_in-IsConsistent sid new_sid name u id n h = record {
      same_wa = c.same_wa;
      handled = set_entry-Everywhere IsHandled s.users name _ h c.handled;
      named =
          set_entry-Everywhere IsNamed _ new_sid (session_of name) tt
            (remove_entry-Everywhere IsNamed s.sessions sid c.named);
    }
