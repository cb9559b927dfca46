-- ===== src/CredentialManager/SignedIn.antt =====
-- Who is signed in to examples/rocket_credential_manager.rs.
use passkey_auth_rs.Prelude.{
  ℕ, String, Bool, true, false, ◌≡◌, refl, ap, Option, none, some, List, [], ◌∷◌, ◌++◌, length, leb,
  nat_eq, ◌==◌, string_eq, arith, if◌then◌else◌,
}
use passkey_auth_rs.Deps.{Libs, World}
use passkey_auth_rs.Types.{
  RegistrationResponse, RegistrationState, AuthenticationState, PasskeyCredential, from_b64url,
}
use passkey_auth_rs.Servers.Handler.{
  Handler, proceed, proceed-keeps, verified_of, demand_of, decoded_of, refuse_if_of,
}
use passkey_auth_rs.Ceremony.Start.{start_registration, start_authentication_with_creds_for_user}
use passkey_auth_rs.Ceremony.Registration.{finish_registration}
use passkey_auth_rs.Servers.Marks.{mark-set_entry, mark-take_field, mark-rotate}
use passkey_auth_rs.Servers.Table.{get_entry}
use passkey_auth_rs.CredentialManager.{
  AppState, Session, is_signed_in, is_signed_in_of, or_default, require_signed_in, take_reg_state,
  take_auth_state, put_reg_state, put_auth_state, set_credentials, push_credential, rotate,
  register_start, store_verified, register_finish, authenticate_start, add_credential_start,
  add_credential_finish, delete_credential, whoami, signed_in_session, sid_or_new, username,
  whoami_of, without,
}

or_default-signed_in : (o : Option Session) → (or_default o).signed_in ≡ is_signed_in_of o
or_default-signed_in none = refl
or_default-signed_in (some s) = refl

is_signed_in-put_reg_state :
    (sid : String) (r : RegistrationState) (state : AppState) (other : String)
    → is_signed_in (put_reg_state sid r state) other ≡ is_signed_in state other
unfolding put_reg_state is_signed_in
is_signed_in-put_reg_state sid r state other =
    mark-set_entry is_signed_in_of state.sessions sid other _
      (or_default-signed_in (get_entry state.sessions sid))

is_signed_in-put_auth_state :
    (sid : String) (r : AuthenticationState) (state : AppState) (other : String)
    → is_signed_in (put_auth_state sid r state) other ≡ is_signed_in state other
unfolding put_auth_state is_signed_in
is_signed_in-put_auth_state sid r state other =
    mark-set_entry is_signed_in_of state.sessions sid other _
      (or_default-signed_in (get_entry state.sessions sid))

is_signed_in-take_reg_state :
    (sid : String) (state : AppState) (other : String)
    → is_signed_in (take_reg_state sid state).0 other ≡ is_signed_in state other
unfolding take_reg_state is_signed_in
is_signed_in-take_reg_state sid state other =
    mark-take_field is_signed_in_of _ _ (λ s. refl) state.sessions sid other

pub is_signed_in-take_auth_state :
    (sid : String) (state : AppState) (other : String)
    → is_signed_in (take_auth_state sid state).0 other ≡ is_signed_in state other
unfolding take_auth_state is_signed_in
is_signed_in-take_auth_state sid state other =
    mark-take_field is_signed_in_of _ _ (λ s. refl) state.sessions sid other

-- Only the sessions count.
is_signed_in_congr :
    (s t : AppState) (sid : String)
    → s.sessions ≡ t.sessions
    → is_signed_in s sid ≡ is_signed_in t sid
unfolding is_signed_in
is_signed_in_congr s t sid e = ap (λ sessions. is_signed_in_of (get_entry sessions sid)) e

pub is_signed_in-rotate :
    (sid new_sid : String) (state : AppState) (other : String)
    → is_signed_in (rotate sid new_sid state) other ≡ (
        if new_sid == other then true else if sid == other then false else is_signed_in state other)
unfolding rotate is_signed_in
is_signed_in-rotate sid new_sid state other =
    mark-rotate is_signed_in_of state.sessions sid new_sid other signed_in_session

pub is_signed_in-set_credentials :
    (cs : List PasskeyCredential) (state : AppState) (other : String)
    → is_signed_in (set_credentials cs state) other ≡ is_signed_in state other
unfolding set_credentials is_signed_in
is_signed_in-set_credentials cs state other = refl

-- ---------- the handlers

module _ (libs : Libs) (world : World) (s : AppState) (other : String) where
  abbrev look : AppState → Bool
  look state = is_signed_in state other

  pub register_start-signed_in :
      (cookie : Option String) (fresh : String) (handle : List ℕ)
      → is_signed_in (register_start libs world cookie fresh handle s).0 other
        ≡ is_signed_in s other
  unfolding register_start
  register_start-signed_in cookie fresh handle =
      let renamed = record s { user = record s.user { handle = handle } } in
      ground (
        arith,
        is_signed_in-put_reg_state (sid_or_new cookie fresh)
            (start_registration libs world s.wa handle username "Alice" []).1 renamed other,
        is_signed_in_congr s renamed other refl,
      )

  pub authenticate_start-signed_in :
      (cookie : Option String) (fresh : String)
      → is_signed_in (authenticate_start libs world cookie fresh s).0 other ≡ is_signed_in s other
  unfolding authenticate_start
  authenticate_start-signed_in cookie fresh = ground (
    arith,
    is_signed_in-put_auth_state (sid_or_new cookie fresh)
        (start_authentication_with_creds_for_user libs world s.wa s.user.handle
          s.user.credentials).1
        s other,
  )

  store_verified-signed_in :
      (refusal sid : String) (body : RegistrationResponse)
      → is_signed_in (store_verified libs world refusal sid body s).0 other ≡ is_signed_in s other
  unfolding store_verified push_credential
  store_verified-signed_in refusal sid body =
      let t = (take_reg_state sid s).0 in
      proceed-keeps look (take_reg_state sid s) _ (is_signed_in-take_reg_state sid s other)
        λ reg_state.
          proceed-keeps look
            (t, verified_of (finish_registration libs world t.wa reg_state body) refusal) _ refl
            λ c. is_signed_in-set_credentials (t.user.credentials ++ (c ∷ [])) t other

  pub register_finish-signed_in :
      (cookie : Option String) (body : RegistrationResponse)
      → is_signed_in (register_finish libs world cookie body s).0 other ≡ is_signed_in s other
  unfolding register_finish
  register_finish-signed_in none body = refl
  register_finish-signed_in (some sid) body = store_verified-signed_in _ sid body

  -- Behind the check of the session the state is as before.
  behind_check :
      {A : Type 0} (cookie : Option String) (f : Unit {0} → Handler AppState A)
      → look (f tt s).0 ≡ look s
      → look (proceed (require_signed_in cookie s) f).0 ≡ look s
  unfolding require_signed_in
  behind_check none f h = refl
  behind_check (some sid) f h =
      proceed-keeps look (s, demand_of (is_signed_in s sid) "not signed in") f refl (λ _. h)

  pub add_credential_start-signed_in :
      (cookie : Option String)
      → is_signed_in (add_credential_start libs world cookie s).0 other ≡ is_signed_in s other
  unfolding add_credential_start
  add_credential_start-signed_in none = behind_check none _ refl
  add_credential_start-signed_in (some sid) =
      behind_check (some sid) _ (is_signed_in-put_reg_state sid _ s other)

  pub add_credential_finish-signed_in :
      (cookie : Option String) (body : RegistrationResponse)
      → is_signed_in (add_credential_finish libs world cookie body s).0 other ≡ is_signed_in s other
  unfolding add_credential_finish
  add_credential_finish-signed_in none body = behind_check none _ refl
  add_credential_finish-signed_in (some sid) body =
      behind_check (some sid) _ (store_verified-signed_in _ sid body)

  pub delete_credential-signed_in :
      (cookie : Option String) (id_b64 : String)
      → is_signed_in (delete_credential libs cookie id_b64 s).0 other ≡ is_signed_in s other
  unfolding delete_credential
  delete_credential-signed_in cookie id_b64 = behind_check cookie _ (
      proceed-keeps look (s, decoded_of (from_b64url libs id_b64) "bad credential id") _ refl
        λ target.
          proceed-keeps look
            (
              s,
              refuse_if_of (leb (length s.user.credentials) 1)
                  "cannot delete your last credential - you would be locked out",
            )
            _ refl
            λ _.
              let left = without target.bytes s.user.credentials in
              proceed-keeps look
                (
                  set_credentials left s,
                  refuse_if_of (length left == length s.user.credentials) "credential not found",
                )
                _ (is_signed_in-set_credentials left s other) (λ _. refl))

  pub whoami-signed_in :
      (cookie : Option String) → is_signed_in (whoami cookie s).0 other ≡ is_signed_in s other
  unfolding whoami
  whoami-signed_in cookie =
      proceed-keeps look (s, demand_of (whoami_of s cookie) "") _ refl (λ _. refl)
