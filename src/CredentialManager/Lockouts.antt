-- ===== src/CredentialManager/Lockouts.antt =====
-- Requests to examples/rocket_credential_manager.rs that leave the user without a way to log in, or
-- let another person in.
use passkey_auth_rs.Prelude.{
  ℕ, ◌<◌, String, true, false, ◌≡◌, ◌≢◌, refl, sym, ◌∙◌, some, List, [], ◌∷◌, ◌++◌, ◌==◌, nat_eq,
  string_eq, list_eq, length, leb, arith, beq_refl, beq_ne, All, if◌then◌else◌,
}
use passkey_auth_rs.Error.{ok}
use passkey_auth_rs.Deps.{Libs, World}
use passkey_auth_rs.Types.{
  CredentialId, PasskeyCredential, RegistrationResponse, RegistrationState, from_b64url,
}
use passkey_auth_rs.Ceremony.Start.{start_registration}
use passkey_auth_rs.Ceremony.Registration.{finish_registration}
use passkey_auth_rs.Servers.Handler.{reply}
use passkey_auth_rs.Servers.Table.{get_entry, get_entry-set_entry, take_field-found}
use passkey_auth_rs.CredentialManager.{
  AppState, is_signed_in, require_signed_in, without, set_credentials, push_credential,
  put_reg_state, or_default, take_reg, take_reg_state, register_start, store_verified, username,
  register_finish, delete_credential,
}

without_same :
    (target : List ℕ) (cs : List PasskeyCredential)
    → All (λ (c : PasskeyCredential). c.id.bytes ≡ target) cs
    → without target cs ≡ []
unfolding without
without_same target [] h = refl
without_same target (c ∷ cs) h =
    rw ((list_eq.same_iff c.id.bytes target).1 h.0) (without_same target cs h.1)

module _ (libs : Libs) where
  -- If all credentials of the user have the id that is to be deleted, and there are two at least,
  -- then `delete_credential` for a signed-in session succeeds and leaves the user without any.
  pub delete_credential_empties :
      (s : AppState) (sid id_b64 : String) (target : CredentialId)
      → is_signed_in s sid ≡ true
      → from_b64url libs id_b64 ≡ ok target
      → 1 < length s.user.credentials
      → All (λ (c : PasskeyCredential). c.id.bytes ≡ target.bytes) s.user.credentials
      → ((delete_credential libs (some sid) id_b64 s).1 ≡ reply (record { is_ok = true }))
        × ((delete_credential libs (some sid) id_b64 s).0.user.credentials ≡ [])
  unfolding delete_credential require_signed_in set_credentials
  delete_credential_empties s sid id_b64 target signed_in decodes many same =
      let none_left = without_same target.bytes s.user.credentials same in
      (
        rw (signed_in, decodes, not_last many, none_left, none_of many) refl,
        rw (signed_in, decodes, not_last many, none_left, none_of many) refl,
      )
    where
      not_last : {n : ℕ} → 1 < n → leb n 1 ≡ false
      not_last h = ground arith

      none_of : {n : ℕ} → 1 < n → (0 == n) ≡ false
      none_of h = ground arith

module _ (libs : Libs) (world : World) where
  -- `register_finish` stores a credential that a registration in flight is answered with, also when
  -- the user has credentials already, so that `register_start` would be refused.
  pub register_finish_late :
      (s : AppState) (sid : String) (body : RegistrationResponse) (reg_state : RegistrationState)
      (credential : PasskeyCredential)
      → (take_reg s.sessions sid).1 ≡ some reg_state
      → finish_registration libs world s.wa reg_state body ≡ ok credential
      → (register_finish libs world (some sid) body s).0.user.credentials
        ≡ s.user.credentials ++ (credential ∷ [])
  unfolding register_finish store_verified take_reg_state push_credential set_credentials
  register_finish_late s sid body reg_state credential taken accepted = rw (taken, accepted) refl

  started : AppState → List ℕ → RegistrationState
  started s handle = (start_registration libs world s.wa handle username "Alice" []).1

  register_start_empty :
      (s : AppState) (sid fresh : String) (handle : List ℕ)
      → s.user.credentials ≡ []
      → (register_start libs world (some sid) fresh handle s).0
        ≡ put_reg_state sid
            (started s handle)
            (record s { user = record s.user { handle = handle } })
  unfolding register_start started
  register_start_empty s sid fresh handle none_yet = rw none_yet refl

  put_reg_state-session :
      (sid other : String) (r : RegistrationState) (s : AppState)
      → get_entry (put_reg_state sid r s).sessions other ≡ (
          if sid == other
          then some (record (or_default (get_entry s.sessions sid)) { reg_state = some r })
          else get_entry s.sessions other)
  unfolding put_reg_state
  put_reg_state-session sid other r s = get_entry-set_entry s.sessions sid other _

  -- Two sessions start the first registration, one after the other: then the registration of the
  -- first is in flight for a user handle that the server no longer keeps.
  pub register_start_overwrites :
      (s : AppState) (first second fresh fresh' : String) (handle handle' : List ℕ)
      → s.user.credentials ≡ []
      → first ≢ second
      → let after =
          (register_start libs world
            (some second)
            fresh'
            handle'
            (register_start libs world (some first) fresh handle s).0).0 in
        (after.user.handle ≡ handle')
        × ((r : RegistrationState) × ((take_reg after.sessions first).1 ≡ some r)
            × (r.user_id ≡ handle))
  register_start_overwrites s first second fresh fresh' handle handle' none_yet apart =
      rw (register_start_empty s first fresh handle none_yet) (
        rw (register_start_empty one second fresh' handle' (unfold put_reg_state in none_yet)) (
          unfold put_reg_state in refl,
          (started s handle, pending, unfold started start_registration in refl),
        ))
    where
      one : AppState
      one =
          put_reg_state first (started s handle)
            (record s { user = record s.user { handle = handle } })

      two : AppState
      two =
          put_reg_state second (started one handle')
            (record one { user = record one.user { handle = handle' } })

      pending : (take_reg two.sessions first).1 ≡ some (started s handle)
      pending =
          take_field-found _ _ two.sessions first
            {s = record (or_default (get_entry s.sessions first)) {
              reg_state = some (started s handle);
            }}
            (put_reg_state-session second first (started one handle') _
              ∙ rw (beq_ne second first (λ e. apart (sym e))) (
                  put_reg_state-session first first (started s handle) _
                  ∙ rw (beq_refl first) refl))
