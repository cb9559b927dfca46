-- ===== src/CredentialManager/Deleting.antt =====
-- `delete_credential` of examples/rocket_credential_manager.rs.
use passkey_auth_rs.Prelude.{
  ℕ, suc, ◌<◌, String, true, false, ◌≡◌, ◌⊎◌, inl, inr, refl, ap, Option, none, some, List, ◌==◌,
  nat_eq, list_eq, length, leb, arith, Option-cases, beq_refl,
}
use passkey_auth_rs.Error.{ok}
use passkey_auth_rs.Deps.{Libs}
use passkey_auth_rs.Types.{CredentialId, PasskeyCredential, from_b64url}
use passkey_auth_rs.Servers.Handler.{
  Reply, reply, IsRefusal, proceed-elim, proceed-cases, demand_of, decoded_of, refuse_if_of,
  demand_of-eq-reply, decoded_of-eq-reply, not-IsRefusal,
}
use passkey_auth_rs.Servers.Credentials.{find_credential}
use passkey_auth_rs.CredentialManager.{
  AppState, DeleteReply, is_signed_in, require_signed_in, without, set_credentials,
  delete_credential,
}
use passkey_auth_rs.CredentialManager.Without.{
  AreDistinct, without-missing, length-without-lt, length-without_distinct,
}

-- What a request to delete must satisfy.
pub record CanDelete (libs : Libs) (s : AppState) (cookie : Option String) (id_b64 : String)
    (target : CredentialId) : Type 0 where
  pub sid : String
  pub sent : cookie ≡ some sid
  pub signed_in : is_signed_in s sid ≡ true
  pub decodes : from_b64url libs id_b64 ≡ ok target
  pub others : 1 < length s.user.credentials
  pub victim : PasskeyCredential
  pub found : find_credential s.user.credentials target.bytes ≡ some victim

-- A deletion, and what it left.
pub record Deletes (libs : Libs) (s : AppState) (cookie : Option String) (id_b64 : String)
    (r : AppState × Reply DeleteReply) : Type 0 where
  pub target : CredentialId
  pub allowed : CanDelete libs s cookie id_b64 target
  pub answered : r.1 ≡ reply (record { is_ok = true })
  pub after : r.0 ≡ set_credentials (without target.bytes s.user.credentials) s

-- A refusal, which changed nothing.
pub record Refuses (libs : Libs) (s : AppState) (cookie : Option String) (id_b64 : String)
    (r : AppState × Reply DeleteReply) : Type 0 where
  pub refused : IsRefusal r.1
  pub after : r.0 ≡ s
  pub because : (target : CredentialId) → ¬ CanDelete libs s cookie id_b64 target

abbrev Unchanged : AppState → AppState × Reply DeleteReply → Type 0
Unchanged s r = IsRefusal r.1 × (r.0 ≡ s)

module _ (libs : Libs) (s : AppState) (id_b64 : String) where
  -- The number of those that stay tells whether one had the id.
  found_of_length :
      (cs : List PasskeyCredential) (target : List ℕ)
      → refuse_if_of (length (without target cs) == length cs) "credential not found" ≡ reply tt
      → (c : PasskeyCredential) × (find_credential cs target ≡ some c)
  found_of_length cs target h = elim (Option-cases (find_credential cs target)) [
    | inl missing ↦
        let e : refuse_if_of (length cs == length cs) "credential not found" ≡ reply tt =
          rw (without-missing target cs missing) at h in
        absurd (not-reply (rw (beq_refl (length cs)) at e))
    | inr found ↦ found
  ]
    where
      not-reply : refuse_if_of true "credential not found" ≡ reply tt → ⊥
      not-reply e = cc

  kept_of_length :
      (target : List ℕ)
      → IsRefusal (
          refuse_if_of
            (length (without target s.user.credentials) == length s.user.credentials)
            "credential not found")
      → set_credentials (without target s.user.credentials) s ≡ s
  unfolding set_credentials
  kept_of_length target h = elim (Option-cases (find_credential s.user.credentials target)) [
    | inl missing ↦ rw (without-missing target s.user.credentials missing) refl
    | inr (c, found) ↦
        let fewer = length-without-lt target s.user.credentials found in
        absurd (not-refused _ _ fewer h)
  ]
    where
      not-refused : (m n : ℕ) → m < n → IsRefusal (refuse_if_of (m == n) "credential not found") → ⊥
      not-refused m n lt refused = ground arith

  abbrev Ends : String → AppState × Reply DeleteReply → Type 0
  Ends sid r = Deletes libs s (some sid) id_b64 r ⊎ Unchanged s r

  delete_credential_outcome : (sid : String) → Ends sid (delete_credential libs (some sid) id_b64 s)
  unfolding delete_credential require_signed_in
  delete_credential_outcome sid =
      proceed-elim (Ends sid) (s, demand_of (is_signed_in s sid) "not signed in") _ stop
        λ _ signed_in.
          proceed-elim (Ends sid) (s, decoded_of (from_b64url libs id_b64) "bad credential id") _
            stop
            λ target decodes.
              proceed-elim (Ends sid)
                (
                  s,
                  refuse_if_of (leb (length s.user.credentials) 1)
                      "cannot delete your last credential - you would be locked out",
                )
                _ stop
                λ _ others.
                  proceed-cases (Ends sid)
                    (
                      set_credentials (without target.bytes s.user.credentials) s,
                      refuse_if_of
                          (length (without target.bytes s.user.credentials)
                            == length s.user.credentials)
                          "credential not found",
                    )
                    _
                    (λ answer refused none_gone.
                      inr (refused, kept_of_length target.bytes none_gone))
                    λ _ some_gone.
                      let (victim, found) =
                        found_of_length s.user.credentials target.bytes some_gone in
                      inl (record {
                        target = target;
                        allowed = record {
                          sid = sid;
                          sent = refl;
                          signed_in = demand_of-eq-reply _ _ signed_in;
                          decodes = decoded_of-eq-reply (from_b64url libs id_b64) _ decodes;
                          others = ltb-of (length s.user.credentials) others;
                          victim = victim;
                          found = found;
                        };
                        answered = refl;
                        after = refl;
                      })
    where
      stop : (answer : Reply DeleteReply) → IsRefusal answer → Ends sid (s, answer)
      stop answer refused = inr (refused, refl)

      ltb-of :
          (n : ℕ)
          → refuse_if_of (leb n 1) "cannot delete your last credential - you would be locked out"
            ≡ reply tt
          → 1 < n
      ltb-of n h = ground arith

module _ (libs : Libs) (s : AppState) (cookie : Option String) (id_b64 : String) where
  allowed-reply :
      (target : CredentialId)
      → CanDelete libs s cookie id_b64 target
      → (delete_credential libs cookie id_b64 s).1 ≡ reply (record { is_ok = true })
  unfolding delete_credential require_signed_in
  allowed-reply target can =
      rw (can.sent, can.signed_in, can.decodes, le→ltb_leb can.others, shorter) refl
    where
      le→ltb_leb : {n : ℕ} → 1 < n → leb n 1 ≡ false
      le→ltb_leb h = ground arith

      apart : (m n : ℕ) → m < n → (m == n) ≡ false
      apart m n h = ground arith

      shorter :
          (length (without target.bytes s.user.credentials) == length s.user.credentials) ≡ false
      shorter = apart _ _ (length-without-lt target.bytes s.user.credentials can.found)

  -- `delete_credential` succeeds exactly if the session is signed in, the id decodes, a credential of
  -- the user has it and the user has two credentials at least. It then drops every credential with
  -- this id and changes nothing else; where it is refused, it changes nothing.
  pub delete_credential_cases :
      Deletes libs s cookie id_b64 (delete_credential libs cookie id_b64 s)
      ⊎ Refuses libs s cookie id_b64 (delete_credential libs cookie id_b64 s)
  delete_credential_cases = elim (ends cookie) [
    | inl done ↦ inl done
    | inr (refused, after) ↦ inr (record {
      refused = refused;
      after = after;
      because = λ target can. not-IsRefusal _ (allowed-reply target can) refused;
    })
  ]
    where
      ends :
          (cookie : Option String)
          → Deletes libs s cookie id_b64 (delete_credential libs cookie id_b64 s)
            ⊎ Unchanged s (delete_credential libs cookie id_b64 s)
      ends none = inr (unfold delete_credential require_signed_in in (tt, refl))
      ends (some sid) = delete_credential_outcome libs s id_b64 sid

  kept_one :
      (r : AppState × Reply DeleteReply)
      → AreDistinct s.user.credentials
      → Deletes libs s cookie id_b64 r ⊎ Refuses libs s cookie id_b64 r
      → r.1 ≡ reply (record { is_ok = true })
      → (suc (length r.0.user.credentials) ≡ length s.user.credentials)
        × (0 < length r.0.user.credentials)
  kept_one r distinct (inr refuses) h = absurd (not-IsRefusal r.1 h refuses.refused)
  kept_one r distinct (inl deletes) h =
      let can = deletes.allowed in
      let left = ap (λ t. length t.user.credentials) deletes.after in
      let one_less =
        length-without_distinct deletes.target.bytes s.user.credentials distinct can.found in
      let many = can.others in
      unfold set_credentials in (omega (arith, left, one_less), omega (arith, left, one_less, many))

  -- If no two credentials of the user have the same id, a deletion takes exactly one of them and
  -- leaves one at least.
  pub delete_credential-keeps_one :
      AreDistinct s.user.credentials
      → (delete_credential libs cookie id_b64 s).1 ≡ reply (record { is_ok = true })
      → (suc (length (delete_credential libs cookie id_b64 s).0.user.credentials)
          ≡ length s.user.credentials)
        × (0 < length (delete_credential libs cookie id_b64 s).0.user.credentials)
  delete_credential-keeps_one distinct h = kept_one _ distinct delete_credential_cases h
