-- ===== src/CredentialManager/Without.antt =====
-- The credentials of examples/rocket_credential_manager.rs that stay when those with an id are dropped.
use passkey_auth_rs.Prelude.{
  ℕ, suc, ◌≤◌, ◌<◌, ◌≡◌, inl, inr, refl, ap, none, some, List, [], ◌∷◌, ◌==◌, nat_eq, list_eq,
  length, arith, Bool-cases,
}
use passkey_auth_rs.Types.{PasskeyCredential}
use passkey_auth_rs.Servers.Credentials.{find_credential}
use passkey_auth_rs.CredentialManager.{without}

pub without-missing :
    (target : List ℕ) (cs : List PasskeyCredential)
    → find_credential cs target ≡ none
    → without target cs ≡ cs
unfolding find_credential without
without-missing target [] h = refl
without-missing target (c ∷ cs) h = elim (Bool-cases (c.id.bytes == target)) [
  | inl hit ↦ let e : some c ≡ none = rw hit at h in cc
  | inr miss ↦ rw miss (ap (λ rest. c ∷ rest) (without-missing target cs (rw miss at h)))
]

length-without-le :
    (target : List ℕ) (cs : List PasskeyCredential) → length (without target cs) ≤ length cs
unfolding without
length-without-le target [] = omega arith
length-without-le target (c ∷ cs) = ground (arith, length-without-le target cs)

pub length-without-lt :
    (target : List ℕ) (cs : List PasskeyCredential) {c : PasskeyCredential}
    → find_credential cs target ≡ some c
    → length (without target cs) < length cs
unfolding find_credential without
length-without-lt target [] h = cc
length-without-lt target (c ∷ cs) h = elim (Bool-cases (c.id.bytes == target)) [
  | inl hit ↦ rw hit (omega (arith, length-without-le target cs))
  | inr miss ↦ rw miss (omega (arith, length-without-lt target cs (rw miss at h)))
]

-- No two credentials have the same id.
abbrev pub AreDistinct : List PasskeyCredential → Type 0
AreDistinct [] = Unit
AreDistinct (c ∷ cs) = (find_credential cs c.id.bytes ≡ none) × AreDistinct cs

pub length-without_distinct :
    (target : List ℕ) (cs : List PasskeyCredential) {c : PasskeyCredential}
    → AreDistinct cs
    → find_credential cs target ≡ some c
    → suc (length (without target cs)) ≡ length cs
unfolding find_credential without
length-without_distinct target [] distinct h = cc
length-without_distinct target (d ∷ cs) distinct h = elim (Bool-cases (d.id.bytes == target)) [
  | inl hit ↦ rw hit (
      ap (λ l. suc (length l))
        (without-missing target cs (rw (← (list_eq.same_iff d.id.bytes target).0 hit) distinct.0)))
  | inr miss ↦ rw miss (ap suc (length-without_distinct target cs distinct.1 (rw miss at h)))
]
