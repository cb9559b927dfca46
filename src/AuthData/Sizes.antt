-- ===== src/AuthData/Sizes.antt =====
-- `AuthenticatorData::parse` of src/auth_data.rs: the AAGUID, whose type in the code is [u8; 16].
use passkey_auth_rs.Prelude.{
  ℕ, ◌+◌, ◌≡◌, inl, inr, subst, Option, none, some, List, leb, length, test_bits, Bool-cases,
}
use passkey_auth_rs.Error.{step, check, ok, ok-injective}
use passkey_auth_rs.Slice.{index, slice, slice_from, to_array}
use passkey_auth_rs.Slice.Cursor.{to_array-inv}
use passkey_auth_rs.Deps.{Libs}
use passkey_auth_rs.AuthData.{
  AttestedCredentialData, AuthenticatorData, flag_at, u16_from_be, cose_blob_length, parse_attested,
  parse_optional, check_extensions, parse,
}

-- A block that is there has an AAGUID of 16 bytes.
abbrev pub HasSize : Option AttestedCredentialData → Type 0
HasSize none = Unit
HasSize (some a) = length a.aaguid ≡ 16

module _ (libs : Libs) (bytes : List ℕ) where
  parse_attested-HasSize :
      (pos : ℕ) (r : AttestedCredentialData × ℕ)
      → parse_attested libs bytes pos ≡ ok r
      → HasSize (some r.0)
  unfolding parse_attested
  parse_attested-HasSize pos r h = check (leb (pos + 18) (length bytes)) _ _ h λ _ h.
      step (slice bytes pos (pos + 16)) _ h λ s₁ cut₁ h.
        step (to_array 16 s₁) _ h λ aaguid copied h. step (index bytes (pos + 16)) _ h λ high _ h.
          step (index bytes (pos + 17)) _ h λ low _ h.
            check (leb (u16_from_be high low) 1023) _ _ h λ _ h.
              check (leb (pos + 18 + u16_from_be high low) (length bytes)) _ _ h λ _ h.
                step (slice bytes (pos + 18) (pos + 18 + u16_from_be high low)) _ h λ id _ h.
                  step (slice_from bytes (pos + 18 + u16_from_be high low)) _ h λ tail _ h.
                    step (cose_blob_length libs tail) _ h λ m _ h.
                      step (slice tail 0 m) _ h λ key _ h.
                        let (same, size) = to_array-inv 16 s₁ copied in
                        subst (λ (r : AttestedCredentialData × ℕ). HasSize (some r.0))
                          (ok-injective h) (rw same size)

  parse_optional-HasSize :
      (flags pos : ℕ) (r : Option AttestedCredentialData × ℕ)
      → parse_optional libs bytes flags pos ≡ ok r
      → HasSize r.0
  unfolding parse_optional
  parse_optional-HasSize flags pos r h = elim (Bool-cases (test_bits flags flag_at)) [
    | inl on ↦
        step (parse_attested libs bytes pos) (λ p. ok (some p.0, p.1)) (rw on at h)
          λ found parsed h.
            subst (λ (r : Option AttestedCredentialData × ℕ). HasSize r.0) (ok-injective h)
              (parse_attested-HasSize pos found parsed)
    | inr off ↦
        subst (λ (r : Option AttestedCredentialData × ℕ). HasSize r.0) (ok-injective (rw off at h))
          tt
  ]

  pub parse-HasSize : (ad : AuthenticatorData) → parse libs bytes ≡ ok ad → HasSize ad.attested
  unfolding parse
  parse-HasSize ad h = check (leb 37 (length bytes)) _ _ h λ _ h.
      step (slice bytes 0 32) _ h λ _ _ h. step (to_array 32 _) _ h λ _ _ h.
        step (index bytes 32) _ h λ flags _ h. step (index bytes 33) _ h λ _ _ h.
          step (index bytes 34) _ h λ _ _ h. step (index bytes 35) _ h λ _ _ h.
            step (index bytes 36) _ h λ _ _ h.
              step (parse_optional libs bytes flags 37) _ h λ found optional h.
                step (check_extensions libs bytes flags found.1) _ h λ _ _ h.
                  subst (λ (ad : AuthenticatorData). HasSize ad.attested) (ok-injective h)
                    (parse_optional-HasSize flags 37 found optional)
