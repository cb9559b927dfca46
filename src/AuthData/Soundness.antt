-- ===== src/AuthData/Soundness.antt =====
-- `AuthenticatorData::parse` of src/auth_data.rs: from an accepted input back to its layout.
use passkey_auth_rs.Prelude.{
  ℕ, ◌/◌, ◌%◌, ◌≡◌, ◌↔◌, inl, inr, refl, subst, Option, some, List, ◌∷◌, ◌++◌, arith, leb, ltb,
  ltb_false→le, nil_of_length, length, test_bits, Bool-cases,
}
use passkey_auth_rs.Error.{step, check, ok, map_err, map_err-eq-ok, ok-injective}
use passkey_auth_rs.Slice.{index, slice, slice_from, to_array}
use passkey_auth_rs.Slice.Cursor.{
  At, At-zero, length-At, At-of_index, At-of_slice, At-of_slice_from, to_array-inv, index-lt,
}
use passkey_auth_rs.Deps.{Libs, IsBytes}
use passkey_auth_rs.AuthData.{
  AttestedCredentialData, AuthenticatorData, flag_at, flag_ed, u32_from_be, parse_attested,
  parse_optional, check_extensions, parse,
}
use passkey_auth_rs.AuthData.Attested.{parse_attested_sound}
use passkey_auth_rs.AuthData.Layout.{
  optional_layout, layout, OptionalFits, ExtensionsFit, Fits, parse-layout,
}

module _ (libs : Libs) (bytes : List ℕ) (octets : IsBytes bytes) where
  parse_optional_sound :
      (start : List ℕ) (flags pos : ℕ) (attested : Option AttestedCredentialData) (end : ℕ)
      → At bytes pos start
      → parse_optional libs bytes flags pos ≡ ok (attested, end)
      → (rest : List ℕ) × (start ≡ optional_layout attested rest)
        × OptionalFits libs flags attested rest
        × At bytes end rest
  unfolding parse_optional
  parse_optional_sound start flags pos attested end at h =
      elim (Bool-cases (test_bits flags flag_at)) [
        | inl on ↦
            step (parse_attested libs bytes pos) (λ p. ok (some p.0, p.1)) (rw on at h)
              λ (a, end') parsed h.
                let (rest, split, fits, at_end) =
                  parse_attested_sound libs bytes octets start pos at parsed in
                subst
                  (λ (r : Option AttestedCredentialData × ℕ).
                    (rest : List ℕ) × (start ≡ optional_layout r.0 rest)
                    × OptionalFits libs flags r.0 rest
                    × At bytes r.1 rest)
                  (ok-injective h) (rest, split, (on, fits), at_end)
        | inr off ↦
            subst
              (λ (r : Option AttestedCredentialData × ℕ).
                (rest : List ℕ) × (start ≡ optional_layout r.0 rest)
                × OptionalFits libs flags r.0 rest
                × At bytes r.1 rest)
              (ok-injective (rw off at h)) (start, refl, off, at)
      ]

  check_extensions_sound :
      (rest : List ℕ) (flags pos : ℕ) {u : Unit {0}}
      → At bytes pos rest
      → check_extensions libs bytes flags pos ≡ ok u
      → ExtensionsFit libs flags rest
  unfolding check_extensions
  check_extensions_sound rest flags pos at h = elim (Bool-cases (test_bits flags flag_ed)) [
    | inl on ↦ elim (Bool-cases (ltb pos (length bytes))) [
      | inl more ↦ step (slice_from bytes pos) _ (rw (on, more) at h) λ rest' cut h.
          step (map_err (libs.from_reader rest') _) _ h λ (v, n) item _.
            inr (inr (v, n, rw (← At-of_slice_from at rest' cut) (map_err-eq-ok _ _ item)))
      | inr done ↦ inr (
          inl (
            nil_of_length rest (omega (arith, length-At at, ltb_false→le pos (length bytes) done))))
    ]
    | inr off ↦ inl off
  ]

  -- The 37 bytes of the header, the rest of the input, and the fields that they encode.
  header_found :
      (hash_bytes hash : List ℕ) (flags c₃ c₂ c₁ c₀ : ℕ)
      → slice bytes 0 32 ≡ ok hash_bytes
      → to_array 32 hash_bytes ≡ ok hash
      → index bytes 32 ≡ ok flags
      → index bytes 33 ≡ ok c₃
      → index bytes 34 ≡ ok c₂
      → index bytes 35 ≡ ok c₁
      → index bytes 36 ≡ ok c₀
      → (start : List ℕ) × (bytes ≡ hash ++ flags ∷ c₃ ∷ c₂ ∷ c₁ ∷ c₀ ∷ start)
        × (length hash ≡ 32)
        × At bytes 37 start
  header_found hash_bytes hash flags c₃ c₂ c₁ c₀ cut copied i₀ i₁ i₂ i₃ i₄ =
      let (more₀, split₀, _, at₀) = At-of_slice (At-zero bytes) 32 hash_bytes cut in
      let (more₁, split₁, at₁) = At-of_index at₀ flags i₀ in
      let (more₂, split₂, at₂) = At-of_index at₁ c₃ i₁ in
      let (more₃, split₃, at₃) = At-of_index at₂ c₂ i₂ in
      let (more₄, split₄, at₄) = At-of_index at₃ c₁ i₃ in
      let (start, split₅, at₅) = At-of_index at₄ c₀ i₄ in
      let (same, size) = to_array-inv 32 hash_bytes copied in
      (start, cc (split₀, split₁, split₂, split₃, split₄, split₅, same), rw same size, at₅)

  abbrev Parses : AuthenticatorData → Type 0
  Parses ad = (rest : List ℕ) × (bytes ≡ layout ad rest) × Fits libs ad rest

  parse_found :
      (hash_bytes hash : List ℕ) (flags c₃ c₂ c₁ c₀ : ℕ) (attested : Option AttestedCredentialData)
      (pos : ℕ) {u : Unit {0}}
      → slice bytes 0 32 ≡ ok hash_bytes
      → to_array 32 hash_bytes ≡ ok hash
      → index bytes 32 ≡ ok flags
      → index bytes 33 ≡ ok c₃
      → index bytes 34 ≡ ok c₂
      → index bytes 35 ≡ ok c₁
      → index bytes 36 ≡ ok c₀
      → parse_optional libs bytes flags 37 ≡ ok (attested, pos)
      → check_extensions libs bytes flags pos ≡ ok u
      → Parses (record {
        rp_id_hash = hash;
        flags = flags;
        sign_count = u32_from_be c₃ c₂ c₁ c₀;
        attested = attested;
      })
  parse_found hash_bytes hash flags c₃ c₂ c₁ c₀ attested pos cut copied i₀ i₁ i₂ i₃ i₄ optional
        extensions =
      let (start, split, size, at) =
        header_found hash_bytes hash flags c₃ c₂ c₁ c₀ cut copied i₀ i₁ i₂ i₃ i₄ in
      let (rest, split', fits, at_end) =
        parse_optional_sound start flags 37 attested pos at optional in
      let l₃ = index-lt bytes 33 c₃ octets i₁ in
      let l₂ = index-lt bytes 34 c₂ octets i₂ in
      let l₁ = index-lt bytes 35 c₁ octets i₃ in
      let l₀ = index-lt bytes 36 c₀ octets i₄ in
      let n = u32_from_be c₃ c₂ c₁ c₀ in
      let e₃ : c₃ ≡ n / 16777216 = omega arith in
      let e₂ : c₂ ≡ n / 65536 % 256 = omega arith in
      let e₁ : c₁ ≡ n / 256 % 256 = omega arith in
      let e₀ : c₀ ≡ n % 256 = omega arith in
      (
        rest,
        cc (split, split', e₃, e₂, e₁, e₀),
        record {
          hash_size = size;
          count_size = omega arith;
          optional = fits;
          extensions = check_extensions_sound rest flags pos at_end extensions;
        },
      )

  parse_sound :
      (ad : AuthenticatorData)
      → parse libs bytes ≡ ok ad
      → (rest : List ℕ) × (bytes ≡ layout ad rest) × Fits libs ad rest
  unfolding parse
  parse_sound ad h = check (leb 37 (length bytes)) _ _ h λ _ h.
      step (slice bytes 0 32) _ h λ hash_bytes cut h.
        step (to_array 32 hash_bytes) _ h λ hash copied h. step (index bytes 32) _ h λ flags i₀ h.
          step (index bytes 33) _ h λ c₃ i₁ h. step (index bytes 34) _ h λ c₂ i₂ h.
            step (index bytes 35) _ h λ c₁ i₃ h. step (index bytes 36) _ h λ c₀ i₄ h.
              step (parse_optional libs bytes flags 37) _ h λ (attested, pos) optional h.
                step (check_extensions libs bytes flags pos) _ h λ _ extensions h.
                  subst Parses (ok-injective h) (
                    parse_found hash_bytes hash flags c₃ c₂ c₁ c₀ attested pos cut copied i₀ i₁ i₂
                      i₃ i₄ optional extensions)

  -- On octets, `parse` accepts exactly the byte strings with the documented layout, and returns the
  -- fields that they encode; what lies behind the fields is free, but for the check of the extensions.
  pub parse_iff :
      (ad : AuthenticatorData)
      → (parse libs bytes ≡ ok ad)
        ↔ ((rest : List ℕ) × (bytes ≡ layout ad rest) × Fits libs ad rest)
  parse_iff ad =
      (parse_sound ad, (λ (rest, split, fits). rw split (parse-layout libs ad rest fits)))
