-- ===== src/AuthData/Attested.antt =====
-- The attested credential data in `AuthenticatorData::parse`: from an accepted block back to its
-- layout.
use passkey_auth_rs.Prelude.{
  ℕ, ◌+◌, ◌/◌, ◌%◌, ◌≤◌, ◌≡◌, refl, ap, sym, ◌∙◌, subst, List, arith, leb, leb→le, length,
}
use passkey_auth_rs.Error.{
  step, check, ok, map_err, success, >>=-eq-ok, map_err-eq-ok, ok-injective,
}
use passkey_auth_rs.Slice.{index, slice, slice_from, to_array}
use passkey_auth_rs.Slice.Cursor.{
  At, At-zero, At-append, At-of_index, At-of_slice, At-of_slice_from, to_array-inv, index-lt,
}
use passkey_auth_rs.Deps.{Libs, CborValue, IsBytes}
use passkey_auth_rs.AuthData.{AttestedCredentialData, u16_from_be, cose_blob_length, parse_attested}
use passkey_auth_rs.AuthData.Layout.{attested_layout, AttestedFits}

pub cose_blob_length-eq-ok :
    (libs : Libs) (tail : List ℕ) {n : ℕ}
    → cose_blob_length libs tail ≡ ok n
    → (v : CborValue) × (libs.from_reader tail ≡ success (v, n))
unfolding cose_blob_length
cose_blob_length-eq-ok libs tail h =
    let ((v, m), read, h₁) = >>=-eq-ok (map_err (libs.from_reader tail) _) _ h in
    let same : m ≡ _ = ok-injective h₁ in
    (v, map_err-eq-ok _ _ read ∙ ap (λ (k : ℕ). success (v, k)) same)

module _ (libs : Libs) (bytes : List ℕ) (octets : IsBytes bytes) where
  -- The block stands at the front of `start`, and `end` is the position behind it.
  abbrev Found : List ℕ → AttestedCredentialData → ℕ → Type 0
  Found start a end =
      (rest : List ℕ) × (start ≡ attested_layout a rest)
      × AttestedFits libs a rest
      × At bytes end rest

  moved : (p q : ℕ) {rest : List ℕ} → p ≡ q → At bytes p rest → At bytes q rest
  moved p q e at = record { inside = omega (arith, at.inside); behind = rw (← e) at.behind }

  attested-Found :
      (start : List ℕ) (pos : ℕ) (s₁ aaguid : List ℕ) (high low : ℕ) (id tail : List ℕ) (m : ℕ)
      (key : List ℕ)
      → At bytes pos start
      → slice bytes pos (pos + 16) ≡ ok s₁
      → to_array 16 s₁ ≡ ok aaguid
      → index bytes (pos + 16) ≡ ok high
      → index bytes (pos + 17) ≡ ok low
      → u16_from_be high low ≤ 1023
      → slice bytes (pos + 18) (pos + 18 + u16_from_be high low) ≡ ok id
      → slice_from bytes (pos + 18 + u16_from_be high low) ≡ ok tail
      → cose_blob_length libs tail ≡ ok m
      → slice tail 0 m ≡ ok key
      → Found start
          (record {
            aaguid = aaguid;
            credential_id = record { bytes = id };
            public_key_cose = record { bytes = key };
          })
          (pos + 18 + u16_from_be high low + m)
  attested-Found start pos s₁ aaguid high low id tail m key at cut₁ copied is_high is_low short cut₂
        cut₃ measured cut₄ =
      let n = u16_from_be high low in
      let (more₁, split₁, _, at₁) = At-of_slice at (pos + 16) s₁ cut₁ in
      let (more₂, split₂, at₂) = At-of_index at₁ high is_high in
      let at₂' = moved (pos + 16 + 1) (pos + 17) (omega arith) at₂ in
      let (more₃, split₃, at₃) = At-of_index at₂' low is_low in
      let at₃' = moved (pos + 17 + 1) (pos + 18) (omega arith) at₃ in
      let (more₄, split₄, size₄, at₄) = At-of_slice at₃' (pos + 18 + n) id cut₂ in
      let tail_is : tail ≡ more₄ = At-of_slice_from at₄ tail cut₃ in
      let (rest, split₅, size₅, _) = At-of_slice (At-zero tail) m key cut₄ in
      let (v, item) = cose_blob_length-eq-ok libs tail measured in
      let (aaguid_is, aaguid_size) = to_array-inv 16 s₁ copied in
      let high_fits = index-lt bytes (pos + 16) high octets is_high in
      let low_fits = index-lt bytes (pos + 17) low octets is_low in
      let size : length id ≡ n = omega (arith, size₄) in
      let high_is : high ≡ length id / 256 = omega arith in
      let low_is : low ≡ length id % 256 = omega arith in
      let key_size : m ≡ length key = omega (arith, size₅) in
      (
        rest,
        cc (split₁, split₂, split₃, split₄, tail_is, split₅, aaguid_is, high_is, low_is),
        record {
          aaguid_size = rw aaguid_is aaguid_size;
          id_size = omega arith;
          key_value = v;
          key_item = rw (← split₅, ← key_size) item;
        },
        At-append bytes key rest (pos + 18 + n) m (pos + 18 + n + m) (omega arith) refl
            (record { inside = at₄.inside; behind = at₄.behind ∙ sym tail_is ∙ split₅ }),
      )

  pub parse_attested_sound :
      (start : List ℕ) (pos : ℕ) {a : AttestedCredentialData} {end : ℕ}
      → At bytes pos start
      → parse_attested libs bytes pos ≡ ok (a, end)
      → (rest : List ℕ) × (start ≡ attested_layout a rest)
        × AttestedFits libs a rest
        × At bytes end rest
  unfolding parse_attested
  parse_attested_sound start pos at h = check (leb (pos + 18) (length bytes)) _ _ h λ _ h.
      step (slice bytes pos (pos + 16)) _ h λ s₁ cut₁ h.
        step (to_array 16 s₁) _ h λ aaguid copied h.
          step (index bytes (pos + 16)) _ h λ high at_high h.
            step (index bytes (pos + 17)) _ h λ low at_low h.
              check (leb (u16_from_be high low) 1023) _ _ h λ short h.
                check (leb (pos + 18 + u16_from_be high low) (length bytes)) _ _ h λ _ h.
                  step (slice bytes (pos + 18) (pos + 18 + u16_from_be high low)) _ h λ id cut₂ h.
                    step (slice_from bytes (pos + 18 + u16_from_be high low)) _ h λ tail cut₃ h.
                      step (cose_blob_length libs tail) _ h λ m measured h.
                        step (slice tail 0 m) _ h λ key cut₄ h.
                          subst (λ (r : AttestedCredentialData × ℕ). Found start r.0 r.1)
                            (ok-injective h)
                            (attested-Found start pos s₁ aaguid high low id tail m key at cut₁
                              copied at_high at_low (leb→le _ _ short) cut₂ cut₃ measured cut₄)
