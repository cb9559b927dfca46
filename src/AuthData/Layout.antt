-- ===== src/AuthData/Layout.antt =====
-- The layout of `authenticatorData` as an encoder, and how `parse` runs on it.
use passkey_auth_rs.Prelude.{
  ℕ, ◌+◌, ◌*◌, ◌/◌, ◌%◌, ◌^◌, ◌≤◌, ◌<◌, ◌≡◌, ◌⊎◌, inl, inr, refl, ap, ◌∙◌, true, false, Option,
  none, some, List, [], ◌∷◌, ◌++◌, arith, le→leb, le→ltb_false, length, test_bits,
}
use passkey_auth_rs.Error.{Result, ok, ◌>>=◌, ◌>>◌, success}
use passkey_auth_rs.Slice.{to_array-eq-ok, index-append_some}
use passkey_auth_rs.Slice.Cursor.{
  At, At-zero, At-append, slice-At, index-At, slice_from-At, length-At,
}
use passkey_auth_rs.Deps.{Libs, CborValue}
use passkey_auth_rs.AuthData.{
  AttestedCredentialData, AuthenticatorData, flag_at, flag_ed, u32_from_be, cose_blob_length,
  parse_attested, parse_optional, check_extensions, parse,
}

-- The block that the AT flag announces, in front of `rest`.
abbrev pub attested_layout : AttestedCredentialData → List ℕ → List ℕ
attested_layout a rest =
    a.aaguid
    ++ (length a.credential_id.bytes / 256)
      ∷ (length a.credential_id.bytes % 256)
      ∷ (a.credential_id.bytes ++ (a.public_key_cose.bytes ++ rest))

abbrev pub optional_layout : Option AttestedCredentialData → List ℕ → List ℕ
optional_layout none rest = rest
optional_layout (some a) rest = attested_layout a rest

-- rpIdHash, flags, signCount (big-endian), the attested block if there is one, and what follows.
abbrev pub layout : AuthenticatorData → List ℕ → List ℕ
layout ad rest =
    ad.rp_id_hash
    ++ ad.flags
      ∷ (ad.sign_count / 16777216)
      ∷ (ad.sign_count / 65536 % 256)
      ∷ (ad.sign_count / 256 % 256)
      ∷ (ad.sign_count % 256)
      ∷ optional_layout ad.attested rest

module _ (libs : Libs) where
  -- The sizes of the attested block; its key is one CBOR item.
  pub record AttestedFits (a : AttestedCredentialData) (rest : List ℕ) : Type 0 where
    pub aaguid_size : length a.aaguid ≡ 16
    pub id_size : length a.credential_id.bytes ≤ 1023
    pub key_value : CborValue
    pub key_item :
        libs.from_reader (a.public_key_cose.bytes ++ rest)
        ≡ success (key_value, length a.public_key_cose.bytes)

  -- The AT flag says whether the block is there.
  abbrev pub OptionalFits : ℕ → Option AttestedCredentialData → List ℕ → Type 0
  OptionalFits flags none rest = test_bits flags flag_at ≡ false
  OptionalFits flags (some a) rest = (test_bits flags flag_at ≡ true) × AttestedFits a rest

  -- With the ED flag, what follows is empty or begins with a CBOR item.
  abbrev pub ExtensionsFit : ℕ → List ℕ → Type 0
  ExtensionsFit flags rest =
      (test_bits flags flag_ed ≡ false)
      ⊎ ((rest ≡ []) ⊎ ((v : CborValue) × (n : ℕ) × (libs.from_reader rest ≡ success (v, n))))

  pub record Fits (ad : AuthenticatorData) (rest : List ℕ) : Type 0 where
    pub hash_size : length ad.rp_id_hash ≡ 32
    pub count_size : ad.sign_count < 2 ^ 32
    pub optional : OptionalFits ad.flags ad.attested rest
    pub extensions : ExtensionsFit ad.flags rest

  module _ (bytes rest : List ℕ) where
    check_extensions-layout :
        (flags pos : ℕ)
        → At bytes pos rest
        → ExtensionsFit flags rest
        → check_extensions libs bytes flags pos ≡ ok tt
    unfolding check_extensions
    check_extensions-layout flags pos at (inl off) = rw off
    check_extensions-layout flags pos at (inr (inl empty)) =
        let none_left : length bytes ≤ pos = omega (arith, length-At at, ap length empty) in
        ground (arith, le→ltb_false pos (length bytes) none_left)
    check_extensions-layout flags pos at (inr (inr (v, n, item))) =
        ground (arith, slice_from-At at, item)

    parse_attested-layout :
        (a : AttestedCredentialData) (pos : ℕ)
        → At bytes pos (attested_layout a rest)
        → AttestedFits a rest
        → (end : ℕ) × (parse_attested libs bytes pos ≡ ok (a, end)) × At bytes end rest
    unfolding parse_attested cose_blob_length
    parse_attested-layout a pos at fits =
        let id = a.credential_id.bytes in
        let key = a.public_key_cose.bytes in
        let n = length id in
        let tail = key ++ rest in
        let at_high =
          At-append bytes a.aaguid ((n / 256) ∷ (n % 256) ∷ (id ++ tail)) pos 16 (pos + 16)
            fits.aaguid_size refl at in
        let at_low =
          At-append bytes ((n / 256) ∷ []) ((n % 256) ∷ (id ++ tail)) (pos + 16) 1 (pos + 17) refl
            (omega arith) at_high in
        let at_id =
          At-append bytes ((n % 256) ∷ []) (id ++ tail) (pos + 17) 1 (pos + 18) refl (omega arith)
            at_low in
        let at_tail = At-append bytes id tail (pos + 18) n (pos + 18 + n) refl refl at_id in
        let at_rest =
          At-append bytes key rest (pos + 18 + n) (length key) (pos + 18 + n + length key) refl refl
            at_tail in
        let joined : n / 256 * 256 + n % 256 ≡ n = omega arith in
        let long : pos + 18 + n ≤ length bytes = at_tail.inside in
        (
          pos + 18 + n + length key,
          rw (
            le→leb (pos + 18) (length bytes) (omega arith),
            slice-At bytes a.aaguid ((n / 256) ∷ (n % 256) ∷ (id ++ tail)) pos 16 (pos + 16)
                fits.aaguid_size refl at,
            to_array-eq-ok 16 a.aaguid fits.aaguid_size,
            index-At bytes ((n % 256) ∷ (id ++ tail)) (n / 256) (pos + 16) at_high,
            index-At bytes (id ++ tail) (n % 256) (pos + 17) at_low,
            joined,
            le→leb n 1023 fits.id_size,
            le→leb (pos + 18 + n) (length bytes) long,
            slice-At bytes id tail (pos + 18) n (pos + 18 + n) refl refl at_id,
            slice_from-At at_tail,
            fits.key_item,
            slice-At tail key rest 0 (length key) (length key) refl (omega arith) (At-zero tail),
          ),
          at_rest,
        )

    parse_optional-layout :
        (flags : ℕ) (attested : Option AttestedCredentialData) (pos : ℕ)
        → At bytes pos (optional_layout attested rest)
        → OptionalFits flags attested rest
        → (end : ℕ) × (parse_optional libs bytes flags pos ≡ ok (attested, end)) × At bytes end rest
    unfolding parse_optional
    parse_optional-layout flags none pos at off = (pos, rw off, at)
    parse_optional-layout flags (some a) pos at (on, fits) =
        let (end, parsed, at_end) = parse_attested-layout a pos at fits in
        (end, rw on (rw parsed), at_end)

-- What `parse` does behind the 37 bytes of the header.
abbrev pub parse_body : Libs → List ℕ → List ℕ → ℕ → ℕ → Result AuthenticatorData
parse_body libs bytes hash flags count = do
  (attested, pos) ← parse_optional libs bytes flags 37
  check_extensions libs bytes flags pos
  ok (record { rp_id_hash = hash; flags = flags; sign_count = count; attested = attested })

module _ (libs : Libs) (hash tail : List ℕ) (flags c₃ c₂ c₁ c₀ : ℕ) (size : length hash ≡ 32) where
  abbrev headed : List ℕ
  headed = hash ++ flags ∷ c₃ ∷ c₂ ∷ c₁ ∷ c₀ ∷ tail

  pub At-headed : At headed 37 tail
  At-headed =
      At-append headed (flags ∷ c₃ ∷ c₂ ∷ c₁ ∷ c₀ ∷ []) tail 32 5 37 refl refl (
        At-append headed hash (flags ∷ c₃ ∷ c₂ ∷ c₁ ∷ c₀ ∷ tail) 0 32 32 size refl (At-zero headed))

  pub parse-headed : parse libs headed ≡ parse_body libs headed hash flags (u32_from_be c₃ c₂ c₁ c₀)
  unfolding parse
  parse-headed =
      let at_hash : At headed 0 (hash ++ flags ∷ c₃ ∷ c₂ ∷ c₁ ∷ c₀ ∷ tail) = At-zero headed in
      rw (
        le→leb 37 (length headed) At-headed.inside,
        slice-At headed hash (flags ∷ c₃ ∷ c₂ ∷ c₁ ∷ c₀ ∷ tail) 0 32 32 size refl at_hash,
        to_array-eq-ok 32 hash size,
        index-append_some hash (flags ∷ c₃ ∷ c₂ ∷ c₁ ∷ c₀ ∷ tail) 32 0 size refl,
        index-append_some hash (flags ∷ c₃ ∷ c₂ ∷ c₁ ∷ c₀ ∷ tail) 32 1 size refl,
        index-append_some hash (flags ∷ c₃ ∷ c₂ ∷ c₁ ∷ c₀ ∷ tail) 32 2 size refl,
        index-append_some hash (flags ∷ c₃ ∷ c₂ ∷ c₁ ∷ c₀ ∷ tail) 32 3 size refl,
        index-append_some hash (flags ∷ c₃ ∷ c₂ ∷ c₁ ∷ c₀ ∷ tail) 32 4 size refl,
      )

-- `parse` reads back what the layout encodes.
pub parse-layout :
    (libs : Libs) (ad : AuthenticatorData) (rest : List ℕ)
    → Fits libs ad rest
    → parse libs (layout ad rest) ≡ ok ad
parse-layout libs ad rest fits =
    let n = ad.sign_count in
    let tail = optional_layout ad.attested rest in
    let (end, parsed, at_end) =
      parse_optional-layout libs (layout ad rest) rest ad.flags ad.attested 37
        (At-headed libs ad.rp_id_hash tail ad.flags (n / 16777216) (n / 65536 % 256) (n / 256 % 256)
          (n % 256) fits.hash_size)
        fits.optional in
    let whole : u32_from_be (n / 16777216) (n / 65536 % 256) (n / 256 % 256) (n % 256) ≡ n =
      omega (arith, fits.count_size) in
    parse-headed libs ad.rp_id_hash tail ad.flags (n / 16777216) (n / 65536 % 256) (n / 256 % 256)
      (n % 256) fits.hash_size
    ∙ rw (
      whole,
      parsed,
      check_extensions-layout libs (layout ad rest) rest ad.flags end at_end fits.extensions,
    )
