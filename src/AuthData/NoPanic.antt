-- ===== src/AuthData/NoPanic.antt =====
-- `AuthenticatorData::parse` of src/auth_data.rs and the panics of its indexing and copying.
use passkey_auth_rs.Prelude.{
  ℕ, ◌+◌, ◌≤◌, ◌≡◌, ap, inl, inr, List, arith, leb, ltb, leb→le, length, Bool-cases, test_bits,
  ◌&&◌,
}
use passkey_auth_rs.Error.{ok, map_err, Returns, Returns-bind, Returns-require, Returns-map_err}
use passkey_auth_rs.Slice.{
  index, slice, slice_from, to_array, length-slice, Returns-index, Returns-slice,
  Returns-slice_from, Returns-to_array,
}
use passkey_auth_rs.Slice.Cursor.{slice-inv}
use passkey_auth_rs.Deps.{Libs, CborReadsWithin}
use passkey_auth_rs.AuthData.{
  flag_at, flag_ed, u16_from_be, cose_blob_length, parse_attested, parse_optional, check_extensions,
  parse,
}
use passkey_auth_rs.AuthData.Attested.{cose_blob_length-eq-ok}

module _ (libs : Libs) (within : CborReadsWithin libs) (bytes : List ℕ) where
  cose_blob_length-Returns : (tail : List ℕ) → Returns (cose_blob_length libs tail)
  unfolding cose_blob_length
  cose_blob_length-Returns tail =
      Returns-bind (map_err (libs.from_reader tail) _) _ (Returns-map_err _ _) λ _ _. tt

  length-of_slice : (from to : ℕ) (s : List ℕ) → slice bytes from to ≡ ok s → from + length s ≡ to
  length-of_slice from to s h =
      let (ordered, fits, cut) = slice-inv bytes from to h in
      omega (arith, ap length cut, length-slice bytes from to ordered fits)

  parse_attested-Returns : (pos : ℕ) → Returns (parse_attested libs bytes pos)
  unfolding parse_attested
  parse_attested-Returns pos = Returns-require (leb (pos + 18) (length bytes)) _ _ λ long.
      let fits : pos + 18 ≤ length bytes = leb→le _ _ long in
      Returns-bind (slice bytes pos (pos + 16)) _
        (Returns-slice bytes pos (pos + 16) (omega arith) (omega arith))
        λ s₁ cut₁.
          Returns-bind (to_array 16 s₁) _
            (Returns-to_array 16 s₁ (omega (arith, length-of_slice pos (pos + 16) s₁ cut₁)))
            λ _ _.
              Returns-bind (index bytes (pos + 16)) _ (Returns-index bytes (pos + 16) (omega arith))
                λ high _.
                  Returns-bind (index bytes (pos + 17)) _
                    (Returns-index bytes (pos + 17) (omega arith))
                    λ low _. Returns-require (leb (u16_from_be high low) 1023) _ _ λ _.
                      Returns-require (leb (pos + 18 + u16_from_be high low) (length bytes)) _ _
                        λ long'.
                          let fits' : pos + 18 + u16_from_be high low ≤ length bytes =
                            leb→le _ _ long' in
                          Returns-bind (slice bytes (pos + 18) (pos + 18 + u16_from_be high low)) _
                            (Returns-slice bytes _ _ (omega arith) fits')
                            λ _ _.
                              Returns-bind (slice_from bytes (pos + 18 + u16_from_be high low)) _
                                (Returns-slice_from bytes _ fits')
                                λ tail _.
                                  Returns-bind (cose_blob_length libs tail) _
                                    (cose_blob_length-Returns tail)
                                    λ m measured.
                                      let (v, item) = cose_blob_length-eq-ok libs tail measured in
                                      Returns-bind (slice tail 0 m) _
                                        (Returns-slice tail 0 m (omega arith)
                                          (within tail v m item))
                                        λ _ _. tt

  parse_optional-Returns : (flags pos : ℕ) → Returns (parse_optional libs bytes flags pos)
  unfolding parse_optional
  parse_optional-Returns flags pos = elim (Bool-cases (test_bits flags flag_at)) [
    | inl on ↦
        rw on
          (Returns-bind (parse_attested libs bytes pos) _ (parse_attested-Returns pos) λ _ _. tt)
    | inr off ↦ rw off tt
  ]

  check_extensions-Returns : (flags pos : ℕ) → Returns (check_extensions libs bytes flags pos)
  unfolding check_extensions
  check_extensions-Returns flags pos =
      elim (Bool-cases (test_bits flags flag_ed && ltb pos (length bytes))) [
        | inl on ↦
            let inside : pos ≤ length bytes = ground arith in
            rw on (
              Returns-bind (slice_from bytes pos) _ (Returns-slice_from bytes pos inside) λ rest _.
                Returns-bind (map_err (libs.from_reader rest) _) _ (Returns-map_err _ _) λ _ _. tt)
        | inr off ↦ rw off tt
      ]

  -- If the CBOR reader stops inside its input, `parse` returns a value or an error on every input:
  -- no index or copy in it panics.
  pub parse-Returns : Returns (parse libs bytes)
  unfolding parse
  parse-Returns = Returns-require (leb 37 (length bytes)) _ _ λ long.
      let fits : 37 ≤ length bytes = leb→le _ _ long in
      Returns-bind (slice bytes 0 32) _ (Returns-slice bytes 0 32 (omega arith) (omega arith))
        λ s cut.
          Returns-bind (to_array 32 s) _
            (Returns-to_array 32 s (omega (arith, length-of_slice 0 32 s cut)))
            λ _ _. Returns-bind (index bytes 32) _ (Returns-index bytes 32 (omega arith)) λ flags _.
              Returns-bind (index bytes 33) _ (Returns-index bytes 33 (omega arith)) λ _ _.
                Returns-bind (index bytes 34) _ (Returns-index bytes 34 (omega arith)) λ _ _.
                  Returns-bind (index bytes 35) _ (Returns-index bytes 35 (omega arith)) λ _ _.
                    Returns-bind (index bytes 36) _ (Returns-index bytes 36 (omega arith)) λ _ _.
                      Returns-bind (parse_optional libs bytes flags 37) _
                        (parse_optional-Returns flags 37)
                        λ (attested, pos) _.
                          Returns-bind (check_extensions libs bytes flags pos) _
                            (check_extensions-Returns flags pos) λ _ _. tt
