-- ===== src/Crypto/Outcome.antt =====
-- What `verify` of src/crypto.rs answers.
use passkey_auth_rs.Prelude.{
  ℕ, true, ◌≡◌, ◌↔◌, ◌⊎◌, inl, inr, some, List, ◌∷◌, ◌++◌, arith, ◌==◌, nat_eq, nat_beq_iff, eq→beq,
  length,
}
use passkey_auth_rs.Error.{
  Returns, bad_signature, ok, err, ok_or, ok_or-eq-ok, require-eq-ok, step, check,
}
use passkey_auth_rs.Slice.{to_array, to_array-eq-ok}
use passkey_auth_rs.Deps.{Libs}
use passkey_auth_rs.Cose.{CoseKey, es256, ed25519}
use passkey_auth_rs.Cose.Accepted.{IsSized}
use passkey_auth_rs.Crypto.{verify, verify_es256, verify_ed25519}

module _ (libs : Libs) where
  open libs use {encoded_point, public_key, es_from_der, es_verify, ed_key, ed_signature, ed_verify}

  -- ECDSA accepts the DER signature under the SEC1 point.
  abbrev pub IsEs256Signature : List ℕ → List ℕ → List ℕ → Type 0
  IsEs256Signature sec1 msg sig =
      (point : libs.EncodedPoint) × (pk : libs.PublicKey) × (parsed : libs.EsSignature)
      × (encoded_point sec1 ≡ some point)
      × (public_key point ≡ some pk)
      × (es_from_der sig ≡ some parsed)
      × (es_verify pk msg parsed ≡ true)

  -- The signature is valid under the key: for ES256 a DER signature under the uncompressed point,
  -- for Ed25519 one of 64 bytes.
  abbrev pub IsSignature : CoseKey → List ℕ → List ℕ → Type 0
  IsSignature (es256 x y) msg sig = IsEs256Signature (0x04 ∷ (x ++ y)) msg sig
  IsSignature (ed25519 key) msg sig =
      (vk : libs.EdKey) × (ed_key key ≡ some vk)
      × (length sig ≡ 64)
      × (ed_verify vk msg (ed_signature sig) ≡ true)

  module _ (msg sig : List ℕ) where
    -- For a key with coordinates of 32 bytes, `verify` succeeds exactly for valid signatures: for
    -- ES256 a DER signature under the uncompressed point, for Ed25519 one of 64 bytes.
    pub verify_iff :
        (key : CoseKey) → IsSized key → (verify libs key msg sig ≡ ok tt) ↔ IsSignature key msg sig
    unfolding verify verify_es256 verify_ed25519
    verify_iff (es256 x y) (sx, sy) = (
      (λ h.
          step (ok_or (encoded_point (0x04 ∷ (x ++ y))) bad_signature) _
            (rw (to_array-eq-ok 32 x sx, to_array-eq-ok 32 y sy) at h)
            λ point is_point h. step (ok_or (public_key point) bad_signature) _ h λ pk is_key h.
              step (ok_or (es_from_der sig) bad_signature) _ h λ parsed is_parsed h. (
                point,
                pk,
                parsed,
                ok_or-eq-ok _ _ is_point,
                ok_or-eq-ok _ _ is_key,
                ok_or-eq-ok _ _ is_parsed,
                require-eq-ok _ _ h,
              )),
      (λ (point, pk, parsed, is_point, is_key, is_parsed, valid).
          rw (to_array-eq-ok 32 x sx, to_array-eq-ok 32 y sy)
            (rw (is_point, is_key, is_parsed, valid))),
    )
    verify_iff (ed25519 key) s = (
      (λ h. step (ok_or (ed_key key) bad_signature) _ h λ vk is_key h.
          check (length sig == 64) _ _ h λ size h.
            let long : length sig ≡ 64 = (nat_beq_iff _ _).0 size in
            (
              vk,
              ok_or-eq-ok _ _ is_key,
              long,
              require-eq-ok _ _ (rw (to_array-eq-ok 64 sig long) at h),
            )),
      (λ (vk, is_key, long, valid).
          rw (is_key, eq→beq (length sig) 64 long, to_array-eq-ok 64 sig long, valid)),
    )

    -- For a key with coordinates of 32 bytes, every failure of `verify` is `BadSignature`, whatever
    -- the cause.
    pub verify_collapses :
        (key : CoseKey)
        → IsSized key
        → (verify libs key msg sig ≡ ok tt) ⊎ (verify libs key msg sig ≡ err bad_signature)
    unfolding verify verify_es256 verify_ed25519 to_array
    verify_collapses (es256 x y) s = ground arith
    verify_collapses (ed25519 key) s = ground arith

    pub verify-Returns : (key : CoseKey) → IsSized key → Returns (verify libs key msg sig)
    verify-Returns key sized = elim (verify_collapses key sized) [
      | inl valid ↦ rw valid tt
      | inr invalid ↦ rw invalid tt
    ]
