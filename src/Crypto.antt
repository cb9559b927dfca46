-- ===== src/Crypto.antt =====
-- src/crypto.rs: verification of signatures.
pub mod Outcome
use passkey_auth_rs.Prelude.{ℕ, List, ◌∷◌, ◌++◌, ◌==◌, nat_eq, length}
use passkey_auth_rs.Error.{bad_signature, Result, ◌>>=◌, ◌>>◌, require, ok_or}
use passkey_auth_rs.Slice.{to_array}
use passkey_auth_rs.Deps.{Libs}
use passkey_auth_rs.Cose.{CoseKey, es256, ed25519}

module _ (libs : Libs) where
  open libs use {encoded_point, public_key, es_from_der, es_verify, ed_key, ed_signature, ed_verify}

  unfoldable pub verify_es256 : List ℕ → List ℕ → List ℕ → List ℕ → Result (Unit {0})
  verify_es256 x y msg sig = do
    xs ← to_array 32 x
    ys ← to_array 32 y
    let sec1 = 0x04 ∷ (xs ++ ys)
    point ← ok_or (encoded_point sec1) bad_signature
    pk ← ok_or (public_key point) bad_signature
    parsed ← ok_or (es_from_der sig) bad_signature
    require (es_verify pk msg parsed) bad_signature

  unfoldable pub verify_ed25519 : List ℕ → List ℕ → List ℕ → Result (Unit {0})
  verify_ed25519 key msg sig = do
    vk ← ok_or (ed_key key) bad_signature
    require (length sig == 64) bad_signature
    sb ← to_array 64 sig
    require (ed_verify vk msg (ed_signature sb)) bad_signature

  unfoldable pub verify : CoseKey → List ℕ → List ℕ → Result (Unit {0})
  verify (es256 x y) msg sig = verify_es256 x y msg sig
  verify (ed25519 key) msg sig = verify_ed25519 key msg sig
