-- ===== src/AuthData.antt =====
-- src/auth_data.rs: the binary `authenticatorData`.
pub mod Layout
pub mod Sizes
pub mod Attested
pub mod Soundness
pub mod Flags
pub mod NoPanic
use passkey_auth_rs.Prelude.{
  ℕ, ◌+◌, ◌*◌, String, Bool, Option, none, some, List, ◌<>◌, ◌&&◌, ltb, leb, if◌then◌else◌, length,
  take, test_bits,
}
use passkey_auth_rs.Error.{auth_data, cbor, Result, ok, ◌>>=◌, ◌>>◌, require, map_err}
use passkey_auth_rs.Slice.{index, slice, slice_from, to_array}
use passkey_auth_rs.Deps.{Libs}
use passkey_auth_rs.Types.{CredentialId, CosePublicKey}

abbrev pub flag_up : ℕ
flag_up = 1

abbrev pub flag_uv : ℕ
flag_uv = 4

abbrev pub flag_at : ℕ
flag_at = 64

abbrev pub flag_ed : ℕ
flag_ed = 128

pub record AttestedCredentialData : Type 0 where
  pub aaguid : List ℕ
  pub credential_id : CredentialId
  pub public_key_cose : CosePublicKey

pub record AuthenticatorData : Type 0 where
  pub rp_id_hash : List ℕ
  pub flags : ℕ
  pub sign_count : ℕ
  pub attested : Option AttestedCredentialData

-- `u32::from_be_bytes` and `u16::from_be_bytes`
abbrev pub u32_from_be : ℕ → ℕ → ℕ → ℕ → ℕ
u32_from_be a b c d = a * 16777216 + b * 65536 + c * 256 + d

abbrev pub u16_from_be : ℕ → ℕ → ℕ
u16_from_be a b = a * 256 + b

-- The length of the CBOR item at the front: where the reader's cursor stands after it.
unfoldable pub cose_blob_length : Libs → List ℕ → Result ℕ
cose_blob_length libs bytes = do
  (_, position) ← map_err (libs.from_reader bytes) (λ e. cbor ("cose key: " <> e))
  ok position

-- The block that the AT flag announces, from position `pos` on, with the position behind it.
unfoldable pub parse_attested : Libs → List ℕ → ℕ → Result (AttestedCredentialData × ℕ)
parse_attested libs bytes pos = do
  require (leb (pos + 18) (length bytes)) (auth_data "attestedCredentialData truncated header")
  aaguid_bytes ← slice bytes pos (pos + 16)
  aaguid ← to_array 16 aaguid_bytes
  high ← index bytes (pos + 16)
  low ← index bytes (pos + 17)
  let cred_id_len = u16_from_be high low
  require (leb cred_id_len 1023) (auth_data "credentialIdLength > 1023")
  require (leb (pos + 18 + cred_id_len) (length bytes)) (auth_data "credentialId truncated")
  credential_id ← slice bytes (pos + 18) (pos + 18 + cred_id_len)
  tail ← slice_from bytes (pos + 18 + cred_id_len)
  cose_len ← cose_blob_length libs tail
  public_key_cose ← slice tail 0 cose_len
  ok (
    record {
      aaguid = aaguid;
      credential_id = record { bytes = credential_id };
      public_key_cose = record { bytes = public_key_cose };
    },
    pos + 18 + cred_id_len + cose_len,
  )

-- With the ED flag, bytes that are left must begin with a CBOR item.
unfoldable pub check_extensions : Libs → List ℕ → ℕ → ℕ → Result (Unit {0})
check_extensions libs bytes flags pos =
    if test_bits flags flag_ed && ltb pos (length bytes)
    then (do
      rest ← slice_from bytes pos
      _ ← map_err (libs.from_reader rest) (λ _. auth_data "extensions CBOR parse failed")
      ok tt)
    else ok tt

unfoldable pub parse_optional : Libs → List ℕ → ℕ → ℕ → Result (Option AttestedCredentialData × ℕ)
parse_optional libs bytes flags pos =
    if test_bits flags flag_at
    then (do (attested, end) ← parse_attested libs bytes pos; ok (some attested, end))
    else ok (none, pos)

-- `AuthenticatorData::parse`
unfoldable pub parse : Libs → List ℕ → Result AuthenticatorData
parse libs bytes = do
  require (leb 37 (length bytes)) (auth_data "too short (need >= 37 bytes)")
  hash_bytes ← slice bytes 0 32
  rp_id_hash ← to_array 32 hash_bytes
  flags ← index bytes 32
  count₃ ← index bytes 33
  count₂ ← index bytes 34
  count₁ ← index bytes 35
  count₀ ← index bytes 36
  (attested, pos) ← parse_optional libs bytes flags 37
  check_extensions libs bytes flags pos
  ok (record {
    rp_id_hash = rp_id_hash;
    flags = flags;
    sign_count = u32_from_be count₃ count₂ count₁ count₀;
    attested = attested;
  })

unfoldable pub user_present : AuthenticatorData → Bool
user_present ad = test_bits ad.flags flag_up

unfoldable pub user_verified : AuthenticatorData → Bool
user_verified ad = test_bits ad.flags flag_uv
