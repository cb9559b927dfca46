-- ===== src/X509.antt =====
-- src/x509.rs: what is taken from an attestation certificate.
pub mod Aaguid
pub mod Checked
use passkey_auth_rs.Prelude.{
  ℕ, String, Bool, false, Option, none, some, List, [], ◌∷◌, ◌<>◌, ◌==◌, nat_eq, string_eq,
  if◌then◌else◌, length, show_nat, show_hex_byte, get_elem?,
}
use passkey_auth_rs.Error.{cbor, Result, ok, ◌>>=◌, ◌>>◌, require, ok_or, map_err}
use passkey_auth_rs.Slice.{index, slice, to_array}
use passkey_auth_rs.Deps.{Libs, Extension, Certificate}

abbrev pub oid_fido_aaguid : String
oid_fido_aaguid = "1.3.6.1.4.1.45724.1.1.4"

-- `ID_EC_PUBLIC_KEY` of the crate x509-cert.
abbrev pub id_ec_public_key : String
id_ec_public_key = "1.2.840.10045.2.1"

pub record AttestationCert : Type 0 where
  pub p256_pubkey_sec1 : List ℕ
  pub aaguid : Option (List ℕ)

-- `bytes.first().copied().unwrap_or(0)`
abbrev pub first_or_zero : List ℕ → ℕ
first_or_zero [] = 0
first_or_zero (b ∷ _) = b

-- `!(bits.len() != 65 || bits[0] != 0x04)`
unfoldable pub is_uncompressed : List ℕ → Result Bool
is_uncompressed bits = if length bits == 65 then (do b ← index bits 0; ok (b == 0x04)) else ok false

-- `!(value.len() != 18 || value[0] != 0x04 || value[1] != 0x10)`
unfoldable pub is_wrapped : List ℕ → Result Bool
is_wrapped value =
    if length value == 18
    then (do
      tag ← index value 0
      if tag == 0x04 then (do size ← index value 1; ok (size == 0x10)) else ok false)
    else ok false

unfoldable pub parse_aaguid_octet_string : List ℕ → Result (List ℕ)
parse_aaguid_octet_string value = do
  wrapped ← is_wrapped value
  require wrapped (cbor "attestation cert: malformed AAGUID extension")
  inner ← slice value 2 18
  to_array 16 inner

-- `exts.iter().find(|e| e.extn_id == oid)`
unfoldable pub find_extension : String → List Extension → Option Extension
find_extension oid [] = none
find_extension oid (e ∷ rest) = if e.extn_id == oid then some e else find_extension oid rest

-- The extension of the certificate, if it has extensions and this one among them.
unfoldable pub aaguid_ext : Certificate → Option Extension
aaguid_ext cert = elim cert.extensions [
  | none ↦ none
  | some exts ↦ find_extension oid_fido_aaguid exts
]

unfoldable pub parse_aaguid : Option Extension → Result (Option (List ℕ))
parse_aaguid none = ok none
parse_aaguid (some ext) = do a ← parse_aaguid_octet_string ext.extn_value; ok (some a)

-- `AttestationCert::from_der`
unfoldable pub from_der : Libs → List ℕ → Result AttestationCert
from_der libs der = do
  cert ← map_err (libs.from_der der) (λ e. cbor ("x509 parse: " <> e))
  require (cert.algorithm_oid == id_ec_public_key)
      (cbor ("attestation cert: non-EC public key (alg OID " <> cert.algorithm_oid <> ")"))
  pk_bits ←
      ok_or cert.subject_public_key (cbor "attestation cert: pubkey bit-string has unused bits")
  uncompressed ← is_uncompressed pk_bits
  require uncompressed (
      cbor (
        "attestation cert: pubkey not SEC1-uncompressed P-256 ("
        <> show_nat (length pk_bits)
        <> " bytes, prefix "
        <> show_hex_byte (first_or_zero pk_bits)
        <> ")"))
  p256_pubkey_sec1 ← to_array 65 pk_bits
  aaguid ← parse_aaguid (aaguid_ext cert)
  ok (record { p256_pubkey_sec1 = p256_pubkey_sec1; aaguid = aaguid })
