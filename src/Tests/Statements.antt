-- ===== src/Tests/Statements.antt =====
-- The statement formats, and the keys and certificates behind them.
use passkey_auth_rs.Prelude.{
  test_bits, ℕ, String, ◌≡◌, ◌↔◌, refl, replicate, arith, some, List, [], ◌∷◌, ◌++◌, pos,
}
use passkey_auth_rs.Error.{ok, success}
use passkey_auth_rs.Deps.{CborValue, CborEntries}
use passkey_auth_rs.AuthData.Layout.{layout}
use passkey_auth_rs.Cose
use passkey_auth_rs.Cose.{CoseKey, es256, ed25519}
use passkey_auth_rs.Cose.Accepted.{Carries, IsSized}
use passkey_auth_rs.Cose.Accepted.{parse-CoseKey_iff}
use passkey_auth_rs.Cose.Labels.{parse-wrapped_label}
use passkey_auth_rs.Slice.{index, slice, slice_from, to_array}
use passkey_auth_rs.Crypto.{verify}
use passkey_auth_rs.Crypto.Outcome.{IsSignature, verify_iff}
use passkey_auth_rs.X509.{
  AttestationCert, from_der, is_uncompressed, is_wrapped, parse_aaguid, find_extension, aaguid_ext,
  parse_aaguid_octet_string,
}
use passkey_auth_rs.Attestation
use passkey_auth_rs.Attestation.{ParsedAttestation}
use passkey_auth_rs.Attestation.Envelope.{IsEnvelope, parse-IsEnvelope}
use passkey_auth_rs.AuthData
use passkey_auth_rs.AuthData.{parse_attested, parse_optional, check_extensions, cose_blob_length}
use passkey_auth_rs.Attestation.Statement.{verify_packed}
use passkey_auth_rs.Attestation.U2f.{verify_fido_u2f, verify_statement}
use passkey_auth_rs.Attestation.Packed.{PackedHolds, verify_packed_iff}
use passkey_auth_rs.Attestation.Verified.{
  U2fHolds, StatementHolds, verify_fido_u2f_iff, verify_statement_iff,
}
use passkey_auth_rs.Tests.Demo.{
  libs, coordinate, created, digest, self_stmt, u2f_stmt, certificate, aaguid_of, without_crv,
}

abbrev key : CoseKey
key = es256 (coordinate 1) (coordinate 2)

abbrev att : String → CborValue → ParsedAttestation
att fmt stmt = record {
  auth_data_raw = layout created [];
  auth_data = created;
  fmt = fmt;
  att_stmt = stmt;
}

abbrev hash : List ℕ
hash = digest (1 ∷ [])

verify_statement_iff_example :
    (verify_statement libs (att "fido-u2f" u2f_stmt) key hash ≡ ok tt)
    ↔ StatementHolds libs (att "fido-u2f" u2f_stmt) key hash
verify_statement_iff_example =
    verify_statement_iff libs (att "fido-u2f" u2f_stmt) key hash (refl, refl)

verify_packed_iff_example :
    (verify_packed libs (att "packed" self_stmt) key hash ≡ ok tt)
    ↔ PackedHolds libs (att "packed" self_stmt) key hash
verify_packed_iff_example = verify_packed_iff libs (att "packed" self_stmt) key hash (refl, refl)

verify_fido_u2f_iff_example :
    (verify_fido_u2f libs (att "fido-u2f" u2f_stmt) key hash ≡ ok tt)
    ↔ U2fHolds libs (att "fido-u2f" u2f_stmt) key hash
verify_fido_u2f_iff_example = verify_fido_u2f_iff libs (att "fido-u2f" u2f_stmt) key hash

parse-CoseKey_iff_example : (Cose.parse libs (0xa1 ∷ []) ≡ ok key) ↔ (
    (m : CborEntries) × (n : ℕ) × (libs.from_reader (0xa1 ∷ []) ≡ success (CborValue.map m, n))
    × Carries m key
    × IsSized key)
parse-CoseKey_iff_example = parse-CoseKey_iff libs (0xa1 ∷ []) key

verify_iff_example :
    (verify libs key hash (65 ∷ 32 ∷ []) ≡ ok tt) ↔ IsSignature libs key hash (65 ∷ 32 ∷ [])
verify_iff_example = verify_iff libs hash (65 ∷ 32 ∷ []) key (refl, refl)

-- ---------- certificates

abbrev cert : AttestationCert
cert = record {
  p256_pubkey_sec1 = 0x04 ∷ (coordinate 3 ++ coordinate 4);
  aaguid = some (replicate 16 5);
}

reads_cert : from_der libs (0xc0 ∷ []) ≡ ok cert
unfolding from_der is_uncompressed index to_array parse_aaguid aaguid_ext find_extension
    parse_aaguid_octet_string is_wrapped slice
reads_cert = refl

has_extension : aaguid_ext (certificate (0x04 ∷ [])) ≡ some (aaguid_of (0x04 ∷ []))
unfolding aaguid_ext find_extension
has_extension = refl

parse-wrapped_label_example : Cose.parse libs (0xa5 ∷ []) ≡ Cose.parse libs (0xa6 ∷ [])
parse-wrapped_label_example =
    parse-wrapped_label libs 0 (CborValue.integer (pos 1)) without_crv 1 1 (0xa5 ∷ []) (0xa6 ∷ [])
      (omega arith) refl refl

-- ---------- envelopes

reads_envelope : Attestation.parse libs (0xa3 ∷ []) ≡ ok (att "packed" self_stmt)
unfolding Attestation.parse Attestation.collect Attestation.assign AuthData.parse index slice
    slice_from parse_attested parse_optional check_extensions cose_blob_length to_array test_bits
reads_envelope = refl

parse-IsEnvelope_example : IsEnvelope libs (0xa3 ∷ []) (att "packed" self_stmt)
parse-IsEnvelope_example = parse-IsEnvelope libs (0xa3 ∷ []) (att "packed" self_stmt) reads_envelope
