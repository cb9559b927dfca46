-- ===== src/Tests/Registering.antt =====
-- A registration with each of the three statement formats.
use passkey_auth_rs.Prelude.{
  ℕ, true, false, ◌≡◌, ◌↔◌, refl, [], ◌∷◌, list_beq, list_eq, any, as_bytes, as_i64, test_bits,
}
use passkey_auth_rs.Error.{ok, err, cbor, Returns}
use passkey_auth_rs.Slice.{index, slice, slice_from, to_array}
use passkey_auth_rs.Types.{
  RegistrationState, RegistrationResponse, PasskeyCredential, b64url_decode_strict, now_secs,
}
use passkey_auth_rs.ClientData.{decoder, check_parsed, validate}
use passkey_auth_rs.AuthData
use passkey_auth_rs.AuthData.{
  parse_attested, parse_optional, check_extensions, cose_blob_length, user_present, user_verified,
}
use passkey_auth_rs.Cose
use passkey_auth_rs.Cose.{build, build_es256, build_ed25519}
use passkey_auth_rs.Crypto.{verify, verify_es256}
use passkey_auth_rs.X509.{
  is_uncompressed, is_wrapped, parse_aaguid_octet_string, find_extension, aaguid_ext, parse_aaguid,
  from_der,
}
use passkey_auth_rs.Attestation
use passkey_auth_rs.Attestation.Statement.{
  collect_certs, assign_x5c, assign_packed, collect_packed, parse_packed_att_stmt,
  verify_es256_sec1, verify_self, verify_by_x5c, verify_packed,
}
use passkey_auth_rs.Attestation.U2f.{assign_u2f, collect_u2f, verify_fido_u2f, verify_statement}
use passkey_auth_rs.Ceremony.{Webauthn, platform, decode_b64, sha256_32, check_not_expired}
use passkey_auth_rs.Ceremony.Registration.{is_allowed, finish_registration}
use passkey_auth_rs.Ceremony.Registration.Accepted.{
  Registered, finish_registration_iff, finish_registration-Returns,
}
use passkey_auth_rs.Tests.Unary.{encode, decode, decode_from, prepend, repeat}
use passkey_auth_rs.Tests.Demo.{libs, world, challenge_bytes, attested, has_size, within}

abbrev pub wa : Webauthn
wa = record {
  rp_id = record { name = "example.com" };
  rp_name = "Example";
  origin = "https://example.com";
  require_uv = true;
  attachment = platform;
  strict_base64 = true;
  require_user_handle = false;
}

abbrev pub state : RegistrationState
state = record {
  challenge = record { bytes = challenge_bytes };
  user_id = 3 ∷ [];
  created_at = 900;
}

-- The state of an old version, without a timestamp.
abbrev older_state : RegistrationState
older_state = record {
  challenge = record { bytes = challenge_bytes };
  user_id = 3 ∷ [];
  created_at = 0;
}

abbrev pub response : ℕ → RegistrationResponse
response form = record {
  id = encode (7 ∷ []);
  transports = "internal" ∷ [];
  attestation_object = encode (form ∷ []);
  client_data_json = encode (1 ∷ []);
}

abbrev pub credential : PasskeyCredential
credential = record {
  id = attested.credential_id;
  public_key_cose = attested.public_key_cose;
  counter = 1;
  transports = "internal" ∷ [];
  aaguid = attested.aaguid;
}

-- The same key and id, once with each statement.
pub registers :
    (finish_registration libs world wa state (response 0xa2) ≡ ok credential)
    × (finish_registration libs world wa state (response 0xa3) ≡ ok credential)
    × (finish_registration libs world wa state (response 0xa4) ≡ ok credential)
unfolding finish_registration check_not_expired now_secs validate decoder check_parsed
    b64url_decode_strict decode_b64 sha256_32 to_array encode repeat decode decode_from prepend
    list_beq Attestation.parse Attestation.collect Attestation.assign AuthData.parse index slice
    slice_from parse_attested parse_optional check_extensions cose_blob_length user_present
    user_verified test_bits as_bytes Cose.parse Cose.collect Cose.assign build build_es256
    is_allowed any verify_statement as_i64 verify_packed parse_packed_att_stmt collect_packed
    assign_packed verify_by_x5c verify_self verify verify_es256 verify_fido_u2f collect_u2f
    assign_u2f assign_x5c collect_certs from_der is_uncompressed parse_aaguid aaguid_ext
    find_extension parse_aaguid_octet_string is_wrapped verify_es256_sec1
registers = (refl, refl, refl)

registers_older : finish_registration libs world wa older_state (response 0xa2) ≡ ok credential
unfolding finish_registration check_not_expired now_secs validate decoder check_parsed
    b64url_decode_strict decode_b64 sha256_32 to_array encode repeat decode decode_from prepend
    list_beq Attestation.parse Attestation.collect Attestation.assign AuthData.parse index slice
    slice_from parse_attested parse_optional check_extensions cose_blob_length user_present
    user_verified test_bits as_bytes Cose.parse Cose.collect Cose.assign build build_es256
    is_allowed any verify_statement as_i64
registers_older = refl

-- What is no attestation object is refused.
refuses_reserved :
    finish_registration libs world wa state (response 0xa9)
    ≡ err (cbor "attestationObject: reserved")
unfolding finish_registration check_not_expired now_secs validate decoder check_parsed
    b64url_decode_strict decode_b64 sha256_32 to_array encode repeat decode decode_from prepend
    list_beq Attestation.parse
refuses_reserved = refl

finish_registration_iff_example :
    (finish_registration libs world wa state (response 0xa3) ≡ ok credential)
    ↔ Registered libs world wa state (response 0xa3) credential
finish_registration_iff_example =
    finish_registration_iff libs world wa state (response 0xa3) has_size credential

finish_registration-Returns_example :
    Returns (finish_registration libs world wa state (response 0xa4))
finish_registration-Returns_example =
    finish_registration-Returns libs world wa state (response 0xa4) has_size within
