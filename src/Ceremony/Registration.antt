-- ===== src/Ceremony/Registration.antt =====
-- src/ceremony.rs: `finish_registration`.
pub mod Attested
pub mod Accepted
pub mod Kept
use passkey_auth_rs.Prelude.{
  ℕ, Bool, List, ℤ, ◌&&◌, not, ◌==◌, ℤ_eq, nat_eq, list_eq, any, as_bytes,
}
use passkey_auth_rs.Error.{
  auth_data, rp_id_hash_mismatch, user_not_present, user_not_verified, unsupported_alg, Result, ok,
  ◌>>=◌, ◌>>◌, require, ok_or,
}
use passkey_auth_rs.Deps.{Libs, World}
use passkey_auth_rs.Types.{RegistrationState, RegistrationResponse, PasskeyCredential}
use passkey_auth_rs.ClientData.{type_register, validate}
use passkey_auth_rs.AuthData.{user_present, user_verified}
use passkey_auth_rs.Cose
use passkey_auth_rs.Cose.{alg_of}
use passkey_auth_rs.Attestation
use passkey_auth_rs.Attestation.U2f.{verify_statement}
use passkey_auth_rs.Ceremony.{
  Webauthn, allowed_registration_algs, decode_b64, sha256_32, check_not_expired,
}

-- `ALLOWED_REGISTRATION_ALGS.contains(&alg)`
unfoldable pub is_allowed : ℤ → Bool
is_allowed alg = any (λ a. a == alg) allowed_registration_algs

unfoldable pub finish_registration :
    Libs → World → Webauthn → RegistrationState → RegistrationResponse → Result PasskeyCredential
finish_registration libs world wa state response = do
  check_not_expired world state.created_at
  cdj_raw ←
      validate libs response.client_data_json type_register state.challenge wa.origin
        wa.strict_base64
  cdj_hash ← sha256_32 libs cdj_raw
  att_bytes ← decode_b64 libs wa response.attestation_object
  att ← Attestation.parse libs att_bytes
  want_rp_hash ← sha256_32 libs (as_bytes wa.rp_id.name)
  require (att.auth_data.rp_id_hash == want_rp_hash) rp_id_hash_mismatch
  require (user_present att.auth_data) user_not_present
  require (not (wa.require_uv && not (user_verified att.auth_data))) user_not_verified
  attested ← ok_or att.auth_data.attested (auth_data "registration authData missing AT flag")
  cose ← Cose.parse libs attested.public_key_cose.bytes
  require (is_allowed (alg_of cose)) (unsupported_alg (alg_of cose))
  verify_statement libs att cose cdj_hash
  ok (record {
    id = attested.credential_id;
    public_key_cose = attested.public_key_cose;
    counter = att.auth_data.sign_count;
    transports = response.transports;
    aaguid = attested.aaguid;
  })
