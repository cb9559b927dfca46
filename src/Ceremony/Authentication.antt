-- ===== src/Ceremony/Authentication.antt =====
-- src/ceremony.rs: `finish_authentication`.
pub mod Signed
pub mod Accepted
pub mod Replay
use passkey_auth_rs.Prelude.{
  ℕ, String, Bool, Option, none, some, List, ◌++◌, ◌&&◌, ◌||◌, not, leb, ◌==◌, nat_eq, list_eq, any,
  is_empty, as_bytes, if◌then◌else◌,
}
use passkey_auth_rs.Error.{
  bad_signature, user_handle_mismatch, rp_id_hash_mismatch, user_not_present, user_not_verified,
  counter_replay, Result, ok, err, ◌>>=◌, ◌>>◌, require,
}
use passkey_auth_rs.Deps.{Libs, World}
use passkey_auth_rs.Types.{
  CredentialId, AuthenticationState, AuthenticationResponse, PasskeyCredential, AuthSuccess,
}
use passkey_auth_rs.ClientData.{type_authenticate, validate}
use passkey_auth_rs.AuthData
use passkey_auth_rs.AuthData.{user_present, user_verified}
use passkey_auth_rs.Cose
use passkey_auth_rs.Crypto.{verify}
use passkey_auth_rs.Ceremony.{Webauthn, decode_b64, sha256_32, check_not_expired}

-- The credential is one of those that the challenge allowed, if it named any.
unfoldable pub is_listed : List CredentialId → List ℕ → Bool
is_listed allow asserted = is_empty allow || any (λ c. c.bytes == asserted) allow

-- Step 1b: the user handle of the response against the one that the ceremony expects.
unfoldable pub check_user_handle :
    Libs → Webauthn → Option (List ℕ) → Option String → Result (Unit {0})
check_user_handle libs wa none response_handle = ok tt
check_user_handle libs wa (some expected) (some got_b64) = do
  got ← decode_b64 libs wa got_b64
  require (got == expected) user_handle_mismatch
check_user_handle libs wa (some expected) none =
    if wa.require_user_handle then err user_handle_mismatch else ok tt

-- Step 5: the counter of the assertion against the stored one.
unfoldable pub check_counter : ℕ → ℕ → Result (Unit {0})
check_counter stored new =
    let either_nonzero = not (new == 0) || not (stored == 0) in
    require (not (either_nonzero && leb new stored)) (counter_replay stored new)

unfoldable pub finish_authentication :
    Libs
    → World
    → Webauthn
    → AuthenticationState
    → AuthenticationResponse
    → PasskeyCredential
    → Result AuthSuccess
finish_authentication libs world wa state response stored = do
  check_not_expired world state.created_at
  asserted_id ← decode_b64 libs wa response.id
  require (is_listed state.allow_credentials asserted_id) bad_signature
  require (asserted_id == stored.id.bytes) bad_signature
  check_user_handle libs wa state.user_handle response.user_handle
  cdj_raw ←
      validate libs response.client_data_json type_authenticate state.challenge wa.origin
        wa.strict_base64
  cdj_hash ← sha256_32 libs cdj_raw
  ad_bytes ← decode_b64 libs wa response.authenticator_data
  ad ← AuthData.parse libs ad_bytes
  want_rp_hash ← sha256_32 libs (as_bytes wa.rp_id.name)
  require (ad.rp_id_hash == want_rp_hash) rp_id_hash_mismatch
  require (user_present ad) user_not_present
  require (not (wa.require_uv && not (user_verified ad))) user_not_verified
  key ← Cose.parse libs stored.public_key_cose.bytes
  sig ← decode_b64 libs wa response.signature
  verify libs key (ad_bytes ++ cdj_hash) sig
  check_counter stored.counter ad.sign_count
  ok (record {
    credential_id = record { bytes = asserted_id };
    new_counter = ad.sign_count;
    user_verified = user_verified ad;
  })
