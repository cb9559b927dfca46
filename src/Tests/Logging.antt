-- ===== src/Tests/Logging.antt =====
-- Logins with the credential that was registered.
use passkey_auth_rs.Prelude.{
  true, ◌≡◌, ◌≢◌, ◌↔◌, refl, arith, some, [], ◌∷◌, list_beq, list_eq, any, as_bytes, as_i64,
  test_bits,
}
use passkey_auth_rs.Error.{ok, err, counter_replay, Returns}
use passkey_auth_rs.Slice.{index, slice, slice_from, to_array}
use passkey_auth_rs.Types.{
  AuthenticationState, AuthenticationResponse, AuthSuccess, b64url_decode_strict, now_secs,
}
use passkey_auth_rs.ClientData.{decoder, check_parsed, validate}
use passkey_auth_rs.AuthData
use passkey_auth_rs.AuthData.{
  parse_attested, parse_optional, check_extensions, cose_blob_length, user_present, user_verified,
}
use passkey_auth_rs.AuthData.Layout.{layout}
use passkey_auth_rs.Cose
use passkey_auth_rs.Cose.{build, build_es256, build_ed25519}
use passkey_auth_rs.Crypto.{verify, verify_es256}
use passkey_auth_rs.Ceremony.{decode_b64, sha256_32, check_not_expired}
use passkey_auth_rs.Ceremony.Authentication.{
  is_listed, check_user_handle, check_counter, finish_authentication,
}
use passkey_auth_rs.Ceremony.Authentication.Accepted.{
  Authenticated, finish_authentication_iff, finish_authentication-Returns,
}
use passkey_auth_rs.Ceremony.Authentication.Replay.{updated, finish_authentication-replayed}
use passkey_auth_rs.Ceremony.Sessions.{Logins, no_login, login, Logins-never_again}
use passkey_auth_rs.Ceremony.Binding.{
  finish_authentication-challenge, registration-ne-authentication,
}
use passkey_auth_rs.Ceremony.Strictness.{relaxed, finish_authentication-relaxed}
use passkey_auth_rs.Tests.Unary.{encode, decode, decode_from, prepend, repeat}
use passkey_auth_rs.Tests.Demo.{libs, world, challenge_bytes, asserted, has_size, within}
use passkey_auth_rs.Tests.Registering
use passkey_auth_rs.Tests.Registering.{wa, credential, registers}

abbrev pub state : AuthenticationState
state = record {
  challenge = record { bytes = challenge_bytes };
  allow_credentials = record { bytes = 8 ∷ [] } ∷ record { bytes = 7 ∷ [] } ∷ [];
  created_at = 800;
  user_handle = some (3 ∷ []);
}

abbrev pub response : AuthenticationResponse
response = record {
  id = encode (7 ∷ []);
  authenticator_data = encode (layout asserted []);
  signature = encode (65 ∷ 69 ∷ []);
  client_data_json = encode (2 ∷ []);
  user_handle = some (encode (3 ∷ []));
}

abbrev pub success : AuthSuccess
success = record {
  credential_id = record { bytes = 7 ∷ [] };
  new_counter = 2;
  user_verified = true;
}

pub accepted : finish_authentication libs world wa state response credential ≡ ok success
unfolding finish_authentication check_not_expired now_secs validate decoder check_parsed
    b64url_decode_strict decode_b64 sha256_32 to_array encode repeat decode decode_from prepend
    list_beq is_listed check_user_handle any AuthData.parse index slice slice_from parse_optional
    check_extensions user_present user_verified test_bits as_bytes Cose.parse Cose.collect
    Cose.assign build build_es256 as_i64 verify verify_es256 check_counter
accepted = refl

finish_authentication_iff_example :
    (finish_authentication libs world wa state response credential ≡ ok success)
    ↔ Authenticated libs world wa state response credential success
finish_authentication_iff_example =
    finish_authentication_iff libs world wa state response credential has_size success

finish_authentication-Returns_example :
    Returns (finish_authentication libs world wa state response credential)
finish_authentication-Returns_example =
    finish_authentication-Returns libs world wa state response credential has_size within

finish_authentication-replayed_example :
    finish_authentication libs world wa state response (updated credential success)
    ≡ err (counter_replay 2 2)
finish_authentication-replayed_example =
    finish_authentication-replayed libs has_size world wa state response credential success
      (λ e. omega (arith, e)) accepted

once_logged_in : Logins libs wa credential (updated credential success)
once_logged_in =
    login world state response credential (updated credential success) success accepted
      (no_login (updated credential success))

Logins-never_again_example :
    finish_authentication libs world wa state response (updated credential success) ≢ ok success
Logins-never_again_example =
    Logins-never_again libs wa has_size world state response credential success world state success
      (λ e. omega (arith, e)) accepted (no_login (updated credential success))

finish_authentication-challenge_example : state.challenge ≡ state.challenge
finish_authentication-challenge_example =
    finish_authentication-challenge libs has_size world world wa state state response credential
      credential success success accepted accepted

registration-ne-authentication_example :
    (Registering.response 0xa2).client_data_json ≢ response.client_data_json
registration-ne-authentication_example =
    registration-ne-authentication libs has_size world world wa Registering.state
      (Registering.response 0xa2) credential state response credential success registers.0 accepted

finish_authentication-relaxed_example :
    finish_authentication libs world (relaxed wa) state response credential ≡ ok success
finish_authentication-relaxed_example =
    finish_authentication-relaxed libs wa has_size world state response credential success accepted
