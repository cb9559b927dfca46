-- ===== src/Tests/Completing.antt =====
-- A login from its start to its end.
use passkey_auth_rs.Prelude.{
  true, ◌≡◌, refl, arith, inl, inr, [], ◌∷◌, list_beq, test_bits, as_i64, as_bytes,
}
use passkey_auth_rs.Error.{ok}
use passkey_auth_rs.Slice.{to_array}
use passkey_auth_rs.Types.{challenge_to_b64url, random}
use passkey_auth_rs.AuthData.{user_present, user_verified}
use passkey_auth_rs.AuthData.Layout.{layout, Fits}
use passkey_auth_rs.Cose
use passkey_auth_rs.Cose.{es256, build, build_es256}
use passkey_auth_rs.Ceremony.Start.{start_authentication_with_creds_for_user, build_auth_challenge}
use passkey_auth_rs.Ceremony.Authentication.{finish_authentication}
use passkey_auth_rs.Ceremony.Completeness.{Assertion, answer, login-completes}
use passkey_auth_rs.Tests.Demo.{
  libs, world, coordinate, asserted, small, small-IsBytes, has_size, round_trips, fills,
}
use passkey_auth_rs.Tests.Registering.{wa, credential}

fitting : Fits libs asserted []
unfolding test_bits
fitting = record {
  hash_size = refl;
  count_size = omega arith;
  optional = refl;
  extensions = inl refl;
}

unfoldable assertion :
    Assertion libs wa
      (start_authentication_with_creds_for_user libs world wa (3 ∷ []) (credential ∷ [])).0
      credential
unfolding start_authentication_with_creds_for_user build_auth_challenge challenge_to_b64url random
    small user_present user_verified test_bits Cose.parse Cose.collect Cose.assign build build_es256
    as_i64 to_array list_beq as_bytes
assertion = record {
  client_data = 2 ∷ [];
  is_json = refl;
  client_octets = (omega arith, tt);
  ad = asserted;
  fits = fitting;
  ad_octets = small-IsBytes (layout asserted []) refl;
  for_rp = refl;
  present = refl;
  verified = refl;
  key = es256 (coordinate 1) (coordinate 2);
  is_key = refl;
  signature = 65 ∷ 69 ∷ [];
  signature_octets = (omega arith, (omega arith, tt));
  signed = (_, _, _, refl, refl, refl, refl);
  advances = inr (omega arith);
}

login-completes_example :
    finish_authentication libs world wa
      (start_authentication_with_creds_for_user libs world wa (3 ∷ []) (credential ∷ [])).1
      (answer libs wa assertion (3 ∷ []))
      credential
    ≡ ok (record { credential_id = credential.id; new_counter = 2; user_verified = true })
unfolding assertion
login-completes_example =
    login-completes libs wa has_size round_trips world world (3 ∷ []) (credential ∷ []) credential
      assertion fills (omega arith) (omega arith, tt) (omega arith, tt) (inl refl)
