-- ===== src/AuthData/Flags.antt =====
-- The flag tests of src/auth_data.rs and the bits of the flags byte.
use passkey_auth_rs.Prelude.{◌/◌, ◌%◌, ◌<◌, ◌≡◌, ◌↔◌, true, test_bits-1_iff, test_bits-4_iff}
use passkey_auth_rs.AuthData.{AuthenticatorData, user_present, user_verified}

module _ (ad : AuthenticatorData) (octet : ad.flags < 256) where
  -- User presence is bit 0 of the flags, and nothing else of them.
  pub user_present_iff : (user_present ad ≡ true) ↔ (ad.flags % 2 ≡ 1)
  unfolding user_present
  user_present_iff = test_bits-1_iff ad.flags octet

  -- User verification is bit 2 of the flags, and nothing else of them.
  pub user_verified_iff : (user_verified ad ≡ true) ↔ (ad.flags / 4 % 2 ≡ 1)
  unfolding user_verified
  user_verified_iff = test_bits-4_iff ad.flags octet
