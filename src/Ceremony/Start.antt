-- ===== src/Ceremony/Start.antt =====
-- src/ceremony.rs: the calls that start a ceremony.
pub mod Sent
use passkey_auth_rs.Prelude.{ℕ, String, none, some, List, [], ℤ, map}
use passkey_auth_rs.Deps.{Libs, World}
use passkey_auth_rs.Types.{
  CredentialId, CredentialDescriptor, PubKeyCredParam, RegistrationChallenge, RegistrationState,
  AuthenticationChallenge, AuthenticationState, PasskeyCredential, random, now_secs,
  challenge_to_b64url, credential_to_b64url,
}
use passkey_auth_rs.Ceremony.{
  Webauthn, as_token, uv_token, ceremony_timeout_ms, allowed_registration_algs,
}

module _ (libs : Libs) (world : World) (wa : Webauthn) where
  -- A descriptor without the hint at transports.
  unfoldable pub plain_descriptor : CredentialId → CredentialDescriptor
  plain_descriptor c = record {
    kind = "public-key";
    id = credential_to_b64url libs c;
    transports = [];
  }

  -- A descriptor with the transports of the stored credential.
  unfoldable pub full_descriptor : PasskeyCredential → CredentialDescriptor
  full_descriptor c = record {
    kind = "public-key";
    id = credential_to_b64url libs c.id;
    transports = c.transports;
  }

  unfoldable pub param_of : ℤ → PubKeyCredParam
  param_of alg = record { kind = "public-key"; alg = alg }

  unfoldable pub start_registration :
      List ℕ → String → String → List CredentialId → RegistrationChallenge × RegistrationState
  start_registration user_id user_name user_display_name existing =
      let challenge = random world in
      (
        record {
          challenge = challenge_to_b64url libs challenge;
          rp = record { id = wa.rp_id.name; name = wa.rp_name };
          user = record {
            id = libs.url_no_pad_encode user_id;
            name = user_name;
            display_name = user_display_name;
          };
          pub_key_cred_params = map param_of allowed_registration_algs;
          exclude_credentials = map plain_descriptor existing;
          timeout = ceremony_timeout_ms;
          authenticator_selection = record {
            authenticator_attachment = as_token wa.attachment;
            resident_key = some "preferred";
            user_verification = uv_token wa;
          };
          attestation = "none";
        },
        record { challenge = challenge; user_id = user_id; created_at = now_secs world },
      )

  unfoldable pub build_auth_challenge :
      List CredentialId → List CredentialDescriptor → AuthenticationChallenge × AuthenticationState
  build_auth_challenge ids descriptors =
      let challenge = random world in
      (
        record {
          challenge = challenge_to_b64url libs challenge;
          rp_id = wa.rp_id.name;
          timeout = ceremony_timeout_ms;
          allow_credentials = descriptors;
          user_verification = uv_token wa;
        },
        record {
          challenge = challenge;
          allow_credentials = ids;
          created_at = now_secs world;
          user_handle = none;
        },
      )

  unfoldable pub start_authentication :
      List CredentialId → AuthenticationChallenge × AuthenticationState
  start_authentication allow_credentials =
      build_auth_challenge allow_credentials (map plain_descriptor allow_credentials)

  unfoldable pub start_authentication_with_creds :
      List PasskeyCredential → AuthenticationChallenge × AuthenticationState
  start_authentication_with_creds allow_credentials =
      build_auth_challenge (map (λ c. c.id) allow_credentials)
        (map full_descriptor allow_credentials)

  unfoldable pub start_authentication_for_user :
      List ℕ → List CredentialId → AuthenticationChallenge × AuthenticationState
  start_authentication_for_user user_handle allow_credentials =
      let (chal, state) =
        build_auth_challenge allow_credentials (map plain_descriptor allow_credentials) in
      (chal, record state { user_handle = some user_handle })

  unfoldable pub start_authentication_with_creds_for_user :
      List ℕ → List PasskeyCredential → AuthenticationChallenge × AuthenticationState
  start_authentication_with_creds_for_user user_handle allow_credentials =
      let (chal, state) =
        build_auth_challenge (map (λ c. c.id) allow_credentials)
          (map full_descriptor allow_credentials) in
      (chal, record state { user_handle = some user_handle })
