-- ===== src/Ceremony/Completeness.antt =====
-- A login of src/ceremony.rs from its start to its end, with an authenticator that works as
-- WebAuthn says.
use passkey_auth_rs.Prelude.{
  ℕ, ◌+◌, ◌≤◌, true, false, ◌≡◌, inr, refl, some, List, [], ◌++◌, map, as_bytes,
}
use passkey_auth_rs.Error.{ok, success}
use passkey_auth_rs.Deps.{Libs, World, IsBytes, Base64RoundTrips, Sha256HasSize, FillsBuffers}
use passkey_auth_rs.Types.{
  AuthenticationChallenge, AuthenticationResponse, PasskeyCredential, random, now_secs,
  challenge_to_b64url,
}
use passkey_auth_rs.ClientData.{type_authenticate, decoder}
use passkey_auth_rs.ClientData.Acceptance.{validate_iff}
use passkey_auth_rs.AuthData.{AuthenticatorData, user_present, user_verified}
use passkey_auth_rs.AuthData.Layout.{layout, Fits, parse-layout}
use passkey_auth_rs.Cose
use passkey_auth_rs.Cose.{CoseKey}
use passkey_auth_rs.Crypto.Outcome.{IsSignature}
use passkey_auth_rs.Ceremony.{Webauthn, decode_b64}
use passkey_auth_rs.Ceremony.Checks.{Lists, Advances}
use passkey_auth_rs.Ceremony.Start.{start_authentication_with_creds_for_user, build_auth_challenge}
use passkey_auth_rs.Ceremony.Start.Sent.{decode_b64-encode}
use passkey_auth_rs.Ceremony.Authentication.{finish_authentication}
use passkey_auth_rs.Ceremony.Authentication.Accepted.{finish_authentication_iff}

module _ (libs : Libs) (wa : Webauthn) where
  -- What an authenticator and a browser make for a challenge, with the user verified.
  pub record Assertion (sent : AuthenticationChallenge) (cred : PasskeyCredential) : Type 0 where
    pub client_data : List ℕ
    pub is_json :
        libs.from_slice client_data
        ≡ success (record {
          kind = type_authenticate;
          challenge = sent.challenge;
          origin = wa.origin;
          cross_origin = false;
        })
    pub client_octets : IsBytes client_data
    pub ad : AuthenticatorData
    pub fits : Fits libs ad []
    pub ad_octets : IsBytes (layout ad [])
    pub for_rp : ad.rp_id_hash ≡ libs.sha256 (as_bytes wa.rp_id.name)
    pub present : user_present ad ≡ true
    pub verified : user_verified ad ≡ true
    pub key : CoseKey
    pub is_key : Cose.parse libs cred.public_key_cose.bytes ≡ ok key
    pub signature : List ℕ
    pub signature_octets : IsBytes signature
    pub signed : IsSignature libs key (layout ad [] ++ libs.sha256 client_data) signature
    pub advances : Advances cred.counter ad.sign_count

  -- The response that carries the assertion, and the user handle.
  abbrev pub answer :
      {sent : AuthenticationChallenge} {cred : PasskeyCredential}
      → Assertion sent cred
      → List ℕ
      → AuthenticationResponse
  answer {cred = cred} a handle = record {
    id = libs.url_no_pad_encode cred.id.bytes;
    authenticator_data = libs.url_no_pad_encode (layout a.ad []);
    signature = libs.url_no_pad_encode a.signature;
    client_data_json = libs.url_no_pad_encode a.client_data;
    user_handle = some (libs.url_no_pad_encode handle);
  }

  module _ (has_size : Sha256HasSize libs) (round_trips : Base64RoundTrips libs) where
    decoder-encode :
        (bytes : List ℕ)
        → IsBytes bytes
        → decoder libs wa.strict_base64 (libs.url_no_pad_encode bytes) ≡ ok bytes
    unfolding decoder decode_b64
    decoder-encode bytes octets = decode_b64-encode libs wa round_trips bytes octets

    -- If SHA-256 digests have 32 bytes, base64url decodes what it encodes and the random generator
    -- fills its buffers: when a login is started for a user with some credentials, and the
    -- challenge that was sent comes back within five minutes in a valid assertion by one of these
    -- credentials, with the user verified and the user handle, the login is accepted, and its
    -- outcome names the credential and the new counter.
    pub login-completes :
        (world world' : World) (handle : List ℕ) (creds : List PasskeyCredential)
        (cred : PasskeyCredential)
        (a : Assertion (start_authentication_with_creds_for_user libs world wa handle creds).0 cred)
        → FillsBuffers world
        → now_secs world' ≤ now_secs world + 300
        → IsBytes handle
        → IsBytes cred.id.bytes
        → Lists (map (λ c. c.id) creds) cred.id.bytes
        → finish_authentication libs world' wa
            (start_authentication_with_creds_for_user libs world wa handle creds).1
            (answer a handle)
            cred
          ≡ ok (record {
            credential_id = cred.id;
            new_counter = a.ad.sign_count;
            user_verified = true;
          })
    unfolding start_authentication_with_creds_for_user build_auth_challenge challenge_to_b64url
        random
    login-completes world world' handle creds cred a fills soon handle_octets id_octets listed =
        (finish_authentication_iff libs world' wa
            (start_authentication_with_creds_for_user libs world wa handle creds).1
            (answer a handle) cred has_size _).1
          (record {
            fresh = inr soon;
            is_stored = decode_b64-encode libs wa round_trips _ id_octets;
            allowed = inr listed;
            handle = decode_b64-encode libs wa round_trips handle handle_octets;
            client_data = a.client_data;
            validated =
                (validate_iff libs wa.strict_base64 type_authenticate (random world) wa.origin _
                    _).1
                  (
                    _,
                    decoder-encode a.client_data a.client_octets,
                    a.is_json,
                    record {
                      kind_same = refl;
                      challenge_same = decoder-encode (random world).bytes (fills.octets 32);
                      origin_same = refl;
                    },
                  );
            data_raw = layout a.ad [];
            decoded = decode_b64-encode libs wa round_trips _ a.ad_octets;
            ad = a.ad;
            parsed = parse-layout libs a.ad [] a.fits;
            for_rp = a.for_rp;
            present = a.present;
            verified = λ _. a.verified;
            key = a.key;
            is_key = a.is_key;
            signature = a.signature;
            is_signature = decode_b64-encode libs wa round_trips _ a.signature_octets;
            signed = a.signed;
            advances = a.advances;
            outcome = rw a.verified refl;
          })
