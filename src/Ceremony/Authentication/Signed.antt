-- ===== src/Ceremony/Authentication/Signed.antt =====
-- The last steps of `finish_authentication`: the signature and the counter.
use passkey_auth_rs.Prelude.{ℕ, ◌≡◌, sym, List, ◌++◌}
use passkey_auth_rs.Error.{Result, ok, ◌>>=◌, ◌>>◌, ok-injective, step, Returns, Returns-bind}
use passkey_auth_rs.Deps.{Libs}
use passkey_auth_rs.Types.{AuthenticationResponse, PasskeyCredential, AuthSuccess}
use passkey_auth_rs.AuthData.{AuthenticatorData, user_verified}
use passkey_auth_rs.Cose
use passkey_auth_rs.Cose.{CoseKey}
use passkey_auth_rs.Cose.Accepted.{parse-IsSized, parse-Returns as key-Returns}
use passkey_auth_rs.Crypto.{verify}
use passkey_auth_rs.Crypto.Outcome.{IsSignature, verify_iff, verify-Returns}
use passkey_auth_rs.Ceremony.{Webauthn, decode_b64}
use passkey_auth_rs.Ceremony.Checks.{
  decode_b64-Returns, Advances, check_counter_iff, check_counter-Returns,
}
use passkey_auth_rs.Ceremony.Authentication.{check_counter}

module _ (libs : Libs) (wa : Webauthn) (response : AuthenticationResponse)
    (stored : PasskeyCredential) (asserted hash raw : List ℕ) (ad : AuthenticatorData) where
  -- The steps behind the checks of the authenticator data.
  abbrev pub conclude : Result AuthSuccess
  conclude = do
    key ← Cose.parse libs stored.public_key_cose.bytes
    sig ← decode_b64 libs wa response.signature
    verify libs key (raw ++ hash) sig
    check_counter stored.counter ad.sign_count
    ok (record {
      credential_id = record { bytes = asserted };
      new_counter = ad.sign_count;
      user_verified = user_verified ad;
    })

  -- What they have shown.
  pub record IsSigned (success : AuthSuccess) : Type 0 where
    pub key : CoseKey
    pub is_key : Cose.parse libs stored.public_key_cose.bytes ≡ ok key
    pub signature : List ℕ
    pub is_signature : decode_b64 libs wa response.signature ≡ ok signature
    pub signed : IsSignature libs key (raw ++ hash) signature
    pub advances : Advances stored.counter ad.sign_count
    pub outcome : success ≡ record {
      credential_id = record { bytes = asserted };
      new_counter = ad.sign_count;
      user_verified = user_verified ad;
    }

  pub conclude-IsSigned : (success : AuthSuccess) → conclude ≡ ok success → IsSigned success
  conclude-IsSigned success h =
      step (Cose.parse libs stored.public_key_cose.bytes) _ h λ key is_key h.
        step (decode_b64 libs wa response.signature) _ h λ sig is_signature h.
          step (verify libs key (raw ++ hash) sig) _ h λ _ signed h.
            step (check_counter stored.counter ad.sign_count) _ h λ _ advances h. record {
              key = key;
              is_key = is_key;
              signature = sig;
              is_signature = is_signature;
              signed = (verify_iff libs _ sig key (parse-IsSized libs _ key is_key)).0 signed;
              advances = (check_counter_iff _ _).0 advances;
              outcome = sym (ok-injective h);
            }

  pub conclude-Returns : Returns conclude
  conclude-Returns =
      Returns-bind (Cose.parse libs stored.public_key_cose.bytes) _ (key-Returns libs _)
        λ key is_key.
          Returns-bind (decode_b64 libs wa response.signature) _ (decode_b64-Returns libs wa _)
            λ sig _.
              Returns-bind (verify libs key (raw ++ hash) sig) _
                (verify-Returns libs _ sig key (parse-IsSized libs _ key is_key))
                λ _ _.
                  Returns-bind (check_counter stored.counter ad.sign_count) _
                    (check_counter-Returns _ _) (λ _ _. tt)
