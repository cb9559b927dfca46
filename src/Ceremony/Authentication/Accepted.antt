-- ===== src/Ceremony/Authentication/Accepted.antt =====
-- Which assertions `finish_authentication` accepts, and the outcome that it returns.
use passkey_auth_rs.Ceremony.Authentication.Signed.{conclude-IsSigned, conclude-Returns}
use passkey_auth_rs.Prelude.{
  ℕ, true, ◌≡◌, ◌↔◌, ◌⊎◌, refl, List, [], ◌++◌, ◌==◌, nat_eq, list_eq, list_beq_iff, eq→beq,
  as_bytes,
}
use passkey_auth_rs.Error.{ok, step, check, Returns, Returns-bind, Returns-require}
use passkey_auth_rs.Deps.{Libs, World, Sha256HasSize, CborReadsWithin}
use passkey_auth_rs.Types.{
  AuthenticationState, AuthenticationResponse, PasskeyCredential, AuthSuccess,
}
use passkey_auth_rs.ClientData.{type_authenticate, validate}
use passkey_auth_rs.ClientData.Acceptance.{validate-Returns}
use passkey_auth_rs.AuthData
use passkey_auth_rs.AuthData.{AuthenticatorData, user_present, user_verified}
use passkey_auth_rs.AuthData.NoPanic.{parse-Returns as ad-Returns}
use passkey_auth_rs.Cose
use passkey_auth_rs.Cose.{CoseKey}
use passkey_auth_rs.Cose.Accepted.{parse-IsSized}
use passkey_auth_rs.Crypto.Outcome.{IsSignature, verify_iff}
use passkey_auth_rs.Ceremony.{Webauthn, decode_b64, sha256_32, check_not_expired}
use passkey_auth_rs.Ceremony.Checks.{
  IsFresh, check_not_expired_iff, check_not_expired-Returns, uv_iff, decode_b64-Returns,
  sha256_32-eq-ok, Lists, is_listed_iff, HandleAgrees, check_user_handle_iff,
  check_user_handle-Returns, Advances, check_counter_iff, check_ad-IsChecked, check_ad-Returns,
}
use passkey_auth_rs.Ceremony.Authentication.{is_listed, check_user_handle, finish_authentication}

module _ (libs : Libs) (world : World) (wa : Webauthn) (state : AuthenticationState)
    (response : AuthenticationResponse) (stored : PasskeyCredential) where
  -- What an accepted assertion has shown.
  pub record Authenticated (success : AuthSuccess) : Type 0 where
    pub fresh : IsFresh world state.created_at
    pub is_stored : decode_b64 libs wa response.id ≡ ok stored.id.bytes
    pub allowed : (state.allow_credentials ≡ []) ⊎ Lists state.allow_credentials stored.id.bytes
    pub handle : HandleAgrees libs wa state.user_handle response.user_handle
    pub client_data : List ℕ
    pub validated :
        validate libs response.client_data_json type_authenticate state.challenge wa.origin
          wa.strict_base64
        ≡ ok client_data
    pub data_raw : List ℕ
    pub decoded : decode_b64 libs wa response.authenticator_data ≡ ok data_raw
    pub ad : AuthenticatorData
    pub parsed : AuthData.parse libs data_raw ≡ ok ad
    pub for_rp : ad.rp_id_hash ≡ libs.sha256 (as_bytes wa.rp_id.name)
    pub present : user_present ad ≡ true
    pub verified : wa.require_uv ≡ true → user_verified ad ≡ true
    pub key : CoseKey
    pub is_key : Cose.parse libs stored.public_key_cose.bytes ≡ ok key
    pub signature : List ℕ
    pub is_signature : decode_b64 libs wa response.signature ≡ ok signature
    pub signed : IsSignature libs key (data_raw ++ libs.sha256 client_data) signature
    pub advances : Advances stored.counter ad.sign_count
    pub outcome : success ≡ record {
      credential_id = stored.id;
      new_counter = ad.sign_count;
      user_verified = user_verified ad;
    }

  module _ (has_size : Sha256HasSize libs) where
    authenticated :
        (success : AuthSuccess)
        → finish_authentication libs world wa state response stored ≡ ok success
        → Authenticated success
    unfolding finish_authentication
    authenticated success h = step (check_not_expired world state.created_at) _ h λ _ fresh h.
        step (decode_b64 libs wa response.id) _ h λ asserted is_id h.
          check (is_listed state.allow_credentials asserted) _ _ h λ listed h.
            check (asserted == stored.id.bytes) _ _ h λ same h.
              let is_stored : asserted ≡ stored.id.bytes = (list_beq_iff _ _).0 same in
              step (check_user_handle libs wa state.user_handle response.user_handle) _ h
                λ _ handle h.
                  step
                    (validate libs response.client_data_json type_authenticate state.challenge
                      wa.origin wa.strict_base64)
                    _ h
                    λ cdj validated h.
                      let h₁ = rw (sha256_32-eq-ok libs has_size cdj) at h in
                      step (decode_b64 libs wa response.authenticator_data) _ h₁ λ raw decoded h.
                        step (AuthData.parse libs raw) _ h λ ad parsed h.
                          let h₂ =
                            rw (sha256_32-eq-ok libs has_size (as_bytes wa.rp_id.name)) at h in
                          let (c, h₃) = check_ad-IsChecked wa ad _ _ h₂ in
                          let s =
                            conclude-IsSigned libs wa response stored asserted _ raw ad success
                              h₃ in
                          record {
                            fresh = (check_not_expired_iff world state.created_at).0 fresh;
                            is_stored = rw (← is_stored) is_id;
                            allowed = rw (← is_stored) ((is_listed_iff _ _).0 listed);
                            handle = (check_user_handle_iff libs wa _ _).0 handle;
                            client_data = cdj;
                            validated = validated;
                            data_raw = raw;
                            decoded = decoded;
                            ad = ad;
                            parsed = parsed;
                            for_rp = c.for_rp;
                            present = c.present;
                            verified = c.verified;
                            key = s.key;
                            is_key = s.is_key;
                            signature = s.signature;
                            is_signature = s.is_signature;
                            signed = s.signed;
                            advances = s.advances;
                            outcome = rw (← is_stored) s.outcome;
                          }

    authenticates :
        (success : AuthSuccess)
        → Authenticated success
        → finish_authentication libs world wa state response stored ≡ ok success
    unfolding finish_authentication
    authenticates success a =
        rw
          (
            (check_not_expired_iff world state.created_at).1 a.fresh,
            a.is_stored,
            (is_listed_iff state.allow_credentials stored.id.bytes).1 a.allowed,
            eq→beq stored.id.bytes stored.id.bytes refl,
            (check_user_handle_iff libs wa state.user_handle response.user_handle).1 a.handle,
            a.validated,
            sha256_32-eq-ok libs has_size a.client_data,
            a.decoded,
            a.parsed,
            sha256_32-eq-ok libs has_size (as_bytes wa.rp_id.name),
            eq→beq a.ad.rp_id_hash (libs.sha256 (as_bytes wa.rp_id.name)) a.for_rp,
            a.present,
            (uv_iff wa.require_uv (user_verified a.ad)).1 a.verified,
            a.is_key,
            a.is_signature,
            (verify_iff libs (a.data_raw ++ libs.sha256 a.client_data) a.signature a.key
                  (parse-IsSized libs _ a.key a.is_key)).1
                a.signed,
            (check_counter_iff stored.counter a.ad.sign_count).1 a.advances,
            a.outcome,
          )
          refl

    -- If SHA-256 digests have 32 bytes: an assertion is accepted exactly if its state is fresh, it
    -- names the stored credential, which the ceremony allows, its user handle agrees, its client
    -- data was made for this ceremony and origin, its authenticator data is for this relying party
    -- with the user present (and verified, if that is required), the stored key signed both, and
    -- the counter moved forward or stays at 0; the outcome names that credential, the new counter
    -- and the verification.
    pub finish_authentication_iff :
        (success : AuthSuccess)
        → (finish_authentication libs world wa state response stored ≡ ok success)
          ↔ Authenticated success
    finish_authentication_iff success = (authenticated success, authenticates success)

    -- If SHA-256 digests have 32 bytes and the CBOR reader stops inside its input,
    -- `finish_authentication` returns a value or an error, and panics on no response.
    pub finish_authentication-Returns :
        CborReadsWithin libs → Returns (finish_authentication libs world wa state response stored)
    unfolding finish_authentication
    finish_authentication-Returns within =
        Returns-bind (check_not_expired world state.created_at) _ (check_not_expired-Returns _ _)
          λ _ _.
            Returns-bind (decode_b64 libs wa response.id) _ (decode_b64-Returns libs wa _)
              λ asserted _. Returns-require (is_listed state.allow_credentials asserted) _ _ λ _.
                Returns-require (asserted == stored.id.bytes) _ _ λ _.
                  Returns-bind (check_user_handle libs wa state.user_handle response.user_handle) _
                    (check_user_handle-Returns libs wa _ _)
                    λ _ _.
                      Returns-bind
                        (validate libs response.client_data_json type_authenticate state.challenge
                          wa.origin wa.strict_base64)
                        _ (validate-Returns libs _ _ _ _ _)
                        λ cdj _.
                          Returns-bind (sha256_32 libs cdj) _
                            (rw (sha256_32-eq-ok libs has_size cdj) tt)
                            λ hash _.
                              Returns-bind (decode_b64 libs wa response.authenticator_data) _
                                (decode_b64-Returns libs wa _)
                                λ raw _.
                                  Returns-bind (AuthData.parse libs raw) _
                                    (ad-Returns libs within raw)
                                    λ ad _.
                                      Returns-bind (sha256_32 libs (as_bytes wa.rp_id.name)) _
                                        (rw (sha256_32-eq-ok libs has_size (as_bytes wa.rp_id.name))
                                          tt)
                                        λ want _. check_ad-Returns wa ad want _ (
                                          conclude-Returns libs wa response stored asserted hash raw
                                            ad)
