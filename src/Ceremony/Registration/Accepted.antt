-- ===== src/Ceremony/Registration/Accepted.antt =====
-- Which registrations `finish_registration` accepts, and the credential that it returns.
use passkey_auth_rs.Ceremony.Registration.Attested.{
  IsAttested, conclude-IsAttested, IsAttested-conclude, conclude-Returns,
}
use passkey_auth_rs.Prelude.{ℕ, true, ◌≡◌, ◌↔◌, List, ℤ_eq, nat_eq, list_eq, eq→beq, as_bytes}
use passkey_auth_rs.Error.{ok, step, Returns, Returns-bind}
use passkey_auth_rs.Deps.{Libs, World, Sha256HasSize, CborReadsWithin}
use passkey_auth_rs.Types.{RegistrationState, RegistrationResponse, PasskeyCredential}
use passkey_auth_rs.ClientData.{type_register, validate}
use passkey_auth_rs.ClientData.Acceptance.{validate-Returns}
use passkey_auth_rs.AuthData.{user_present, user_verified}
use passkey_auth_rs.Attestation
use passkey_auth_rs.Attestation.{ParsedAttestation}
use passkey_auth_rs.Attestation.NoPanic.{parse-Returns as att-Returns}
use passkey_auth_rs.Ceremony.{Webauthn, decode_b64, sha256_32, check_not_expired}
use passkey_auth_rs.Ceremony.Checks.{
  IsFresh, check_not_expired_iff, check_not_expired-Returns, uv_iff, decode_b64-Returns,
  sha256_32-eq-ok, check_ad-IsChecked, check_ad-Returns,
}
use passkey_auth_rs.Ceremony.Registration.{finish_registration}

module _ (libs : Libs) (world : World) (wa : Webauthn) (state : RegistrationState)
    (response : RegistrationResponse) where
  -- What an accepted registration has shown. `cred` is what the relying party keeps.
  pub record Registered (cred : PasskeyCredential) : Type 0 where
    pub fresh : IsFresh world state.created_at
    pub client_data : List ℕ
    pub validated :
        validate libs response.client_data_json type_register state.challenge wa.origin
          wa.strict_base64
        ≡ ok client_data
    pub att_bytes : List ℕ
    pub decoded : decode_b64 libs wa response.attestation_object ≡ ok att_bytes
    pub att : ParsedAttestation
    pub parsed : Attestation.parse libs att_bytes ≡ ok att
    pub for_rp : att.auth_data.rp_id_hash ≡ libs.sha256 (as_bytes wa.rp_id.name)
    pub present : user_present att.auth_data ≡ true
    pub verified : wa.require_uv ≡ true → user_verified att.auth_data ≡ true
    pub is_attested : IsAttested libs response att (libs.sha256 client_data) cred

  module _ (has_size : Sha256HasSize libs) where
    registered :
        (cred : PasskeyCredential)
        → finish_registration libs world wa state response ≡ ok cred
        → Registered cred
    unfolding finish_registration
    registered cred h = step (check_not_expired world state.created_at) _ h λ _ fresh h.
        step
          (validate libs response.client_data_json type_register state.challenge wa.origin
            wa.strict_base64)
          _ h
          λ cdj validated h.
            let h₁ = rw (sha256_32-eq-ok libs has_size cdj) at h in
            step (decode_b64 libs wa response.attestation_object) _ h₁ λ att_bytes decoded h.
              step (Attestation.parse libs att_bytes) _ h λ att parsed h.
                let h₂ = rw (sha256_32-eq-ok libs has_size (as_bytes wa.rp_id.name)) at h in
                let (c, h₃) = check_ad-IsChecked wa att.auth_data _ _ h₂ in
                record {
                  fresh = (check_not_expired_iff world state.created_at).0 fresh;
                  client_data = cdj;
                  validated = validated;
                  att_bytes = att_bytes;
                  decoded = decoded;
                  att = att;
                  parsed = parsed;
                  for_rp = c.for_rp;
                  present = c.present;
                  verified = c.verified;
                  is_attested = conclude-IsAttested libs response att _ cred h₃;
                }

    registers :
        (cred : PasskeyCredential)
        → Registered cred
        → finish_registration libs world wa state response ≡ ok cred
    unfolding finish_registration
    registers cred r =
        rw
          (
            (check_not_expired_iff world state.created_at).1 r.fresh,
            r.validated,
            sha256_32-eq-ok libs has_size r.client_data,
            r.decoded,
            r.parsed,
            sha256_32-eq-ok libs has_size (as_bytes wa.rp_id.name),
            eq→beq r.att.auth_data.rp_id_hash (libs.sha256 (as_bytes wa.rp_id.name)) r.for_rp,
            r.present,
            (uv_iff wa.require_uv (user_verified r.att.auth_data)).1 r.verified,
          )
          (IsAttested-conclude libs response r.att (libs.sha256 r.client_data) cred r.is_attested)

    -- If SHA-256 digests have 32 bytes: a registration is accepted exactly if its state is fresh,
    -- its client data was made for this ceremony and origin, its attestation object parses, its
    -- authenticator data is for this relying party with the user present (and verified, if that is
    -- required), it attests a credential with a COSE key, and its statement holds for that key;
    -- what is stored is the attested credential.
    pub finish_registration_iff :
        (cred : PasskeyCredential)
        → (finish_registration libs world wa state response ≡ ok cred) ↔ Registered cred
    finish_registration_iff cred = (registered cred, registers cred)

    -- If SHA-256 digests have 32 bytes and the CBOR reader stops inside its input,
    -- `finish_registration` returns a value or an error, and panics on no response.
    pub finish_registration-Returns :
        CborReadsWithin libs → Returns (finish_registration libs world wa state response)
    unfolding finish_registration
    finish_registration-Returns within =
        Returns-bind (check_not_expired world state.created_at) _ (check_not_expired-Returns _ _)
          λ _ _.
            Returns-bind
              (validate libs response.client_data_json type_register state.challenge wa.origin
                wa.strict_base64)
              _ (validate-Returns libs _ _ _ _ _)
              λ cdj _.
                Returns-bind (sha256_32 libs cdj) _ (rw (sha256_32-eq-ok libs has_size cdj) tt)
                  λ hash _.
                    Returns-bind (decode_b64 libs wa response.attestation_object) _
                      (decode_b64-Returns libs wa _)
                      λ att_bytes _.
                        Returns-bind (Attestation.parse libs att_bytes) _
                          (att-Returns libs within att_bytes)
                          λ att _.
                            Returns-bind (sha256_32 libs (as_bytes wa.rp_id.name)) _
                              (rw (sha256_32-eq-ok libs has_size (as_bytes wa.rp_id.name)) tt)
                              λ want _.
                                check_ad-Returns wa att.auth_data want _
                                  (conclude-Returns libs response att hash)
