-- ===== src/Ceremony/Registration/Kept.antt =====
-- What of the response is in the credential that `finish_registration` returns.
use passkey_auth_rs.Prelude.{◌≡◌, ap, ◌∙◌, subst, some, length}
use passkey_auth_rs.Error.{ok}
use passkey_auth_rs.Deps.{Libs, World, Sha256HasSize}
use passkey_auth_rs.Types.{RegistrationState, RegistrationResponse, PasskeyCredential}
use passkey_auth_rs.AuthData.Sizes.{HasSize, parse-HasSize}
use passkey_auth_rs.Attestation.Envelope.{parse-IsEnvelope}
use passkey_auth_rs.Ceremony.{Webauthn}
use passkey_auth_rs.Ceremony.Registration.{finish_registration}
use passkey_auth_rs.Ceremony.Registration.Accepted.{finish_registration_iff}

module _ (libs : Libs) (has_size : Sha256HasSize libs) (world : World) (wa : Webauthn)
    (state : RegistrationState) (response : RegistrationResponse) where
  -- The transports are those of the response, as they were sent, and the AAGUID has 16 bytes.
  pub finish_registration-kept :
      (c : PasskeyCredential)
      → finish_registration libs world wa state response ≡ ok c
      → (c.transports ≡ response.transports) × (length c.aaguid ≡ 16)
  finish_registration-kept c accepted =
      let r = (finish_registration_iff libs world wa state response has_size c).0 accepted in
      let a = r.is_attested in
      let parsed = (parse-IsEnvelope libs r.att_bytes r.att r.parsed).data_parsed in
      let size : HasSize (some a.attested) =
        subst HasSize a.has_attested
          (parse-HasSize libs r.att.auth_data_raw r.att.auth_data parsed) in
      (ap (λ k. k.transports) a.stored, ap (λ k. length k.aaguid) a.stored ∙ size)
