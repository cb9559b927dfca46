-- ===== src/Ceremony/Binding.antt =====
-- The responses of src/ceremony.rs and the ceremonies that they belong to: challenge and kind.
use passkey_auth_rs.Prelude.{
  ℕ, String, Bool, ◌≡◌, ◌≢◌, refl, sym, ap, ne_of_beq, string_eq, ◌∙◌, subst, List,
}
use passkey_auth_rs.Error.{ok, success, ok-injective}
use passkey_auth_rs.Deps.{Libs, World, Sha256HasSize}
use passkey_auth_rs.Types.{
  Challenge, AuthenticationState, AuthenticationResponse, RegistrationState, RegistrationResponse,
  PasskeyCredential, AuthSuccess,
}
use passkey_auth_rs.ClientData.{type_register, type_authenticate, validate, decoder}
use passkey_auth_rs.ClientData.Acceptance.{validate_iff}
use passkey_auth_rs.Ceremony.{Webauthn}
use passkey_auth_rs.Ceremony.Authentication.{finish_authentication}
use passkey_auth_rs.Ceremony.Authentication.Accepted.{finish_authentication_iff}
use passkey_auth_rs.Ceremony.Registration.{finish_registration}
use passkey_auth_rs.Ceremony.Registration.Accepted.{finish_registration_iff}

kinds_differ : type_register ≢ type_authenticate
kinds_differ = ne_of_beq type_register type_authenticate refl

success-injective {ℓ} : {A : Type ℓ} {a b : A} → success a ≡ success b → a ≡ b
success-injective h = cc

-- Client data is accepted for one type, challenge and origin only.
pub validate_unique :
    (libs : Libs) (encoded kind kind' : String) (c c' : Challenge) (origin origin' : String)
    (strict : Bool) (raw raw' : List ℕ)
    → validate libs encoded kind c origin strict ≡ ok raw
    → validate libs encoded kind' c' origin' strict ≡ ok raw'
    → (kind ≡ kind') × (c ≡ c') × (origin ≡ origin')
validate_unique libs encoded kind kind' c c' origin origin' strict raw raw' h h' =
    let (p, decoded, parsed, a) = (validate_iff libs strict kind c origin encoded raw).0 h in
    let (p', decoded', parsed', a') =
      (validate_iff libs strict kind' c' origin' encoded raw').0 h' in
    let same_raw : raw ≡ raw' = ok-injective (sym decoded ∙ decoded') in
    let same : p ≡ p' = success-injective (sym parsed ∙ ap libs.from_slice same_raw ∙ parsed') in
    (
      sym a.kind_same ∙ ap (λ q. q.kind) same ∙ a'.kind_same,
      ap (λ bytes. record { bytes = bytes })
          (ok-injective (
            sym a.challenge_same
            ∙ ap (λ q. decoder libs strict q.challenge) same
            ∙ a'.challenge_same)),
      sym a.origin_same ∙ ap (λ q. q.origin) same ∙ a'.origin_same,
    )

module _ (libs : Libs) (has_size : Sha256HasSize libs) (world world' : World) (wa : Webauthn) where
  -- If SHA-256 digests have 32 bytes: ceremonies of one relying party that accept the same
  -- assertion response were started with the same challenge, so a response cannot be carried from
  -- one challenge to another.
  pub finish_authentication-challenge :
      (state state' : AuthenticationState) (response : AuthenticationResponse)
      (stored stored' : PasskeyCredential) (s s' : AuthSuccess)
      → finish_authentication libs world wa state response stored ≡ ok s
      → finish_authentication libs world' wa state' response stored' ≡ ok s'
      → state.challenge ≡ state'.challenge
  finish_authentication-challenge state state' response stored stored' s s' h h' =
      let a = (finish_authentication_iff libs world wa state response stored has_size s).0 h in
      let b = (finish_authentication_iff libs world' wa state' response stored' has_size s').0 h' in
      let (_, same, _) = validate_unique libs _ _ _ _ _ _ _ _ _ _ a.validated b.validated in same

  -- If SHA-256 digests have 32 bytes: ceremonies of one relying party that accept the same
  -- registration response were started with the same challenge.
  pub finish_registration-challenge :
      (state state' : RegistrationState) (response : RegistrationResponse)
      (s s' : PasskeyCredential)
      → finish_registration libs world wa state response ≡ ok s
      → finish_registration libs world' wa state' response ≡ ok s'
      → state.challenge ≡ state'.challenge
  finish_registration-challenge state state' response s s' h h' =
      let a = (finish_registration_iff libs world wa state response has_size s).0 h in
      let b = (finish_registration_iff libs world' wa state' response has_size s').0 h' in
      let (_, same, _) = validate_unique libs _ _ _ _ _ _ _ _ _ _ a.validated b.validated in same

  -- If SHA-256 digests have 32 bytes: client data with which a relying party accepted a
  -- registration is client data of no authentication that it accepts.
  pub registration-ne-authentication :
      (state : RegistrationState) (response : RegistrationResponse) (cred : PasskeyCredential)
      (state' : AuthenticationState) (response' : AuthenticationResponse)
      (stored : PasskeyCredential) (s : AuthSuccess)
      → finish_registration libs world wa state response ≡ ok cred
      → finish_authentication libs world' wa state' response' stored ≡ ok s
      → response.client_data_json ≢ response'.client_data_json
  registration-ne-authentication state response cred state' response' stored s h h' same =
      let a = (finish_registration_iff libs world wa state response has_size cred).0 h in
      let b = (finish_authentication_iff libs world' wa state' response' stored has_size s).0 h' in
      let moved =
        subst
          (λ e.
            validate libs e type_register state.challenge wa.origin wa.strict_base64
            ≡ ok a.client_data)
          same a.validated in
      let (kinds, _, _) = validate_unique libs _ _ _ _ _ _ _ _ _ _ moved b.validated in
      kinds_differ kinds
