-- ===== src/Ceremony/Start/Sent.antt =====
-- What the browser decodes from the challenges that the `start_` calls send, against the state that
-- the server keeps.
use passkey_auth_rs.Prelude.{
  ℕ, String, ◌≡◌, inl, inr, refl, ap₂, List, [], ◌∷◌, map, length, All, Bool-cases,
}
use passkey_auth_rs.Error.{Result, ok}
use passkey_auth_rs.Deps.{Libs, World, IsBytes, Base64RoundTrips, FillsBuffers}
use passkey_auth_rs.Types.{
  CredentialId, CredentialDescriptor, RegistrationChallenge, RegistrationState,
  AuthenticationChallenge, AuthenticationState, PasskeyCredential, random, challenge_to_b64url,
  from_b64url,
}
use passkey_auth_rs.Types.Decoding.{
  from_b64url-credential_to_b64url, b64url_decode-encode, b64url_decode_strict-encode,
}
use passkey_auth_rs.Ceremony.{Webauthn, decode_b64}
use passkey_auth_rs.Ceremony.Start.{
  plain_descriptor, full_descriptor, start_registration, build_auth_challenge, start_authentication,
  start_authentication_with_creds, start_authentication_for_user,
  start_authentication_with_creds_for_user,
}

-- The ids are byte strings.
abbrev pub AreBytes : List CredentialId → Type 0
AreBytes = All (λ c. IsBytes c.bytes)

-- The identifiers that a browser reads from descriptors.
abbrev pub read_ids : Libs → List CredentialDescriptor → List (Result CredentialId)
read_ids libs = map (λ d. from_b64url libs d.id)

module _ (libs : Libs) (world : World) (wa : Webauthn) where
  -- What a started registration has sent is what its state keeps: the challenge, of 32 bytes; it
  -- excludes the existing credentials, in their order.
  abbrev pub ExcludesAndKeeps :
      List CredentialId → RegistrationChallenge × RegistrationState → Type 0
  ExcludesAndKeeps existing (sent, kept) =
      (decode_b64 libs wa sent.challenge ≡ ok kept.challenge.bytes)
      × (length kept.challenge.bytes ≡ 32)
      × (read_ids libs sent.exclude_credentials ≡ map ok existing)

  -- What a started authentication has sent is what its state keeps: the challenge, of 32 bytes, and
  -- the allowed credentials in their order.
  abbrev pub SentAsKept : AuthenticationChallenge × AuthenticationState → Type 0
  SentAsKept (sent, kept) =
      (decode_b64 libs wa sent.challenge ≡ ok kept.challenge.bytes)
      × (length kept.challenge.bytes ≡ 32)
      × (read_ids libs sent.allow_credentials ≡ map ok kept.allow_credentials)

-- Both decoders undo the encoder.
pub decode_b64-encode :
    (libs : Libs) (wa : Webauthn)
    → Base64RoundTrips libs
    → (bytes : List ℕ) → IsBytes bytes
    → decode_b64 libs wa (libs.url_no_pad_encode bytes) ≡ ok bytes
unfolding decode_b64
decode_b64-encode libs wa round_trips bytes octets = elim (Bool-cases wa.strict_base64) [
  | inl on ↦ rw on (b64url_decode_strict-encode libs round_trips bytes octets)
  | inr off ↦ rw off (b64url_decode-encode libs round_trips bytes octets)
]

module _ (libs : Libs) (world : World) (wa : Webauthn) (round_trips : Base64RoundTrips libs) where
  read_ids-plain :
      (ids : List CredentialId)
      → AreBytes ids
      → read_ids libs (map (plain_descriptor libs world wa) ids) ≡ map ok ids
  unfolding plain_descriptor
  read_ids-plain [] octets = refl
  read_ids-plain (c ∷ cs) octets =
      ap₂ ◌∷◌ (from_b64url-credential_to_b64url libs c round_trips octets.0)
        (read_ids-plain cs octets.1)

  read_ids-full :
      (creds : List PasskeyCredential)
      → AreBytes (map (λ c. c.id) creds)
      → read_ids libs (map (full_descriptor libs world wa) creds) ≡ map ok (map (λ c. c.id) creds)
  unfolding full_descriptor
  read_ids-full [] octets = refl
  read_ids-full (c ∷ cs) octets =
      ap₂ ◌∷◌ (from_b64url-credential_to_b64url libs c.id round_trips octets.0)
        (read_ids-full cs octets.1)

  module _ (fills : FillsBuffers world) where
    decode-challenge :
        decode_b64 libs wa (challenge_to_b64url libs (random world)) ≡ ok (random world).bytes
    unfolding challenge_to_b64url random
    decode-challenge = decode_b64-encode libs wa round_trips _ (fills.octets 32)

    -- If base64url decodes what it encodes and the random generator fills its buffers, a started
    -- registration sends the challenge that its state keeps, of 32 bytes, and excludes exactly the
    -- given credentials (ids of octets), in their order.
    pub start_registration-sent :
        (user_id : List ℕ) (user_name user_display_name : String) (existing : List CredentialId)
        → AreBytes existing
        → ExcludesAndKeeps libs world wa existing
            (start_registration libs world wa user_id user_name user_display_name existing)
    unfolding start_registration random
    start_registration-sent user_id user_name user_display_name existing octets =
        (decode-challenge, fills.size 32, read_ids-plain existing octets)

    -- If base64url decodes what it encodes and the random generator fills its buffers, all four
    -- ways to start an authentication send what they keep: the challenge, of 32 bytes, and the ids
    -- (of octets) of the allowed credentials, in their order.
    pub start_authentication-sent :
        (handle : List ℕ) (ids : List CredentialId) (creds : List PasskeyCredential)
        → AreBytes ids
        → AreBytes (map (λ c. c.id) creds)
        → SentAsKept libs world wa (start_authentication libs world wa ids)
          × SentAsKept libs world wa (start_authentication_with_creds libs world wa creds)
          × SentAsKept libs world wa (start_authentication_for_user libs world wa handle ids)
          × SentAsKept libs world wa
              (start_authentication_with_creds_for_user libs world wa handle creds)
    unfolding start_authentication start_authentication_with_creds start_authentication_for_user
        start_authentication_with_creds_for_user build_auth_challenge random
    start_authentication-sent handle ids creds ids_octets creds_octets =
        let plain : SentAsKept libs world wa (start_authentication libs world wa ids) =
          (decode-challenge, fills.size 32, read_ids-plain ids ids_octets) in
        let full : SentAsKept libs world wa (start_authentication_with_creds libs world wa creds) =
          (decode-challenge, fills.size 32, read_ids-full creds creds_octets) in
        (plain, full, plain, full)
