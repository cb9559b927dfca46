-- ===== src/Ceremony/Strictness.antt =====
-- The builders of src/ceremony.rs that make a relying party stricter, and what it accepts with
-- them.
use passkey_auth_rs.Prelude.{ℕ, String, Bool, true, false, ◌≡◌, refl, Option, none, some, List}
use passkey_auth_rs.Error.{ok}
use passkey_auth_rs.Deps.{Libs, World, Sha256HasSize}
use passkey_auth_rs.Types.{
  Challenge, AuthenticationState, AuthenticationResponse, RegistrationState, RegistrationResponse,
  PasskeyCredential, AuthSuccess,
}
use passkey_auth_rs.Types.Decoding.{b64url_decode_of_strict}
use passkey_auth_rs.ClientData.{validate, decoder}
use passkey_auth_rs.ClientData.Acceptance.{validate_iff}
use passkey_auth_rs.Ceremony.{
  Webauthn, strict_base64, require_user_handle, require_user_verification, decode_b64,
}
use passkey_auth_rs.Ceremony.Checks.{HandleAgrees}
use passkey_auth_rs.Ceremony.Authentication.{finish_authentication}
use passkey_auth_rs.Ceremony.Authentication.Accepted.{finish_authentication_iff}
use passkey_auth_rs.Ceremony.Registration.{finish_registration}
use passkey_auth_rs.Ceremony.Registration.Accepted.{finish_registration_iff}

-- The relying party with the options of the builders reset.
abbrev pub relaxed : Webauthn → Webauthn
relaxed wa = strict_base64 (require_user_handle (require_user_verification wa false) false) false

decoder_relaxed :
    (libs : Libs) (strict : Bool) (s : String) {v : List ℕ}
    → decoder libs strict s ≡ ok v
    → decoder libs false s ≡ ok v
unfolding decoder
decoder_relaxed libs true s h = b64url_decode_of_strict libs s h
decoder_relaxed libs false s h = h

validate_relaxed :
    (libs : Libs) (strict : Bool) (kind : String) (c : Challenge) (origin encoded : String)
    {raw : List ℕ}
    → validate libs encoded kind c origin strict ≡ ok raw
    → validate libs encoded kind c origin false ≡ ok raw
validate_relaxed libs strict kind c origin encoded {raw} h =
    let (p, decoded, parsed, a) = (validate_iff libs strict kind c origin encoded raw).0 h in
    (validate_iff libs false kind c origin encoded raw).1 (
      p,
      decoder_relaxed libs strict encoded decoded,
      parsed,
      record {
        kind_same = a.kind_same;
        challenge_same = decoder_relaxed libs strict p.challenge a.challenge_same;
        origin_same = a.origin_same;
      },
    )

module _ (libs : Libs) (wa : Webauthn) where
  decode_relaxed :
      (s : String) {v : List ℕ}
      → decode_b64 libs wa s ≡ ok v
      → decode_b64 libs (relaxed wa) s ≡ ok v
  unfolding decode_b64 decoder strict_base64 require_user_handle require_user_verification
  decode_relaxed s h = decoder_relaxed libs wa.strict_base64 s h

  handle_relaxed :
      (expected : Option (List ℕ)) (got : Option String)
      → HandleAgrees libs wa expected got
      → HandleAgrees libs (relaxed wa) expected got
  unfolding strict_base64 require_user_handle require_user_verification
  handle_relaxed none got h = tt
  handle_relaxed (some expected) (some got) h = decode_relaxed got h
  handle_relaxed (some expected) none h = refl

  module _ (has_size : Sha256HasSize libs) (world : World) where
    -- If SHA-256 digests have 32 bytes: what a relying party authenticates, it authenticates with
    -- the same outcome when strict base64, required user handles and required user verification are
    -- all switched off.
    pub finish_authentication-relaxed :
        (state : AuthenticationState) (response : AuthenticationResponse)
        (stored : PasskeyCredential) (success : AuthSuccess)
        → finish_authentication libs world wa state response stored ≡ ok success
        → finish_authentication libs world (relaxed wa) state response stored ≡ ok success
    unfolding strict_base64 require_user_handle require_user_verification
    finish_authentication-relaxed state response stored success h =
        let a =
          (finish_authentication_iff libs world wa state response stored has_size success).0 h in
        (finish_authentication_iff libs world (relaxed wa) state response stored has_size success).1
          (record {
            fresh = a.fresh;
            is_stored = decode_relaxed _ a.is_stored;
            allowed = a.allowed;
            handle = handle_relaxed _ _ a.handle;
            client_data = a.client_data;
            validated = validate_relaxed libs wa.strict_base64 _ _ _ _ a.validated;
            data_raw = a.data_raw;
            decoded = decode_relaxed _ a.decoded;
            ad = a.ad;
            parsed = a.parsed;
            for_rp = a.for_rp;
            present = a.present;
            verified = λ required. cc;
            key = a.key;
            is_key = a.is_key;
            signature = a.signature;
            is_signature = decode_relaxed _ a.is_signature;
            signed = a.signed;
            advances = a.advances;
            outcome = a.outcome;
          })

    -- If SHA-256 digests have 32 bytes: what a relying party registers, it registers as the same
    -- credential when strict base64, required user handles and required user verification are all
    -- switched off.
    pub finish_registration-relaxed :
        (state : RegistrationState) (response : RegistrationResponse) (cred : PasskeyCredential)
        → finish_registration libs world wa state response ≡ ok cred
        → finish_registration libs world (relaxed wa) state response ≡ ok cred
    unfolding strict_base64 require_user_handle require_user_verification
    finish_registration-relaxed state response cred h =
        let r = (finish_registration_iff libs world wa state response has_size cred).0 h in
        (finish_registration_iff libs world (relaxed wa) state response has_size cred).1 (record {
          fresh = r.fresh;
          client_data = r.client_data;
          validated = validate_relaxed libs wa.strict_base64 _ _ _ _ r.validated;
          att_bytes = r.att_bytes;
          decoded = decode_relaxed _ r.decoded;
          att = r.att;
          parsed = r.parsed;
          for_rp = r.for_rp;
          present = r.present;
          verified = λ required. cc;
          is_attested = r.is_attested;
        })
