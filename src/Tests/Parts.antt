-- ===== src/Tests/Parts.antt =====
-- The parts that the ceremonies are made of.
use passkey_auth_rs.Prelude.{ℕ, true, ◌≡◌, ◌↔◌, refl, string_eq, arith, none, List, [], ◌∷◌}
use passkey_auth_rs.Error.{ok, success}
use passkey_auth_rs.Deps.{Parsed}
use passkey_auth_rs.Types.{Challenge, RpId, b64url_decode_strict}
use passkey_auth_rs.Types.RpIds.{
  trim, trim_start, trim_end, is_whitespace, is_refused, any_char, try_from_url,
}
use passkey_auth_rs.ClientData.{decoder, validate}
use passkey_auth_rs.ClientData.Acceptance.{Agrees, validate_iff}
use passkey_auth_rs.AuthData
use passkey_auth_rs.AuthData.{user_present, user_verified}
use passkey_auth_rs.AuthData.Layout.{layout, Fits}
use passkey_auth_rs.AuthData.Soundness.{parse_iff}
use passkey_auth_rs.Ceremony.Start.{
  start_authentication, start_authentication_with_creds, start_authentication_for_user,
  start_authentication_with_creds_for_user,
}
use passkey_auth_rs.Ceremony.Start.Sent.{SentAsKept, start_authentication-sent}
use passkey_auth_rs.Tests.Unary.{encode, decode, decode_from, prepend, repeat}
use passkey_auth_rs.Tests.Demo.{
  libs, world, challenge_bytes, created, created-IsBytes, round_trips, fills,
}
use passkey_auth_rs.Tests.Registering.{wa, credential}

-- ---------- authenticator data

parse_iff_example :
    (AuthData.parse libs (layout created []) ≡ ok created)
    ↔ ((rest : List ℕ) × (layout created [] ≡ layout created rest) × Fits libs created rest)
parse_iff_example = parse_iff libs (layout created []) created-IsBytes created

-- ---------- client data

abbrev challenge : Challenge
challenge = record { bytes = challenge_bytes }

validate_iff_example :
    (validate libs (encode (1 ∷ [])) "webauthn.create" challenge "https://example.com" true
      ≡ ok (1 ∷ []))
    ↔ ((p : Parsed) × (decoder libs true (encode (1 ∷ [])) ≡ ok (1 ∷ []))
        × (libs.from_slice (1 ∷ []) ≡ success p)
        × Agrees libs true "webauthn.create" challenge "https://example.com" p)
validate_iff_example =
    validate_iff libs true "webauthn.create" challenge "https://example.com" (encode (1 ∷ []))
      (1 ∷ [])

read_create : decoder libs true (encode (1 ∷ [])) ≡ ok (1 ∷ [])
unfolding decoder b64url_decode_strict encode repeat decode decode_from prepend
read_create = refl

read_get : decoder libs true (encode (2 ∷ [])) ≡ ok (2 ∷ [])
unfolding decoder b64url_decode_strict encode repeat decode decode_from prepend
read_get = refl

read_challenge : decoder libs true (encode challenge_bytes) ≡ ok challenge_bytes
unfolding decoder b64url_decode_strict encode repeat decode decode_from prepend
read_challenge = refl

-- ---------- checks

-- ---------- starting

start_authentication-sent_example :
    SentAsKept libs world wa (start_authentication libs world wa (credential.id ∷ []))
    × SentAsKept libs world wa (start_authentication_with_creds libs world wa (credential ∷ []))
    × SentAsKept libs world wa
        (start_authentication_for_user libs world wa (3 ∷ []) (credential.id ∷ []))
    × SentAsKept libs world wa
        (start_authentication_with_creds_for_user libs world wa (3 ∷ []) (credential ∷ []))
start_authentication-sent_example =
    start_authentication-sent libs world wa round_trips fills (3 ∷ []) (credential.id ∷ [])
      (credential ∷ []) ((omega arith, tt), tt) ((omega arith, tt), tt)

-- ---------- decoding

abbrev host : RpId
host = record { name = "example.com" }

no_url : libs.url_parse (trim " example.com") ≡ none
unfolding trim trim_start trim_end is_whitespace
no_url = refl

taken : try_from_url libs " example.com" ≡ ok host
unfolding try_from_url trim trim_start trim_end is_whitespace any_char is_refused
taken = refl
