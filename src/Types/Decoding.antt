-- ===== src/Types/Decoding.antt =====
-- What the two base64 decoders of src/types.rs accept, and the encoders that they undo.
use passkey_auth_rs.Prelude.{String, ℕ, List, [], ◌∷◌, ◌≡◌, arith}
use passkey_auth_rs.Error.{Result, ok, err, base64, Try, success, failure, Returns, Returns-map_err}
use passkey_auth_rs.Deps.{Libs, IsBytes, Base64RoundTrips}
use passkey_auth_rs.Types.{
  CredentialId, b64url_decode, b64url_decode_strict, credential_to_b64url, from_b64url,
}

-- A list of decoders, tried in turn: the first success, or the failure of the last one.
abbrev pub first_success : List (Try (List ℕ)) → Result (List ℕ)
first_success [] = err (base64 "")
first_success (success v ∷ _) = ok v
first_success (failure e ∷ []) = err (base64 e)
first_success (failure _ ∷ more) = first_success more

module _ (libs : Libs) (s : String) where
  open libs use {url_no_pad_decode, url_pad_decode, std_no_pad_decode, std_pad_decode}

  -- Lenient decoding is the first success of the four alphabets, in the order url-safe without and
  -- with padding, standard without and with padding; if all fail, it is the error of the last.
  pub b64url_decode_lem :
      b64url_decode libs s
      ≡ first_success
          (url_no_pad_decode s ∷ url_pad_decode s ∷ std_no_pad_decode s ∷ std_pad_decode s ∷ [])
  unfolding b64url_decode
  b64url_decode_lem = ground arith

  -- What strict decoding accepts, lenient decoding decodes to the same bytes.
  pub b64url_decode_of_strict :
      {v : List ℕ} → b64url_decode_strict libs s ≡ ok v → b64url_decode libs s ≡ ok v
  unfolding b64url_decode b64url_decode_strict
  b64url_decode_of_strict h = ground arith

  pub b64url_decode-Returns : Returns (b64url_decode libs s)
  unfolding b64url_decode
  b64url_decode-Returns = ground arith

  pub b64url_decode_strict-Returns : Returns (b64url_decode_strict libs s)
  unfolding b64url_decode_strict
  b64url_decode_strict-Returns = Returns-map_err _ _

module _ (libs : Libs) (round_trips : Base64RoundTrips libs) (bytes : List ℕ)
    (octets : IsBytes bytes) where
  pub b64url_decode_strict-encode :
      b64url_decode_strict libs (libs.url_no_pad_encode bytes) ≡ ok bytes
  unfolding b64url_decode_strict
  b64url_decode_strict-encode = ground (arith, round_trips bytes octets)

  pub b64url_decode-encode : b64url_decode libs (libs.url_no_pad_encode bytes) ≡ ok bytes
  b64url_decode-encode = b64url_decode_of_strict libs _ b64url_decode_strict-encode

-- If base64url decodes what it encodes, a credential id of octets that is sent with `to_b64url`
-- comes back from `from_b64url` as it was.
pub from_b64url-credential_to_b64url :
    (libs : Libs) (id : CredentialId)
    → Base64RoundTrips libs
    → IsBytes id.bytes
    → from_b64url libs (credential_to_b64url libs id) ≡ ok id
unfolding from_b64url credential_to_b64url
from_b64url-credential_to_b64url libs id round_trips octets =
    ground (arith, b64url_decode-encode libs round_trips id.bytes octets)
