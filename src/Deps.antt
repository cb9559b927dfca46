-- ===== src/Deps.antt =====
-- The crates that passkey-auth calls: p256, ed25519-dalek, sha2, rand, base64, ciborium, serde_json,
-- url and x509-cert, as one record of operations, and the laws of theirs that theorems name.
mod Cbor
pub use Cbor.*
use passkey_auth_rs.Prelude.{ℕ, ◌≤◌, ◌<◌, ◌≡◌, String, Bool, Option, List, length, ◌++◌, All}
use passkey_auth_rs.Error.{Try, success}

-- A byte string: every item is an octet.
abbrev pub IsBytes : List ℕ → Type 0
IsBytes = All (λ b. b < 256)

-- `struct Parsed` of src/client_data.rs, which serde fills from JSON.
pub record Parsed : Type 0 where
  pub kind : String
  pub challenge : String
  pub origin : String
  pub cross_origin : Bool

-- The parts of an `x509_cert::Certificate` that the crate reads. Object identifiers are in dotted
-- notation; the key is `none` if its bit string has unused bits.
pub record Extension : Type 0 where
  pub extn_id : String
  pub extn_value : List ℕ

pub record Certificate : Type 0 where
  pub algorithm_oid : String
  pub subject_public_key : Option (List ℕ)
  pub extensions : Option (List Extension)

pub record Libs : Type 1 where
  -- p256
  pub EncodedPoint : Type 0
  pub PublicKey : Type 0
  pub EsSignature : Type 0
  pub encoded_point : List ℕ → Option EncodedPoint
  pub public_key : EncodedPoint → Option PublicKey
  pub es_from_der : List ℕ → Option EsSignature
  pub es_verify : PublicKey → List ℕ → EsSignature → Bool
  -- ed25519-dalek
  pub EdKey : Type 0
  pub EdSignature : Type 0
  pub ed_key : List ℕ → Option EdKey
  pub ed_signature : List ℕ → EdSignature
  pub ed_verify : EdKey → List ℕ → EdSignature → Bool
  -- sha2
  pub sha256 : List ℕ → List ℕ
  -- base64: URL_SAFE_NO_PAD, URL_SAFE, STANDARD_NO_PAD, STANDARD
  pub url_no_pad_encode : List ℕ → String
  pub url_no_pad_decode : String → Try (List ℕ)
  pub url_pad_decode : String → Try (List ℕ)
  pub std_no_pad_decode : String → Try (List ℕ)
  pub std_pad_decode : String → Try (List ℕ)
  -- ciborium: the first item of the input, and the position of the reader behind it
  pub from_reader : List ℕ → Try (CborValue × ℕ)
  -- serde_json, at `Parsed`
  pub from_slice : List ℕ → Try Parsed
  -- url: `none` if the text is no URL, and the host, if it has one
  pub url_parse : String → Option (Option String)
  -- x509-cert
  pub from_der : List ℕ → Try Certificate

-- What the operating system gives to one call: the time since the Unix epoch in seconds (`none` if
-- the clock stands before it), and the bytes with which `rand` fills a buffer of a given size.
pub record World : Type 0 where
  pub since_epoch : Option ℕ
  pub fill_bytes : ℕ → List ℕ

module _ (libs : Libs) where
  open libs use {sha256, url_no_pad_encode, url_no_pad_decode, from_reader}

  -- A SHA-256 digest has 32 bytes.
  abbrev pub Sha256HasSize : Type 0
  Sha256HasSize = (bytes : List ℕ) → length (sha256 bytes) ≡ 32

  -- base64url without padding decodes what it encodes.
  abbrev pub Base64RoundTrips : Type 0
  Base64RoundTrips =
      (bytes : List ℕ) → IsBytes bytes → url_no_pad_decode (url_no_pad_encode bytes) ≡ success bytes

  -- The CBOR reader stops inside its input.
  abbrev pub CborReadsWithin : Type 0
  CborReadsWithin =
      (bytes : List ℕ) (v : CborValue) (n : ℕ)
      → from_reader bytes ≡ success (v, n)
      → n ≤ length bytes

  -- It reads no byte behind the item: the item alone, or followed by anything, reads the same.
  abbrev pub CborReadsPrefix : Type 0
  CborReadsPrefix =
      (item rest : List ℕ) (v : CborValue) (n : ℕ)
      → from_reader item ≡ success (v, n)
      → n ≡ length item
      → from_reader (item ++ rest) ≡ success (v, n)

-- `fill_bytes` fills the whole buffer with octets.
pub record FillsBuffers (world : World) : Type 0 where
  pub size : (n : ℕ) → length (world.fill_bytes n) ≡ n
  pub octets : (n : ℕ) → IsBytes (world.fill_bytes n)
