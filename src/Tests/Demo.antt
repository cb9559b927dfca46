-- ===== src/Tests/Demo.antt =====
-- Small crates that keep the laws which the theorems name: base64 is unary, a digest is the length of
-- its input, a signature is the length of its key and of its message, and the first byte of a CBOR
-- item, of client data or of a certificate names one of a few values.
use passkey_auth_rs.Prelude.{
  ℕ, zero, suc, ◌≡◌, refl, ap, String, Bool, true, false, Option, none, some, List, [], ◌∷◌, ◌++◌,
  arith, length, replicate, take, ◌==◌, nat_eq, list_eq, string_eq, if◌then◌else◌, pos, negsuc, ltb,
  ◌&&◌, ◌-◌, ◌^◌, ℤ,
}
use passkey_auth_rs.Tests.Unary.{encode, decode, decode-encode}
use passkey_auth_rs.Error.{Try, success, failure}
use passkey_auth_rs.Deps.{
  Libs, World, Parsed, Extension, Certificate, CborValue, nil, item, CborEntries, end, entry,
  IsBytes, Sha256HasSize, Base64RoundTrips, CborReadsWithin, CborReadsPrefix, FillsBuffers,
}
use passkey_auth_rs.AuthData.{AuthenticatorData, AttestedCredentialData}
use passkey_auth_rs.AuthData.Layout.{layout}

-- ---------- Values

abbrev pub coordinate : ℕ → List ℕ
coordinate n = replicate 32 n

-- The labels of a COSE key.
abbrev pub key_es : CborValue
key_es = CborValue.map (
    entry (CborValue.integer (pos 1)) (CborValue.integer (pos 2)) (
      entry (CborValue.integer (pos 3)) (CborValue.integer (negsuc 6)) (
        entry (CborValue.integer (negsuc 0)) (CborValue.integer (pos 1)) (
          entry (CborValue.integer (negsuc 1)) (CborValue.bytes (coordinate 1))
            (entry (CborValue.integer (negsuc 2)) (CborValue.bytes (coordinate 2)) end)))))

-- The same key with the label of the curve in front, spelled as the argument says.
abbrev pub without_crv : CborEntries
without_crv = entry (CborValue.integer (pos 1)) (CborValue.integer (pos 2)) (
    entry (CborValue.integer (pos 3)) (CborValue.integer (negsuc 6)) (
      entry (CborValue.integer (negsuc 1)) (CborValue.bytes (coordinate 1))
        (entry (CborValue.integer (negsuc 2)) (CborValue.bytes (coordinate 2)) end)))

abbrev pub crv_first : ℤ → CborValue
crv_first label =
    CborValue.map (entry (CborValue.integer label) (CborValue.integer (pos 1)) without_crv)

abbrev pub zeros : ℕ → List ℕ
zeros n = replicate n 0

abbrev pub digest : List ℕ → List ℕ
digest bytes = length bytes ∷ zeros 31

-- The hash of "example.com".
abbrev pub rp_hash : List ℕ
rp_hash = 11 ∷ zeros 31

abbrev pub attested : AttestedCredentialData
attested = record {
  aaguid = replicate 16 5;
  credential_id = record { bytes = 7 ∷ [] };
  public_key_cose = record { bytes = 0xa1 ∷ [] };
}

-- UP, UV and AT are set.
abbrev pub created : AuthenticatorData
created = record { rp_id_hash = rp_hash; flags = 69; sign_count = 1; attested = some attested }

-- UP and UV are set.
abbrev pub asserted : AuthenticatorData
asserted = record { rp_id_hash = rp_hash; flags = 5; sign_count = 2; attested = none }

abbrev pub envelope : String → CborValue → CborValue
envelope fmt stmt = CborValue.map (
    entry (CborValue.text "fmt") (CborValue.text fmt) (
      entry (CborValue.text "attStmt") stmt
        (entry (CborValue.text "authData") (CborValue.bytes (layout created [])) end)))

-- The key is 65 bytes long; the messages are 57 + 32 bytes for `packed`, 131 for `fido-u2f`.
abbrev pub self_stmt : CborValue
self_stmt = CborValue.map (
    entry (CborValue.text "alg") (CborValue.integer (negsuc 6))
      (entry (CborValue.text "sig") (CborValue.bytes (65 ∷ 89 ∷ [])) end))

abbrev pub u2f_stmt : CborValue
u2f_stmt = CborValue.map (
    entry (CborValue.text "sig") (CborValue.bytes (65 ∷ 131 ∷ []))
      (entry (CborValue.text "x5c") (CborValue.array (item (CborValue.bytes (0xc0 ∷ [])) nil)) end))

abbrev pub reader : List ℕ → Try (CborValue × ℕ)
reader [] = failure "empty"
reader (b ∷ _) =
    if b == 0xa1
    then success (key_es, 1)
    else if b == 0xa2
    then success (envelope "none" (CborValue.map end), 1)
    else if b == 0xa3
    then success (envelope "packed" self_stmt, 1)
    else if b == 0xa4
    then success (envelope "fido-u2f" u2f_stmt, 1)
    else if b == 0xa5
    then success (crv_first (pos (2 ^ 64 - 1 - 0)), 1)
    else if b == 0xa6
    then success (crv_first (negsuc 0), 1)
    else failure "reserved"

abbrev pub challenge_bytes : List ℕ
challenge_bytes = replicate 32 9

abbrev pub parsed : String → Parsed
parsed kind = record {
  kind = kind;
  challenge = encode challenge_bytes;
  origin = "https://example.com";
  cross_origin = false;
}

abbrev pub json : List ℕ → Try Parsed
json [] = failure "empty"
json (b ∷ _) =
    if b == 1
    then success (parsed "webauthn.create")
    else if b == 2
    then success (parsed "webauthn.get")
    else failure "no JSON"

abbrev pub aaguid_of : List ℕ → Extension
aaguid_of value = record { extn_id = "1.3.6.1.4.1.45724.1.1.4"; extn_value = value }

abbrev pub certificate : List ℕ → Certificate
certificate value = record {
  algorithm_oid = "1.2.840.10045.2.1";
  subject_public_key = some (0x04 ∷ (coordinate 3 ++ coordinate 4));
  extensions = some (aaguid_of value ∷ []);
}

abbrev pub x509 : List ℕ → Try Certificate
x509 [] = failure "empty"
x509 (b ∷ _) =
    if b == 0xc0
    then success (certificate (0x04 ∷ 0x10 ∷ replicate 16 5))
    else if b == 0xc1
    then success (certificate (0x04 ∷ []))
    else failure "DER"

abbrev pub url : String → Option (Option String)
url s = if s == "https://example.com" then some (some "example.com") else none

abbrev pub libs : Libs
libs = record {
  EncodedPoint = List ℕ;
  PublicKey = List ℕ;
  EsSignature = List ℕ;
  encoded_point = λ sec1. some sec1;
  public_key = λ point. some point;
  es_from_der = λ sig. some sig;
  es_verify = λ pk msg sig. sig == length pk ∷ length msg ∷ [];
  EdKey = List ℕ;
  EdSignature = List ℕ;
  ed_key = λ key. some key;
  ed_signature = λ sig. sig;
  ed_verify = λ vk msg sig. take 2 sig == length vk ∷ length msg ∷ [];
  sha256 = digest;
  url_no_pad_encode = encode;
  url_no_pad_decode = decode;
  url_pad_decode = decode;
  std_no_pad_decode = decode;
  std_pad_decode = decode;
  from_reader = reader;
  from_slice = json;
  url_parse = url;
  from_der = x509;
}

abbrev pub world : World
world = record { since_epoch = some 1000; fill_bytes = λ n. replicate n 9 }

-- ---------- The laws

pub has_size : Sha256HasSize libs
has_size bytes = refl

pub round_trips : Base64RoundTrips libs
round_trips bytes octets = decode-encode bytes

pub within : CborReadsWithin libs
within [] v n h = cc
within (b ∷ rest) v n h = ground arith

pub prefix : CborReadsPrefix libs
prefix [] rest v n h size = cc
prefix (b ∷ more) rest v n h size = h

filled : (n : ℕ) → length (world.fill_bytes n) ≡ n
filled zero = refl
filled (suc n) = ap suc (filled n)

octets : (n : ℕ) → IsBytes (world.fill_bytes n)
octets zero = tt
octets (suc n) = (omega arith, octets n)

pub fills : FillsBuffers world
fills = record { size = filled; octets = octets }

-- A list of literals is a byte string.
unfoldable pub small : List ℕ → Bool
small [] = true
small (b ∷ bytes) = ltb b 256 && small bytes

pub small-IsBytes : (bytes : List ℕ) → small bytes ≡ true → IsBytes bytes
unfolding small
small-IsBytes [] h = tt
small-IsBytes (b ∷ bytes) h = (ground arith, small-IsBytes bytes (ground arith))

pub created-IsBytes : IsBytes (layout created [])
unfolding small
created-IsBytes = small-IsBytes (layout created []) refl
