-- ===== src/Cose.antt =====
-- src/cose.rs: parsing of COSE keys.
pub mod Fields
pub mod Accepted
pub mod Labels
use passkey_auth_rs.Prelude.{
  ℕ, ◌+◌, Bool, false, String, Option, none, some, List, ◌<>◌, ◌&&◌, ◌||◌, not, ℤ, pos, negsuc,
  as_i64, ◌==◌, nat_eq, ℤ_eq, if◌then◌else◌, length,
}
use passkey_auth_rs.Error.{
  cbor, unsupported_alg, Result, ok, err, ◌>>=◌, ◌>>◌, require, ok_or, map_err,
}
use passkey_auth_rs.Slice.{to_array}
use passkey_auth_rs.Deps.{Libs, CborValue, CborEntries, end, entry}

abbrev pub alg_es256 : ℤ
alg_es256 = negsuc 6

abbrev pub alg_eddsa : ℤ
alg_eddsa = negsuc 7

abbrev pub label_kty : ℤ
label_kty = pos 1

abbrev pub label_alg : ℤ
label_alg = pos 3

abbrev pub label_crv : ℤ
label_crv = negsuc 0

abbrev pub label_x : ℤ
label_x = negsuc 1

abbrev pub label_y : ℤ
label_y = negsuc 2

abbrev pub kty_okp : ℤ
kty_okp = pos 1

abbrev pub kty_ec2 : ℤ
kty_ec2 = pos 2

abbrev pub crv_p256 : ℤ
crv_p256 = pos 1

abbrev pub crv_ed25519 : ℤ
crv_ed25519 = pos 6

pub data CoseKey : Type 0 where
  es256 : List ℕ → List ℕ → CoseKey
  ed25519 : List ℕ → CoseKey

abbrev pub i64_of : CborValue → Option ℤ
i64_of (CborValue.integer i) = some (as_i64 i)
i64_of _ = none

abbrev pub bytes_of : CborValue → Option (List ℕ)
bytes_of (CborValue.bytes b) = some b
bytes_of _ = none

-- The five variables of the loop in `CoseKey::parse`.
pub record KeyFields : Type 0 where
  pub kty : Option ℤ
  pub alg : Option ℤ
  pub crv : Option ℤ
  pub x : Option (List ℕ)
  pub y : Option (List ℕ)

abbrev pub no_fields : KeyFields
no_fields = record { kty = none; alg = none; crv = none; x = none; y = none }

-- The `match key` of the loop body.
unfoldable pub assign : ℤ → CborValue → KeyFields → KeyFields
assign key val f =
    if key == label_kty
    then record f { kty = i64_of val }
    else if key == label_alg
    then record f { alg = i64_of val }
    else if key == label_crv
    then record f { crv = i64_of val }
    else if key == label_x
    then record f { x = bytes_of val }
    else if key == label_y
    then record f { y = bytes_of val }
    else f

-- Keys that are no integers are skipped.
abbrev assign_entry : Option ℤ → CborValue → KeyFields → KeyFields
assign_entry none val f = f
assign_entry (some key) val f = assign key val f

unfoldable pub collect : KeyFields → CborEntries → KeyFields
collect f end = f
collect f (entry k val rest) = collect (assign_entry (i64_of k) val f) rest

-- `crv != Some(..)`, negated.
abbrev pub is_some_of : Option ℤ → ℤ → Bool
is_some_of none c = false
is_some_of (some d) c = d == c

unfoldable pub build_es256 : KeyFields → Result CoseKey
build_es256 f = do
  require (is_some_of f.crv crv_p256) (cbor "cose: ES256 expects crv=P-256")
  xb ← ok_or f.x (cbor "cose: missing x")
  yb ← ok_or f.y (cbor "cose: missing y")
  require (length xb == 32 && length yb == 32) (cbor "cose: P-256 coords must be 32 bytes")
  xa ← to_array 32 xb
  ya ← to_array 32 yb
  ok (es256 xa ya)

unfoldable pub build_ed25519 : KeyFields → Result CoseKey
build_ed25519 f = do
  require (is_some_of f.crv crv_ed25519) (cbor "cose: EdDSA expects crv=Ed25519")
  xb ← ok_or f.x (cbor "cose: missing x")
  require (length xb == 32) (cbor "cose: Ed25519 key must be 32 bytes")
  k ← to_array 32 xb
  ok (ed25519 k)

-- The part of `CoseKey::parse` behind the loop.
unfoldable pub build : KeyFields → Result CoseKey
build f = do
  kty ← ok_or f.kty (cbor "cose: missing kty")
  alg ← ok_or f.alg (cbor "cose: missing alg")
  if kty == kty_ec2 && alg == alg_es256
      then build_es256 f
      else if kty == kty_okp && alg == alg_eddsa
      then build_ed25519 f
      else err (unsupported_alg alg)

abbrev pub map_of : CborValue → Option CborEntries
map_of (CborValue.map m) = some m
map_of _ = none

-- `CoseKey::parse`
unfoldable pub parse : Libs → List ℕ → Result CoseKey
parse libs bytes = do
  (v, _) ← map_err (libs.from_reader bytes) (λ e. cbor ("cose: " <> e))
  m ← ok_or (map_of v) (cbor "cose: top-level not a map")
  build (collect no_fields m)

-- `CoseKey::alg`
abbrev pub alg_of : CoseKey → ℤ
alg_of (es256 x y) = alg_es256
alg_of (ed25519 key) = alg_eddsa
