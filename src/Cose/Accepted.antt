-- ===== src/Cose/Accepted.antt =====
-- Which COSE keys `CoseKey::parse` accepts, and what it makes of them.
use passkey_auth_rs.Prelude.{ℕ, ◌≡◌, ◌↔◌, ap, ◌∙◌, subst, some, List, arith, ℤ_eq, nat_eq, length}
use mathlib.Core.Path.{subst⁻¹}
use passkey_auth_rs.Error.{
  ok, Returns, Returns-bind, Returns-map_err, Returns-ok_or, ok_or, map_err, map_err-eq-ok,
  ok_or-eq-ok, success, step,
}
use passkey_auth_rs.Slice.{to_array}
use passkey_auth_rs.Deps.{Libs, CborValue, CborEntries}
use passkey_auth_rs.Cose.{
  alg_es256, alg_eddsa, label_kty, label_alg, label_crv, label_x, label_y, kty_ec2, kty_okp,
  crv_p256, crv_ed25519, CoseKey, es256, ed25519, KeyFields, no_fields, collect, build_es256,
  build_ed25519, build, map_of, parse,
}
use passkey_auth_rs.Cose.Fields.{int_at, bytes_at, collect_lem}

-- The coordinates of a key have 32 bytes.
abbrev pub IsSized : CoseKey → Type 0
IsSized (es256 x y) = (length x ≡ 32) × (length y ≡ 32)
IsSized (ed25519 key) = length key ≡ 32

-- A COSE_Key map of RFC 8152 that carries the key, by the last entry with each label.
abbrev pub Carries : CborEntries → CoseKey → Type 0
Carries m (es256 x y) =
    (int_at label_kty m ≡ some kty_ec2)
    × (int_at label_alg m ≡ some alg_es256)
    × (int_at label_crv m ≡ some crv_p256)
    × (bytes_at label_x m ≡ some x)
    × (bytes_at label_y m ≡ some y)
Carries m (ed25519 key) =
    (int_at label_kty m ≡ some kty_okp)
    × (int_at label_alg m ≡ some alg_eddsa)
    × (int_at label_crv m ≡ some crv_ed25519)
    × (bytes_at label_x m ≡ some key)

-- The variables of the loop, as `build` accepts them.
abbrev Holds : KeyFields → CoseKey → Type 0
Holds f (es256 x y) =
    (f.kty ≡ some kty_ec2)
    × (f.alg ≡ some alg_es256)
    × (f.crv ≡ some crv_p256)
    × (f.x ≡ some x)
    × (f.y ≡ some y)
Holds f (ed25519 key) =
    (f.kty ≡ some kty_okp)
    × (f.alg ≡ some alg_eddsa)
    × (f.crv ≡ some crv_ed25519)
    × (f.x ≡ some key)

build_sound : (f : KeyFields) (key : CoseKey) → build f ≡ ok key → Holds f key × IsSized key
unfolding build build_es256 build_ed25519 to_array
build_sound f (es256 x y) h = ground arith
build_sound f (ed25519 k) h = ground arith

build_complete : (f : KeyFields) (key : CoseKey) → Holds f key → IsSized key → build f ≡ ok key
unfolding build build_es256 build_ed25519 to_array
build_complete f (es256 x y) h s = ground arith
build_complete f (ed25519 k) h s = ground arith

build-Returns : (f : KeyFields) → Returns (build f)
unfolding build build_es256 build_ed25519 to_array
build-Returns f = ground arith

pub map_of-eq-some : (v : CborValue) {m : CborEntries} → map_of v ≡ some m → v ≡ CborValue.map m
map_of-eq-some v h = ground arith

module _ (libs : Libs) (bytes : List ℕ) where
  -- `CoseKey::parse` accepts exactly the byte strings that begin with a CBOR map that carries a key of
  -- one of the two kinds, with coordinates of 32 bytes; it returns that key.
  pub parse-CoseKey_iff :
      (key : CoseKey)
      → (parse libs bytes ≡ ok key) ↔ (
          (m : CborEntries) × (n : ℕ) × (libs.from_reader bytes ≡ success (CborValue.map m, n))
          × Carries m key
          × IsSized key)
  unfolding parse
  parse-CoseKey_iff key = (
    (λ h. step (map_err (libs.from_reader bytes) _) _ h λ (v, n) read h.
        step (ok_or (map_of v) _) _ h λ m is_map h.
          let (held, sized) = build_sound (collect no_fields m) key h in
          (
            m,
            n,
            map_err-eq-ok _ _ read
                ∙ ap (λ (w : CborValue). success (w, n))
                    (map_of-eq-some v (ok_or-eq-ok _ _ is_map)),
            carried m key (subst (λ (f : KeyFields). Holds f key) (collect_lem m) held),
            sized,
          )),
    (λ (m, n, read, carries, sized). rw read (
        build_complete (collect no_fields m) key
          (subst⁻¹ (λ (f : KeyFields). Holds f key) (collect_lem m) (held m key carries)) sized)),
  )
    where
      carried :
          (m : CborEntries) (key : CoseKey)
          → Holds
              (record {
                kty = int_at label_kty m;
                alg = int_at label_alg m;
                crv = int_at label_crv m;
                x = bytes_at label_x m;
                y = bytes_at label_y m;
              })
              key
          → Carries m key
      carried m (es256 x y) h = h
      carried m (ed25519 k) h = h

      held :
          (m : CborEntries) (key : CoseKey)
          → Carries m key
          → Holds
              (record {
                kty = int_at label_kty m;
                alg = int_at label_alg m;
                crv = int_at label_crv m;
                x = bytes_at label_x m;
                y = bytes_at label_y m;
              })
              key
      held m (es256 x y) h = h
      held m (ed25519 k) h = h

  pub parse-Returns : Returns (parse libs bytes)
  unfolding parse
  parse-Returns =
      Returns-bind (map_err (libs.from_reader bytes) _) _ (Returns-map_err _ _) λ (v, n) _.
        Returns-bind (ok_or (map_of v) _) _ (Returns-ok_or _ _)
          λ m _. build-Returns (collect no_fields m)

  pub parse-IsSized : (key : CoseKey) → parse libs bytes ≡ ok key → IsSized key
  parse-IsSized key h = let (_, _, _, _, sized) = (parse-CoseKey_iff key).0 h in sized
