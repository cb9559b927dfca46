-- ===== src/Error.antt =====
-- src/error.rs: the crate's errors, and the result of a function that returns `Result<T>`.
use passkey_auth_rs.Prelude.{
  ℕ, String, Bool, true, false, ◌≡◌, refl, Option, none, some, ℤ, ◌<>◌, show_nat, show_int,
}

pub data Error : Type 0 where
  base64 : String → Error
  client_data : String → Error
  client_data_type : String → String → Error
  challenge_mismatch : Error
  origin_mismatch : String → String → Error
  rp_id_hash_mismatch : Error
  user_not_present : Error
  user_not_verified : Error
  auth_data : String → Error
  cbor : String → Error
  unsupported_alg : ℤ → Error
  bad_signature : Error
  counter_replay : ℕ → ℕ → Error
  ceremony_expired : ℕ → ℕ → Error
  user_handle_mismatch : Error
  internal : String → Error

-- The text of an error, as `thiserror` derives it from the attributes.
pub display : Error → String
display (base64 e) = "invalid base64url: " <> e
display (client_data e) = "clientDataJSON parse failed: " <> e
display (client_data_type expected actual) =
    "clientDataJSON.type mismatch: expected " <> expected <> ", got " <> actual
display challenge_mismatch = "challenge mismatch"
display (origin_mismatch expected actual) =
    "origin mismatch: expected " <> expected <> ", got " <> actual
display rp_id_hash_mismatch = "rpIdHash mismatch"
display user_not_present = "user-present flag not set"
display user_not_verified = "user-verified flag not set"
display (auth_data e) = "authenticatorData parse failed: " <> e
display (cbor e) = "CBOR decode failed: " <> e
display (unsupported_alg alg) = "unsupported COSE algorithm: " <> show_int alg
display bad_signature = "signature verification failed"
display (counter_replay stored new) =
    "counter went backwards (stored="
    <> show_nat stored
    <> ", new="
    <> show_nat new
    <> "): possible cloned credential"
display (ceremony_expired age max) =
    "ceremony state expired (" <> show_nat age <> " seconds old, max " <> show_nat max <> ")"
display user_handle_mismatch =
    "user handle mismatch: assertion is for a different user than the ceremony was started for"
display (internal e) = "internal: " <> e

-- `panic` is what an index out of bounds and a `copy_from_slice` of the wrong length end in.
pub data Result {ℓ} (A : Type ℓ) : Type ℓ where
  panic : Result A
  err : Error → Result A
  ok : A → Result A

module _ {ℓ} {B : Type ℓ} where
  infixl 5 ◌>>=◌
  infixl 5 ◌>>◌
  -- The `?` operator.
  abbrev pub ◌>>=◌ {κ} : {A : Type κ} → Result A → (A → Result B) → Result B
  panic >>= next = panic
  err e >>= next = err e
  ok a >>= next = next a

  abbrev pub ◌>>◌ : Result (Unit {0}) → Result B → Result B
  check >> next = check >>= λ done. next

-- `if !test { return Err(e) }`
abbrev pub require : Bool → Error → Result (Unit {0})
require true e = ok tt
require false e = err e

-- `option.ok_or(e)`
abbrev pub ok_or {ℓ} : {A : Type ℓ} → Option A → Error → Result A
ok_or none e = err e
ok_or (some a) e = ok a

-- What a function of another crate returns: a value, or an error that the crate only displays.
pub data Try {ℓ} (A : Type ℓ) : Type ℓ where
  success : A → Try A
  failure : String → Try A

-- `result.map_err(|e| f(e.to_string()))`
abbrev pub map_err {ℓ} : {A : Type ℓ} → Try A → (String → Error) → Result A
map_err (success a) f = ok a
map_err (failure e) f = err (f e)

-- Inversion of successful steps.
pub >>=-eq-ok {ℓ κ} :
    {A : Type ℓ} {B : Type κ} (m : Result A) (next : A → Result B) {result : B}
    → (m >>= next) ≡ ok result
    → (value : A) × (m ≡ ok value) × (next value ≡ ok result)
>>=-eq-ok panic next h = cc
>>=-eq-ok (err e) next h = cc
>>=-eq-ok (ok value) next h = (value, refl, h)

pub >>-eq-ok {ℓ} :
    {B : Type ℓ} (test : Bool) (e : Error) (k : Result B) {b : B}
    → (require test e >> k) ≡ ok b
    → (test ≡ true) × (k ≡ ok b)
>>-eq-ok true e k h = (refl, h)
>>-eq-ok false e k h = cc

-- The same in continuation form: the values are variables for what follows.
pub step {ℓ κ μ} :
    {A : Type ℓ} {B : Type κ} {C : Type μ} (m : Result A) (f : A → Result B) {b : B}
    → (m >>= f) ≡ ok b
    → ((a : A) → m ≡ ok a → f a ≡ ok b → C)
    → C
step (ok a) f h k = k a refl h
step (err e) f h k = cc
step panic f h k = cc

pub check {ℓ μ} :
    {B : Type ℓ} {C : Type μ} (test : Bool) (e : Error) (k : Result B) {b : B}
    → (require test e >> k) ≡ ok b
    → (test ≡ true → k ≡ ok b → C)
    → C
check true e k h c = c refl h
check false e k h c = cc

pub require-eq-ok : (test : Bool) (e : Error) {u : Unit {0}} → require test e ≡ ok u → test ≡ true
require-eq-ok true e h = refl
require-eq-ok false e h = cc

pub map_err-eq-ok {ℓ} :
    {A : Type ℓ} (t : Try A) (f : String → Error) {a : A} → map_err t f ≡ ok a → t ≡ success a
map_err-eq-ok (success b) f h = cc
map_err-eq-ok (failure e) f h = cc

pub ok_or-eq-ok {ℓ} :
    {A : Type ℓ} (o : Option A) (e : Error) {a : A} → ok_or o e ≡ ok a → o ≡ some a
ok_or-eq-ok none e h = cc
ok_or-eq-ok (some b) e h = cc

pub ok-injective {ℓ} : {A : Type ℓ} {a b : A} → ok a ≡ ok b → a ≡ b
ok-injective h = cc

-- A computation that does not panic.
abbrev pub Returns {ℓ} : {A : Type ℓ} → Result A → Type 0
Returns (ok a) = Unit
Returns (err e) = Unit
Returns panic = ⊥

pub Returns-bind {ℓ κ} :
    {A : Type ℓ} {B : Type κ} (m : Result A) (f : A → Result B)
    → Returns m
    → ((a : A) → m ≡ ok a → Returns (f a))
    → Returns (m >>= f)
Returns-bind (ok a) f h k = k a refl
Returns-bind (err e) f h k = tt
Returns-bind panic f h k = h

pub Returns-require {ℓ} :
    {B : Type ℓ} (test : Bool) (e : Error) (k : Result B)
    → (test ≡ true → Returns k)
    → Returns (require test e >> k)
Returns-require true e k h = h refl
Returns-require false e k h = tt

pub Returns-map_err {ℓ} : {A : Type ℓ} (t : Try A) (f : String → Error) → Returns (map_err t f)
Returns-map_err (success a) f = tt
Returns-map_err (failure e) f = tt

pub Returns-ok_or {ℓ} : {A : Type ℓ} (o : Option A) (e : Error) → Returns (ok_or o e)
Returns-ok_or none e = tt
Returns-ok_or (some a) e = tt
