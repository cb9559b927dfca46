-- ===== src/Cose/Fields.antt =====
-- The loop of `CoseKey::parse` in src/cose.rs, by label.
use passkey_auth_rs.Prelude.{
  ℕ, Bool, true, false, ◌≡◌, refl, ◌∙◌, Option, none, some, List, arith, ℤ, ℤ_eq, nat_eq,
  if◌then◌else◌,
}
use passkey_auth_rs.Deps.{CborValue, CborEntries, end, entry}
use passkey_auth_rs.Cose.{
  label_kty, label_alg, label_crv, label_x, label_y, i64_of, bytes_of, KeyFields, no_fields, assign,
  assign_entry, collect, is_some_of,
}

abbrev later_or : Option CborValue → Bool → CborValue → Option CborValue
later_or (some w) here v = some w
later_or none here v = if here then some v else none

-- The value of the last entry whose key, as an `i64`, is `label`.
pub last_entry : ℤ → CborEntries → Option CborValue
last_entry label end = none
last_entry label (entry k v rest) = later_or (last_entry label rest) (is_some_of (i64_of k) label) v

-- What the variable of a label holds: the conversion of the last value, or what it held before.
abbrev pub pick {ℓ} : {A : Type ℓ} → (CborValue → Option A) → Option CborValue → Option A → Option A
pick convert none before = before
pick convert (some v) before = convert v

pick-later_or {ℓ} :
    {A : Type ℓ} (convert : CborValue → Option A) (later : Option CborValue) (here : Bool)
    (v : CborValue) (before : Option A)
    → pick convert later (if here then convert v else before)
      ≡ pick convert (later_or later here v) before
pick-later_or convert (some w) here v before = refl
pick-later_or convert none true v before = refl
pick-later_or convert none false v before = refl

module _ (o : Option ℤ) (v : CborValue) (f : KeyFields) where
  kty-assign : (assign_entry o v f).kty ≡ (if is_some_of o label_kty then i64_of v else f.kty)
  unfolding assign
  kty-assign = ground arith

  alg-assign : (assign_entry o v f).alg ≡ (if is_some_of o label_alg then i64_of v else f.alg)
  unfolding assign
  alg-assign = ground arith

  crv-assign : (assign_entry o v f).crv ≡ (if is_some_of o label_crv then i64_of v else f.crv)
  unfolding assign
  crv-assign = ground arith

  x-assign : (assign_entry o v f).x ≡ (if is_some_of o label_x then bytes_of v else f.x)
  unfolding assign
  x-assign = ground arith

  y-assign : (assign_entry o v f).y ≡ (if is_some_of o label_y then bytes_of v else f.y)
  unfolding assign
  y-assign = ground arith

-- One argument for the five variables: `get` reads the variable of `label`.
module _ {ℓ} {A : Type ℓ} (label : ℤ) (convert : CborValue → Option A) (get : KeyFields → Option A)
    (get-assign : (o : Option ℤ) (v : CborValue) (f : KeyFields)
      → get (assign_entry o v f) ≡ (if is_some_of o label then convert v else get f)) where
  get-collect :
      (f : KeyFields) (m : CborEntries)
      → get (collect f m) ≡ pick convert (last_entry label m) (get f)
  unfolding collect last_entry
  get-collect f end = refl
  get-collect f (entry k v rest) =
      get-collect (assign_entry (i64_of k) v f) rest
      ∙ rw (get-assign (i64_of k) v f) (pick-later_or convert (last_entry label rest) _ v (get f))

-- The integer, and the byte string, that the last entry with a label holds.
abbrev pub int_at : ℤ → CborEntries → Option ℤ
int_at label m = pick i64_of (last_entry label m) none

abbrev pub bytes_at : ℤ → CborEntries → Option (List ℕ)
bytes_at label m = pick bytes_of (last_entry label m) none

-- After the loop every variable holds what the last entry with its label holds.
pub collect_lem :
    (m : CborEntries)
    → collect no_fields m ≡ record {
      kty = int_at label_kty m;
      alg = int_at label_alg m;
      crv = int_at label_crv m;
      x = bytes_at label_x m;
      y = bytes_at label_y m;
    }
collect_lem m = λ i. record {
  kty = get-collect label_kty i64_of (λ f. f.kty) kty-assign no_fields m i;
  alg = get-collect label_alg i64_of (λ f. f.alg) alg-assign no_fields m i;
  crv = get-collect label_crv i64_of (λ f. f.crv) crv-assign no_fields m i;
  x = get-collect label_x bytes_of (λ f. f.x) x-assign no_fields m i;
  y = get-collect label_y bytes_of (λ f. f.y) y-assign no_fields m i;
}
