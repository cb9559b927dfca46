-- ===== src/Slice.antt =====
-- Indexing and copying of Rust slices, with the panics that they can end in.
pub mod Cursor
use passkey_auth_rs.Prelude.{
  ℕ, zero, suc, ◌+◌, ◌-◌, ◌≤◌, ◌<◌, ◌≡◌, refl, ap, ◌∙◌, Option, none, some, List, [], ◌∷◌, ◌++◌,
  ◌&&◌, arith, leb, le→leb, ◌==◌, nat_eq, if◌then◌else◌, length, take, drop, get_elem?,
  get_elem?-lt, get_elem?-append, drop-append_self, take-append, length-append, length-drop,
  length-take,
}
use passkey_auth_rs.Error.{Result, ok, panic, Returns}

-- `bytes[i]`
unfoldable pub index : List ℕ → ℕ → Result ℕ
index bytes i = elim (get_elem? bytes i) [ none ↦ panic | some b ↦ ok b ]

-- `&bytes[from..to]`
unfoldable pub slice : List ℕ → ℕ → ℕ → Result (List ℕ)
slice bytes from to =
    if leb from to && leb to (length bytes) then ok (take (to - from) (drop from bytes)) else panic

-- `&bytes[from..]`
unfoldable pub slice_from : List ℕ → ℕ → Result (List ℕ)
slice_from bytes from = if leb from (length bytes) then ok (drop from bytes) else panic

-- `let mut a = [0u8; n]; a.copy_from_slice(bytes)`
unfoldable pub to_array : ℕ → List ℕ → Result (List ℕ)
to_array n bytes = if length bytes == n then ok bytes else panic

pub slice-eq-ok :
    (bytes : List ℕ) (from to : ℕ)
    → from ≤ to
    → to ≤ length bytes
    → slice bytes from to ≡ ok (take (to - from) (drop from bytes))
unfolding slice
slice-eq-ok bytes from to h k = ground arith

pub length-slice :
    (bytes : List ℕ) (from to : ℕ)
    → from ≤ to
    → to ≤ length bytes
    → length (take (to - from) (drop from bytes)) ≡ to - from
length-slice bytes from to h k =
    omega (arith, length-take (to - from) (drop from bytes), length-drop from bytes)

pub slice_from-eq-ok :
    (bytes : List ℕ) (from : ℕ) → from ≤ length bytes → slice_from bytes from ≡ ok (drop from bytes)
unfolding slice_from
slice_from-eq-ok bytes from h = ground arith

pub to_array-eq-ok : (n : ℕ) (bytes : List ℕ) → length bytes ≡ n → to_array n bytes ≡ ok bytes
unfolding to_array
to_array-eq-ok n bytes h = ground arith

pub index-eq-ok :
    (bytes : List ℕ) (i : ℕ)
    → i < length bytes
    → (b : ℕ) × (get_elem? bytes i ≡ some b) × (index bytes i ≡ ok b)
unfolding index
index-eq-ok bytes i h = let (b, e) = get_elem?-lt bytes i h in (b, e, rw (e, index) refl)

-- Cutting a part out of a concatenation.
pub slice-append :
    (xs ys zs : List ℕ) (n m : ℕ)
    → length xs ≡ n
    → length ys ≡ m
    → slice (xs ++ (ys ++ zs)) n (n + m) ≡ ok ys
slice-append xs ys zs n m hx hy =
    rw
      (slice-eq-ok (xs ++ (ys ++ zs)) n (n + m) (omega arith)
        (omega (arith, length-append xs (ys ++ zs), length-append ys zs)))
      (rw (drop-append_self xs (ys ++ zs) n hx)
        (ap ok (take-append ys zs (n + m - n) (omega arith))))

pub index-append :
    (xs ys : List ℕ) (n i : ℕ) → length xs ≡ n → index (xs ++ ys) (n + i) ≡ index ys i
unfolding index
index-append xs ys n i h = rw (get_elem?-append xs ys n i h, index) refl

pub slice_from-append : (xs ys : List ℕ) (n : ℕ) → length xs ≡ n → slice_from (xs ++ ys) n ≡ ok ys
slice_from-append xs ys n h =
    slice_from-eq-ok (xs ++ ys) n (omega (arith, length-append xs ys))
    ∙ ap ok (drop-append_self xs ys n h)

pub index-append_some :
    (xs ys : List ℕ) (n i : ℕ) {b : ℕ}
    → length xs ≡ n
    → get_elem? ys i ≡ some b
    → index (xs ++ ys) (n + i) ≡ ok b
unfolding index
index-append_some xs ys n i h e = rw (get_elem?-append xs ys n i h, e, index) refl

pub Returns-index : (bytes : List ℕ) (i : ℕ) → i < length bytes → Returns (index bytes i)
Returns-index bytes i h = let (b, _, e) = index-eq-ok bytes i h in rw e tt

pub Returns-slice :
    (bytes : List ℕ) (from to : ℕ) → from ≤ to → to ≤ length bytes → Returns (slice bytes from to)
Returns-slice bytes from to h k = rw (slice-eq-ok bytes from to h k) tt

pub Returns-slice_from :
    (bytes : List ℕ) (from : ℕ) → from ≤ length bytes → Returns (slice_from bytes from)
Returns-slice_from bytes from h = rw (slice_from-eq-ok bytes from h) tt

pub Returns-to_array : (n : ℕ) (bytes : List ℕ) → length bytes ≡ n → Returns (to_array n bytes)
Returns-to_array n bytes h = rw (to_array-eq-ok n bytes h) tt
