-- ===== src/Slice/Cursor.antt =====
-- Reading a slice from left to right: what lies behind a position, and how each access moves it.
use passkey_auth_rs.Prelude.{
  ℕ, suc, ◌+◌, ◌-◌, ◌≤◌, ◌<◌, ◌≡◌, refl, ap, sym, ◌∙◌, some, List, [], ◌∷◌, ◌++◌, arith, nat_eq,
  length, take, drop, get_elem?, length-append, length-drop, length-take, take-append,
  take-append-drop, drop-append_self, drop-drop, drop-get_elem?, get_elem?-drop, get_elem?-All, All,
}
use passkey_auth_rs.Error.{ok}
use passkey_auth_rs.Slice.{index, slice, slice_from, to_array, slice-eq-ok, slice_from-eq-ok}

-- `rest` is what lies from position `pos` on.
pub record At (bytes : List ℕ) (pos : ℕ) (rest : List ℕ) : Type 0 where
  pub inside : pos ≤ length bytes
  pub behind : drop pos bytes ≡ rest

pub At-zero : (bytes : List ℕ) → At bytes 0 bytes
At-zero bytes = record { inside = omega arith; behind = refl }

pub length-At :
    {bytes : List ℕ} {pos : ℕ} {rest : List ℕ}
    → At bytes pos rest
    → length bytes ≡ pos + length rest
length-At {bytes} {pos} at = omega (arith, length-drop pos bytes, ap length at.behind)

module _ (bytes s rest : List ℕ) (pos n end : ℕ) (size : length s ≡ n) (moved : end ≡ pos + n) where
  pub At-append : At bytes pos (s ++ rest) → At bytes end rest
  At-append at = record {
    inside = omega (arith, length-At at, length-append s rest);
    behind =
        rw moved
          (sym (drop-drop pos n bytes) ∙ ap (drop n) at.behind ∙ drop-append_self s rest n size);
  }

  pub slice-At : At bytes pos (s ++ rest) → slice bytes pos end ≡ ok s
  slice-At at =
      slice-eq-ok bytes pos end (omega arith) (omega (arith, length-At at, length-append s rest))
      ∙ ap (λ (t : List ℕ). ok (take (end - pos) t)) at.behind
      ∙ ap ok (take-append s rest (end - pos) (omega arith))

module _ (bytes rest : List ℕ) (b pos : ℕ) where
  pub At-cons : At bytes pos (b ∷ rest) → At bytes (pos + 1) rest
  At-cons = At-append bytes (b ∷ []) rest pos 1 (pos + 1) refl refl

  pub index-At : At bytes pos (b ∷ rest) → index bytes pos ≡ ok b
  unfolding index
  index-At at = ground (arith, get_elem?-drop bytes pos at.behind)

pub slice_from-At :
    {bytes rest : List ℕ} {pos : ℕ} → At bytes pos rest → slice_from bytes pos ≡ ok rest
slice_from-At {bytes} {pos} at = slice_from-eq-ok bytes pos at.inside ∙ ap ok at.behind

-- The other way: a successful access says what lay at the position.
get_elem?-of_index :
    (bytes : List ℕ) (i : ℕ) {b : ℕ} → index bytes i ≡ ok b → get_elem? bytes i ≡ some b
unfolding index
get_elem?-of_index bytes i h = ground arith

pub slice-inv :
    (bytes : List ℕ) (from to : ℕ) {s : List ℕ}
    → slice bytes from to ≡ ok s
    → (from ≤ to) × (to ≤ length bytes) × (s ≡ take (to - from) (drop from bytes))
unfolding slice
slice-inv bytes from to h = (ground arith, ground arith, ground arith)

pub to_array-inv :
    (n : ℕ) (bytes : List ℕ) {a : List ℕ}
    → to_array n bytes ≡ ok a
    → (a ≡ bytes) × (length bytes ≡ n)
unfolding to_array
to_array-inv n bytes h = (ground arith, ground arith)

module _ {bytes rest : List ℕ} {pos : ℕ} (at : At bytes pos rest) where
  pub At-of_index :
      (b : ℕ)
      → index bytes pos ≡ ok b
      → (more : List ℕ) × (rest ≡ b ∷ more) × At bytes (pos + 1) more
  At-of_index b h =
      let found = get_elem?-of_index bytes pos h in
      let split : rest ≡ b ∷ drop (suc pos) bytes =
        sym at.behind ∙ drop-get_elem? bytes pos found in
      (
        drop (suc pos) bytes,
        split,
        At-cons bytes (drop (suc pos) bytes) b pos
            (record { inside = at.inside; behind = at.behind ∙ split }),
      )

  pub At-of_slice :
      (end : ℕ) (s : List ℕ)
      → slice bytes pos end ≡ ok s
      → (more : List ℕ) × (rest ≡ s ++ more) × (end ≡ pos + length s) × At bytes end more
  At-of_slice end s h =
      let (ordered, fits, cut) = slice-inv bytes pos end h in
      let k : s ≡ take (end - pos) rest = cut ∙ ap (take (end - pos)) at.behind in
      let more = drop (end - pos) rest in
      let split : rest ≡ s ++ more =
        sym (take-append-drop (end - pos) rest) ∙ ap (λ (t : List ℕ). t ++ more) (sym k) in
      let size : length s ≡ end - pos =
        omega (arith, ap length k, length-take (end - pos) rest, length-At at) in
      (
        more,
        split,
        omega arith,
        At-append bytes s more pos (end - pos) end size (omega arith)
            (record { inside = at.inside; behind = at.behind ∙ split }),
      )

  pub At-of_slice_from : (s : List ℕ) → slice_from bytes pos ≡ ok s → s ≡ rest
  unfolding slice_from
  At-of_slice_from s h = ground (arith, at.behind)

-- What is read from a byte string is an octet.
pub index-lt :
    (bytes : List ℕ) (i b : ℕ) → All (λ x. x < 256) bytes → index bytes i ≡ ok b → b < 256
index-lt bytes i b octets h =
    get_elem?-All (λ x. x < 256) bytes i octets (get_elem?-of_index bytes i h)
