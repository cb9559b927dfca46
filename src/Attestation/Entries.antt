-- ===== src/Attestation/Entries.antt =====
-- The attestation statements of src/attestation.rs as maps: what the loops over `attStmt` read, by the
-- last entry with each name.
use text.Mathlib.TextEquality.{eq_iff}
use passkey_auth_rs.Prelude.{
  ℕ, String, false, ◌≡◌, ◌≢◌, ◌⊎◌, inr, refl, sym, ap, ap₂, ◌∙◌, Option, none, some, List, [], ◌∷◌,
  ◌==◌, string_eq, arith,
}
use passkey_auth_rs.Error.{ok, ok_or, ok_or-eq-ok, ok-injective, step}
use passkey_auth_rs.Deps.{CborValue, CborItems, nil, item, CborEntries, end, entry}
use passkey_auth_rs.Cose.{bytes_of}
use passkey_auth_rs.Attestation.{text_of}
use passkey_auth_rs.Attestation.Envelope.{or_else, read_if, last_named, any_value}
use passkey_auth_rs.Attestation.Statement.{array_of, collect_certs, StmtFields, assign_x5c}

-- ---------- certificates

-- A chain of certificates as the items of a CBOR array.
abbrev pub certs : List (List ℕ) → CborItems
certs [] = nil
certs (c ∷ cs) = item (CborValue.bytes c) (certs cs)

-- What an entry `x5c` with a chain holds.
abbrev pub x5c_value : Option (List (List ℕ)) → Option CborValue
x5c_value none = none
x5c_value (some chain) = some (CborValue.array (certs chain))

abbrev bytes_in : CborValue → List ℕ
bytes_in (CborValue.bytes b) = b
bytes_in _ = []

abbrev chain_in : CborItems → List (List ℕ)
chain_in nil = []
chain_in (item c rest) = bytes_in c ∷ chain_in rest

abbrev chain_of : Option CborValue → Option (List (List ℕ))
chain_of none = none
chain_of (some (CborValue.array items)) = some (chain_in items)
chain_of (some _) = none

chain_in-certs : (cs : List (List ℕ)) → chain_in (certs cs) ≡ cs
chain_in-certs [] = refl
chain_in-certs (c ∷ cs) = ap (λ l. c ∷ l) (chain_in-certs cs)

chain_of-x5c_value : (o : Option (List (List ℕ))) → chain_of (x5c_value o) ≡ o
chain_of-x5c_value none = refl
chain_of-x5c_value (some chain) = ap some (chain_in-certs chain)

pub x5c_value-injective : (o p : Option (List (List ℕ))) → x5c_value o ≡ x5c_value p → o ≡ p
x5c_value-injective o p e = sym (chain_of-x5c_value o) ∙ (ap chain_of e ∙ chain_of-x5c_value p)

bytes_of-eq-some : (v : CborValue) {b : List ℕ} → bytes_of v ≡ some b → v ≡ CborValue.bytes b
bytes_of-eq-some v h = ground arith

array_of-eq-some : (v : CborValue) {i : CborItems} → array_of v ≡ some i → v ≡ CborValue.array i
array_of-eq-some v h = ground arith

collect_certs-inv :
    (message : String) (items : CborItems) (out : List (List ℕ))
    → collect_certs message items ≡ ok out
    → items ≡ certs out
unfolding collect_certs
collect_certs-inv message nil out h = ap certs (ok-injective h)
collect_certs-inv message (item c rest) out h = step (ok_or (bytes_of c) _) _ h λ b is_bytes h.
    step (collect_certs message rest) _ h λ bs collected h.
      ap₂ item (bytes_of-eq-some c (ok_or-eq-ok _ _ is_bytes))
        (collect_certs-inv message rest bs collected)
      ∙ ap certs (ok-injective h)

pub collect_certs-certs :
    (message : String) (out : List (List ℕ)) → collect_certs message (certs out) ≡ ok out
unfolding collect_certs
collect_certs-certs message [] = refl
collect_certs-certs message (c ∷ cs) = rw (collect_certs-certs message cs) refl

-- The entry is not called `x5c`, or it holds an array of byte strings.
abbrev pub IsX5c : Option String → CborValue → Type 0
IsX5c none val = Unit
IsX5c (some key) val =
    (key ≢ "x5c") ⊎ ((chain : List (List ℕ)) × (val ≡ CborValue.array (certs chain)))

abbrev pub AreX5c : CborEntries → Type 0
AreX5c end = Unit
AreX5c (entry k val rest) = IsX5c (text_of k) val × AreX5c rest

-- The value that the last entry with a name has.
abbrev pub last : String → CborEntries → Option CborValue
last = last_named any_value

-- What is read from it; without one, what there was before.
abbrev pub read_last {ℓ} :
    {A : Type ℓ} → (CborValue → Option A) → Option CborValue → Option A → Option A
read_last read none before = before
read_last read (some val) before = read val

pub read_last_later {ℓ} :
    {A : Type ℓ} (read : CborValue → Option A) (later here : Option CborValue) (before : Option A)
    → read_last read later (read_last read here before) ≡ read_last read (or_else later here) before
read_last_later read none here before = refl
read_last_later read (some val) here before = refl

-- ---------- one entry

-- What an entry does to the variables that both formats have.
pub record Reads (key : Option String) (val : CborValue) (f g : StmtFields) : Type 0 where
  pub sig_is : g.sig ≡ read_last bytes_of (read_if any_value "sig" key val) f.sig
  pub x5c_is : x5c_value g.x5c ≡ or_else (read_if any_value "x5c" key val) (x5c_value f.x5c)
  pub is_x5c : IsX5c key val

pub not_named : (key name : String) → (key == name) ≡ false → key ≢ name
not_named key name h e = let hit = (eq_iff key name).1 e in cc

pub x5c-Reads :
    (fmt : String) (val : CborValue) (f g : StmtFields)
    → assign_x5c fmt val f ≡ ok g
    → Reads (some "x5c") val f g × (g.alg ≡ f.alg)
unfolding assign_x5c
x5c-Reads fmt val f g h = step (ok_or (array_of val) _) _ h λ items is_array h.
    step (collect_certs _ items) _ h λ out collected h.
      let same = ok-injective h in
      let shape : val ≡ CborValue.array (certs out) =
        array_of-eq-some val (ok_or-eq-ok _ _ is_array)
        ∙ ap CborValue.array (collect_certs-inv _ items out collected) in
      (
        record {
          sig_is = ap (λ (r : StmtFields). r.sig) (sym same);
          x5c_is = ap (λ (r : StmtFields). x5c_value r.x5c) (sym same) ∙ ap some (sym shape);
          is_x5c = inr (out, shape);
        },
        ap (λ (r : StmtFields). r.alg) (sym same),
      )
