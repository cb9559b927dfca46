-- ===== src/Servers/Everywhere.antt =====
-- What holds of every entry of a map of the servers under examples/.
use passkey_auth_rs.Prelude.{
  String, ◌≡◌, inl, inr, refl, Option, none, some, List, [], ◌∷◌, ◌==◌, string_eq, Bool-cases, All,
}
use mathlib.Core.Option.{some-injective}
use passkey_auth_rs.Servers.Table.{get_entry, set_entry, remove_entry, take_of, take_field}

module _ {A : Type 0} (P : String → A → Type 0) where
  abbrev pub Everywhere : List (String × A) → Type 0
  Everywhere = All (λ (entry : String × A). P entry.0 entry.1)

  pub set_entry-Everywhere :
      (entries : List (String × A)) (key : String) (new : A)
      → P key new
      → Everywhere entries
      → Everywhere (set_entry entries key new)
  unfolding set_entry
  set_entry-Everywhere [] key new h all = (h, tt)
  set_entry-Everywhere ((k, a) ∷ rest) key new h all = elim (Bool-cases (k == key)) [
    | inl here ↦ rw here (rw ((string_eq.same_iff k key).0 here) h, all.1)
    | inr other ↦ rw other (all.0, set_entry-Everywhere rest key new h all.1)
  ]

  pub remove_entry-Everywhere :
      (entries : List (String × A)) (key : String)
      → Everywhere entries
      → Everywhere (remove_entry entries key)
  unfolding remove_entry
  remove_entry-Everywhere [] key all = tt
  remove_entry-Everywhere ((k, a) ∷ rest) key all = elim (Bool-cases (k == key)) [
    | inl here ↦ rw here (remove_entry-Everywhere rest key all.1)
    | inr other ↦ rw other (all.0, remove_entry-Everywhere rest key all.1)
  ]

  pub get_entry-Everywhere :
      (entries : List (String × A)) (key : String) {a : A}
      → Everywhere entries
      → get_entry entries key ≡ some a
      → P key a
  unfolding get_entry
  get_entry-Everywhere [] key all h = cc
  get_entry-Everywhere ((k, b) ∷ rest) key {a} all h = elim (Bool-cases (k == key)) [
    | inl here ↦
        let same : b ≡ a = some-injective _ _ (rw here at h) in
        rw (← same) (rw (← (string_eq.same_iff k key).0 here) all.0)
    | inr other ↦ get_entry-Everywhere rest key all.1 (rw other at h)
  ]

  module _ {B : Type 0} (field : A → Option B) (clear : A → A)
      (keeps : (key : String) (a : A) → P key a → P key (clear a)) where
    take_of-Everywhere :
        (entries : List (String × A)) (key : String) (o : Option A)
        → Everywhere entries
        → get_entry entries key ≡ o
        → Everywhere (take_of field clear entries key o).0
    take_of-Everywhere entries key none all found = all
    take_of-Everywhere entries key (some a) all found =
        set_entry-Everywhere entries key (clear a)
          (keeps key a (get_entry-Everywhere entries key all found)) all

    pub take_field-Everywhere :
        (entries : List (String × A)) (key : String)
        → Everywhere entries
        → Everywhere (take_field field clear entries key).0
    unfolding take_field
    take_field-Everywhere entries key all =
        take_of-Everywhere entries key (get_entry entries key) all refl
