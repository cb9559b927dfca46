-- ===== src/Tests/Tables.antt =====
-- A database of two lists that keeps the laws of the SQL statements.
use passkey_auth_rs.Prelude.{
  ◌≢◌, beq_ne, ℕ, String, ◌≡◌, inl, inr, refl, sym, ap, ◌∙◌, Option, none, some, List, [], ◌∷◌,
  ◌==◌, nat_eq, string_eq, list_eq, beq_refl, Bool-cases, length, if◌then◌else◌,
}
use mathlib.Core.Option.{some-injective}
use passkey_auth_rs.Error.{Try, success, failure}
use passkey_auth_rs.SqlStore.{Sql, SqlLaws, Row}

pub record Tables : Type 0 where
  pub users : List (List ℕ × String)
  pub rows : List Row

unfoldable pub find_user : List (List ℕ × String) → String → Option (List ℕ)
find_user [] name = none
find_user ((handle, n) ∷ users) name = if n == name then some handle else find_user users name

unfoldable pub find_row : List Row → List ℕ → Option Row
find_row [] id = none
find_row (row ∷ rows) id = if row.id == id then some row else find_row rows id

unfoldable pub of_user : List Row → List ℕ → List Row
of_user [] user_id = []
of_user (row ∷ rows) user_id =
    let rest = of_user rows user_id in if row.user_id == user_id then row ∷ rest else rest

unfoldable pub renumber : List Row → ℕ → List ℕ → List Row
renumber [] counter id = []
renumber (row ∷ rows) counter id =
    let rest = renumber rows counter id in
    if row.id == id then record row { counter = counter } ∷ rest else row ∷ rest

abbrev pub insert_user_of : Tables → List ℕ → String → Option (List ℕ) → Try Tables
insert_user_of db handle name (some old) = failure "UNIQUE constraint failed: users.username"
insert_user_of db handle name none = success (record db { users = (handle, name) ∷ db.users })

abbrev pub insert_row_of : Tables → Row → Option Row → Try Tables
insert_row_of db row (some old) = failure "UNIQUE constraint failed: credentials.id"
insert_row_of db row none =
    if length row.aaguid == 16
    then success (record db { rows = row ∷ db.rows })
    else failure "CHECK constraint failed"

abbrev pub sql : Sql
sql = record {
  Db = Tables;
  select_user = λ db name. success (find_user db.users name);
  insert_user = λ db handle name. insert_user_of db handle name (find_user db.users name);
  insert_row = λ db row. insert_row_of db row (find_row db.rows row.id);
  select_by_user = λ db user_id. success (of_user db.rows user_id);
  select_by_id = λ db id. success (find_row db.rows id);
  update_row = λ db counter id. success (record db { rows = renumber db.rows counter id });
}

find_row-id :
    (rows : List Row) (id : List ℕ) {row : Row} → find_row rows id ≡ some row → row.id ≡ id
unfolding find_row
find_row-id [] id h = cc
find_row-id (r ∷ rows) id {row} h = elim (Bool-cases (r.id == id)) [
  | inl here ↦
      let same : r ≡ row = some-injective _ _ (rw here at h) in
      rw (← same) ((list_eq.same_iff r.id id).0 here)
  | inr other ↦ find_row-id rows id (rw other at h)
]

abbrev renumbered : ℕ → Option Row → Option Row
renumbered n none = none
renumbered n (some row) = some (record row { counter = n })

find_row-renumber :
    (rows : List Row) (n : ℕ) (id : List ℕ)
    → find_row (renumber rows n id) id ≡ renumbered n (find_row rows id)
unfolding find_row renumber
find_row-renumber [] n id = refl
find_row-renumber (r ∷ rows) n id = elim (Bool-cases (r.id == id)) [
  | inl here ↦ rw here (rw here refl)
  | inr other ↦ rw other (rw other (find_row-renumber rows n id))
]

find_row-renumber_other :
    (rows : List Row) (n : ℕ) (updated id : List ℕ)
    → updated ≢ id
    → find_row (renumber rows n updated) id ≡ find_row rows id
unfolding find_row renumber
find_row-renumber_other [] n updated id apart = refl
find_row-renumber_other (r ∷ rows) n updated id apart =
    let later = find_row-renumber_other rows n updated id apart in
    elim (Bool-cases (r.id == updated)) [
      | inl here ↦
          let other =
            beq_ne r.id id λ e. apart (sym ((list_eq.same_iff r.id updated).0 here) ∙ e) in
          rw here (rw other later)
      | inr there ↦ rw there (ap (λ o. if r.id == id then some r else o) later)
    ]

abbrev value_or : {A : Type 0} → A → Try A → A
value_or a (success b) = b
value_or a (failure e) = a

user_inserted :
    (db db' : Tables) (handle : List ℕ) (name : String) (o : Option (List ℕ))
    → insert_user_of db handle name o ≡ success db'
    → (find_user db'.users name ≡ some handle) × (db'.rows ≡ db.rows)
unfolding find_user
user_inserted db db' handle name (some old) h = cc
user_inserted db db' handle name none h =
    let same = ap (value_or db) h in rw (← same) (rw (beq_refl name) refl, refl)

row_inserted :
    (db db' : Tables) (row : Row) (o : Option Row)
    → insert_row_of db row o ≡ success db'
    → (o ≡ none) × (find_row db'.rows row.id ≡ some row)
unfolding find_row
row_inserted db db' row (some old) h = cc
row_inserted db db' row none h = elim (Bool-cases (length row.aaguid == 16)) [
  | inl sized ↦
      let same = ap (value_or db) (rw sized at h) in (refl, rw (← same) (rw (beq_refl row.id) refl))
  | inr unsized ↦ absurd (never (rw unsized at h))
]
  where
    never : {e : String} → failure e ≡ success db' → ⊥
    never k = cc

other_inserted :
    (db db' : Tables) (row : Row) (o : Option Row) (id : List ℕ)
    → row.id ≢ id
    → insert_row_of db row o ≡ success db'
    → find_row db'.rows id ≡ find_row db.rows id
unfolding find_row
other_inserted db db' row (some old) id apart h = cc
other_inserted db db' row none id apart h = elim (Bool-cases (length row.aaguid == 16)) [
  | inl sized ↦
      let same = ap (value_or db) (rw sized at h) in rw (← same) (rw (beq_ne row.id id apart) refl)
  | inr unsized ↦ absurd (never (rw unsized at h))
]
  where
    never : {e : String} → failure e ≡ success db' → ⊥
    never k = cc

pub laws : SqlLaws sql
laws = record {
  user_inserted = λ db db' handle name h. ap success (user_inserted db db' handle name _ h).0;
  rows_kept = λ db db' handle name id h.
      ap (λ rows. success (find_row rows id)) (user_inserted db db' handle name _ h).1;
  row_inserted = λ db db' row h. ap success (row_inserted db db' row _ h).1;
  id_is_key = λ db db' row old there h.
      none-ne-some (sym (row_inserted db db' row _ h).0 ∙ ap (value_or none) there);
  other_inserted = λ db db' row id apart h. ap success (other_inserted db db' row _ id apart h);
  selected_id = λ db id row h. find_row-id db.rows id (ap (value_or none) h);
  row_updated = λ db db' counter id row there h.
      ap (λ (t : Tables). success (find_row t.rows id)) (sym (ap (value_or db) h))
      ∙ ap success (
          find_row-renumber db.rows counter id
          ∙ ap (renumbered counter) (ap (value_or none) there));
  other_updated = λ db db' counter updated id apart h.
      ap (λ (t : Tables). success (find_row t.rows id)) (sym (ap (value_or db) h))
      ∙ ap success (find_row-renumber_other db.rows counter updated id apart);
}
  where
    none-ne-some : {row : Row} → ◌≡◌ {A = Option Row} none (some row) → ⊥
    none-ne-some e = cc
