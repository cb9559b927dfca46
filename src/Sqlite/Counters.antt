-- ===== src/Sqlite/Counters.antt =====
-- The counter of a row of the database of examples/axum_sqlite.rs after the statements of its store.
use passkey_auth_rs.Prelude.{
  ℕ, ◌≤◌, ◌≡◌, inl, inr, sym, ap, ◌∙◌, some, List, ◌==◌, nat_eq, list_eq, arith, Bool-cases,
  ne_of_beq,
}
use passkey_auth_rs.Error.{success}
use passkey_auth_rs.Types.{PasskeyCredential}
use passkey_auth_rs.SqlStore.{
  Sql, SqlLaws, Row, row_of, ensure_user, insert_credential, find_credential, update_counter,
}
use passkey_auth_rs.Sqlite.Kept.{ensure_user-found}
use passkey_auth_rs.Sqlite.Saving.{counter-row, row_to_credential-counter, found-row}

module _ (sql : Sql) (laws : SqlLaws sql) (id : List ℕ) (n : ℕ) where
  -- The database has a row for the credential, whose counter is no lower.
  abbrev pub HasCounted : sql.Db → Type 0
  HasCounted db = (row : Row) × (sql.select_by_id db id ≡ success (some row)) × (n ≤ row.counter)

  pub ensure_user-HasCounted :
      (db db' : sql.Db) (fresh handle : List ℕ)
      → HasCounted db
      → ensure_user sql db fresh ≡ success (db', handle)
      → HasCounted db'
  ensure_user-HasCounted db db' fresh handle (row, there, least) h =
      (row, (ensure_user-found sql laws db db' fresh handle h).1 id ∙ there, least)

  -- A row that is there is not inserted again, and another one does not touch it.
  pub insert_credential-HasCounted :
      (db db' : sql.Db) (handle : List ℕ) (credential : PasskeyCredential)
      → HasCounted db
      → insert_credential sql db handle credential ≡ success db'
      → HasCounted db'
  unfolding insert_credential row_of
  insert_credential-HasCounted db db' handle credential (row, there, least) h =
      elim (Bool-cases (credential.id.bytes == id)) [
        | inl same ↦
            let equal = (list_eq.same_iff credential.id.bytes id).0 same in
            absurd (laws.id_is_key db db' (row_of handle credential) row (rw equal there) h)
        | inr other ↦
            let apart = ne_of_beq credential.id.bytes id other in
            (row, laws.other_inserted db db' (row_of handle credential) id apart h ∙ there, least)
      ]

  -- A counter that does not fall.
  pub update_counter-HasCounted :
      (db db' : sql.Db) (asserted : List ℕ) (stored : PasskeyCredential) (counter : ℕ)
      → HasCounted db
      → find_credential sql db asserted ≡ success (some stored)
      → stored.counter ≤ counter
      → update_counter sql db stored.id.bytes counter ≡ success db'
      → HasCounted db'
  unfolding update_counter
  update_counter-HasCounted db db' asserted stored counter (row, there, least) found grows h =
      elim (Bool-cases (stored.id.bytes == id)) [
        | inl same ↦
            let hit = (list_eq.same_iff stored.id.bytes id).0 same in
            let (old, there', reads) = found-row sql laws db asserted stored found in
            let named =
              (row_to_credential-counter old stored counter reads).1
              ∙ laws.selected_id db asserted old there' in
            let at_id : sql.select_by_id db id ≡ success (some old) = rw (← hit, named) there' in
            let one : old ≡ row = cc in
            let before : row.counter ≡ stored.counter =
              sym (counter-row old stored reads ∙ ap (λ r. r.counter) one) in
            let after = laws.row_updated db db' counter id row there (rw hit at h) in
            (record row { counter = counter }, after, omega (arith, least, before, grows))
        | inr other ↦
            let apart = ne_of_beq stored.id.bytes id other in
            (row, laws.other_updated db db' counter stored.id.bytes id apart h ∙ there, least)
      ]
