-- ===== src/Sqlite/Kept.antt =====
-- What the database of examples/axum_sqlite.rs holds after its handlers.
use passkey_auth_rs.Prelude.{ℕ, ◌≡◌, refl, Option, none, some, List, nat_eq, arith}
use passkey_auth_rs.Error.{Try, success, failure}
use passkey_auth_rs.Servers.Handler.{reply}
use passkey_auth_rs.SqlStore.{
  Sql, SqlLaws, Row, read_optional, ensure_user, find_credential, create_user, username,
  >>=-eq-success,
}
use passkey_auth_rs.Sqlite.{AppState, db_err_of, statement_of, user_of}

pub db_err_of-eq : {A : Type 0} (t : Try A) {a : A} → db_err_of t ≡ reply a → t ≡ success a
db_err_of-eq (success a) h = cc
db_err_of-eq (failure e) h = cc

-- The parts of a handler that change the store, where they succeed.
module _ {sql : Sql} where
  pub user_of-eq :
      (t : AppState sql) (r : Try (sql.Db × List ℕ)) {handle : List ℕ}
      → (user_of t r).1 ≡ reply handle
      → r ≡ success ((user_of t r).0.store, handle)
  user_of-eq t (success found) h = ground arith
  user_of-eq t (failure e) h = cc

  pub statement_of-eq :
      (t : AppState sql) (r : Try (sql.Db))
      → (statement_of t r).1 ≡ reply tt
      → r ≡ success (statement_of t r).0.store
  statement_of-eq t (success db) h = refl
  statement_of-eq t (failure e) h = cc

module _ (sql : Sql) (laws : SqlLaws sql) where
  open sql use {Db, select_user, insert_user, select_by_id}

  -- The user that `ensure_user` answers with is in the table; the credentials are as before.
  create_user-found :
      (db db' : Db) (fresh handle : List ℕ) (o : Option (List ℕ))
      → select_user db username ≡ success o
      → create_user sql db fresh o ≡ success (db', handle)
      → (select_user db' username ≡ success (some handle))
        × ((id : List ℕ) → select_by_id db' id ≡ select_by_id db id)
  create_user-found db db' fresh handle (some old) found h =
      let same_db : db ≡ db' = cc in
      let same : old ≡ handle = cc in rw (← same_db) (rw (← same) (found, λ id. refl))
  create_user-found db db' fresh handle none found h =
      let (db'', inserted, e) = >>=-eq-success (insert_user db fresh username) _ h in
      let same_db : db'' ≡ db' = cc in
      let same : fresh ≡ handle = cc in
      rw (← same_db) (
        rw (← same) (
          laws.user_inserted db db'' fresh username inserted,
          λ id. laws.rows_kept db db'' fresh username id inserted,
        ))

  pub ensure_user-found :
      (db db' : Db) (fresh handle : List ℕ)
      → ensure_user sql db fresh ≡ success (db', handle)
      → (select_user db' username ≡ success (some handle))
        × ((id : List ℕ) → select_by_id db' id ≡ select_by_id db id)
  unfolding ensure_user
  ensure_user-found db db' fresh handle h =
      let (o, found, e) = >>=-eq-success (select_user db username) _ h in
      create_user-found db db' fresh handle o found e

  -- The user that `ensure_user` has found or created is the one that it finds from then on.
  pub ensure_user_again :
      (db db' : Db) (fresh fresh' handle : List ℕ)
      → ensure_user sql db fresh ≡ success (db', handle)
      → ensure_user sql db' fresh' ≡ success (db', handle)
  unfolding ensure_user
  ensure_user_again db db' fresh fresh' handle h =
      rw ((ensure_user-found db db' fresh handle h).0) refl

  -- A row that is read back.
  pub find_credential-row :
      (db : Db) (id : List ℕ) (row : Row)
      → select_by_id db id ≡ success (some row)
      → find_credential sql db id ≡ read_optional (some row)
  unfolding find_credential
  find_credential-row db id row h = rw h refl
