-- ===== src/SqlStore.antt =====
-- examples/axum_sqlite.rs: `Store`. SQLite is a parameter: one operation for each SQL statement of the
-- code, and laws that say what the statements do under the schema, as far as theorems need it. A
-- statement that fails leaves the database as it was.
pub mod Rows
use passkey_auth_rs.Prelude.{
  ℕ, String, Bool, ◌≡◌, ◌≢◌, refl, Option, none, some, List, [], ◌∷◌, ◌<>◌, ◌==◌, nat_eq, string_eq,
  length, show_nat, if◌then◌else◌,
}
use passkey_auth_rs.Error.{Try, success, failure}
use passkey_auth_rs.Types.{CredentialId, CosePublicKey, PasskeyCredential}
use passkey_auth_rs.Servers.Cookies.{split}

-- A row of the table `credentials`.
pub record Row : Type 0 where
  pub id : List ℕ
  pub user_id : List ℕ
  pub public_key_cose : List ℕ
  pub counter : ℕ
  pub transports : String
  pub aaguid : List ℕ

pub record Sql : Type 1 where
  pub Db : Type 0
  -- SELECT id FROM users WHERE username = ?1
  pub select_user : Db → String → Try (Option (List ℕ))
  -- INSERT INTO users (id, username) VALUES (?1, ?2)
  pub insert_user : Db → List ℕ → String → Try Db
  -- INSERT INTO credentials (…) VALUES (…)
  pub insert_row : Db → Row → Try Db
  -- SELECT … FROM credentials WHERE user_id = ?1
  pub select_by_user : Db → List ℕ → Try (List Row)
  -- SELECT … FROM credentials WHERE id = ?1
  pub select_by_id : Db → List ℕ → Try (Option Row)
  -- UPDATE credentials SET counter = ?1 WHERE id = ?2
  pub update_row : Db → ℕ → List ℕ → Try Db

pub record SqlLaws (sql : Sql) : Type 0 where
  -- A row that was inserted is there.
  pub user_inserted :
      (db db' : sql.Db) (handle : List ℕ) (name : String)
      → sql.insert_user db handle name ≡ success db'
      → sql.select_user db' name ≡ success (some handle)
  -- The tables are apart.
  pub rows_kept :
      (db db' : sql.Db) (handle : List ℕ) (name : String) (id : List ℕ)
      → sql.insert_user db handle name ≡ success db'
      → sql.select_by_id db' id ≡ sql.select_by_id db id
  pub row_inserted :
      (db db' : sql.Db) (row : Row)
      → sql.insert_row db row ≡ success db'
      → sql.select_by_id db' row.id ≡ success (some row)
  pub other_inserted :
      (db db' : sql.Db) (row : Row) (id : List ℕ)
      → row.id ≢ id
      → sql.insert_row db row ≡ success db'
      → sql.select_by_id db' id ≡ sql.select_by_id db id
  -- `id` is a primary key.
  pub id_is_key :
      (db db' : sql.Db) (row old : Row)
      → sql.select_by_id db row.id ≡ success (some old)
      → sql.insert_row db row ≢ success db'
  -- What the WHERE clause asks for.
  pub selected_id :
      (db : sql.Db) (id : List ℕ) (row : Row)
      → sql.select_by_id db id ≡ success (some row)
      → row.id ≡ id
  -- UPDATE changes the column that it names, in the row that the WHERE clause asks for.
  pub row_updated :
      (db db' : sql.Db) (counter : ℕ) (id : List ℕ) (row : Row)
      → sql.select_by_id db id ≡ success (some row)
      → sql.update_row db counter id ≡ success db'
      → sql.select_by_id db' id ≡ success (some (record row { counter = counter }))
  pub other_updated :
      (db db' : sql.Db) (counter : ℕ) (updated id : List ℕ)
      → updated ≢ id
      → sql.update_row db counter updated ≡ success db'
      → sql.select_by_id db' id ≡ sql.select_by_id db id

-- `.join(",")`
unfoldable pub join : List String → String
join [] = ""
join (s ∷ []) = s
join (s ∷ t ∷ rest) = s <> "," <> join (t ∷ rest)

-- The parameters of the INSERT in `insert_credential`.
unfoldable pub row_of : List ℕ → PasskeyCredential → Row
unfolding join
row_of user_id cred = record {
  id = cred.id.bytes;
  user_id = user_id;
  public_key_cose = cred.public_key_cose.bytes;
  counter = cred.counter;
  transports = join cred.transports;
  aaguid = cred.aaguid;
}

-- The transports that `row_to_credential` reads.
unfoldable pub read_transports : String → List String
unfolding split
read_transports csv = if csv == "" then [] else split b',' csv

-- Of the error, only the text of the code; rusqlite's own words in front are left out.
unfoldable pub row_to_credential : Row → Try PasskeyCredential
unfolding read_transports
row_to_credential row =
    if length row.aaguid == 16
    then success (record {
      id = record { bytes = row.id };
      public_key_cose = record { bytes = row.public_key_cose };
      counter = row.counter;
      transports = read_transports row.transports;
      aaguid = row.aaguid;
    })
    else failure
        ("aaguid column wrong length: expected 16 bytes, got " <> show_nat (length row.aaguid))

abbrev pub username : String
username = "alice@example.com"

-- Chains of database calls.
module _ {A B : Type 0} where
  infixl 5 ◌>>=◌
  abbrev pub ◌>>=◌ : Try A → (A → Try B) → Try B
  success a >>= f = f a
  failure e >>= f = failure e

  pub >>=-eq-success :
      (t : Try A) (f : A → Try B) {b : B}
      → (t >>= f) ≡ success b
      → (a : A) × (t ≡ success a) × (f a ≡ success b)
  >>=-eq-success (success a) f h = (a, refl, h)
  >>=-eq-success (failure e) f h = cc

-- `.collect::<rusqlite::Result<Vec<_>>>()` of the mapped rows.
unfoldable pub collect : List Row → Try (List PasskeyCredential)
unfolding row_to_credential
collect [] = success []
collect (row ∷ rows) = do
  credential ← row_to_credential row
  credentials ← collect rows
  success (credential ∷ credentials)

abbrev pub read_optional : Option Row → Try (Option PasskeyCredential)
read_optional none = success none
read_optional (some row) = do credential ← row_to_credential row; success (some credential)

module _ (sql : Sql) where
  open sql use {Db, select_user, insert_user, insert_row, select_by_user, select_by_id, update_row}

  abbrev pub create_user : Db → List ℕ → Option (List ℕ) → Try (Db × List ℕ)
  create_user db fresh (some handle) = success (db, handle)
  create_user db fresh none = do db' ← insert_user db fresh username; success (db', fresh)

  -- `Store::ensure_user`; `fresh` is the handle that it may draw.
  unfoldable pub ensure_user : Db → List ℕ → Try (Db × List ℕ)
  ensure_user db fresh = do found ← select_user db username; create_user db fresh found

  -- `Store::insert_credential`
  unfoldable pub insert_credential : Db → List ℕ → PasskeyCredential → Try Db
  unfolding row_of
  insert_credential db user_id cred = insert_row db (row_of user_id cred)

  -- `Store::list_credentials`
  unfoldable pub list_credentials : Db → List ℕ → Try (List PasskeyCredential)
  unfolding collect
  list_credentials db user_id = do rows ← select_by_user db user_id; collect rows

  -- `Store::find_credential`
  unfoldable pub find_credential : Db → List ℕ → Try (Option PasskeyCredential)
  find_credential db cred_id = do row ← select_by_id db cred_id; read_optional row

  -- `Store::update_counter`
  unfoldable pub update_counter : Db → List ℕ → ℕ → Try Db
  update_counter db cred_id counter = update_row db counter cred_id
