-- ===== src/Sqlite/Saving.antt =====
-- What a login at examples/axum_sqlite.rs leaves in the database.
use passkey_auth_rs.Prelude.{
  ℕ, String, true, ◌≡◌, inl, inr, refl, sym, ap, ◌∙◌, Option, none, some, List, [], ◌==◌, nat_eq,
  length, Bool-cases,
}
use passkey_auth_rs.Error.{Try, success, failure, ok}
use passkey_auth_rs.Deps.{Libs, World}
use passkey_auth_rs.Types.{
  CredentialId, PasskeyCredential, AuthenticationResponse, AuthenticationState, AuthSuccess,
  from_b64url,
}
use passkey_auth_rs.Ceremony.Authentication.{finish_authentication}
use passkey_auth_rs.Servers.Handler.{
  Reply, reply, IsRefusal, not-IsRefusal, proceed-elim, or_bad_request_of, or_unauthorized_of,
  verified_of, decoded_of, or_bad_request_of-eq-reply, or_unauthorized_of-eq-reply,
  verified_of-eq-reply, decoded_of-eq-reply,
}
use passkey_auth_rs.Servers.Cookies.{sid_from_cookies}
use passkey_auth_rs.Servers.Table.{take_field}
use passkey_auth_rs.SqlStore.{
  Sql, SqlLaws, Row, row_to_credential, read_optional, find_credential, update_counter,
  >>=-eq-success,
}
use passkey_auth_rs.Sqlite.{
  AppState, Session, AuthFinishReply, take_auth_state, db_err_of, statement_of, authenticate_finish,
}
use passkey_auth_rs.Sqlite.Kept.{find_credential-row, statement_of-eq, db_err_of-eq}

-- A credential with another counter.
abbrev pub counted : PasskeyCredential → ℕ → PasskeyCredential
counted c n = record c { counter = n }

-- Reading follows the counter of the row, and the id is that of the row.
pub row_to_credential-counter :
    (row : Row) (c : PasskeyCredential) (n : ℕ)
    → row_to_credential row ≡ success c
    → (row_to_credential (record row { counter = n }) ≡ success (counted c n))
      × (c.id.bytes ≡ row.id)
unfolding row_to_credential
row_to_credential-counter row c n h = elim (Bool-cases (length row.aaguid == 16)) [
  | inl sized ↦ rw sized (renumbered (rw sized at h))
  | inr unsized ↦ absurd (never (rw unsized at h))
]
  where
    never : {e : String} → failure e ≡ success c → ⊥
    never k = cc

    renumbered :
        {d : PasskeyCredential}
        → success d ≡ success c
        → (success (counted d n) ≡ success (counted c n)) × (c.id.bytes ≡ d.id.bytes)
    renumbered k = (ap renumber k, sym (ap id_of k))
      where
        renumber : Try PasskeyCredential → Try PasskeyCredential
        renumber (success e) = success (counted e n)
        renumber (failure e) = failure e

        id_of : Try PasskeyCredential → List ℕ
        id_of (success e) = e.id.bytes
        id_of (failure e) = []

-- The counter of a credential is that of the row from which it is read.
pub counter-row :
    (row : Row) (c : PasskeyCredential)
    → row_to_credential row ≡ success c
    → c.counter ≡ row.counter
counter-row row c h =
    let again = (row_to_credential-counter row c row.counter h).0 in ap counter_of (sym h ∙ again)
  where
    counter_of : Try PasskeyCredential → ℕ
    counter_of (success e) = e.counter
    counter_of (failure e) = 0

module _ (sql : Sql) (laws : SqlLaws sql) where
  read_row :
      (db : sql.Db) (id : List ℕ) (c : PasskeyCredential) (o : Option Row)
      → sql.select_by_id db id ≡ success o
      → read_optional o ≡ success (some c)
      → (row : Row) × (sql.select_by_id db id ≡ success (some row))
        × (row_to_credential row ≡ success c)
  read_row db id c none there e = cc
  read_row db id c (some row) there e =
      let (d, reads, same) = >>=-eq-success (row_to_credential row) _ e in
      let equal : d ≡ c = cc in (row, there, rw (← equal) reads)

  -- A credential that is found comes from a row with the id.
  pub found-row :
      (db : sql.Db) (id : List ℕ) (c : PasskeyCredential)
      → find_credential sql db id ≡ success (some c)
      → (row : Row) × (sql.select_by_id db id ≡ success (some row))
        × (row_to_credential row ≡ success c)
  unfolding find_credential
  found-row db id c h =
      let (o, there, e) = >>=-eq-success (sql.select_by_id db id) read_optional h in
      read_row db id c o there e

  -- The counter of a credential that was found is written to its row.
  saved :
      (db db' : sql.Db) (id : List ℕ) (c : PasskeyCredential) (n : ℕ)
      → find_credential sql db id ≡ success (some c)
      → update_counter sql db c.id.bytes n ≡ success db'
      → find_credential sql db' id ≡ success (some (counted c n))
  unfolding update_counter
  saved db db' id c n h done =
      let (row, there, reads) = found-row db id c h in
      let (renumbered, same) = row_to_credential-counter row c n reads in
      let at_id = same ∙ laws.selected_id db id row there in
      find_credential-row sql laws db' id (record row { counter = n })
        (laws.row_updated db db' n id row there (rw at_id at done))
      ∙ rw renumbered refl

module _ (sql : Sql) (laws : SqlLaws sql) (libs : Libs) (world : World) (s : AppState sql)
    (cookies : Option String) (body : AuthenticationResponse) where
  -- A login that was reported: what was checked, and what is in the database behind it.
  pub record Saved (r : AppState sql × Reply AuthFinishReply) : Type 0 where
    pub sid : String
    pub sent : sid_from_cookies cookies ≡ some sid
    pub auth_state : AuthenticationState
    pub taken :
        (take_field {A = Session}
          (λ e. e.auth_state)
          (λ e. record e { auth_state = none })
          s.sessions
          sid).1
        ≡ some auth_state
    pub id : CredentialId
    pub id_decoded : from_b64url libs body.id ≡ ok id
    pub stored : PasskeyCredential
    pub found : find_credential sql s.store id.bytes ≡ success (some stored)
    pub outcome : AuthSuccess
    pub accepted : finish_authentication libs world s.wa auth_state body stored ≡ ok outcome
    pub answered :
        r.1
        ≡ reply (record {
          is_ok = true;
          user_verified = outcome.user_verified;
          new_counter = outcome.new_counter;
        })
    pub counter_saved :
        find_credential sql r.0.store id.bytes ≡ success (some (counted stored outcome.new_counter))

  abbrev Reports : AppState sql × Reply AuthFinishReply → Type 0
  Reports r = (answer : AuthFinishReply) → r.1 ≡ reply answer → Saved r

  refused :
      {t : AppState sql} (answer : Reply AuthFinishReply) → IsRefusal answer → Reports (t, answer)
  refused answer refusal a h = absurd (not-IsRefusal answer h refusal)

  -- If the database keeps the laws of its statements: when `authenticate_finish` reports a login, the
  -- id in the response is that of a credential in the database, `finish_authentication` accepted the
  -- response for it and for the authentication that was in flight, and the database has this
  -- credential with the new counter afterwards.
  pub authenticate_finish-Saved :
      (answer : AuthFinishReply)
      → (authenticate_finish sql libs world cookies body s).1 ≡ reply answer
      → Saved (authenticate_finish sql libs world cookies body s)
  unfolding authenticate_finish take_auth_state
  authenticate_finish-Saved =
      proceed-elim Reports (s, or_bad_request_of (sid_from_cookies cookies) "missing sid cookie") _
        refused
        λ sid sent.
          let t = (take_auth_state sid s).0 in
          proceed-elim Reports (take_auth_state sid s) _ refused λ auth_state taken.
            proceed-elim Reports (t, decoded_of (from_b64url libs body.id) "bad credential id") _
              refused
              λ id id_decoded.
                proceed-elim Reports (t, db_err_of (find_credential sql t.store id.bytes)) _ refused
                  λ o read.
                    proceed-elim Reports (t, or_unauthorized_of o "unknown credential") _ refused
                      λ stored there.
                        let found =
                          db_err_of-eq (find_credential sql t.store id.bytes) read
                          ∙ ap success (or_unauthorized_of-eq-reply o _ there) in
                        proceed-elim Reports
                          (
                            t,
                            verified_of
                                (finish_authentication libs world t.wa auth_state body stored)
                                "auth verify failed: ",
                          )
                          _ refused
                          λ outcome accepted.
                            let d =
                              statement_of t
                                (update_counter sql t.store stored.id.bytes outcome.new_counter) in
                            proceed-elim Reports d _ refused λ _ done answer h. record {
                              sid = sid;
                              sent = or_bad_request_of-eq-reply _ _ sent;
                              auth_state = auth_state;
                              taken = or_bad_request_of-eq-reply _ _ taken;
                              id = id;
                              id_decoded =
                                  decoded_of-eq-reply (from_b64url libs body.id) _ id_decoded;
                              stored = stored;
                              found = found;
                              outcome = outcome;
                              accepted = verified_of-eq-reply _ _ accepted;
                              answered = refl;
                              counter_saved =
                                  saved sql laws t.store d.0.store id.bytes stored
                                    outcome.new_counter found (statement_of-eq t _ done);
                            }
