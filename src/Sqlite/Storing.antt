-- ===== src/Sqlite/Storing.antt =====
-- What a finished registration at examples/axum_sqlite.rs leaves in the database.
use passkey_auth_rs.Prelude.{
  ℕ, String, true, ◌≡◌, ◌≢◌, refl, ◌∙◌, Option, none, some, List, nat_eq, length,
}
use passkey_auth_rs.Error.{success, ok}
use passkey_auth_rs.Deps.{Libs, World, Sha256HasSize}
use passkey_auth_rs.Types.{
  PasskeyCredential, RegistrationResponse, RegistrationState, credential_to_b64url,
}
use passkey_auth_rs.Ceremony.Registration.{finish_registration}
use passkey_auth_rs.Ceremony.Registration.Kept.{finish_registration-kept}
use passkey_auth_rs.Servers.Handler.{
  Reply, reply, IsRefusal, not-IsRefusal, proceed-elim, or_bad_request_of, verified_of,
  or_bad_request_of-eq-reply, verified_of-eq-reply,
}
use passkey_auth_rs.Servers.Cookies.{sid_from_cookies}
use passkey_auth_rs.Servers.Table.{take_field}
use passkey_auth_rs.SqlStore.{
  Sql, SqlLaws, Row, row_of, ensure_user, insert_credential, find_credential,
}
use passkey_auth_rs.SqlStore.Rows.{IsStorable, row_to_credential-row_of_iff}
use passkey_auth_rs.Sqlite.{
  AppState, Session, RegisterFinishReply, take_reg_state, statement_of, user_of, register_finish,
}
use passkey_auth_rs.Sqlite.Kept.{
  user_of-eq, statement_of-eq, ensure_user-found, find_credential-row,
}

module _ (sql : Sql) (laws : SqlLaws sql) (libs : Libs) (world : World) (s : AppState sql)
    (cookies : Option String) (body : RegistrationResponse) (fresh : List ℕ) where
  -- A registration that was reported: the credential was accepted, its id was not in the table, and it
  -- is found under its id now.
  pub record Stored (r : AppState sql × Reply RegisterFinishReply) : Type 0 where
    pub sid : String
    pub sent : sid_from_cookies cookies ≡ some sid
    pub reg_state : RegistrationState
    pub taken :
        (take_field {A = Session}
          (λ e. e.reg_state)
          (λ e. record e { reg_state = none })
          s.sessions
          sid).1
        ≡ some reg_state
    pub credential : PasskeyCredential
    pub accepted : finish_registration libs world s.wa reg_state body ≡ ok credential
    pub new : (old : Row) → sql.select_by_id s.store credential.id.bytes ≢ success (some old)
    pub found : find_credential sql r.0.store credential.id.bytes ≡ success (some credential)
    pub answered :
        r.1
        ≡ reply (record { is_ok = true; credential_id = credential_to_b64url libs credential.id })

  -- What the last two calls of the store do.
  inserted :
      (db db' db'' : sql.Db) (handle : List ℕ) (c : PasskeyCredential)
      → ensure_user sql db fresh ≡ success (db', handle)
      → insert_credential sql db' handle c ≡ success db''
      → ((old : Row) → sql.select_by_id db c.id.bytes ≢ success (some old))
        × (length c.aaguid ≡ 16
            → IsStorable c.transports
            → find_credential sql db'' c.id.bytes ≡ success (some c))
  unfolding insert_credential row_of
  inserted db db' db'' handle c user done = (
    λ old there.
        laws.id_is_key db' db'' (row_of handle c) old
          ((ensure_user-found sql laws db db' fresh handle user).1 c.id.bytes ∙ there) done,
    λ size storable.
        find_credential-row sql laws db'' c.id.bytes (row_of handle c)
          (laws.row_inserted db' db'' (row_of handle c) done)
        ∙ rw ((row_to_credential-row_of_iff handle c).1 (size, storable)) refl,
  )

  abbrev Reports : AppState sql × Reply RegisterFinishReply → Type 0
  Reports r = (answer : RegisterFinishReply) → r.1 ≡ reply answer → Stored r

  refused :
      {t : AppState sql} (answer : Reply RegisterFinishReply)
      → IsRefusal answer
      → Reports (t, answer)
  refused answer refusal a h = absurd (not-IsRefusal answer h refusal)

  -- If SHA-256 digests have 32 bytes and the database keeps the laws of its statements: when
  -- `register_finish` reports a registration for a response whose transports are storable (no comma,
  -- and not just one empty text), `finish_registration` accepted the response for the registration
  -- that was in flight, no credential with this id was in the database before, and the lookup by the
  -- id finds the credential just as it was accepted.
  pub register_finish-Stored :
      Sha256HasSize libs
      → IsStorable body.transports
      → (answer : RegisterFinishReply)
      → (register_finish sql libs world cookies body fresh s).1 ≡ reply answer
      → Stored (register_finish sql libs world cookies body fresh s)
  unfolding register_finish take_reg_state
  register_finish-Stored has_size storable =
      proceed-elim Reports (s, or_bad_request_of (sid_from_cookies cookies) "missing sid cookie") _
        refused
        λ sid sent.
          let t = (take_reg_state sid s).0 in
          proceed-elim Reports (take_reg_state sid s) _ refused λ reg_state taken.
            proceed-elim Reports
              (
                t,
                verified_of (finish_registration libs world t.wa reg_state body)
                    "registration verify failed: ",
              )
              _ refused
              λ c accepted.
                let u = user_of t (ensure_user sql t.store fresh) in
                proceed-elim Reports u _ refused λ handle user.
                  let d = statement_of u.0 (insert_credential sql u.0.store handle c) in
                  proceed-elim Reports d _ refused λ _ done answer h.
                    let facts =
                      inserted t.store u.0.store d.0.store handle c (user_of-eq t _ user)
                        (statement_of-eq u.0 _ done) in
                    record {
                      sid = sid;
                      sent = or_bad_request_of-eq-reply _ _ sent;
                      reg_state = reg_state;
                      taken = or_bad_request_of-eq-reply _ _ taken;
                      credential = c;
                      accepted = verified_of-eq-reply _ _ accepted;
                      new = facts.0;
                      found =
                          (let (same, size) =
                              finish_registration-kept libs has_size world t.wa reg_state body c
                                (verified_of-eq-reply _ _ accepted) in
                            facts.1 size (rw (← same) at storable));
                      answered = refl;
                    }
