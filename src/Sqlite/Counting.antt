-- ===== src/Sqlite/Counting.antt =====
-- The stored counter of a credential at examples/axum_sqlite.rs, over one request.
use passkey_auth_rs.Prelude.{
  ℕ, String, ◌≡◌, refl, ap, ◌∙◌, Option, some, List, is_empty, nat_eq, list_eq, true,
}
use passkey_auth_rs.Error.{Try, success, failure}
use passkey_auth_rs.Deps.{Libs, World, Sha256HasSize}
use passkey_auth_rs.Types.{
  PasskeyCredential, RegistrationResponse, AuthenticationResponse, AuthenticationState, from_b64url,
}
use passkey_auth_rs.Ceremony.{Webauthn}
use passkey_auth_rs.Ceremony.Registration.{finish_registration}
use passkey_auth_rs.Ceremony.Authentication.{finish_authentication}
use passkey_auth_rs.Ceremony.Sessions.{counter-grows}
use passkey_auth_rs.Servers.Handler.{
  proceed, pure, Handler, proceed-elim, or_bad_request_of, or_unauthorized_of, verified_of,
  decoded_of, refuse_if_of, or_unauthorized_of-eq-reply, verified_of-eq-reply,
}
use passkey_auth_rs.Servers.Cookies.{sid_from_cookies}
use passkey_auth_rs.SqlStore.{
  Sql, SqlLaws, ensure_user, insert_credential, list_credentials, find_credential, update_counter,
}
use passkey_auth_rs.Sqlite.{
  AppState, AuthFinishReply, take_reg_state, take_auth_state, put_reg_state, put_auth_state,
  db_err_of, statement_of, user_of, register_start, register_finish, authenticate_start,
  authenticate_finish,
}
use passkey_auth_rs.Sqlite.Kept.{db_err_of-eq}
use passkey_auth_rs.Sqlite.Counters.{
  HasCounted, ensure_user-HasCounted, insert_credential-HasCounted, update_counter-HasCounted,
}

module _ (sql : Sql) (laws : SqlLaws sql) (wa : Webauthn) (id : List ℕ) (n : ℕ) where
  -- The relying party, and what the database has.
  abbrev pub Counts : AppState sql → Type 0
  Counts t = (t.wa ≡ wa) × HasCounted sql laws id n t.store

  statement_of-Counts :
      (t : AppState sql) (r : Try (sql.Db))
      → Counts t
      → ((db' : sql.Db) → r ≡ success db' → HasCounted sql laws id n db')
      → Counts (statement_of t r).0
  statement_of-Counts t (success db) c k = (c.0, k db refl)
  statement_of-Counts t (failure e) c k = c

  user_of-Counts :
      (t : AppState sql) (r : Try (sql.Db × List ℕ))
      → Counts t
      → ((db' : sql.Db) (handle : List ℕ)
          → r ≡ success (db', handle)
          → HasCounted sql laws id n db')
      → Counts (user_of t r).0
  user_of-Counts t (success found) c k = (c.0, k found.0 found.1 refl)
  user_of-Counts t (failure e) c k = c

  the_user-Counts :
      (t : AppState sql) (fresh : List ℕ)
      → Counts t
      → Counts (user_of t (ensure_user sql t.store fresh)).0
  the_user-Counts t fresh c =
      user_of-Counts t _ c
        λ db' handle h. ensure_user-HasCounted sql laws id n t.store db' fresh handle c.1 h

  module _ (libs : Libs) (world : World) (s : AppState sql) (cookies : Option String)
      (c : Counts s) where
    -- What the two start handlers have in common: the user and its credentials are read.
    listed-Counts :
        {A : Type 0} (fresh : List ℕ)
        (f : List ℕ → List PasskeyCredential → Handler (AppState sql) A)
        → ((handle : List ℕ) (creds : List PasskeyCredential) (t : AppState sql)
            → Counts t
            → Counts (f handle creds t).0)
        → Counts
            (proceed
              (user_of s (ensure_user sql s.store fresh))
              λ handle t. proceed (t, db_err_of (list_credentials sql t.store handle)) (f handle)).0
    listed-Counts fresh f rest =
        let u = user_of s (ensure_user sql s.store fresh) in
        let known = the_user-Counts s fresh c in
        proceed-elim (λ r. Counts r.0) u _ (λ _ _. known)
          λ handle _.
            proceed-elim (λ r. Counts r.0) (u.0, db_err_of (list_credentials sql u.0.store handle))
              _ (λ _ _. known) λ creds _. rest handle creds u.0 known

    pub register_start-Counts :
        (fresh_sid : String) (fresh : List ℕ)
        → Counts (register_start sql libs world cookies fresh_sid fresh s).0
    unfolding register_start put_reg_state
    register_start-Counts fresh_sid fresh = listed-Counts fresh _ λ handle creds t known. known

    pub authenticate_start-Counts :
        (fresh_sid : String) (fresh : List ℕ)
        → Counts (authenticate_start sql libs world cookies fresh_sid fresh s).0
    unfolding authenticate_start put_auth_state
    authenticate_start-Counts fresh_sid fresh = listed-Counts fresh _ λ handle creds t known.
        proceed-elim (λ r. Counts r.0)
          (t, refuse_if_of (is_empty creds) "no registered credentials - register first") _
          (λ _ _. known) λ _ _. known

    pub register_finish-Counts :
        (body : RegistrationResponse) (fresh : List ℕ)
        → Counts (register_finish sql libs world cookies body fresh s).0
    unfolding register_finish take_reg_state
    register_finish-Counts body fresh =
        proceed-elim (λ r. Counts r.0)
          (s, or_bad_request_of (sid_from_cookies cookies) "missing sid cookie") _ (λ _ _. c)
          λ sid _.
            let t = (take_reg_state sid s).0 in
            proceed-elim (λ r. Counts r.0) (take_reg_state sid s) _ (λ _ _. c)
              λ reg_state _.
                proceed-elim (λ r. Counts r.0)
                  (
                    t,
                    verified_of (finish_registration libs world t.wa reg_state body)
                        "registration verify failed: ",
                  )
                  _ (λ _ _. c)
                  λ credential _.
                    let u = user_of t (ensure_user sql t.store fresh) in
                    let known = the_user-Counts t fresh c in
                    proceed-elim (λ r. Counts r.0) u _ (λ _ _. known)
                      λ handle _.
                        let kept = statement_of-Counts u.0 _ known λ db' h.
                          insert_credential-HasCounted sql laws id n u.0.store db' handle credential
                            known.1 h in
                        proceed-elim (λ r. Counts r.0)
                          (statement_of u.0 (insert_credential sql u.0.store handle credential)) _
                          (λ _ _. kept) λ _ _. kept

    -- From the credential that was found on.
    checked-Counts :
        Sha256HasSize libs
        → (auth_state : AuthenticationState) (body : AuthenticationResponse) (asserted : List ℕ)
          (stored : PasskeyCredential)
        → find_credential sql s.store asserted ≡ success (some stored)
        → Counts
            (proceed
              (
                s,
                verified_of
                    (finish_authentication libs world s.wa auth_state body stored)
                    "auth verify failed: ",
              )
              λ outcome t.
                proceed
                  (statement_of t (update_counter sql t.store stored.id.bytes outcome.new_counter))
                  λ _. pure {A = AuthFinishReply} (record {
                    is_ok = true;
                    user_verified = outcome.user_verified;
                    new_counter = outcome.new_counter;
                  })).0
    checked-Counts has_size auth_state body asserted stored found =
        proceed-elim (λ r. Counts r.0)
          (
            s,
            verified_of (finish_authentication libs world s.wa auth_state body stored)
                "auth verify failed: ",
          )
          _ (λ _ _. c)
          λ outcome accepted.
            let grows =
              counter-grows libs s.wa has_size world auth_state body stored outcome
                (verified_of-eq-reply _ _ accepted) in
            let kept = statement_of-Counts s _ c λ db' h.
              update_counter-HasCounted sql laws id n s.store db' asserted stored
                outcome.new_counter c.1 found grows h in
            proceed-elim (λ r. Counts r.0)
              (statement_of s (update_counter sql s.store stored.id.bytes outcome.new_counter)) _
              (λ _ _. kept) λ _ _. kept

  module _ (libs : Libs) (world : World) (s : AppState sql) (cookies : Option String)
      (c : Counts s) where
    pub authenticate_finish-Counts :
        Sha256HasSize libs
        → (body : AuthenticationResponse)
        → Counts (authenticate_finish sql libs world cookies body s).0
    unfolding authenticate_finish take_auth_state
    authenticate_finish-Counts has_size body =
        proceed-elim (λ r. Counts r.0)
          (s, or_bad_request_of (sid_from_cookies cookies) "missing sid cookie") _ (λ _ _. c)
          λ sid _.
            let t = (take_auth_state sid s).0 in
            proceed-elim (λ r. Counts r.0) (take_auth_state sid s) _ (λ _ _. c)
              λ auth_state _.
                proceed-elim (λ r. Counts r.0)
                  (t, decoded_of (from_b64url libs body.id) "bad credential id") _ (λ _ _. c)
                  λ asserted _.
                    proceed-elim (λ r. Counts r.0)
                      (t, db_err_of (find_credential sql t.store asserted.bytes)) _ (λ _ _. c)
                      λ o read.
                        proceed-elim (λ r. Counts r.0)
                          (t, or_unauthorized_of o "unknown credential") _ (λ _ _. c)
                          λ stored there.
                            checked-Counts libs world t cookies c has_size auth_state body
                              asserted.bytes stored
                              (db_err_of-eq (find_credential sql t.store asserted.bytes) read
                                ∙ ap success (or_unauthorized_of-eq-reply o _ there))
