-- ===== src/Sqlite/NeverAgain.antt =====
-- Any requests and restarts of examples/axum_sqlite.rs, and a response that has logged in before them.
use passkey_auth_rs.Prelude.{
  ℕ, ◌≤◌, String, ◌≡◌, ◌≢◌, refl, sym, ap, ◌∙◌, Option, some, List, nat_eq, arith,
}
use passkey_auth_rs.Error.{success, ok, ok-injective}
use passkey_auth_rs.Deps.{Libs, World, Sha256HasSize}
use passkey_auth_rs.Types.{PasskeyCredential, AuthenticationResponse}
use passkey_auth_rs.Ceremony.{Webauthn}
use passkey_auth_rs.Ceremony.Authentication.{finish_authentication}
use passkey_auth_rs.Ceremony.Authentication.Replay.{finish_authentication-once}
use passkey_auth_rs.Servers.Handler.{Reply, reply, bad_request, unauthorized, db_error, aborted}
use passkey_auth_rs.SqlStore.{Sql, SqlLaws, find_credential}
use passkey_auth_rs.Sqlite.{AppState, AuthFinishReply, authenticate_finish}
use passkey_auth_rs.Sqlite.Requests.{
  serve, Later, at_once, served, restarted, starts_registration, finishes_registration,
  starts_authentication, finishes_authentication,
}
use passkey_auth_rs.Sqlite.Counters.{HasCounted}
use passkey_auth_rs.Sqlite.Counting.{
  Counts, register_start-Counts, register_finish-Counts, authenticate_start-Counts,
  authenticate_finish-Counts,
}
use passkey_auth_rs.Sqlite.Saving.{Saved, counter-row, found-row, authenticate_finish-Saved}

module _ (sql : Sql) (laws : SqlLaws sql) (wa : Webauthn) (id : List ℕ) (n : ℕ) where
  -- Whatever requests come and however often the server is restarted: the row stays, and its counter
  -- does not fall.
  Later-Counts :
      (libs : Libs) {first t : AppState sql}
      → Sha256HasSize libs
      → Counts sql laws wa id n first
      → Later sql libs first t
      → Counts sql laws wa id n t
  unfolding serve
  Later-Counts libs has_size c at_once = c
  Later-Counts libs has_size c
        (served world (starts_registration cookies fresh_sid fresh) s before) =
      register_start-Counts sql laws wa id n libs world s cookies
        (Later-Counts libs has_size c before) fresh_sid fresh
  Later-Counts libs has_size c (served world (finishes_registration cookies body fresh) s before) =
      register_finish-Counts sql laws wa id n libs world s cookies
        (Later-Counts libs has_size c before) body fresh
  Later-Counts libs has_size c
        (served world (starts_authentication cookies fresh_sid fresh) s before) =
      authenticate_start-Counts sql laws wa id n libs world s cookies
        (Later-Counts libs has_size c before) fresh_sid fresh
  Later-Counts libs has_size c (served world (finishes_authentication cookies body) s before) =
      authenticate_finish-Counts sql laws wa id n libs world s cookies
        (Later-Counts libs has_size c before) has_size body
  Later-Counts libs has_size c (restarted s before) = Later-Counts libs has_size c before

module _ (sql : Sql) (laws : SqlLaws sql) where
  -- A credential that is found has the counter of its row.
  found-HasCounted :
      (db : sql.Db) (id : List ℕ) (c : PasskeyCredential)
      → find_credential sql db id ≡ success (some c)
      → HasCounted sql laws id c.counter db
  found-HasCounted db id c h =
      let (row, there, reads) = found-row sql laws db id c h in
      let same = counter-row row c reads in (row, there, omega (arith, same))

  HasCounted-found :
      (db : sql.Db) (id : List ℕ) (n : ℕ) (c : PasskeyCredential)
      → HasCounted sql laws id n db
      → find_credential sql db id ≡ success (some c)
      → n ≤ c.counter
  HasCounted-found db id n c (row, there, least) h =
      let (old, there', reads) = found-row sql laws db id c h in
      let one : old ≡ row = cc in
      let same = counter-row old c reads ∙ ap (λ r. r.counter) one in omega (arith, same, least)

  module _ (libs : Libs) (has_size : Sha256HasSize libs) (body : AuthenticationResponse) where
    -- Two logins with the same response, the second against a counter that is no lower than that of
    -- the first.
    twice :
        (world world' : World) (s t : AppState sql) (cookies cookies' : Option String)
        (r r' : AppState sql × Reply AuthFinishReply) (answer : AuthFinishReply)
        → answer.new_counter ≢ 0
        → r.1 ≡ reply answer
        → (first : Saved sql laws libs world s cookies body r)
        → Counts sql laws s.wa first.id.bytes first.outcome.new_counter t
        → Saved sql laws libs world' t cookies' body r'
        → ⊥
    twice world world' s t cookies cookies' r r' answer counts h first c again =
        let count : first.outcome.new_counter ≡ answer.new_counter =
          ap counter_of (sym first.answered ∙ h) in
        let same_id = ok-injective (sym first.id_decoded ∙ again.id_decoded) in
        let found : find_credential sql t.store first.id.bytes ≡ success (some again.stored) =
          rw same_id again.found in
        let least =
          HasCounted-found t.store first.id.bytes first.outcome.new_counter again.stored c.1
            found in
        let accepted : finish_authentication libs world' s.wa again.auth_state body again.stored
            ≡ ok again.outcome =
          rw (← c.0) again.accepted in
        finish_authentication-once libs has_size world s.wa first.auth_state body first.stored
          first.outcome world' again.auth_state again.stored again.outcome (rw count counts) least
          first.accepted accepted
      where
        counter_of : Reply AuthFinishReply → ℕ
        counter_of (reply a) = a.new_counter
        counter_of (bad_request e) = 0
        counter_of (unauthorized e) = 0
        counter_of (db_error e) = 0
        counter_of aborted = 0

    -- If SHA-256 digests have 32 bytes and the database keeps the laws of its statements: a response
    -- that has logged in with a counter that is not 0 never logs in again, whatever requests the
    -- server has served since, however often it was restarted, in whatever session and at whatever
    -- time the response is sent.
    pub authenticate_finish-never_again :
        (world : World) (s : AppState sql) (cookies : Option String) (answer : AuthFinishReply)
        (world' : World) (t : AppState sql) (cookies' : Option String) (answer' : AuthFinishReply)
        → answer.new_counter ≢ 0
        → (authenticate_finish sql libs world cookies body s).1 ≡ reply answer
        → Later sql libs (authenticate_finish sql libs world cookies body s).0 t
        → (authenticate_finish sql libs world' cookies' body t).1 ≢ reply answer'
    authenticate_finish-never_again world s cookies answer world' t cookies' answer' counts h later
          again =
        let first = authenticate_finish-Saved sql laws libs world s cookies body answer h in
        let before = found-HasCounted s.store first.id.bytes first.stored first.found in
        let wa =
          (authenticate_finish-Counts sql laws s.wa first.id.bytes first.stored.counter libs world s
            cookies (refl, before) has_size body).0 in
        let after = found-HasCounted _ first.id.bytes _ first.counter_saved in
        let kept =
          Later-Counts sql laws s.wa first.id.bytes first.outcome.new_counter libs has_size
            (wa, after) later in
        twice world world' s t cookies cookies' _ _ answer counts h first kept
          (authenticate_finish-Saved sql laws libs world' t cookies' body answer' again)
