-- ===== src/Sqlite/Starting.antt =====
-- What `authenticate_start` of examples/axum_sqlite.rs sends and what it keeps, beside the database.
use passkey_auth_rs.Prelude.{
  ℕ, String, Bool, true, false, ◌≡◌, refl, sym, ap, ◌∙◌, Option, none, some, List, map, is_empty,
  string_eq, nat_eq,
}
use mathlib.Core.Option.{some-injective}
use passkey_auth_rs.Error.{Try, success, failure}
use passkey_auth_rs.Deps.{Libs, World, Base64RoundTrips, FillsBuffers}
use passkey_auth_rs.Types.{PasskeyCredential, AuthenticationState, AuthenticationChallenge}
use passkey_auth_rs.Ceremony.Start.{start_authentication_with_creds_for_user, build_auth_challenge}
use passkey_auth_rs.Ceremony.Start.Sent.{AreBytes, SentAsKept, start_authentication-sent}
use passkey_auth_rs.Servers.Handler.{
  Reply, reply, bad_request, unauthorized, db_error, aborted, IsRefusal, not-IsRefusal,
  proceed-elim, refuse_if_of,
}
use passkey_auth_rs.Servers.Cookies.{get_or_create_sid, set_cookie}
use passkey_auth_rs.Servers.Table.{take_field, take_field-set_entry}
use passkey_auth_rs.SqlStore.{Sql, SqlLaws, username, ensure_user, list_credentials}
use passkey_auth_rs.Sqlite.{
  AppState, Session, WithSid, json_with_sid, put_auth_state, db_err_of, user_of, authenticate_start,
}
use passkey_auth_rs.Sqlite.Kept.{user_of-eq, ensure_user-found, db_err_of-eq}

-- The authentication that `authenticate_finish` takes for a session.
abbrev pub taken : {sql : Sql} → AppState sql → String → Option AuthenticationState
taken s sid =
    (take_field {A = Session} (λ e. e.auth_state) (λ e. record e { auth_state = none }) s.sessions
      sid).1

module _ {sql : Sql} where
  taken-put_auth_state :
      (s : AppState sql) (sid : String) (a : AuthenticationState)
      → taken (put_auth_state sid a s) sid ≡ some a
  unfolding put_auth_state
  taken-put_auth_state s sid a = take_field-set_entry _ _ s.sessions sid _

  user_of-wa : (t : AppState sql) (r : Try (sql.Db × List ℕ)) → (user_of t r).0.wa ≡ t.wa
  user_of-wa t (success found) = refl
  user_of-wa t (failure e) = refl

success-injective {ℓ} : {A : Type ℓ} {a b : A} → success a ≡ success b → a ≡ b
success-injective {A = A} {a = a} h = ap value_or h
  where
    value_or : Try A → A
    value_or (success x) = x
    value_or (failure e) = a

refuse_if_of-eq : (test : Bool) (e : String) → refuse_if_of test e ≡ reply tt → test ≡ false
refuse_if_of-eq true e h = cc
refuse_if_of-eq false e h = refl

module _ (sql : Sql) (laws : SqlLaws sql) (libs : Libs) (world : World) (s : AppState sql)
    (cookies : Option String) (fresh_sid : String) (fresh : List ℕ) where
  -- A challenge for the credentials of a user: it is what the session has in flight afterwards, which is
  -- for this user and allows just these credentials.
  pub record Offers (handle : List ℕ) (creds : List PasskeyCredential) (t : AppState sql)
      (answer : WithSid AuthenticationChallenge) : Type 0 where
    pub auth_state : AuthenticationState
    pub in_flight : taken t (get_or_create_sid cookies fresh_sid) ≡ some auth_state
    pub sent : SentAsKept libs world s.wa (answer.body, auth_state)
    pub allows : auth_state.allow_credentials ≡ map (λ c. c.id) creds
    pub not_empty : is_empty creds ≡ false
    pub for_user : auth_state.user_handle ≡ some handle
    pub session_set : answer.cookie ≡ set_cookie (get_or_create_sid cookies fresh_sid)

  offered :
      Base64RoundTrips libs
      → FillsBuffers world
      → (t : AppState sql) → t.wa ≡ s.wa
      → (handle : List ℕ) (creds : List PasskeyCredential) → is_empty creds ≡ false
      → AreBytes (map (λ c. c.id) creds)
      → Offers handle creds
          (put_auth_state
            (get_or_create_sid cookies fresh_sid)
            (start_authentication_with_creds_for_user libs world t.wa handle creds).1
            t)
          (json_with_sid
            (start_authentication_with_creds_for_user libs world t.wa handle creds).0
            (get_or_create_sid cookies fresh_sid))
  unfolding start_authentication_with_creds_for_user build_auth_challenge
  offered round_trips fills t same_wa handle creds some_there octets = record {
    auth_state = (start_authentication_with_creds_for_user libs world t.wa handle creds).1;
    in_flight = taken-put_auth_state t (get_or_create_sid cookies fresh_sid) _;
    sent =
        rw (← same_wa)
          (start_authentication-sent libs world t.wa round_trips fills handle
            (map (λ c. c.id) creds) creds octets octets).3;
    allows = refl;
    not_empty = some_there;
    for_user = refl;
    session_set = refl;
  }

  abbrev Offering : AppState sql × Reply (WithSid AuthenticationChallenge) → Type 0
  Offering r =
      (handle : List ℕ) (creds : List PasskeyCredential) (answer : WithSid AuthenticationChallenge)
      → sql.select_user r.0.store username ≡ success (some handle)
      → list_credentials sql r.0.store handle ≡ success creds
      → AreBytes (map (λ c. c.id) creds)
      → r.1 ≡ reply answer
      → Offers handle creds r.0 answer

  refused :
      {t : AppState sql} (answer : Reply (WithSid AuthenticationChallenge))
      → IsRefusal answer
      → Offering (t, answer)
  refused answer refusal _ _ a _ _ _ h = absurd (not-IsRefusal answer h refusal)

  -- If base64url decodes what it encodes, the random generator fills its buffers and the database keeps
  -- the laws of its statements: when `authenticate_start` answers with a challenge, the user has a
  -- credential, the browser reads from the challenge the random bytes that the session keeps and the
  -- ids (of octets) of just the credentials that the database has for the user, in their order, and
  -- the authentication that the session finishes next is this one, for this user.
  pub authenticate_start-Offers :
      Base64RoundTrips libs
      → FillsBuffers world
      → (handle : List ℕ) (creds : List PasskeyCredential)
        (answer : WithSid AuthenticationChallenge)
      → sql.select_user
          (authenticate_start sql libs world cookies fresh_sid fresh s).0.store
          username
        ≡ success (some handle)
      → list_credentials sql
          (authenticate_start sql libs world cookies fresh_sid fresh s).0.store
          handle
        ≡ success creds
      → AreBytes (map (λ c. c.id) creds)
      → (authenticate_start sql libs world cookies fresh_sid fresh s).1 ≡ reply answer
      → Offers handle creds (authenticate_start sql libs world cookies fresh_sid fresh s).0 answer
  unfolding authenticate_start put_auth_state
  authenticate_start-Offers round_trips fills =
      let u = user_of s (ensure_user sql s.store fresh) in
      proceed-elim Offering u _ refused λ handle user.
        proceed-elim Offering (u.0, db_err_of (list_credentials sql u.0.store handle)) _ refused
          λ creds read.
            proceed-elim Offering
              (u.0, refuse_if_of (is_empty creds) "no registered credentials - register first") _
              refused
              λ _ some_there handle' creds' answer user' read' octets h.
                let found =
                  (ensure_user-found sql laws s.store u.0.store fresh handle
                    (user_of-eq s _ user)).0 in
                let listed = db_err_of-eq (list_credentials sql u.0.store handle) read in
                let same : handle ≡ handle' =
                  some-injective _ _ (success-injective (sym found ∙ user')) in
                let same_creds : creds ≡ creds' =
                  success-injective (sym listed ∙ rw (← same) at read') in
                let same_answer = ap (answer_of answer) h in
                rw (← same, ← same_creds, ← same_answer)
                  (offered round_trips fills u.0 (user_of-wa s _) handle creds
                    (refuse_if_of-eq (is_empty creds) _ some_there) (rw (← same_creds) at octets))
    where
      answer_of :
          WithSid AuthenticationChallenge
          → Reply (WithSid AuthenticationChallenge)
          → WithSid AuthenticationChallenge
      answer_of a (reply b) = b
      answer_of a (bad_request e) = a
      answer_of a (unauthorized e) = a
      answer_of a (db_error e) = a
      answer_of a aborted = a
