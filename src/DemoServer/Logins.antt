-- ===== src/DemoServer/Logins.antt =====
-- The logins that `authenticate_finish` of examples/axum_server.rs reports.
use passkey_auth_rs.Prelude.{
  ℕ, String, true, ◌≡◌, inl, inr, refl, ap, Option, none, some, List, [], ◌∷◌, ◌==◌, nat_eq,
  list_eq, Bool-cases,
}
use passkey_auth_rs.Error.{Result, ok, err, panic}
use passkey_auth_rs.Deps.{Libs, World}
use passkey_auth_rs.Types.{
  CredentialId, PasskeyCredential, AuthenticationResponse, AuthenticationState, AuthSuccess,
  from_b64url,
}
use passkey_auth_rs.Ceremony.{Webauthn}
use passkey_auth_rs.Ceremony.Authentication.{finish_authentication}
use passkey_auth_rs.Servers.Credentials.{find_credential, set_counter}
use passkey_auth_rs.Servers.Handler.{reply}
use passkey_auth_rs.DemoServer.{
  AppState, AuthFinishReply, take_auth, store_counter, check_found, check_id, finish_taken_auth,
  authenticate_finish,
}

-- What the server keeps after a login.
abbrev pub with_counter : PasskeyCredential → ℕ → PasskeyCredential
with_counter c n = record c { counter = n }

abbrev map_counter : ℕ → Option PasskeyCredential → Option PasskeyCredential
map_counter n none = none
map_counter n (some c) = some (with_counter c n)

find_credential-set_counter :
    (cs : List PasskeyCredential) (id : List ℕ) (n : ℕ) {c : PasskeyCredential}
    → find_credential cs id ≡ some c
    → find_credential (set_counter cs id n) id ≡ some (with_counter c n)
unfolding find_credential set_counter
find_credential-set_counter [] id n h = cc
find_credential-set_counter (d ∷ cs) id n h = elim (Bool-cases (d.id.bytes == id)) [
  | inl here ↦ rw here (rw here (ap (map_counter n) (rw here at h)))
  | inr other ↦ rw other (rw other (find_credential-set_counter cs id n (rw other at h)))
]

-- How a login is reported.
abbrev pub answer_of : AuthSuccess → AuthFinishReply
answer_of outcome = record {
  is_ok = true;
  user_verified = outcome.user_verified;
  new_counter = outcome.new_counter;
}

-- What a reported login was checked against: `before` and `after` are the user's credentials.
pub record LoggedIn (libs : Libs) (world : World) (wa : Webauthn) (body : AuthenticationResponse)
    (before : List PasskeyCredential) (auth_state : AuthenticationState)
    (after : List PasskeyCredential) (answer : AuthFinishReply) : Type 0 where
  pub id : CredentialId
  pub decoded : from_b64url libs body.id ≡ ok id
  pub stored : PasskeyCredential
  pub found : find_credential before id.bytes ≡ some stored
  pub outcome : AuthSuccess
  pub accepted : finish_authentication libs world wa auth_state body stored ≡ ok outcome
  pub answered : answer ≡ answer_of outcome
  pub saved : find_credential after id.bytes ≡ some (with_counter stored outcome.new_counter)

module _ (libs : Libs) (world : World) (state : AppState) (body : AuthenticationResponse) where
  store_counter-reply :
      (id : List ℕ) (r : Result AuthSuccess) {stored : PasskeyCredential} {answer : AuthFinishReply}
      → find_credential state.user.credentials id ≡ some stored
      → (store_counter libs world state id r).1 ≡ reply answer
      → (outcome : AuthSuccess) × (r ≡ ok outcome)
        × (answer ≡ answer_of outcome)
        × (find_credential (store_counter libs world state id r).0.user.credentials id
            ≡ some (with_counter stored outcome.new_counter))
  unfolding store_counter
  store_counter-reply id (ok o) found h =
      (o, refl, cc, find_credential-set_counter state.user.credentials id o.new_counter found)
  store_counter-reply id (err e) found h = cc
  store_counter-reply id panic found h = cc

  check_found-reply :
      (auth_state : AuthenticationState) (id : CredentialId) (o : Option PasskeyCredential)
      {answer : AuthFinishReply}
      → from_b64url libs body.id ≡ ok id
      → find_credential state.user.credentials id.bytes ≡ o
      → (check_found libs world state auth_state body id.bytes o).1 ≡ reply answer
      → LoggedIn libs world state.wa body state.user.credentials auth_state
          (check_found libs world state auth_state body id.bytes o).0.user.credentials
          answer
  unfolding check_found
  check_found-reply auth_state id none decoded found h = cc
  check_found-reply auth_state id (some stored) decoded found h =
      let (outcome, accepted, answered, saved) = store_counter-reply id.bytes _ found h in
      record {
        id = id;
        decoded = decoded;
        stored = stored;
        found = found;
        outcome = outcome;
        accepted = accepted;
        answered = answered;
        saved = saved;
      }

  check_id-reply :
      (auth_state : AuthenticationState) (r : Result CredentialId) {answer : AuthFinishReply}
      → from_b64url libs body.id ≡ r
      → (check_id libs world state auth_state body r).1 ≡ reply answer
      → LoggedIn libs world state.wa body state.user.credentials auth_state
          (check_id libs world state auth_state body r).0.user.credentials
          answer
  unfolding check_id
  check_id-reply auth_state (ok id) decoded h = check_found-reply auth_state id _ decoded refl h
  check_id-reply auth_state (err e) decoded h = cc
  check_id-reply auth_state panic decoded h = cc

  finish_taken_auth-reply :
      (taken : Option AuthenticationState) {answer : AuthFinishReply}
      → (finish_taken_auth libs world state taken body).1 ≡ reply answer
      → (auth_state : AuthenticationState) × (taken ≡ some auth_state)
        × LoggedIn libs world state.wa body state.user.credentials auth_state
            (finish_taken_auth libs world state taken body).0.user.credentials
            answer
  unfolding finish_taken_auth
  finish_taken_auth-reply none h = cc
  finish_taken_auth-reply (some auth_state) h =
      (auth_state, refl, check_id-reply auth_state (from_b64url libs body.id) refl h)

-- When `authenticate_finish` reports a login, the session had an authentication in flight, the id in
-- the response is that of a stored credential, `finish_authentication` accepted the response for
-- both, and this credential is now stored with the new counter.
pub authenticate_finish-LoggedIn :
    (libs : Libs) (world : World) (state : AppState) (sid : String) (body : AuthenticationResponse)
    (answer : AuthFinishReply)
    → (authenticate_finish libs world state (some sid) body).1 ≡ reply answer
    → (auth_state : AuthenticationState) × ((take_auth state.sessions sid).1 ≡ some auth_state)
      × LoggedIn libs world state.wa body state.user.credentials auth_state
          (authenticate_finish libs world state (some sid) body).0.user.credentials
          answer
unfolding authenticate_finish
authenticate_finish-LoggedIn libs world state sid body answer h =
    finish_taken_auth-reply libs world
      (record state { sessions = (take_auth state.sessions sid).0 }) body
      (take_auth state.sessions sid).1 h
