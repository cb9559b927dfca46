-- ===== src/CredentialManager/Login.antt =====
-- The two ways in which `authenticate_finish` of examples/rocket_credential_manager.rs can end.
use passkey_auth_rs.Prelude.{ℕ, String, true, ◌≡◌, ◌⊎◌, inl, inr, refl, Option, none, some, List}
use passkey_auth_rs.Error.{ok}
use passkey_auth_rs.Deps.{Libs, World}
use passkey_auth_rs.Types.{
  CredentialId, PasskeyCredential, AuthenticationResponse, AuthenticationState, AuthSuccess,
  from_b64url,
}
use passkey_auth_rs.Ceremony.Authentication.{finish_authentication}
use passkey_auth_rs.Servers.Handler.{
  Reply, reply, IsRefusal, proceed-elim, or_unauthorized_of, verified_of, decoded_of,
  or_bad_request_of-eq-reply, or_unauthorized_of-eq-reply, verified_of-eq-reply,
  decoded_of-eq-reply,
}
use passkey_auth_rs.Servers.Credentials.{find_credential, set_counter}
use passkey_auth_rs.CredentialManager.{
  AppState, AuthFinishReply, is_signed_in, take_auth, take_auth_state, set_credentials, rotate,
  authenticate_finish,
}
use passkey_auth_rs.CredentialManager.SignedIn.{is_signed_in-take_auth_state}

-- How a login is reported.
abbrev pub answer_of : AuthSuccess → AuthFinishReply
answer_of outcome = record {
  is_ok = true;
  user_verified = outcome.user_verified;
  new_counter = outcome.new_counter;
}

-- The state behind a login.
abbrev pub logged_in : AppState → String → String → List ℕ → AuthSuccess → AppState
logged_in s sid new_sid id outcome =
    let t = (take_auth_state sid s).0 in
    rotate sid new_sid (set_credentials (set_counter t.user.credentials id outcome.new_counter) t)

module _ (libs : Libs) (world : World) where
  -- A login: what was checked, and what the server did.
  pub record Login (s : AppState) (cookie : Option String) (body : AuthenticationResponse)
      (new_sid : String) (r : AppState × Reply AuthFinishReply) : Type 0 where
    pub sid : String
    pub sent : cookie ≡ some sid
    pub auth_state : AuthenticationState
    pub taken : (take_auth s.sessions sid).1 ≡ some auth_state
    pub id : CredentialId
    pub decoded : from_b64url libs body.id ≡ ok id
    pub stored : PasskeyCredential
    pub found : find_credential s.user.credentials id.bytes ≡ some stored
    pub outcome : AuthSuccess
    pub accepted : finish_authentication libs world s.wa auth_state body stored ≡ ok outcome
    pub answered : r.1 ≡ reply (answer_of outcome)
    pub after : r.0 ≡ logged_in s sid new_sid id.bytes outcome

  -- A refused request, which changed neither the user nor who is signed in.
  pub record Idle (s : AppState) (r : AppState × Reply AuthFinishReply) : Type 0 where
    pub refused : IsRefusal r.1
    pub same_user : r.0.user ≡ s.user
    pub same_signed_in : (other : String) → is_signed_in r.0 other ≡ is_signed_in s other

  pub authenticate_finish_cases :
      (s : AppState) (cookie : Option String) (body : AuthenticationResponse) (new_sid : String)
      → Login s cookie body new_sid (authenticate_finish libs world cookie body new_sid s)
        ⊎ Idle s (authenticate_finish libs world cookie body new_sid s)
  unfolding authenticate_finish take_auth_state
  authenticate_finish_cases s none body new_sid =
      inr (record { refused = tt; same_user = refl; same_signed_in = λ other. refl })
  authenticate_finish_cases s (some sid) body new_sid =
      proceed-elim Ends (take_auth_state sid s) _ stop λ auth_state taken.
        proceed-elim Ends (t, decoded_of (from_b64url libs body.id) "bad credential id") _ stop
          λ id decoded.
            proceed-elim Ends
              (
                t,
                or_unauthorized_of (find_credential t.user.credentials id.bytes)
                    "unknown credential",
              )
              _ stop
              λ stored found.
                proceed-elim Ends
                  (
                    t,
                    verified_of (finish_authentication libs world t.wa auth_state body stored)
                        "auth verify failed: ",
                  )
                  _ stop
                  λ outcome accepted. inl (record {
                    sid = sid;
                    sent = refl;
                    auth_state = auth_state;
                    taken = or_bad_request_of-eq-reply (take_auth s.sessions sid).1 _ taken;
                    id = id;
                    decoded = decoded_of-eq-reply (from_b64url libs body.id) _ decoded;
                    stored = stored;
                    found = or_unauthorized_of-eq-reply _ _ found;
                    outcome = outcome;
                    accepted = verified_of-eq-reply _ _ accepted;
                    answered = refl;
                    after = refl;
                  })
    where
      t : AppState
      t = (take_auth_state sid s).0

      Ends : AppState × Reply AuthFinishReply → Type 0
      Ends r = Login s (some sid) body new_sid r ⊎ Idle s r

      stop : (answer : Reply AuthFinishReply) → IsRefusal answer → Ends (t, answer)
      stop answer refused = inr (record {
        refused = refused;
        same_user = refl;
        same_signed_in = is_signed_in-take_auth_state sid s;
      })
