-- ===== src/Passwordless/Login.antt =====
-- The two ways in which `authenticate_finish` of examples/axum_passwordless.rs can end.
use passkey_auth_rs.Prelude.{ℕ, String, true, ◌≡◌, ◌⊎◌, inl, inr, refl, Option, none, some, List}
use passkey_auth_rs.Error.{ok}
use passkey_auth_rs.Deps.{Libs, World}
use passkey_auth_rs.Types.{
  CredentialId, PasskeyCredential, AuthenticationResponse, AuthenticationState, AuthSuccess,
  from_b64url,
}
use passkey_auth_rs.Ceremony.Authentication.{finish_authentication}
use passkey_auth_rs.Servers.Handler.{
  Reply, reply, IsRefusal, proceed-elim, or_bad_request_of, or_unauthorized_of, verified_of,
  decoded_of, or_bad_request_of-eq-reply, or_unauthorized_of-eq-reply, verified_of-eq-reply,
  decoded_of-eq-reply,
}
use passkey_auth_rs.Servers.Table.{get_entry, take_field}
use passkey_auth_rs.Servers.Credentials.{find_credential}
use passkey_auth_rs.Servers.Cookies.{sid_from_cookies}
use passkey_auth_rs.Passwordless.{
  AppState, User, Session, AuthFinishReply, WithSid, json_with_sid, find_user, take_auth_state,
  save_counter, rotate, base64_decode_lenient, authenticate_finish, signed_in_as_of,
}

-- Who is signed in to a session.
abbrev pub signed_in_as : AppState → String → Option String
signed_in_as state sid = signed_in_as_of (get_entry state.sessions sid)

module _ (libs : Libs) (world : World) where
  -- A login: what was checked, and what the server did.
  pub record Login (s : AppState) (cookies : Option String) (body : AuthenticationResponse)
      (new_sid : String) (r : AppState × Reply (WithSid AuthFinishReply)) : Type 0 where
    pub sid : String
    pub sent : sid_from_cookies cookies ≡ some sid
    pub auth_state : AuthenticationState
    pub taken :
        (take_field {A = Session}
          (λ e. e.auth_state)
          (λ e. record e { auth_state = none })
          s.sessions
          sid).1
        ≡ some auth_state
    pub handle_b64 : String
    pub named : body.user_handle ≡ some handle_b64
    pub handle : List ℕ
    pub handle_decoded : base64_decode_lenient libs handle_b64 ≡ some handle
    pub id : CredentialId
    pub id_decoded : from_b64url libs body.id ≡ ok id
    pub username : String
    pub user : User
    pub user_found : find_user s.users handle ≡ some (username, user)
    pub stored : PasskeyCredential
    pub found : find_credential user.credentials id.bytes ≡ some stored
    pub outcome : AuthSuccess
    pub accepted : finish_authentication libs world s.wa auth_state body stored ≡ ok outcome
    pub answered :
        r.1
        ≡ reply (
            json_with_sid
              (record { is_ok = true; username = username; user_verified = outcome.user_verified })
              new_sid)
    pub after :
        r.0
        ≡ rotate sid new_sid username
            (save_counter username user id.bytes outcome.new_counter (take_auth_state sid s).0)

  -- A refused request: the state is as before, or without the authentication that was in flight.
  pub record Idle (s : AppState) (r : AppState × Reply (WithSid AuthFinishReply)) : Type 0 where
    pub refused : IsRefusal r.1
    pub left : (r.0 ≡ s) ⊎ ((sid : String) × (r.0 ≡ (take_auth_state sid s).0))

  pub authenticate_finish_cases :
      (s : AppState) (cookies : Option String) (body : AuthenticationResponse) (new_sid : String)
      → Login s cookies body new_sid (authenticate_finish libs world cookies body new_sid s)
        ⊎ Idle s (authenticate_finish libs world cookies body new_sid s)
  unfolding authenticate_finish take_auth_state
  authenticate_finish_cases s cookies body new_sid =
      proceed-elim Ends (s, or_bad_request_of (sid_from_cookies cookies) "missing sid cookie") _
        (λ answer refused. inr (record { refused = refused; left = inl refl }))
        λ sid sent. proceed-elim Ends (take_auth_state sid s) _ (stop sid) λ auth_state taken.
          proceed-elim Ends
            (t sid, or_bad_request_of body.user_handle "response missing userHandle") _ (stop sid)
            λ handle_b64 named.
              proceed-elim Ends
                (
                  t sid,
                  or_bad_request_of (base64_decode_lenient libs handle_b64)
                      "userHandle not valid base64",
                )
                _ (stop sid)
                λ handle handle_decoded.
                  proceed-elim Ends
                    (t sid, decoded_of (from_b64url libs body.id) "bad credential id") _ (stop sid)
                    λ id id_decoded.
                      proceed-elim Ends
                        (t sid, or_unauthorized_of (find_user s.users handle) "unknown user") _
                        (stop sid)
                        λ who user_found.
                          proceed-elim Ends
                            (
                              t sid,
                              or_unauthorized_of (find_credential who.1.credentials id.bytes)
                                  "unknown credential for user",
                            )
                            _ (stop sid)
                            λ stored found.
                              proceed-elim Ends
                                (
                                  t sid,
                                  verified_of
                                      (finish_authentication libs world s.wa auth_state body stored)
                                      "auth verify failed: ",
                                )
                                _ (stop sid)
                                λ outcome accepted. inl (record {
                                  sid = sid;
                                  sent = or_bad_request_of-eq-reply _ _ sent;
                                  auth_state = auth_state;
                                  taken = or_bad_request_of-eq-reply _ _ taken;
                                  handle_b64 = handle_b64;
                                  named = or_bad_request_of-eq-reply _ _ named;
                                  handle = handle;
                                  handle_decoded = or_bad_request_of-eq-reply _ _ handle_decoded;
                                  id = id;
                                  id_decoded =
                                      decoded_of-eq-reply (from_b64url libs body.id) _ id_decoded;
                                  username = who.0;
                                  user = who.1;
                                  user_found = or_unauthorized_of-eq-reply _ _ user_found;
                                  stored = stored;
                                  found = or_unauthorized_of-eq-reply _ _ found;
                                  outcome = outcome;
                                  accepted = verified_of-eq-reply _ _ accepted;
                                  answered = refl;
                                  after = refl;
                                })
    where
      t : String → AppState
      t sid = (take_auth_state sid s).0

      Ends : AppState × Reply (WithSid AuthFinishReply) → Type 0
      Ends r = Login s cookies body new_sid r ⊎ Idle s r

      stop :
          (sid : String) (answer : Reply (WithSid AuthFinishReply))
          → IsRefusal answer
          → Ends (t sid, answer)
      stop sid answer refused = inr (record { refused = refused; left = inr (sid, refl) })
