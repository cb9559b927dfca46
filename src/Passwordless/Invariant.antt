-- ===== src/Passwordless/Invariant.antt =====
-- The invariant of the states that examples/axum_passwordless.rs reaches.
use passkey_auth_rs.Prelude.{String, ◌⊎◌, inl, inr, refl, sym, Option, subst}
use passkey_auth_rs.Deps.{Libs, World}
use passkey_auth_rs.Types.{RegistrationResponse, AuthenticationResponse}
use passkey_auth_rs.Ceremony.{Webauthn}
use passkey_auth_rs.Ceremony.Registration.{finish_registration}
use passkey_auth_rs.Servers.Handler.{Reply, proceed-elim, or_bad_request_of, verified_of}
use passkey_auth_rs.Servers.Cookies.{sid_from_cookies}
use passkey_auth_rs.Passwordless.{
  AppState, AuthFinishReply, WithSid, take_reg_state, take_auth_state, register_finish,
}
use passkey_auth_rs.Passwordless.Login.{Login, Idle, authenticate_finish_cases}
use passkey_auth_rs.Passwordless.Handles.{
  IsConsistent, find_user-handle, take_reg_state-IsConsistent, take_auth_state-IsConsistent,
  register_start-IsConsistent, authenticate_start-IsConsistent, whoami-IsConsistent,
  add_credential-IsConsistent, logged_in-IsConsistent,
}
use passkey_auth_rs.Passwordless.Requests.{
  starts_registration, finishes_registration, starts_authentication, finishes_authentication,
  asks_who, serve, Reachable, at_boot, served,
}

module _ (libs : Libs) (world : World) (wa : Webauthn) (s : AppState)
    (c : IsConsistent libs wa s) where
  register_finish-IsConsistent :
      (cookies : Option String) (body : RegistrationResponse)
      → IsConsistent libs wa (register_finish libs world cookies body s).0
  unfolding register_finish
  register_finish-IsConsistent cookies body =
      proceed-elim (λ r. IsConsistent libs wa r.0)
        (s, or_bad_request_of (sid_from_cookies cookies) "missing sid cookie") _ (λ _ _. c)
        λ sid _.
          let t = (take_reg_state sid s).0 in
          let left = take_reg_state-IsConsistent libs world wa s c sid in
          proceed-elim (λ r. IsConsistent libs wa r.0) (take_reg_state sid s) _ (λ _ _. left)
            λ taken _.
              proceed-elim (λ r. IsConsistent libs wa r.0)
                (
                  t,
                  verified_of (finish_registration libs world t.wa taken.1 body)
                      "registration verify failed: ",
                )
                _ (λ _ _. left)
                λ credential _. add_credential-IsConsistent libs world wa t left taken.0 credential

  ended-IsConsistent :
      {cookies : Option String} {body : AuthenticationResponse} {new_sid : String}
      (r : AppState × Reply (WithSid AuthFinishReply))
      → Login libs world s cookies body new_sid r ⊎ Idle libs world s r
      → IsConsistent libs wa r.0
  ended-IsConsistent r (inr idle) = elim idle.left [
    | inl same ↦ subst (IsConsistent libs wa) (sym same) c
    | inr (sid, left) ↦
        subst (IsConsistent libs wa) (sym left) (take_auth_state-IsConsistent libs world wa s c sid)
  ]
  ended-IsConsistent {new_sid = new_sid} r (inl login) =
      subst (IsConsistent libs wa) (sym login.after) (
        logged_in-IsConsistent libs world wa (take_auth_state login.sid s).0
          (take_auth_state-IsConsistent libs world wa s c login.sid) login.sid new_sid
          login.username login.user login.id.bytes login.outcome.new_counter
          (find_user-handle libs s.users login.handle c.handled login.user_found).1)

-- In every state that the server reaches, the relying party is the one that it was booted with, every
-- user has the handle that is derived from the name, and every registration in flight is for the
-- handle that is derived from the name that it will be stored under.
pub Reachable-IsConsistent :
    (libs : Libs) (wa : Webauthn) {state : AppState}
    → Reachable libs wa state
    → IsConsistent libs wa state
unfolding serve
Reachable-IsConsistent libs wa at_boot = record { same_wa = refl; handled = tt; named = tt }
Reachable-IsConsistent libs wa (served world (starts_registration name cookies fresh) s before) =
    register_start-IsConsistent libs world wa s (Reachable-IsConsistent libs wa before) name cookies
      fresh
Reachable-IsConsistent libs wa (served world (finishes_registration cookies body) s before) =
    register_finish-IsConsistent libs world wa s (Reachable-IsConsistent libs wa before) cookies
      body
Reachable-IsConsistent libs wa (served world (starts_authentication cookies fresh) s before) =
    authenticate_start-IsConsistent libs world wa s (Reachable-IsConsistent libs wa before) cookies
      fresh
Reachable-IsConsistent libs wa (served world (finishes_authentication cookies body new) s before) =
    ended-IsConsistent libs world wa s (Reachable-IsConsistent libs wa before) _
      (authenticate_finish_cases libs world s cookies body new)
Reachable-IsConsistent libs wa (served world (asks_who cookies) s before) =
    whoami-IsConsistent libs world wa s (Reachable-IsConsistent libs wa before) cookies
