-- ===== src/CredentialManager/Rotation.antt =====
-- The session map behind a login at examples/rocket_credential_manager.rs.
use passkey_auth_rs.Prelude.{
  String, ◌≡◌, ◌⊎◌, inl, inr, refl, sym, ap, ◌∙◌, Option, none, some, List, ◌==◌, string_eq,
  Bool-cases, if◌then◌else◌,
}
use mathlib.Core.Option.{some-injective}
use passkey_auth_rs.Deps.{Libs, World}
use passkey_auth_rs.Types.{AuthenticationResponse}
use passkey_auth_rs.Servers.Handler.{Reply, reply, not-IsRefusal}
use passkey_auth_rs.Servers.Table.{
  get_entry, remove_entry, get_entry-set_entry, get_entry-remove_entry, take_field-other,
}
use passkey_auth_rs.CredentialManager.{
  AppState, Session, AuthFinishReply, signed_in_session, take_auth_state, set_credentials, rotate,
  authenticate_finish,
}
use passkey_auth_rs.CredentialManager.Login.{Login, Idle, authenticate_finish_cases}

-- The map behind a rotation, from the map before the login.
abbrev pub rotated : List (String × Session) → String → String → String → Option Session
rotated sessions sid new_sid other =
    if new_sid == other
    then some signed_in_session
    else if sid == other
    then none
    else get_entry sessions other

get_entry-rotate :
    (sid new_sid : String) (s : AppState) (other : String)
    → get_entry (rotate sid new_sid s).sessions other ≡ rotated s.sessions sid new_sid other
unfolding rotate
get_entry-rotate sid new_sid s other =
    get_entry-set_entry (remove_entry s.sessions sid) new_sid other signed_in_session
    ∙ ap (λ o. if new_sid == other then some signed_in_session else o)
        (get_entry-remove_entry s.sessions sid other)

rotated-take_auth_state :
    (s : AppState) (sid new_sid other : String)
    → rotated (take_auth_state sid s).0.sessions sid new_sid other
      ≡ rotated s.sessions sid new_sid other
unfolding take_auth_state
rotated-take_auth_state s sid new_sid other = elim (Bool-cases (sid == other)) [
  | inl old ↦ rw old refl
  | inr elsewhere ↦ rw elsewhere (
      ap (λ o. if new_sid == other then some signed_in_session else o)
        (take_field-other _ _ s.sessions sid other elsewhere))
]

module _ (libs : Libs) (world : World) (s : AppState) (sid : String) (body : AuthenticationResponse)
    (new_sid : String) where
  rotates :
      (r : AppState × Reply AuthFinishReply) {answer : AuthFinishReply}
      → Login libs world s (some sid) body new_sid r ⊎ Idle libs world s r
      → r.1 ≡ reply answer
      → (other : String) → get_entry r.0.sessions other ≡ rotated s.sessions sid new_sid other
  rotates r (inr idle) h other = absurd (not-IsRefusal r.1 h idle.refused)
  rotates r (inl login) h other =
      let same : sid ≡ login.sid = some-injective _ _ login.sent in
      ap (λ t. get_entry t.sessions other) login.after
      ∙ (get_entry-rotate login.sid new_sid (set_credentials _ (take_auth_state login.sid s).0)
            other
          ∙ (unfold set_credentials in
              rotated-take_auth_state s login.sid new_sid other
              ∙ ap (λ k. rotated s.sessions k new_sid other) (sym same)))

  -- When `authenticate_finish` reports a login, the session that it was sent from is gone, a session
  -- stands under the fresh id that is signed in and has nothing in flight, and every other session is
  -- as it was. (Should the fresh id be the old one, the new session stands under it.)
  pub authenticate_finish_rotates :
      {answer : AuthFinishReply}
      → (authenticate_finish libs world (some sid) body new_sid s).1 ≡ reply answer
      → (other : String)
      → get_entry (authenticate_finish libs world (some sid) body new_sid s).0.sessions other
        ≡ rotated s.sessions sid new_sid other
  authenticate_finish_rotates h other =
      rotates _ (authenticate_finish_cases libs world s (some sid) body new_sid) h other
