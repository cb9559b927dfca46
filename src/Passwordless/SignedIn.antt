-- ===== src/Passwordless/SignedIn.antt =====
-- The handlers of examples/axum_passwordless.rs that sign nobody in or out.
use passkey_auth_rs.Prelude.{String, ◌≡◌, refl, Option, none, some, ◌==◌, string_eq, list_eq}
use passkey_auth_rs.Deps.{Libs, World}
use passkey_auth_rs.Types.{
  PasskeyCredential, RegistrationResponse, RegistrationState, AuthenticationState,
}
use passkey_auth_rs.Ceremony.Registration.{finish_registration}
use passkey_auth_rs.Servers.Handler.{
  proceed-keeps, or_bad_request_of, or_unauthorized_of, verified_of, refuse_if_of,
}
use passkey_auth_rs.Servers.Marks.{mark-set_entry, mark-take_field}
use passkey_auth_rs.Servers.Table.{get_entry}
use passkey_auth_rs.Servers.Cookies.{sid_from_cookies, get_or_create_sid, trim}
use passkey_auth_rs.Passwordless.{
  AppState, Session, contains_key, take_reg_state, take_auth_state, put_reg_state, put_auth_state,
  or_default, add_credential, register_start, register_finish, authenticate_start, whoami,
  signed_in_as_of,
}
use passkey_auth_rs.Passwordless.Login.{signed_in_as}

or_default-signed_in_as : (o : Option Session) → (or_default o).signed_in_as ≡ signed_in_as_of o
or_default-signed_in_as none = refl
or_default-signed_in_as (some s) = refl

signed_in_as-put_reg_state :
    (sid : String) (r : String × RegistrationState) (s : AppState) (other : String)
    → signed_in_as (put_reg_state sid r s) other ≡ signed_in_as s other
unfolding put_reg_state
signed_in_as-put_reg_state sid r s other =
    mark-set_entry signed_in_as_of s.sessions sid other _
      (or_default-signed_in_as (get_entry s.sessions sid))

signed_in_as-put_auth_state :
    (sid : String) (r : AuthenticationState) (s : AppState) (other : String)
    → signed_in_as (put_auth_state sid r s) other ≡ signed_in_as s other
unfolding put_auth_state
signed_in_as-put_auth_state sid r s other =
    mark-set_entry signed_in_as_of s.sessions sid other _
      (or_default-signed_in_as (get_entry s.sessions sid))

signed_in_as-take_reg_state :
    (sid : String) (s : AppState) (other : String)
    → signed_in_as (take_reg_state sid s).0 other ≡ signed_in_as s other
unfolding take_reg_state
signed_in_as-take_reg_state sid s other =
    mark-take_field signed_in_as_of _ _ (λ e. refl) s.sessions sid other

pub signed_in_as-take_auth_state :
    (sid : String) (s : AppState) (other : String)
    → signed_in_as (take_auth_state sid s).0 other ≡ signed_in_as s other
unfolding take_auth_state
signed_in_as-take_auth_state sid s other =
    mark-take_field signed_in_as_of _ _ (λ e. refl) s.sessions sid other

signed_in_as-add_credential :
    (libs : Libs) (name : String) (c : PasskeyCredential) (s : AppState) (other : String)
    → signed_in_as (add_credential libs name c s) other ≡ signed_in_as s other
unfolding add_credential
signed_in_as-add_credential libs name c s other = refl

module _ (libs : Libs) (world : World) (s : AppState) (other : String) where
  abbrev look : AppState → Option String
  look state = signed_in_as state other

  pub register_start-signed_in_as :
      (name : String) (cookies : Option String) (fresh : String)
      → look (register_start libs world name cookies fresh s).0 ≡ look s
  unfolding register_start
  register_start-signed_in_as name cookies fresh =
      proceed-keeps look (s, refuse_if_of (trim name == "") "username required") _ refl
        λ _.
          proceed-keeps look
            (
              s,
              refuse_if_of (contains_key s.users (trim name))
                  "username already exists - sign in instead",
            )
            _ refl λ _. signed_in_as-put_reg_state (get_or_create_sid cookies fresh) _ s other

  pub register_finish-signed_in_as :
      (cookies : Option String) (body : RegistrationResponse)
      → look (register_finish libs world cookies body s).0 ≡ look s
  unfolding register_finish
  register_finish-signed_in_as cookies body =
      proceed-keeps look (s, or_bad_request_of (sid_from_cookies cookies) "missing sid cookie") _
        refl
        λ sid.
          let t = (take_reg_state sid s).0 in
          proceed-keeps look (take_reg_state sid s) _ (signed_in_as-take_reg_state sid s other)
            λ taken.
              proceed-keeps look
                (
                  t,
                  verified_of (finish_registration libs world t.wa taken.1 body)
                      "registration verify failed: ",
                )
                _ refl λ credential. signed_in_as-add_credential libs taken.0 credential t other

  pub authenticate_start-signed_in_as :
      (cookies : Option String) (fresh : String)
      → look (authenticate_start libs world cookies fresh s).0 ≡ look s
  unfolding authenticate_start
  authenticate_start-signed_in_as cookies fresh =
      signed_in_as-put_auth_state (get_or_create_sid cookies fresh) _ s other

  pub whoami-signed_in_as : (cookies : Option String) → look (whoami cookies s).0 ≡ look s
  unfolding whoami
  whoami-signed_in_as cookies =
      proceed-keeps look (s, or_unauthorized_of (sid_from_cookies cookies) "no session") _ refl
        λ sid.
          proceed-keeps look
            (s, or_unauthorized_of (signed_in_as_of (get_entry s.sessions sid)) "not signed in") _
            refl (λ _. refl)
