-- ===== src/Passwordless/Takeover.antt =====
-- A registration at examples/axum_passwordless.rs that ends after the name was taken.
use passkey_auth_rs.Prelude.{
  String, true, false, ◌≡◌, ◌∙◌, sym, ap, List, ◌==◌, refl, Option, none, some, [], ◌∷◌, string_eq,
  beq_refl, beq_ne, ne_of_beq,
}
use passkey_auth_rs.Error.{ok}
use passkey_auth_rs.Deps.{Libs, World}
use passkey_auth_rs.Types.{PasskeyCredential, RegistrationResponse, RegistrationState}
use passkey_auth_rs.Ceremony.Start.{start_registration}
use passkey_auth_rs.Ceremony.Registration.{finish_registration}
use passkey_auth_rs.Servers.Handler.{Reply, reply}
use passkey_auth_rs.Servers.Table.{
  get_entry, take_field, get_entry-set_entry, take_field-found, take_field-other,
}
use passkey_auth_rs.Servers.Cookies.{sid_from_cookies, get_or_create_sid, trim}
use passkey_auth_rs.Passwordless.{
  AppState, Session, RegisterFinishReply, take_reg_state, put_reg_state, or_default, contains_key,
  handle_of, add_credential, register_start, register_finish,
}

abbrev taken : AppState → String → List (String × Session) × Option (String × RegistrationState)
taken s sid =
    take_field {A = Session} (λ e. e.reg_state) (λ e. record e { reg_state = none }) s.sessions sid

other_way : (a b : String) → (a == b) ≡ false → (b == a) ≡ false
other_way a b h = beq_ne b a λ e. ne_of_beq a b h (sym e)

module _ (libs : Libs) where
  -- What a start for a name puts into the session.
  abbrev pub started : World → AppState → String → RegistrationState
  started world s name = (start_registration libs world s.wa (handle_of libs name) name name []).1

  register_start-free :
      (world : World) (s : AppState) (sent name : String) (cookies : Option String)
      (fresh sid : String)
      → trim sent ≡ name
      → (name == "") ≡ false
      → sid_from_cookies cookies ≡ some sid
      → get_entry s.users name ≡ none
      → (register_start libs world sent cookies fresh s).0
        ≡ put_reg_state sid (name, started world s name) s
  unfolding register_start contains_key get_or_create_sid
  register_start-free world s sent name cookies fresh sid trims named has_sid free =
      rw (trims, named, has_sid, free) refl

  register_finish-taken :
      (world : World) (s : AppState) (cookies : Option String) (sid : String)
      (body : RegistrationResponse) (name : String) (r : RegistrationState)
      (credential : PasskeyCredential)
      → sid_from_cookies cookies ≡ some sid
      → (taken s sid).1 ≡ some (name, r)
      → finish_registration libs world s.wa r body ≡ ok credential
      → register_finish libs world cookies body s ≡ (
        add_credential libs name credential (record s { sessions = (taken s sid).0 }),
        reply (record { is_ok = true; username = name }),
      )
  unfolding register_finish take_reg_state
  register_finish-taken world s cookies sid body name r credential has_sid in_flight accepted =
      rw (has_sid, in_flight, accepted) refl

  -- The two sessions with their registrations in flight.
  module _ (s : AppState) (name sid sid' : String) (r r' : RegistrationState)
      (apart : (sid == sid') ≡ false) where
    abbrev both_started : AppState
    both_started = put_reg_state sid' (name, r') (put_reg_state sid (name, r) s)

    abbrev first_done : PasskeyCredential → AppState
    first_done c =
        add_credential libs name c (record both_started { sessions = (taken both_started sid).0 })

    abbrev with_reg : AppState → String → RegistrationState → Session
    with_reg t k p = record (or_default (get_entry t.sessions k)) { reg_state = some (name, p) }

    taken-first : (taken both_started sid).1 ≡ some (name, r)
    unfolding put_reg_state
    taken-first = take_field-found _ _ both_started.sessions sid {s = with_reg s sid r} (
        get_entry-set_entry (put_reg_state sid (name, r) s).sessions sid' sid _
        ∙ rw (other_way sid sid' apart)
            (get_entry-set_entry s.sessions sid sid _ ∙ rw (beq_refl sid) refl))

    taken-second : (c : PasskeyCredential) → (taken (first_done c) sid').1 ≡ some (name, r')
    unfolding put_reg_state add_credential
    taken-second c =
        take_field-found _ _ (first_done c).sessions sid'
          {s = with_reg (put_reg_state sid (name, r) s) sid' r'}
          (take_field-other _ _ both_started.sessions sid sid' apart
            ∙ (get_entry-set_entry (put_reg_state sid (name, r) s).sessions sid' sid' _
                ∙ rw (beq_refl sid') refl))

    -- The account behind both.
    joined :
        (c c' : PasskeyCredential) (sessions : List (String × Session))
        → get_entry s.users name ≡ none
        → get_entry
            (add_credential libs name c' (record (first_done c) { sessions = sessions })).users
            name
          ≡ some (record { handle = handle_of libs name; credentials = c ∷ c' ∷ [] })
    unfolding put_reg_state add_credential
    joined c c' sessions free =
        rw (get_entry-set_entry, beq_refl name, get_entry-set_entry, beq_refl name, free) refl

  module _ (w w' v v' : World) (s : AppState) (sent sent' : String)
      (cookies cookies' : Option String) (fresh fresh' : String)
      (body body' : RegistrationResponse) where
    -- Both start, then the first finishes, then the second.
    abbrev pub after_starts : AppState
    after_starts =
        (register_start libs w' sent' cookies' fresh'
          (register_start libs w sent cookies fresh s).0).0

    abbrev pub after_first : AppState × Reply RegisterFinishReply
    after_first = register_finish libs v cookies body after_starts

    abbrev pub after_second : AppState × Reply RegisterFinishReply
    after_second = register_finish libs v' cookies' body' after_first.0

    -- If two sessions start a registration for the same free name (after trimming) before either
    -- finishes one, and both responses are accepted, then both are told that they registered the name,
    -- and the name's account holds the credentials of both.
    pub registrations_join :
        (name sid sid' : String) (c c' : PasskeyCredential)
        → trim sent ≡ name
        → trim sent' ≡ name
        → (name == "") ≡ false
        → get_entry s.users name ≡ none
        → sid_from_cookies cookies ≡ some sid
        → sid_from_cookies cookies' ≡ some sid'
        → (sid == sid') ≡ false
        → finish_registration libs v s.wa (started w s name) body ≡ ok c
        → finish_registration libs v' s.wa (started w' s name) body' ≡ ok c'
        → (after_first.1 ≡ reply (record { is_ok = true; username = name }))
          × (after_second.1 ≡ reply (record { is_ok = true; username = name }))
          × (get_entry after_second.0.users name
              ≡ some (record { handle = handle_of libs name; credentials = c ∷ c' ∷ [] }))
    unfolding put_reg_state
    registrations_join name sid sid' c c' trims trims' named free has_sid has_sid' apart accepted
          accepted' =
        let r = started w s name in
        let r' = started w' s name in
        let in_both = both_started s name sid sid' r r' apart in
        let begun : after_starts ≡ in_both =
          ap (λ t. (register_start libs w' sent' cookies' fresh' t).0)
            (register_start-free w s sent name cookies fresh sid trims named has_sid free)
          ∙ register_start-free w' (put_reg_state sid (name, r) s) sent' name cookies' fresh' sid'
              trims' named has_sid' free in
        let t = first_done s name sid sid' r r' apart c in
        let first : after_first ≡ (t, reply (record { is_ok = true; username = name })) =
          ap (λ t. register_finish libs v cookies body t) begun
          ∙ register_finish-taken v in_both cookies sid body name r c has_sid
              (taken-first s name sid sid' r r' apart) accepted in
        let second =
          ap
            (λ (p : AppState × Reply RegisterFinishReply).
              register_finish libs v' cookies' body' p.0)
            first
          ∙ register_finish-taken v' t cookies' sid' body' name r' c' has_sid'
              (taken-second s name sid sid' r r' apart c) (unfold add_credential in accepted') in
        (
          ap (λ p. p.1) first,
          ap (λ p. p.1) second,
          ap (λ p. get_entry p.0.users name) second
              ∙ joined s name sid sid' r r' apart c c' (taken t sid').0 free,
        )
