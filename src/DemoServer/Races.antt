-- ===== src/DemoServer/Races.antt =====
-- `register_start` of examples/axum_server.rs cut at its three locks, and two runs of it at the same
-- time.
use passkey_auth_rs.Prelude.{
  ℕ, String, ◌≡◌, inl, inr, refl, some, List, map, string_eq, Bool-cases, is_empty, if◌then◌else◌,
}
use passkey_auth_rs.Deps.{Libs, World}
use passkey_auth_rs.Types.{RegistrationState}
use passkey_auth_rs.Ceremony.Start.{start_registration}
use passkey_auth_rs.Servers.Table.{get_entry, set_entry}
use passkey_auth_rs.DemoServer.{AppState, or_default, register_start}

-- The first lock, and the start of the ceremony: the id that is chosen, and the state.
unfoldable pub register_start_reads : Libs → World → List ℕ → AppState → List ℕ × RegistrationState
register_start_reads libs world fresh_id s =
    let user_id = if is_empty s.user.id then fresh_id else s.user.id in
    (
      user_id,
      (start_registration libs world s.wa user_id "alice@example.com" "Alice"
          (map (λ c. c.id) s.user.credentials)).1,
    )

-- The second lock.
unfoldable pub register_start_puts : String → RegistrationState → AppState → AppState
register_start_puts sid r s = record s {
  sessions =
      set_entry s.sessions sid
        (record (or_default (get_entry s.sessions sid)) { reg_state = some r });
}

-- The third lock.
unfoldable pub register_start_keeps : List ℕ → AppState → AppState
register_start_keeps user_id s = record s {
  user = record s.user { id = if is_empty s.user.id then user_id else s.user.id };
}

-- The three parts, one right after the other, are the handler.
pub register_start_parts :
    (libs : Libs) (world : World) (s : AppState) (sid : String) (fresh_id : List ℕ)
    → (let (user_id, r) = register_start_reads libs world fresh_id s in
        register_start_keeps user_id (register_start_puts sid r s)
        ≡ (register_start libs world s sid fresh_id).0)
unfolding register_start_reads register_start_puts register_start_keeps register_start
register_start_parts libs world s sid fresh_id = elim (Bool-cases (is_empty s.user.id)) [
  | inl first ↦ rw first refl
  | inr known ↦ rw known refl
]

module _ (libs : Libs) (world world' : World) (s : AppState) (first second : String)
    (id id' : List ℕ) where
  -- Both read before either keeps its id.
  abbrev pub raced : AppState
  raced =
      let (user_id, r) = register_start_reads libs world id s in
      let (user_id', r') = register_start_reads libs world' id' s in
      register_start_keeps user_id' (
        register_start_puts second r'
          (register_start_keeps user_id (register_start_puts first r s)))
