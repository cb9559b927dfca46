-- ===== src/Servers/Table.antt =====
-- The `HashMap<String, …>`s of the servers under examples/ (sessions by cookie, users by name), as
-- association lists.
use passkey_auth_rs.Prelude.{
  ap, String, ◌≡◌, inl, inr, refl, sym, ◌∙◌, true, false, Option, none, some, List, [], ◌∷◌, ◌==◌,
  string_eq, beq_refl, beq_ne, ne_of_beq, Bool-cases, arith, if◌then◌else◌,
}

beq-other :
    (key sid other : String) → (key == sid) ≡ false → (key == other) ≡ true → (sid == other) ≡ false
beq-other key sid other elsewhere hit =
    beq_ne sid other
      (λ e. ne_of_beq key sid elsewhere ((string_eq.same_iff key other).0 hit ∙ sym e))

module _ {A : Type 0} where
  -- `sessions.get(sid)`
  unfoldable pub get_entry : List (String × A) → String → Option A
  get_entry [] sid = none
  get_entry ((key, s) ∷ rest) sid = if key == sid then some s else get_entry rest sid

  -- A session that is written back, or inserted.
  unfoldable pub set_entry : List (String × A) → String → A → List (String × A)
  set_entry [] sid new = (sid, new) ∷ []
  set_entry ((key, s) ∷ rest) sid new =
      if key == sid then (key, new) ∷ rest else (key, s) ∷ set_entry rest sid new

  -- `sessions.remove(sid)`
  unfoldable pub remove_entry : List (String × A) → String → List (String × A)
  remove_entry [] sid = []
  remove_entry ((key, s) ∷ rest) sid =
      let others = remove_entry rest sid in if key == sid then others else (key, s) ∷ others

  pub get_entry-set_entry :
      (sessions : List (String × A)) (sid other : String) (new : A)
      → get_entry (set_entry sessions sid new) other
        ≡ (if sid == other then some new else get_entry sessions other)
  unfolding get_entry set_entry
  get_entry-set_entry [] sid other new = refl
  get_entry-set_entry ((key, s) ∷ rest) sid other new = elim (Bool-cases (key == sid)) [
    | inl here ↦
        let same = (string_eq.same_iff key sid).0 here in
        rw here (
          rw (same)
            (elim (Bool-cases (sid == other)) [ inl hit ↦ rw hit refl | inr miss ↦ rw miss refl ]))
    | inr elsewhere ↦ rw elsewhere (elim (Bool-cases (key == other)) [
      | inl hit ↦ rw (hit, beq-other key sid other elsewhere hit) refl
      | inr miss ↦ rw miss (get_entry-set_entry rest sid other new)
    ])
  ]

  pub get_entry-remove_entry :
      (sessions : List (String × A)) (sid other : String)
      → get_entry (remove_entry sessions sid) other
        ≡ (if sid == other then none else get_entry sessions other)
  unfolding get_entry remove_entry
  get_entry-remove_entry [] sid other = ground arith
  get_entry-remove_entry ((key, s) ∷ rest) sid other = elim (Bool-cases (key == sid)) [
    | inl here ↦ rw here (
        rw (get_entry-remove_entry rest sid other) (
          rw ((string_eq.same_iff key sid).0 here)
            (elim (Bool-cases (sid == other)) [ inl hit ↦ rw hit refl | inr miss ↦ rw miss refl ])))
    | inr elsewhere ↦ rw elsewhere (elim (Bool-cases (key == other)) [
      | inl hit ↦ rw (hit, beq-other key sid other elsewhere hit) refl
      | inr miss ↦ rw miss (get_entry-remove_entry rest sid other)
    ])
  ]

module _ {A B : Type 0} (field : A → Option B) (clear : A → A) where
  abbrev pub take_of : List (String × A) → String → Option A → List (String × A) × Option B
  take_of sessions sid none = (sessions, none)
  take_of sessions sid (some s) = (set_entry sessions sid (clear s), field s)

  -- `.get_mut(sid).and_then(|s| s.field.take())`: the state, and the map without it.
  unfoldable pub take_field : List (String × A) → String → List (String × A) × Option B
  take_field sessions sid = take_of sessions sid (get_entry sessions sid)

  take_of-other :
      (sessions : List (String × A)) (sid other : String) (o : Option A)
      → (sid == other) ≡ false
      → get_entry (take_of sessions sid o).0 other ≡ get_entry sessions other
  take_of-other sessions sid other none apart = refl
  take_of-other sessions sid other (some s) apart =
      get_entry-set_entry sessions sid other (clear s) ∙ rw apart refl

  -- The other sessions are as before.
  pub take_field-other :
      (sessions : List (String × A)) (sid other : String)
      → (sid == other) ≡ false
      → get_entry (take_field sessions sid).0 other ≡ get_entry sessions other
  unfolding take_field
  take_field-other sessions sid other apart =
      take_of-other sessions sid other (get_entry sessions sid) apart

  pub take_field-found :
      (sessions : List (String × A)) (sid : String) {s : A}
      → get_entry sessions sid ≡ some s
      → (take_field sessions sid).1 ≡ field s
  unfolding take_field
  take_field-found sessions sid h = ap (λ o. (take_of sessions sid o).1) h

  -- What was written back is what is taken.
  pub take_field-set_entry :
      (sessions : List (String × A)) (sid : String) (new : A)
      → (take_field (set_entry sessions sid new) sid).1 ≡ field new
  take_field-set_entry sessions sid new =
      take_field-found (set_entry sessions sid new) sid
        (get_entry-set_entry sessions sid sid new ∙ rw (beq_refl sid) refl)

  take_of_again :
      (sessions : List (String × A)) (sid : String) (o : Option A)
      → ((s : A) → field (clear s) ≡ none)
      → get_entry sessions sid ≡ o
      → (take_field (take_of sessions sid o).0 sid).1 ≡ none
  unfolding take_field
  take_of_again sessions sid none cleared h = ap (λ o. (take_of sessions sid o).1) h
  take_of_again sessions sid (some s) cleared h =
      take_field-set_entry sessions sid (clear s) ∙ cleared s

  -- What is taken is gone.
  pub take_field_again :
      (sessions : List (String × A)) (sid : String)
      → ((s : A) → field (clear s) ≡ none)
      → (take_field (take_field sessions sid).0 sid).1 ≡ none
  unfolding take_field
  take_field_again sessions sid cleared =
      take_of_again sessions sid (get_entry sessions sid) cleared refl
