-- ===== src/Servers/Marks.antt =====
-- What of a session decides who is signed in, under the operations on the session map of the servers
-- under examples/.
use passkey_auth_rs.Prelude.{
  String, ◌≡◌, inl, inr, refl, sym, ap, ◌∙◌, Option, none, some, List, ◌==◌, string_eq, Bool-cases,
  if◌then◌else◌,
}
use passkey_auth_rs.Servers.Table.{
  get_entry, set_entry, remove_entry, take_of, take_field, get_entry-set_entry,
  get_entry-remove_entry,
}

module _ {A X : Type 0} (mark : Option A → X) where
  -- Writing a session back with the mark that it had changes no mark.
  pub mark-set_entry :
      (entries : List (String × A)) (sid other : String) (new : A)
      → mark (some new) ≡ mark (get_entry entries sid)
      → mark (get_entry (set_entry entries sid new) other) ≡ mark (get_entry entries other)
  mark-set_entry entries sid other new same =
      ap mark (get_entry-set_entry entries sid other new) ∙ (elim (Bool-cases (sid == other)) [
        | inl here ↦ rw here (
            rw (ap (λ k. mark (get_entry entries k)) (sym ((string_eq.same_iff sid other).0 here)))
              same)
        | inr elsewhere ↦ rw elsewhere refl
      ])

  module _ {B : Type 0} (field : A → Option B) (clear : A → A)
      (keeps : (a : A) → mark (some (clear a)) ≡ mark (some a)) where
    mark-take_of :
        (entries : List (String × A)) (sid other : String) (o : Option A)
        → get_entry entries sid ≡ o
        → mark (get_entry (take_of field clear entries sid o).0 other)
          ≡ mark (get_entry entries other)
    mark-take_of entries sid other none found = refl
    mark-take_of entries sid other (some s) found =
        mark-set_entry entries sid other (clear s) (keeps s ∙ ap mark (sym found))

    -- Taking out a field that the mark does not depend on changes no mark.
    pub mark-take_field :
        (entries : List (String × A)) (sid other : String)
        → mark (get_entry (take_field field clear entries sid).0 other)
          ≡ mark (get_entry entries other)
    unfolding take_field
    mark-take_field entries sid other = mark-take_of entries sid other (get_entry entries sid) refl

  -- A rotation gives the mark of the new session to the fresh id and that of none to the old one.
  pub mark-rotate :
      (entries : List (String × A)) (sid new_sid other : String) (new : A)
      → mark (get_entry (set_entry (remove_entry entries sid) new_sid new) other) ≡ (
          if new_sid == other
          then mark (some new)
          else if sid == other
          then mark none
          else mark (get_entry entries other))
  mark-rotate entries sid new_sid other new =
      ap mark (get_entry-set_entry (remove_entry entries sid) new_sid other new)
      ∙ (elim (Bool-cases (new_sid == other)) [
        | inl hit ↦ rw hit refl
        | inr miss ↦ rw miss (
            ap mark (get_entry-remove_entry entries sid other) ∙ (elim (Bool-cases (sid == other)) [
              | inl old ↦ rw old refl
              | inr elsewhere ↦ rw elsewhere refl
            ]))
      ])
