-- ===== src/SqlStore/Rows.antt =====
-- Credentials written to and read from the rows of examples/axum_sqlite.rs.
use Prim.Native.Char.{Char, code}
use text.Mathlib.TextLemmas.{cons-append, nil-append}
use passkey_auth_rs.Prelude.{
  ℕ, String, ◌≡◌, ◌≢◌, ◌↔◌, inl, inr, refl, sym, ap, ◌∙◌, List, [], ◌∷◌, ◌<>◌, ◌==◌, nat_eq,
  string_eq, All, Bool-cases, length, subst, beq_ne, ne_of_beq,
}
use passkey_auth_rs.Error.{Try, success, failure}
use passkey_auth_rs.Types.{PasskeyCredential}
use passkey_auth_rs.Servers.Cookies.{put_char, split}
use passkey_auth_rs.Servers.Cookies.Split.{HasNo, split-append, split-only, split-HasNo}
use passkey_auth_rs.SqlStore.{join, row_of, read_transports, row_to_credential}

-- The lists that one text column can hold: no comma, and not a single empty text.
abbrev pub IsStorable : List String → Type 0
IsStorable ts = All (HasNo b',') ts × (ts ≢ "" ∷ [])

abbrev head : List String → String
head [] = ""
head (s ∷ rest) = s

abbrev tail : List String → List String
tail [] = []
tail (s ∷ rest) = rest

cons-ne-nil : {c : Char} {s : String} → String.◌∷◌ c s ≢ ""
cons-ne-nil e = cc

cons-ne : {s : String} {rest : List String} → s ∷ rest ≢ []
cons-ne e = cc

put_char-ne-nil : (c : Char) (pieces : List String) → put_char c pieces ≢ []
unfolding put_char
put_char-ne-nil c [] e = cc
put_char-ne-nil c (s ∷ rest) e = cc

split-join :
    (s : String) (rest : List String)
    → All (HasNo b',') (s ∷ rest)
    → split b',' (join (s ∷ rest)) ≡ s ∷ rest
unfolding join
split-join s [] all = split-only b',' s all.0
split-join s (t ∷ rest) all =
    rw (cons-append "," "" (join (t ∷ rest)), nil-append (join (t ∷ rest)))
      (split-append b',' s (join (t ∷ rest)) "," refl all.0
        ∙ ap (λ pieces. s ∷ pieces) (split-join t rest all.1))

append-ne-nil : (s t : String) → t ≢ "" → s <> t ≢ ""
append-ne-nil String.[] t h e = h (sym (nil-append t) ∙ e)
append-ne-nil (String.◌∷◌ c s) t h e = cons-ne-nil (sym (cons-append c s t) ∙ e)

join-ne-nil : (s : String) (rest : List String) → s ∷ rest ≢ "" ∷ [] → join (s ∷ rest) ≢ ""
unfolding join
join-ne-nil s [] h e = h (ap (λ t. t ∷ []) e)
join-ne-nil s (t ∷ rest) h e =
    append-ne-nil s ("," <> join (t ∷ rest))
      (λ k. cons-ne-nil (sym (cons-append "," "" (join (t ∷ rest))) ∙ k)) e

read_transports-join : (ts : List String) → IsStorable ts → read_transports (join ts) ≡ ts
unfolding read_transports
read_transports-join [] h = unfold join in refl
read_transports-join (s ∷ rest) h =
    rw (beq_ne (join (s ∷ rest)) "" (join-ne-nil s rest h.1)) (split-join s rest h.0)

put_char-ne : (c : Char) (pieces : List String) → put_char c pieces ≢ "" ∷ []
unfolding put_char
put_char-ne c [] e = cons-ne-nil (ap head e)
put_char-ne c (s ∷ rest) e = cons-ne-nil (ap head e)

split-ne-nil : (sep : ℕ) (s : String) → split sep s ≢ []
unfolding split put_char
split-ne-nil sep String.[] e = cc
split-ne-nil sep (String.◌∷◌ c s) e = elim (Bool-cases (code c == sep)) [
  | inl here ↦ cons-ne (rw here at e)
  | inr other ↦ put_char-ne-nil c (split sep s) (rw other at e)
]

nil_of_split : (sep : ℕ) (s : String) → split sep s ≡ "" ∷ [] → s ≡ ""
unfolding split
nil_of_split sep String.[] e = refl
nil_of_split sep (String.◌∷◌ c s) e = elim (Bool-cases (code c == sep)) [
  | inl here ↦ absurd (split-ne-nil sep s (ap tail (rw here at e)))
  | inr other ↦ absurd (put_char-ne c (split sep s) (rw other at e))
]

read_transports-IsStorable : (csv : String) → IsStorable (read_transports csv)
unfolding read_transports
read_transports-IsStorable csv = elim (Bool-cases (csv == "")) [
  | inl nothing ↦ rw nothing (tt, λ e. cons-ne (sym e))
  | inr something ↦
      rw something (split-HasNo b',' csv, λ e. ne_of_beq csv "" something (nil_of_split b',' csv e))
]

abbrev read_of : Try PasskeyCredential → List String
read_of (success c) = c.transports
read_of (failure e) = []

-- A credential is read from the row that it was written to just as it was exactly if its AAGUID has 16
-- bytes, no transport has a comma and the transports are not one empty text.
pub row_to_credential-row_of_iff :
    (user_id : List ℕ) (c : PasskeyCredential)
    → (row_to_credential (row_of user_id c) ≡ success c)
      ↔ ((length c.aaguid ≡ 16) × IsStorable c.transports)
unfolding row_to_credential row_of
row_to_credential-row_of_iff user_id c = elim (Bool-cases (length c.aaguid == 16)) [
  | inl sized ↦ rw sized (
    λ h. (
      (nat_eq.same_iff (length c.aaguid) 16).0 sized,
      subst IsStorable (ap read_of h) (read_transports-IsStorable (join c.transports)),
    ),
    λ h. ap (λ ts. success (record c { transports = ts })) (read_transports-join c.transports h.1),
  )
  | inr unsized ↦ rw unsized (λ h. cc, λ h. absurd (ne_of_beq (length c.aaguid) 16 unsized h.0))
]
