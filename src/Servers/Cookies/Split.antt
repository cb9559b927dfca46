-- ===== src/Servers/Cookies/Split.antt =====
-- `str::split` at a character, as the servers under examples/ use it, beside the pieces put together
-- again.
use Prim.Native.Char.{Char, code}
use text.Mathlib.TextLemmas.{cons-append, nil-append}
use passkey_auth_rs.Prelude.{
  ℕ, String, true, false, ◌≡◌, inl, inr, refl, ap, List, [], ◌∷◌, ◌==◌, nat_eq, ◌<>◌, All,
  Bool-cases,
}
use passkey_auth_rs.Servers.Cookies.{put_char, split}

-- The separator is not in the text.
abbrev pub HasNo : ℕ → String → Type 0
HasNo sep String.[] = Unit
HasNo sep (String.◌∷◌ c s) = ((code c == sep) ≡ false) × HasNo sep s

-- The first piece is the text in front of the first separator.
pub split-append :
    (sep : ℕ) (t rest : String) (c : Char)
    → (code c == sep) ≡ true
    → HasNo sep t
    → split sep (t <> String.◌∷◌ c rest) ≡ t ∷ split sep rest
unfolding split
split-append sep String.[] rest c is_sep h = rw (nil-append (String.◌∷◌ c rest)) (rw is_sep refl)
split-append sep (String.◌∷◌ d s) rest c is_sep h =
    rw (cons-append d s (String.◌∷◌ c rest), h.0)
      (ap (put_char d) (split-append sep s rest c is_sep h.1))

pub split-only : (sep : ℕ) (t : String) → HasNo sep t → split sep t ≡ t ∷ []
unfolding split
split-only sep String.[] h = refl
split-only sep (String.◌∷◌ c s) h = rw (h.0) (ap (put_char c) (split-only sep s h.1))

put_char-HasNo :
    (sep : ℕ) (c : Char) (pieces : List String)
    → (code c == sep) ≡ false
    → All (HasNo sep) pieces
    → All (HasNo sep) (put_char c pieces)
unfolding put_char
put_char-HasNo sep c [] h all = ((h, tt), tt)
put_char-HasNo sep c (s ∷ rest) h all = ((h, all.0), all.1)

-- No piece has the separator.
pub split-HasNo : (sep : ℕ) (s : String) → All (HasNo sep) (split sep s)
unfolding split
split-HasNo sep String.[] = (tt, tt)
split-HasNo sep (String.◌∷◌ c s) = elim (Bool-cases (code c == sep)) [
  | inl here ↦ rw here (tt, split-HasNo sep s)
  | inr other ↦ rw other (put_char-HasNo sep c (split sep s) other (split-HasNo sep s))
]
