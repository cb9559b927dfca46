-- ===== src/Types/RpIds.antt =====
-- `RpId::try_from_url` of src/types.rs.
use Prim.Native.Char.{code}
use text.Mathlib.TextEquality.{eq_iff}
use passkey_auth_rs.Prelude.{
  ◌↔◌, ap, sym, ◌∙◌, ℕ, String, Bool, false, ◌&&◌, ◌||◌, ◌≡◌, ◌≢◌, refl, none, some, arith, leb,
  ◌==◌, nat_eq, string_eq, if◌then◌else◌,
}
use passkey_auth_rs.Error.{internal, Result, ok, err}
use passkey_auth_rs.Deps.{Libs}
use passkey_auth_rs.Types.{RpId}

-- `char::is_whitespace`: the code points with the Unicode property White_Space.
unfoldable pub is_whitespace : ℕ → Bool
is_whitespace c =
    (leb 9 c && leb c 13)
    || c == 0x20
    || c == 0x85
    || c == 0xa0
    || c == 0x1680
    || (leb 0x2000 c && leb c 0x200a)
    || c == 0x2028
    || c == 0x2029
    || c == 0x202f
    || c == 0x205f
    || c == 0x3000

unfoldable pub trim_start : String → String
trim_start String.[] = String.[]
trim_start (String.◌∷◌ c s) = if is_whitespace (code c) then trim_start s else String.◌∷◌ c s

-- Whitespace goes if nothing is left behind it.
unfoldable pub trim_end : String → String
trim_end String.[] = String.[]
trim_end (String.◌∷◌ c s) =
    let rest = trim_end s in
    if is_whitespace (code c) && rest == "" then String.[] else String.◌∷◌ c rest

-- `str::trim`
unfoldable pub trim : String → String
trim s = trim_end (trim_start s)

-- The characters that the fallback refuses.
unfoldable pub is_refused : ℕ → Bool
is_refused c = is_whitespace c || c == b'@' || c == b':' || c == b'/' || c == b'?' || c == b'#'

-- `s.chars().any(..)`
unfoldable pub any_char : (ℕ → Bool) → String → Bool
any_char p String.[] = false
any_char p (String.◌∷◌ c s) = p (code c) || any_char p s

unfoldable pub try_from_url : Libs → String → Result RpId
try_from_url libs input =
    let trimmed = trim input in
    if trimmed == "" then err (internal "RP ID is empty") else elim (libs.url_parse trimmed) [
      | some (some host) ↦ ok (record { name = host })
      | some none ↦ err (internal "URL has no host component")
      | none ↦
          if any_char is_refused trimmed
          then err (internal "RP ID is not a bare hostname (contains scheme/port/path/userinfo)")
          else ok (record { name = trimmed })
    ]

-- What the fallback accepts: a text with none of the refused characters.
abbrev pub IsBare : String → Type 0
IsBare String.[] = Unit
IsBare (String.◌∷◌ c s) = (is_refused (code c) ≡ false) × IsBare s

any_char→IsBare : (s : String) → any_char is_refused s ≡ false → IsBare s
unfolding any_char
any_char→IsBare String.[] h = tt
any_char→IsBare (String.◌∷◌ c s) h = (ground arith, any_char→IsBare s (ground arith))

IsBare→any_char : (s : String) → IsBare s → any_char is_refused s ≡ false
unfolding any_char
IsBare→any_char String.[] h = refl
IsBare→any_char (String.◌∷◌ c s) h = ground (arith, IsBare→any_char s h.1)

whitespace_refused : (c : ℕ) → is_refused c ≡ false → is_whitespace c ≡ false
whitespace_refused c h = unfold is_refused in ground arith

trim_end-IsBare : (s : String) → IsBare s → trim_end s ≡ s
unfolding trim_end
trim_end-IsBare String.[] h = refl
trim_end-IsBare (String.◌∷◌ c s) h =
    rw (whitespace_refused (code c) h.0) (rw (trim_end-IsBare s h.1))

trim_start-IsBare : (s : String) → IsBare s → trim_start s ≡ s
unfolding trim_start
trim_start-IsBare String.[] h = refl
trim_start-IsBare (String.◌∷◌ c s) h = rw (whitespace_refused (code c) h.0)

trim-IsBare : (s : String) → IsBare s → trim s ≡ s
unfolding trim
trim-IsBare s h = ap trim_end (trim_start-IsBare s h) ∙ trim_end-IsBare s h

module _ (libs : Libs) (input : String) (rp : RpId)
    (bare : libs.url_parse (trim input) ≡ none) where
  -- An input that is no URL gives an RP ID exactly if, trimmed, it is not empty and has no whitespace
  -- and none of `@ : / ? #`; the RP ID is then the trimmed input.
  pub try_from_url-IsBare_iff :
      (try_from_url libs input ≡ ok rp) ↔ ((rp.name ≡ trim input) × (rp.name ≢ "") × IsBare rp.name)
  unfolding try_from_url
  try_from_url-IsBare_iff = (
    (λ h. (
      ground (arith, bare),
      ground (arith, bare, eq_iff (trim input) ""),
      any_char→IsBare rp.name (ground (arith, bare)),
    )),
    (λ h. ground (arith, bare, eq_iff (trim input) "", IsBare→any_char rp.name h.2)),
  )

-- The RP ID that an input which is no URL gives is one that `try_from_url` gives back unchanged, if
-- it is no URL itself.
pub try_from_url_stable :
    (libs : Libs) (input : String) (rp : RpId)
    → libs.url_parse (trim input) ≡ none
    → libs.url_parse rp.name ≡ none
    → try_from_url libs input ≡ ok rp
    → try_from_url libs rp.name ≡ ok rp
try_from_url_stable libs input rp bare again h =
    let (_, ne, is_bare) = (try_from_url-IsBare_iff libs input rp bare).0 h in
    let same = trim-IsBare rp.name is_bare in
    (try_from_url-IsBare_iff libs rp.name rp (rw same again)).1 (sym same, ne, is_bare)
