-- ===== src/Servers/Cookies.antt =====
-- The `sid` cookie of the Axum servers under examples/: how it is read from the `Cookie` header and
-- how it is set. The header is `none` if it is missing or has bytes that `HeaderValue::to_str`
-- refuses.
pub mod Split
pub mod Echo
use Prim.Native.Char.{code, Char}
use Prim.Native.String
use passkey_auth_rs.Prelude.{
  ℕ, String, Bool, true, false, ◌≡◌, refl, ap, ◌∙◌, Option, none, some, List, [], ◌∷◌, ◌==◌, nat_eq,
  string_eq, ◌&&◌, ◌||◌, leb, ◌<>◌, if◌then◌else◌, arith, Bool-cases, inl, inr,
}

-- `char::is_whitespace`, by the code point.
unfoldable pub is_whitespace : ℕ → Bool
is_whitespace c =
    leb 9 c && leb c 13
    || c == 0x20
    || c == 0x85
    || c == 0xa0
    || c == 0x1680
    || leb 0x2000 c && leb c 0x200a
    || c == 0x2028
    || c == 0x2029
    || c == 0x202f
    || c == 0x205f
    || c == 0x3000

-- `str::split` at a character.
unfoldable pub put_char : Char → List String → List String
put_char c [] = String.◌∷◌ c "" ∷ []
put_char c (s ∷ rest) = String.◌∷◌ c s ∷ rest

unfoldable pub split : ℕ → String → List String
unfolding put_char
split sep String.[] = "" ∷ []
split sep (String.◌∷◌ c s) =
    let rest = split sep s in if code c == sep then "" ∷ rest else put_char c rest

unfoldable pub trim_start : String → String
unfolding is_whitespace
trim_start String.[] = ""
trim_start (String.◌∷◌ c s) =
    let rest = trim_start s in if is_whitespace (code c) then rest else String.◌∷◌ c s

unfoldable pub trim_end : String → String
unfolding is_whitespace
trim_end String.[] = ""
trim_end (String.◌∷◌ c s) =
    let rest = trim_end s in if rest == "" && is_whitespace (code c) then "" else String.◌∷◌ c rest

-- `str::trim`
unfoldable pub trim : String → String
unfolding trim_start trim_end
trim s = trim_start (trim_end s)

-- `str::strip_prefix`
unfoldable pub strip_prefix : String → String → Option String
strip_prefix String.[] s = some s
strip_prefix (String.◌∷◌ p ps) String.[] = none
strip_prefix (String.◌∷◌ p ps) (String.◌∷◌ c s) =
    let rest = strip_prefix ps s in if code c == code p then rest else none

-- The loop of `sid_from_cookies`.
abbrev pub or_else : Option String → Option String → Option String
or_else none next = next
or_else (some rest) next = some rest

unfoldable pub first_sid : List String → Option String
unfolding trim strip_prefix
first_sid [] = none
first_sid (cookie ∷ cookies) = or_else (strip_prefix "sid=" (trim cookie)) (first_sid cookies)

unfoldable pub sid_from_cookies : Option String → Option String
unfolding first_sid split
sid_from_cookies none = none
sid_from_cookies (some raw) = first_sid (split b';' raw)

-- `get_or_create_sid`; the argument is what `hex_random(16)` draws.
abbrev sid_or : Option String → String → String
sid_or none fresh = fresh
sid_or (some sid) fresh = sid

unfoldable pub get_or_create_sid : Option String → String → String
unfolding sid_from_cookies
get_or_create_sid header fresh = sid_or (sid_from_cookies header) fresh

-- The `Set-Cookie` header of `json_with_sid`.
unfoldable pub set_cookie : String → String
set_cookie sid = "sid=" <> sid <> "; HttpOnly; SameSite=Lax; Path=/"

finds_second : sid_from_cookies (some "a=b; sid=00ff ;sid=2") ≡ some "00ff"
unfolding sid_from_cookies
finds_second = refl
