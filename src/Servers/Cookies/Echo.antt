-- ===== src/Servers/Cookies/Echo.antt =====
-- The `sid` cookie that an Axum server of examples/ sets, when the browser sends it back.
use Prim.Native.Char.{code}
use text.Mathlib.TextLemmas.{cons-append, nil-append}
use passkey_auth_rs.Prelude.{
  String, false, ◌≡◌, refl, some, ◌∷◌, ◌==◌, nat_eq, string_eq, ◌<>◌, arith, beq_refl,
}
use passkey_auth_rs.Servers.Cookies.Split.{HasNo, split-append, split-only}
use passkey_auth_rs.Servers.Cookies.{
  is_whitespace, split, trim_start, trim_end, trim, strip_prefix, first_sid, sid_from_cookies,
}

-- No character of the text is a semicolon or white space.
abbrev pub IsToken : String → Type 0
IsToken String.[] = Unit
IsToken (String.◌∷◌ c s) = ((code c == b';') ≡ false) × (is_whitespace (code c) ≡ false) × IsToken s

IsToken-HasNo : (t : String) → IsToken t → HasNo b';' t
IsToken-HasNo String.[] h = tt
IsToken-HasNo (String.◌∷◌ c s) h = (h.0, IsToken-HasNo s h.2)

split-token : (t rest : String) → IsToken t → split b';' (t <> ";" <> rest) ≡ t ∷ split b';' rest
split-token t rest h =
    rw (cons-append ";" "" rest, nil-append rest)
      (split-append b';' t rest ";" refl (IsToken-HasNo t h))

trim_end-token : (t : String) → IsToken t → trim_end t ≡ t
unfolding trim_end
trim_end-token String.[] h = refl
trim_end-token (String.◌∷◌ c s) h = rw (trim_end-token s h.2, h.1) (ground arith)

trim_start-token : (t : String) → IsToken t → trim_start t ≡ t
unfolding trim_start
trim_start-token String.[] h = refl
trim_start-token (String.◌∷◌ c s) h = rw (h.1) refl

trim-token : (t : String) → IsToken t → trim t ≡ t
unfolding trim
trim-token t h = rw (trim_end-token t h) (trim_start-token t h)

IsToken-append : (s t : String) → IsToken s → IsToken t → IsToken (s <> t)
IsToken-append String.[] t h k = rw (nil-append t) k
IsToken-append (String.◌∷◌ c s) t h k = rw (cons-append c s t) (h.0, h.1, IsToken-append s t h.2 k)

strip_prefix-append : (p s : String) → strip_prefix p (p <> s) ≡ some s
unfolding strip_prefix
strip_prefix-append String.[] s = rw (nil-append s) refl
strip_prefix-append (String.◌∷◌ c p) s =
    rw (cons-append c p s) (rw (beq_refl (code c)) (strip_prefix-append p s))

-- An id without semicolons and white space comes back as it was set, alone in the header or with more
-- cookies behind it.
pub sid_from_cookies-echo :
    (sid rest : String)
    → IsToken sid
    → (sid_from_cookies (some ("sid=" <> sid)) ≡ some sid)
      × (sid_from_cookies (some (("sid=" <> sid) <> ";" <> rest)) ≡ some sid)
unfolding sid_from_cookies first_sid is_whitespace
sid_from_cookies-echo sid rest h = (
  rw (split-only b';' ("sid=" <> sid) (IsToken-HasNo ("sid=" <> sid) token), found) refl,
  rw (split-token ("sid=" <> sid) rest token, found) refl,
)
  where
    token : IsToken ("sid=" <> sid)
    token = IsToken-append "sid=" sid (refl, refl, (refl, refl, (refl, refl, (refl, refl, tt)))) h

    found : strip_prefix "sid=" (trim ("sid=" <> sid)) ≡ some sid
    found = rw (trim-token ("sid=" <> sid) token) (strip_prefix-append "sid=" sid)
