-- ===== src/Tests/Unary.antt =====
-- Bytes as texts: a byte is that many x, and a full stop.
use Prim.Native.Char.{Char, code}
use passkey_auth_rs.Prelude.{
  ℕ, zero, suc, ◌+◌, ◌≡◌, refl, ap, ◌∙◌, String, true, false, List, [], ◌∷◌, arith, ◌==◌, nat_eq,
  if◌then◌else◌,
}
use passkey_auth_rs.Error.{Try, success, failure}

abbrev pub dot : Char
dot = Char.char 46 tt

abbrev pub stroke : Char
stroke = Char.char 120 tt

unfoldable pub repeat : ℕ → String → String
repeat zero s = String.◌∷◌ dot s
repeat (suc n) s = String.◌∷◌ stroke (repeat n s)

unfoldable pub encode : List ℕ → String
unfolding repeat
encode [] = ""
encode (b ∷ bytes) = repeat b (encode bytes)

unfoldable pub prepend : ℕ → Try (List ℕ) → Try (List ℕ)
prepend n (success bytes) = success (n ∷ bytes)
prepend n (failure e) = failure e

unfoldable pub decode_from : ℕ → String → Try (List ℕ)
unfolding prepend
decode_from n String.[] = if n == 0 then success [] else failure "unfinished"
decode_from n (String.◌∷◌ c s) = elim (code c == b'x') [
  | true ↦ decode_from (suc n) s
  | false ↦ elim (code c == b'.') [ true ↦ prepend n (decode_from 0 s) | false ↦ failure "symbol" ]
]

unfoldable pub decode : String → Try (List ℕ)
unfolding decode_from
decode = decode_from 0

decode_from-repeat :
    (n b : ℕ) (s : String) → decode_from n (repeat b s) ≡ prepend (n + b) (decode_from 0 s)
unfolding decode_from repeat prepend
decode_from-repeat n zero s =
    ap (λ k. prepend k (decode_from 0 s)) {x = n} {y = n + 0} (omega arith)
decode_from-repeat n (suc b) s =
    decode_from-repeat (suc n) b s ∙ ap (λ k. prepend k (decode_from 0 s)) (omega arith)

pub decode-encode : (bytes : List ℕ) → decode (encode bytes) ≡ success bytes
unfolding decode encode decode_from prepend
decode-encode [] = refl
decode-encode (b ∷ bytes) =
    decode_from-repeat 0 b (encode bytes)
    ∙ ap (λ k. prepend k (decode_from 0 (encode bytes))) (omega arith)
    ∙ ap (prepend b) (decode-encode bytes)
