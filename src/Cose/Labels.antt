-- ===== src/Cose/Labels.antt =====
-- The cast of COSE labels to `i64` in src/cose.rs.
use passkey_auth_rs.Prelude.{ℕ, ◌-◌, ◌^◌, ◌<◌, ◌≡◌, List, arith, pos, negsuc, as_i64}
use passkey_auth_rs.Error.{success}
use passkey_auth_rs.Deps.{Libs, CborValue, CborEntries, entry}
use passkey_auth_rs.Cose.{parse, collect}

as_i64-wraps : (j : ℕ) → j < 2 ^ 63 → as_i64 (pos (2 ^ 64 - 1 - j)) ≡ as_i64 (negsuc j)
unfolding as_i64
as_i64-wraps j h = ground arith

-- For j < 2^63, a first entry labelled 2^64 - 1 - j is read as if it were labelled -(j + 1): a map
-- that spells the curve, x or y of a key by an unsigned number of 64 bits parses like the map with
-- the negative label.
pub parse-wrapped_label :
    (libs : Libs) (j : ℕ) (val : CborValue) (m : CborEntries) (n n' : ℕ) (unsigned signed : List ℕ)
    → j < 2 ^ 63
    → libs.from_reader unsigned
      ≡ success (CborValue.map (entry (CborValue.integer (pos (2 ^ 64 - 1 - j))) val m), n)
    → libs.from_reader signed
      ≡ success (CborValue.map (entry (CborValue.integer (negsuc j)) val m), n')
    → parse libs unsigned ≡ parse libs signed
unfolding parse collect
parse-wrapped_label libs j val m n n' unsigned signed h read read' =
    rw (read, read') (rw (as_i64-wraps j h))
