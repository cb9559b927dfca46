-- ===== src/Prelude/Int.antt =====
-- Signed integers over the native numbers, and Rust's truncating cast to `i64`.
use Prim.Native.Nat.{ℕ, ◌-◌, ◌%◌, ◌^◌, ◌<◌}
use mathlib.Core.Path.{◌≡◌}
use mathlib.Core.Logic.{◌↔◌}
use mathlib.Core.Bool.{Bool, true, false}
use native.Mathlib.Omega.{arith}
use passkey_auth_rs.Prelude.Tests.{ltb, if◌then◌else◌, Eq, ◌==◌, nat_eq}

-- `negsuc n` is -(n + 1).
pub data ℤ : Type 0 where
  pos : ℕ → ℤ
  negsuc : ℕ → ℤ

abbrev pub ℤ_beq : ℤ → ℤ → Bool
ℤ_beq (pos m) (pos n) = m == n
ℤ_beq (negsuc m) (negsuc n) = m == n
ℤ_beq _ _ = false

pub ℤ_beq_iff : (a b : ℤ) → (ℤ_beq a b ≡ true) ↔ (a ≡ b)
ℤ_beq_iff a b = ground arith

instance abbrev pub ℤ_eq : Eq ℤ
ℤ_eq = record { same = ℤ_beq; same_iff = ℤ_beq_iff }

-- `z as i64`: the low 64 bits, read in two's complement.
unfoldable pub as_i64 : ℤ → ℤ
as_i64 (pos n) = let m = n % 2 ^ 64 in if ltb m (2 ^ 63) then pos m else negsuc (2 ^ 64 - 1 - m)
as_i64 (negsuc n) = let m = n % 2 ^ 64 in if ltb m (2 ^ 63) then negsuc m else pos (2 ^ 64 - 1 - m)

-- The integers that an `i64` holds.
abbrev pub IsI64 : ℤ → Type 0
IsI64 (pos n) = n < 2 ^ 63
IsI64 (negsuc n) = n < 2 ^ 63

pub as_i64-IsI64 : (z : ℤ) → IsI64 (as_i64 z)
unfolding as_i64
as_i64-IsI64 (pos n) = ground arith
as_i64-IsI64 (negsuc n) = ground arith

pub as_i64_id : (z : ℤ) → IsI64 z → as_i64 z ≡ z
unfolding as_i64
as_i64_id (pos n) h = ground arith
as_i64_id (negsuc n) h = ground arith
