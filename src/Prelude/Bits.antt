-- ===== src/Prelude/Bits.antt =====
-- Single bits of a byte, as `byte & (1 << k) != 0` tests them.
use Prim.Native.Nat.{ℕ, zero, suc, ◌*◌, ◌/◌, ◌%◌, ◌<◌, bit_and}
use mathlib.Core.Path.{◌≡◌, refl}
use mathlib.Core.Logic.{◌↔◌}
use mathlib.Core.Bool.{Bool, true, false, not}
use native.Mathlib.Omega.{arith}
use passkey_auth_rs.Prelude.Tests.{if◌then◌else◌, ◌==◌, nat_eq, nat_beq_iff}

-- `byte & mask != 0`
unfoldable pub test_bits : ℕ → ℕ → Bool
test_bits byte mask = not (bit_and byte mask == 0)

-- A test on all numbers below a bound, from the bound down.
holds_below : (ℕ → Bool) → ℕ → Bool
holds_below test zero = true
holds_below test (suc bound) = if test bound then holds_below test bound else false

holds_below-lt :
    (test : ℕ → Bool) (bound : ℕ)
    → holds_below test bound ≡ true
    → {x : ℕ} → x < bound
    → test x ≡ true
unfolding holds_below
holds_below-lt test zero h lt = absurd (omega arith)
holds_below-lt test (suc bound) h {x} lt =
    ground (arith, holds_below-lt test bound (ground arith) {x = x})

abbrev agrees : ℕ → ℕ → Bool
agrees mask x = bit_and x mask == x / mask % 2 * mask

tables :
    (holds_below (agrees 1) 256 ≡ true)
    × (holds_below (agrees 4) 256 ≡ true)
    × (holds_below (agrees 64) 256 ≡ true)
    × (holds_below (agrees 128) 256 ≡ true)
unfolding holds_below
tables = (refl, refl, refl, refl)

digit_of_mask :
    (m x : ℕ) → holds_below (agrees m) 256 ≡ true → x < 256 → bit_and x m ≡ x / m % 2 * m
digit_of_mask m x table h = (nat_beq_iff _ _).0 (holds_below-lt (agrees m) 256 table h)

pub test_bits-1_iff : (x : ℕ) → x < 256 → (test_bits x 1 ≡ true) ↔ (x % 2 ≡ 1)
unfolding test_bits
test_bits-1_iff x h = ground (arith, digit_of_mask 1 x tables.0 h)

pub test_bits-4_iff : (x : ℕ) → x < 256 → (test_bits x 4 ≡ true) ↔ (x / 4 % 2 ≡ 1)
unfolding test_bits
test_bits-4_iff x h = ground (arith, digit_of_mask 4 x tables.1 h)

pub test_bits-64_iff : (x : ℕ) → x < 256 → (test_bits x 64 ≡ true) ↔ (x / 64 % 2 ≡ 1)
unfolding test_bits
test_bits-64_iff x h = ground (arith, digit_of_mask 64 x tables.2 h)

pub test_bits-128_iff : (x : ℕ) → x < 256 → (test_bits x 128 ≡ true) ↔ (x / 128 % 2 ≡ 1)
unfolding test_bits
test_bits-128_iff x h = ground (arith, digit_of_mask 128 x tables.3 h)
