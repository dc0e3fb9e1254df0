-- ===== src/Prelude/Bits.antt =====
-- Masks and joins of bit fields as arithmetic.
use Prim.Native.Nat.{ℕ, zero, suc, ◌+◌, ◌*◌, ◌/◌, ◌%◌, ◌^◌, ◌≤◌, ◌<◌, bit_and, bit_or}
use mathlib.Core.Path.{◌≡◌, refl, ap}
use mathlib.Core.Bool.{Bool, true, false, ◌&&◌}
use native.Mathlib.Omega.{arith}
use Prim.Native.Nat.{bit_or-bitwise}
use native.Mathlib.Numerals.{unary_clauses}
use squillion_mqtt.Prelude.Digits.{bit_or_step, bit_and_step, on_halves}
use Tables.{check_below, check_below_sound}
mod Tables

bit_or-zero : (a : ℕ) → bit_or a 0 ≡ a
bit_or-zero = on_halves (λ a. bit_or a 0 ≡ a) refl (λ a h. omega (arith, bit_or_step a 0, h))

field_suc : (q k : ℕ) → q * 2 ^ suc k ≡ q * 2 ^ k * 2
field_suc q k = simp unary_clauses (omega arith)

-- A field above bit `k` joined to one below it is a sum.
pub bit_or-high : (k q r : ℕ) → r < 2 ^ k → bit_or (q * 2 ^ k) r ≡ q * 2 ^ k + r
bit_or-high zero q r h = let e : r ≡ 0 = omega arith in rw e (rw bit_or-zero (omega arith))
bit_or-high (suc k) q r h = rw field_suc (
    let half : q * 2 ^ k * 2 / 2 ≡ q * 2 ^ k = omega arith in
    omega (
      arith,
      bit_or_step (q * 2 ^ k * 2) r,
      ap (λ (t : ℕ). bit_or t (r / 2)) half,
      bit_or-high k q (r / 2) (omega (arith, field_suc 1 k)),
    ))

pub bit_or-low : (k q r : ℕ) → r < 2 ^ k → bit_or r (q * 2 ^ k) ≡ r + q * 2 ^ k
bit_or-low zero q r h =
    let e : r ≡ 0 = omega arith in rw e (omega (arith, bit_or-bitwise 0 (q * 2 ^ 0)))
bit_or-low (suc k) q r h = rw field_suc (
    let half : q * 2 ^ k * 2 / 2 ≡ q * 2 ^ k = omega arith in
    omega (
      arith,
      bit_or_step r (q * 2 ^ k * 2),
      ap (λ (t : ℕ). bit_or (r / 2) t) half,
      bit_or-low k q (r / 2) (omega (arith, field_suc 1 k)),
    ))

-- `n & 0xff` for a number of any size.
and_low : (n m : ℕ) → bit_and n (m * 2 + 1) ≡ bit_and (n / 2) m * 2 + n % 2
and_low n m = omega (
  arith,
  bit_and_step n (m * 2 + 1),
  ap (λ (t : ℕ). bit_and (n / 2) t) (let e : (m * 2 + 1) / 2 ≡ m = omega arith in e),
)

bit_and-zero : (a : ℕ) → bit_and a 0 ≡ 0
bit_and-zero = on_halves (λ a. bit_and a 0 ≡ 0) refl (λ a h. omega (arith, bit_and_step a 0, h))

pub low_byte : (n : ℕ) → bit_and n 0xff ≡ n % 256
low_byte n = omega (
  arith,
  and_low n 127,
  and_low (n / 2) 63,
  and_low ((n / 2) / 2) 31,
  and_low (((n / 2) / 2) / 2) 15,
  and_low ((((n / 2) / 2) / 2) / 2) 7,
  and_low (((((n / 2) / 2) / 2) / 2) / 2) 3,
  and_low ((((((n / 2) / 2) / 2) / 2) / 2) / 2) 1,
  and_low (((((((n / 2) / 2) / 2) / 2) / 2) / 2) / 2) 0,
  bit_and-zero ((((((((n / 2) / 2) / 2) / 2) / 2) / 2) / 2) / 2),
)

pub low_seven : (n : ℕ) → bit_and n 0x7f ≡ n % 128
low_seven n = omega (
  arith,
  and_low n 63,
  and_low (n / 2) 31,
  and_low ((n / 2) / 2) 15,
  and_low (((n / 2) / 2) / 2) 7,
  and_low ((((n / 2) / 2) / 2) / 2) 3,
  and_low (((((n / 2) / 2) / 2) / 2) / 2) 1,
  and_low ((((((n / 2) / 2) / 2) / 2) / 2) / 2) 0,
  bit_and-zero (((((((n / 2) / 2) / 2) / 2) / 2) / 2) / 2),
)

-- The top bit of a byte.
pub top_bit : (b : ℕ) → b < 256 → bit_and b 0x80 ≡ b / 128 * 128
unfolding check_below
top_bit b h = check_below_sound (λ b. bit_and b 0x80) (λ b. b / 128 * 128) 256 b refl h

pub set_top_bit : (b : ℕ) → b < 128 → bit_or b 0x80 ≡ b + 128
set_top_bit b h = bit_or-low 7 1 b h

pub top_three : (b : ℕ) → b < 256 → bit_and b 0xe0 ≡ b / 32 * 32
unfolding check_below
top_three b h = check_below_sound (λ b. bit_and b 0xe0) (λ b. b / 32 * 32) 256 b refl h
