-- ===== src/Prelude/Digits.antt =====
-- The lowest binary digit of `bit_and` and `bit_or`, from the recursion that they stand for.
use Prim.Native.Nat.{
  ℕ, zero, suc, ◌+◌, ◌*◌, ◌/◌, ◌%◌, ◌≤◌, min, max, digits, bit_and, bit_or, bit_and-bitwise,
  bit_or-bitwise,
}
use mathlib.Core.Path.{◌≡◌, refl}
use native.Mathlib.Omega.{arith}

-- More digits than the first number has change nothing.
digits-fuel :
    (z : ℕ → ℕ) (f : ℕ → ℕ → ℕ) (a b n m : ℕ) → a ≤ m → a ≤ n → digits z f n a b ≡ digits z f m a b
digits-fuel z f zero b zero zero k l = refl
digits-fuel z f zero b (suc n) zero k l = refl
digits-fuel z f zero b zero (suc m) k l = refl
digits-fuel z f zero b (suc n) (suc m) k l = refl
digits-fuel z f (suc a) b zero m k l = absurd (omega arith)
digits-fuel z f (suc a) b (suc n) zero k l = absurd (omega arith)
digits-fuel z f (suc a) b (suc n) (suc m) k l =
    let halves : suc a / 2 ≤ a = omega arith in
    omega (arith, digits-fuel z f (suc a / 2) (b / 2) n m (omega arith) (omega arith))

pub bit_or_step : (a b : ℕ) → bit_or a b ≡ bit_or (a / 2) (b / 2) * 2 + max (a % 2) (b % 2)
bit_or_step zero b = omega (arith, bit_or-bitwise 0 b, bit_or-bitwise 0 (b / 2))
bit_or_step (suc a) b = omega (
  arith,
  bit_or-bitwise (suc a) b,
  bit_or-bitwise (suc a / 2) (b / 2),
  digits-fuel (λ y. y) max (suc a / 2) (b / 2) a (suc a / 2) (omega arith) (omega arith),
)

pub bit_and_step :
    (left right : ℕ)
    → bit_and left right ≡ bit_and (left / 2) (right / 2) * 2 + min (left % 2) (right % 2)
bit_and_step zero right = omega (arith, bit_and-bitwise 0 right, bit_and-bitwise 0 (right / 2))
bit_and_step (suc a) right =
    let shorter =
      digits-fuel (λ _. 0) min (suc a / 2) (right / 2) a (suc a / 2) (omega arith) (omega arith) in
    omega (arith, shorter, bit_and-bitwise (suc a) right, bit_and-bitwise (suc a / 2) (right / 2))

-- Induction that drops the lowest digit.
by_halves : (P : ℕ → Type 0) → P 0 → ((a : ℕ) → P (a / 2) → P a) → (bound a : ℕ) → a ≤ bound → P a
by_halves P base half zero a h = rw e base
  where
    e : a ≡ 0
    e = omega arith
by_halves P base half (suc bound) zero h = base
by_halves P base half (suc bound) (suc a) h =
    half (suc a) (by_halves P base half bound (suc a / 2) (omega arith))

pub on_halves : (P : ℕ → Type 0) → P 0 → ((a : ℕ) → P (a / 2) → P a) → (a : ℕ) → P a
on_halves P base half a = by_halves P base half a a (omega arith)
