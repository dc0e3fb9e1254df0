-- ===== src/Prelude/Bits/Tables.antt =====
-- Equality of two functions on a small range, by evaluation.
use Prim.Native.Nat.{ℕ, zero, suc, ◌<◌}
use mathlib.Core.Path.{◌≡◌}
use mathlib.Core.Bool.{Bool, true, ◌&&◌}
use native.Mathlib.Omega.{arith}
use squillion_mqtt.Prelude.Tests.{◌==◌}

module _ (f g : ℕ → ℕ) where
  unfoldable pub check_below : ℕ → Bool
  check_below zero = true
  check_below (suc n) = check_below n && f n == g n

  pub check_below_sound : (bound b : ℕ) → check_below bound ≡ true → b < bound → f b ≡ g b
  unfolding check_below
  check_below_sound (suc n) b h lt = ground (arith, check_below_sound n b)
  check_below_sound zero b h lt = absurd (omega arith)
