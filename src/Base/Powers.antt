-- ===== src/Base/Powers.antt =====
-- Powers of two in order.
use Prim.Native.Nat.{ℕ, zero, suc, ◌^◌, ◌≤◌, ◌<◌}
use mathlib.Core.Path.{◌≡◌}
use native.Mathlib.Omega.{arith}
use native.Mathlib.Nat.{pow-suc, one-le-pow, le_refl}
use native.Mathlib.Decide.{dec_le}

pub two_pow_mono : (i k : ℕ) → i ≤ k → 2 ^ i ≤ 2 ^ k
two_pow_mono i zero h = let e : i ≡ 0 = omega arith in rw e (omega arith)
two_pow_mono i (suc k) h = elim (dec_le i k) [
  | yes l ↦ omega (arith, two_pow_mono i k l, pow-suc 2 k)
  | no n ↦ let e : i ≡ suc k = omega arith in rw e (le_refl _)
]

pub two_pow_lt : (k i : ℕ) → i < k → 2 ^ i < 2 ^ k
two_pow_lt k i h = omega (arith, two_pow_mono (suc i) k h, pow-suc 2 i, one-le-pow i 2)
