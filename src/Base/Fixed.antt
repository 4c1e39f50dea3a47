-- ===== src/Base/Fixed.antt =====
-- Python's floats in [0, ...) as multiples of 10 ^ -12, rounded down after a product or a quotient.
use Prim.Native.Nat.{ℕ, ◌*◌, ◌/◌, ◌≤◌}
use native.Mathlib.Omega.{arith}

-- 1.0
abbrev pub one : ℕ
one = 1_000_000_000_000

-- n / 100
abbrev pub percent : ℕ → ℕ
percent n = n * 10_000_000_000

unfoldable pub times : ℕ → ℕ → ℕ
times a b = a * b / one

-- The program divides by positive numbers only.
unfoldable pub ratio : ℕ → ℕ → ℕ
ratio a b = a * one / b

pub times-le_one : (a b : ℕ) → a ≤ one → b ≤ one → times a b ≤ one
unfolding times
times-le_one a b ha hb = grind arith

pub times-le_left : (a b : ℕ) → b ≤ one → times a b ≤ a
unfolding times
times-le_left a b hb = grind arith

pub ratio-le_one : (a b : ℕ) → a ≤ b → ratio a b ≤ one
unfolding ratio
ratio-le_one a b h = grind arith
