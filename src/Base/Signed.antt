-- ===== src/Base/Signed.antt =====
-- Python's floats of either sign, where a difference may be negative.
use evolvable_user_memory.Base.{ℕ, ◌-◌, ◌≡◌, leb, arith, if◌then◌else◌}

-- A float of either sign: `pos n` is n, `negsuc n` is - (n + 1), in units of 10 ^ -12.
pub data ℤ : Type 0 where
  pos negsuc : ℕ → ℤ

-- `a - b`
abbrev pub difference : ℕ → ℕ → ℤ
difference a b = if leb b a then pos (a - b) else negsuc (b - a - 1)

-- `max(0.0, x)`
abbrev pub max_zero : ℤ → ℤ
max_zero (pos n) = pos n
max_zero (negsuc n) = pos 0

pub max_zero-difference : (a b : ℕ) → max_zero (difference a b) ≡ pos (a - b)
max_zero-difference a b = ground arith

-- The size of a float that is not negative, and 0 otherwise.
abbrev pub magnitude : ℤ → ℕ
magnitude (pos n) = n
magnitude (negsuc n) = 0
