-- ===== src/Evolution/Shift.antt =====
-- What moving a share of weight changes, when the float arithmetic rounds.
use evolvable_user_memory.Base.{
  inl, inr, min, leb, leb→le, Bool-cases, tests, ℕ, ◌+◌, ◌*◌, ◌-◌, ◌≡◌, ◌≢◌, ◌≤◌, ◌⊎◌, false, List,
  length, sum, arith, All,
}
use evolvable_user_memory.Base.Fixed.{one, percent}
use evolvable_user_memory.Evolution.Strategy.{
  RetrievalWeights, Rounding, is_close, total, Component,
}
use evolvable_user_memory.Evolution.Proposal.{max_delta, weight_of, shifted}

-- Two numbers that are at most `n` units apart.
abbrev pub Near : (n a b : ℕ) → Type 0
Near n a b = (a ≤ b + n) × (b ≤ a + n)

-- Rounding on [0, 1] moves a result by less than a unit of 10 ^ -12, is monotone, so that it does not
-- pass the floats 0.60 and 0.05, and does not occur in a difference of floats that are within a factor
-- of two of each other.
pub record IsRounding (f : Rounding) : Type 0 where
  pub plus-Near : (a b : ℕ) → a ≤ one → b ≤ one → Near 1 (f.plus a b) (a + b)
  pub minus-Near : (a b : ℕ) → b ≤ a → a ≤ one → Near 1 (f.minus a b) (a - b)
  pub sum-Near :
      (xs : List ℕ) → length xs ≤ 5 → All (λ x. x ≤ one) xs → Near 5 (f.sum_of xs) (sum xs)
  pub plus_high : (a b : ℕ) → a + b ≤ percent 60 → f.plus a b ≤ percent 60
  pub minus_low : (a b : ℕ) → b + percent 5 ≤ a → a ≤ one → percent 5 ≤ f.minus a b
  pub minus_exact : (a b : ℕ) → b ≤ a → a ≤ 2 * b → a ≤ one → f.minus a b ≡ a - b

-- A sum that is not close to 1 differs from it by more than 1000 units.
pub not_close : (a : ℕ) → is_close a one ≡ false → (a + 1001 ≤ one) ⊎ (one + 1001 ≤ a)
unfolding is_close
not_close a h = ground arith

module _ ⦃f : Rounding⦄ (w : RetrievalWeights) (target donor : Component) (delta : ℕ)
    (other : donor ≢ target) where
  pub shifted_target :
      weight_of (shifted w target donor delta) target ≡ f.plus (weight_of w target) delta
  unfolding shifted
  shifted_target = ground arith

  pub shifted_donor :
      weight_of (shifted w target donor delta) donor ≡ f.minus (weight_of w donor) delta
  unfolding shifted
  shifted_donor = ground arith

  pub total-shifted :
      total (shifted w target donor delta) + weight_of w target + weight_of w donor
      ≡ total w + f.plus (weight_of w target) delta + f.minus (weight_of w donor) delta
  unfolding shifted
  total-shifted = ground arith

  pub shifted_other :
      (c : Component)
      → c ≢ target
      → c ≢ donor
      → weight_of (shifted w target donor delta) c ≡ weight_of w c
  unfolding shifted
  shifted_other c nt nd = ground arith

module _ ⦃f : Rounding⦄ (rounds : IsRounding f) where
  -- The room under 0.60 is exact where it is smaller than the bound of a step.
  pub room : (a : ℕ) → a ≤ percent 60 → a + min max_delta (f.minus (percent 60) a) ≤ percent 60
  room a h = elim (Bool-cases (leb (percent 30) a)) [
    | inl near ↦
        let e =
          rounds.minus_exact (percent 60) a h (let n = leb→le _ _ near in omega (arith, n))
            (omega arith) in
        omega (arith, e, h)
    | inr far ↦ omega tests
  ]

  -- So is the room over 0.05.
  pub reserve :
      (a : ℕ)
      → percent 5 ≤ a
      → a ≤ percent 60
      → percent 5 + min max_delta (f.minus a (percent 5)) ≤ a
  reserve a low high = elim (Bool-cases (leb a (percent 10))) [
    | inl near ↦
        let n = leb→le _ _ near in
        let e = rounds.minus_exact a (percent 5) low (omega (arith, n)) (omega (arith, high)) in
        omega (arith, e, low)
    | inr far ↦ omega tests
  ]
