-- ===== src/Base/Weigh.antt =====
-- Lists as multisets: two lists hold the same elements if every weight has the same sum over them.
use evolvable_user_memory.Base.Lists.{All, length, sum}
use evolvable_user_memory.Base.Sort.{Distinct, sorted, place}
use evolvable_user_memory.Base.Tests.{if◌then◌else◌}
use evolvable_user_memory.Base.Equality.{Eq, ◌==◌}
use Prim.Native.Nat.{ℕ, ◌+◌, ◌≤◌}
use mathlib.Core.Path.{◌≡◌, refl}
use mathlib.Core.Logic.{◌≢◌}
use mathlib.Core.Bool.{Bool}
use mathlib.Core.List.{List, [], ◌∷◌, ◌++◌, map}
use native.Mathlib.Omega.{arith}

abbrev pub weigh {ℓ} : {A : Type ℓ} → (A → ℕ) → List A → ℕ
weigh f [] = 0
weigh f (x ∷ xs) = f x + weigh f xs

module _ {ℓ} {A : Type ℓ} (f : A → ℕ) where
  pub weigh-append : (xs ys : List A) → weigh f (xs ++ ys) ≡ weigh f xs + weigh f ys
  weigh-append [] ys = omega arith
  weigh-append (x ∷ xs) ys = omega (arith, weigh-append xs ys)

  pub sum-map : (xs : List A) → sum (map f xs) ≡ weigh f xs
  sum-map [] = refl
  sum-map (x ∷ xs) = omega (arith, sum-map xs)

  pub weigh_mono : (g : A → ℕ) (xs : List A) → ((x : A) → f x ≤ g x) → weigh f xs ≤ weigh g xs
  weigh_mono g [] h = omega arith
  weigh_mono g (x ∷ xs) h = omega (arith, h x, weigh_mono g xs h)

  module _ (le : A → A → Bool) where
    weigh-place : (x : A) (xs : List A) → weigh f (place le x xs) ≡ f x + weigh f xs
    unfolding place
    weigh-place x [] = refl
    weigh-place x (y ∷ ys) = ground (arith, weigh-place x ys)

    pub weigh-sorted : (xs : List A) → weigh f (sorted le xs) ≡ weigh f xs
    unfolding sorted
    weigh-sorted [] = refl
    weigh-sorted (x ∷ xs) = omega (arith, weigh-place x (sorted le xs), weigh-sorted xs)

pub weigh_one {ℓ} : {A : Type ℓ} (xs : List A) → weigh (λ x. 1) xs ≡ length xs
weigh_one [] = refl
weigh_one (x ∷ xs) = omega (arith, weigh_one xs)

-- Occurrences of a key.
module _ {ℓ κ} {A : Type ℓ} {K : Type κ} ⦃e : Eq K⦄ (key : A → K) where
  abbrev pub occurs : K → A → ℕ
  occurs k x = if key x == k then 1 else 0

  occurs-zero : (k : K) (xs : List A) → All (λ j. k ≢ j) (map key xs) → weigh (occurs k) xs ≡ 0
  occurs-zero k [] h = refl
  occurs-zero k (x ∷ xs) h = ground (arith, e.beq_iff (key x) k, occurs-zero k xs h.1)

  zero-occurs : (k : K) (xs : List A) → weigh (occurs k) xs ≡ 0 → All (λ j. k ≢ j) (map key xs)
  zero-occurs k [] h = tt
  zero-occurs k (x ∷ xs) h =
      (λ p. ground (arith, e.beq_iff (key x) k), zero-occurs k xs (ground arith))

  pub occurs-le_one : (xs : List A) → Distinct (map key xs) → (k : K) → weigh (occurs k) xs ≤ 1
  occurs-le_one [] d k = omega arith
  occurs-le_one (x ∷ xs) d k =
      ground (arith, e.beq_iff (key x) k, occurs-zero (key x) xs d.0, occurs-le_one xs d.1 k)

  pub Distinct-of_occurs :
      (xs : List A) → ((k : K) → weigh (occurs k) xs ≤ 1) → Distinct (map key xs)
  Distinct-of_occurs [] h = tt
  Distinct-of_occurs (x ∷ xs) h = (
    zero-occurs (key x) xs (ground (arith, h (key x), e.beq_iff (key x) (key x))),
    Distinct-of_occurs xs (λ k. omega (arith, h k)),
  )

-- `Sub xs ys`: `xs` is `ys` with some elements left out.
pub data Sub {ℓ} {A : Type ℓ} : List A → List A → Type ℓ where
  nil : Sub [] []
  taken : {x : A} {xs ys : List A} → Sub xs ys → Sub (x ∷ xs) (x ∷ ys)
  skipped : {x : A} {xs ys : List A} → Sub xs ys → Sub xs (x ∷ ys)

pub Sub-weigh {ℓ} : {A : Type ℓ} (f : A → ℕ) {xs ys : List A} → Sub xs ys → weigh f xs ≤ weigh f ys
Sub-weigh f nil = omega arith
Sub-weigh f (taken s) = omega (arith, Sub-weigh f s)
Sub-weigh f (skipped s) = omega (arith, Sub-weigh f s)

pub Sub-All {ℓ κ} : {A : Type ℓ} (P : A → Type κ) {xs ys : List A} → Sub xs ys → All P ys → All P xs
Sub-All P nil h = tt
Sub-All P (taken s) h = (h.0, Sub-All P s h.1)
Sub-All P (skipped s) h = Sub-All P s h.1
