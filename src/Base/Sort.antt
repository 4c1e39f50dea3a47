-- ===== src/Base/Sort.antt =====
-- Python's `sorted` (stable) and `set`, and what they keep of a list.
use Prim.Native.Nat.{ℕ, zero, suc, ◌+◌, ◌≤◌}
use mathlib.Core.Path.{◌≡◌, refl, sym}
use mathlib.Core.Logic.{◌≢◌, inl, inr}
use mathlib.Core.Bool.{Bool, true, false, not, ◌||◌}
use mathlib.Core.List.{List, [], ◌∷◌, ◌++◌, map}
use native.Mathlib.Omega.{arith}
use evolvable_user_memory.Base.Tests.{if◌then◌else◌, Bool-cases}
use evolvable_user_memory.Base.Lists.{
  length, All, sum, keep, keep-All, keep-append, length-keep-le, All-keep, All-keep_test, All-imp,
  take, All-take,
}
use evolvable_user_memory.Base.Equality.{Eq, ◌==◌}

module _ {ℓ} {A : Type ℓ} (le : A → A → Bool) where
  unfoldable pub place : A → List A → List A
  place x [] = x ∷ []
  place x (y ∷ ys) = if le x y then x ∷ y ∷ ys else y ∷ place x ys

  -- `sorted`, where `le x y` compares the keys by `<=`
  unfoldable pub sorted : List A → List A
  unfolding place
  sorted [] = []
  sorted (x ∷ xs) = place x (sorted xs)

  pub length-place : (x : A) (xs : List A) → length (place x xs) ≡ suc (length xs)
  unfolding place
  length-place x [] = refl
  length-place x (y ∷ ys) = ground (arith, length-place x ys)

  pub length-sorted : (xs : List A) → length (sorted xs) ≡ length xs
  unfolding sorted
  length-sorted [] = refl
  length-sorted (x ∷ xs) = omega (arith, length-place x (sorted xs), length-sorted xs)

  module _ {κ} (P : A → Type κ) where
    pub All-place : (x : A) (xs : List A) → P x → All P xs → All P (place x xs)
    unfolding place
    All-place x [] px h = (px, tt)
    All-place x (y ∷ ys) px h = elim (Bool-cases (le x y)) [
      | inl e ↦ rw e (px, h)
      | inr e ↦ rw e (h.0, All-place x ys px h.1)
    ]

    pub All-sorted : (xs : List A) → All P xs → All P (sorted xs)
    unfolding sorted
    All-sorted [] h = tt
    All-sorted (x ∷ xs) h = All-place x (sorted xs) h.0 (All-sorted xs h.1)

  module _ (f : A → ℕ) where
    sum-map-place : (x : A) (xs : List A) → sum (map f (place x xs)) ≡ f x + sum (map f xs)
    unfolding place
    sum-map-place x [] = refl
    sum-map-place x (y ∷ ys) = ground (arith, sum-map-place x ys)

    pub sum-map-sorted : (xs : List A) → sum (map f (sorted xs)) ≡ sum (map f xs)
    unfolding sorted
    sum-map-sorted [] = refl
    sum-map-sorted (x ∷ xs) = omega (arith, sum-map-place x (sorted xs), sum-map-sorted xs)

-- No element occurs twice.
abbrev pub Distinct {ℓ} : {A : Type ℓ} → List A → Type ℓ
Distinct [] = Unit
Distinct (x ∷ xs) = All (λ y. x ≢ y) xs × Distinct xs

module _ {ℓ} {A : Type ℓ} ⦃e : Eq A⦄ where
  -- `x in xs`
  abbrev pub contains : List A → A → Bool
  contains [] item = false
  contains (y ∷ ys) item = y == item || contains ys item

  abbrev differs : A → A → Bool
  differs x y = not (x == y)

  -- `set(xs)`, as a list of the first occurrences
  unfoldable pub set_of : List A → List A
  set_of [] = []
  set_of (x ∷ xs) = x ∷ keep (differs x) (set_of xs)

  All-differs : (x : A) (xs : List A) → All (λ y. x ≢ y) xs → All (λ y. differs x y ≡ true) xs
  All-differs x [] h = tt
  All-differs x (y ∷ ys) h = (ground (arith, e.beq_iff x y, h.0), All-differs x ys h.1)

  pub set_of-Distinct : (xs : List A) → Distinct xs → set_of xs ≡ xs
  unfolding set_of
  set_of-Distinct [] h = refl
  set_of-Distinct (x ∷ xs) h =
      rw (set_of-Distinct xs h.1, keep-All (differs x) xs (All-differs x xs h.0))

  pub length-set_of-le : (xs : List A) → length (set_of xs) ≤ length xs
  unfolding set_of
  length-set_of-le [] = omega arith
  length-set_of-le (x ∷ xs) =
      omega (arith, length-set_of-le xs, length-keep-le (differs x) (set_of xs))

  -- A list with no element twice is the beginning of the set of a longer one.
  pub set_of-append :
      (xs ys : List A) → Distinct xs → (rest : List A) × (set_of (xs ++ ys) ≡ xs ++ rest)
  unfolding set_of
  set_of-append [] ys h = (set_of ys, refl)
  set_of-append (x ∷ xs) ys h =
      let (rest, e) = set_of-append xs ys h.1 in
      (
        keep (differs x) rest,
        rw (e, keep-append (differs x) xs rest, keep-All (differs x) xs (All-differs x xs h.0)),
      )

  differs-All : (x : A) (xs : List A) → All (λ y. differs x y ≡ true) xs → All (λ y. x ≢ y) xs
  differs-All x [] h = tt
  differs-All x (y ∷ ys) h = (λ p. ground (arith, e.beq_iff x y, h.0), differs-All x ys h.1)

  Distinct-keep : (p : A → Bool) (xs : List A) → Distinct xs → Distinct (keep p xs)
  Distinct-keep p [] h = tt
  Distinct-keep p (x ∷ xs) h = elim (Bool-cases (p x)) [
    | inl e ↦ rw e (All-keep p (λ y. x ≢ y) xs h.0, Distinct-keep p xs h.1)
    | inr e ↦ rw e (Distinct-keep p xs h.1)
  ]

  pub Distinct-set_of : (xs : List A) → Distinct (set_of xs)
  unfolding set_of
  Distinct-set_of [] = tt
  Distinct-set_of (x ∷ xs) = (
    differs-All x _ (All-keep_test (differs x) (set_of xs)),
    Distinct-keep (differs x) (set_of xs) (Distinct-set_of xs),
  )

-- Sorting a list keeps the values of a key distinct.
module _ {ℓ κ} {A : Type ℓ} {K : Type κ} (le : A → A → Bool) (key : A → K) where
  All-map-place :
      (P : K → Type κ) (x : A) (xs : List A)
      → P (key x)
      → All P (map key xs)
      → All P (map key (place le x xs))
  unfolding place
  All-map-place P x [] px h = (px, tt)
  All-map-place P x (y ∷ ys) px h = elim (Bool-cases (le x y)) [
    | inl e ↦ rw e (px, h)
    | inr e ↦ rw e (h.0, All-map-place P x ys px h.1)
  ]

  pub All-map-sorted :
      (P : K → Type κ) (xs : List A) → All P (map key xs) → All P (map key (sorted le xs))
  unfolding sorted
  All-map-sorted P [] h = tt
  All-map-sorted P (x ∷ xs) h = All-map-place P x (sorted le xs) h.0 (All-map-sorted P xs h.1)

  Distinct-map-place :
      (x : A) (xs : List A)
      → All (λ k. key x ≢ k) (map key xs)
      → Distinct (map key xs)
      → Distinct (map key (place le x xs))
  unfolding place
  Distinct-map-place x [] h d = (tt, tt)
  Distinct-map-place x (y ∷ ys) h d = elim (Bool-cases (le x y)) [
    | inl e ↦ rw e (h, d)
    | inr e ↦ rw e (
      All-map-place (λ k. key y ≢ k) x ys (λ p. h.0 (sym p)) d.0,
      Distinct-map-place x ys h.1 d.1,
    )
  ]

  pub Distinct-map-sorted :
      (xs : List A) → Distinct (map key xs) → Distinct (map key (sorted le xs))
  unfolding sorted
  Distinct-map-sorted [] d = tt
  Distinct-map-sorted (x ∷ xs) d =
      Distinct-map-place x (sorted le xs) (All-map-sorted (λ k. key x ≢ k) xs d.0)
        (Distinct-map-sorted xs d.1)

-- A measure that never grows along a list.
abbrev pub Descending {ℓ} : {A : Type ℓ} → (A → ℕ) → List A → Type 0
Descending key [] = Unit
Descending key (x ∷ xs) = All (λ y. key y ≤ key x) xs × Descending key xs

-- An order that puts larger measures first sorts them so.
module _ {ℓ} {A : Type ℓ} (le : A → A → Bool) (key : A → ℕ)
    (down : (a b : A) → le a b ≡ true → key b ≤ key a)
    (up : (a b : A) → le a b ≡ false → key a ≤ key b) where
  Descending-place : (x : A) (xs : List A) → Descending key xs → Descending key (place le x xs)
  unfolding place
  Descending-place x [] h = (tt, tt)
  Descending-place x (y ∷ ys) h = elim (Bool-cases (le x y)) [
    | inl e ↦
        let top = down x y e in
        rw e (
          (
            top,
            All-imp (λ z. key z ≤ key y) (λ z. key z ≤ key x) ys (λ z k. omega (arith, k, top)) h.0,
          ),
          h,
        )
    | inr e ↦
        rw e (All-place le (λ z. key z ≤ key y) x ys (up x y e) h.0, Descending-place x ys h.1)
  ]

  pub Descending-sorted : (xs : List A) → Descending key (sorted le xs)
  unfolding sorted
  Descending-sorted [] = tt
  Descending-sorted (x ∷ xs) = Descending-place x (sorted le xs) (Descending-sorted xs)

pub Descending-take {ℓ} :
    {A : Type ℓ} (key : A → ℕ) (n : ℕ) (xs : List A)
    → Descending key xs
    → Descending key (take n xs)
Descending-take key zero xs h = tt
Descending-take key (suc n) [] h = tt
Descending-take key (suc n) (x ∷ xs) h =
    (All-take (λ y. key y ≤ key x) n xs h.0, Descending-take key n xs h.1)
