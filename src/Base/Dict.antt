-- ===== src/Base/Dict.antt =====
-- A Python dict: an association list in insertion order; a write to a present key keeps its place.
use mathlib.Core.Path.{◌≡◌, refl, subst, ap, ◌∙◌}
use mathlib.Core.Bool.{Bool, true, false}
use mathlib.Core.Option.{Option, none, some}
use mathlib.Core.List.{List, [], ◌∷◌}
use native.Mathlib.Omega.{arith}
use mathlib.Core.Logic.{◌≢◌, ◌⊎◌, inl, inr}
use evolvable_user_memory.Base.Tests.{if◌then◌else◌, Bool-cases, Option-cases}
use evolvable_user_memory.Base.Lists.{All}
use evolvable_user_memory.Base.Sort.{Distinct}
use evolvable_user_memory.Base.Equality.{Eq, ◌==◌}

abbrev pub Dict {ℓ κ} : Type ℓ → Type κ → Type (ℓ ⊔ κ)
Dict K V = List (K × V)

module _ {ℓ κ} {K : Type ℓ} {V : Type κ} ⦃e : Eq K⦄ where
  -- `d.get(k)`
  unfoldable pub get : K → Dict K V → Option V
  get k [] = none
  get k ((j, v) ∷ d) = if j == k then some v else get k d

  -- `d[k] = v`
  unfoldable pub insert : K → V → Dict K V → Dict K V
  insert k v [] = (k, v) ∷ []
  insert k v ((j, w) ∷ d) = if j == k then (k, v) ∷ d else (j, w) ∷ insert k v d

  -- `d.pop(k, None)`
  unfoldable pub remove : K → Dict K V → Dict K V
  remove k [] = []
  remove k ((j, w) ∷ d) = let rest = remove k d in if j == k then rest else (j, w) ∷ rest

  pub get-insert :
      (k j : K) (v : V) (d : Dict K V) → get j (insert k v d) ≡ (if k == j then some v else get j d)
  unfolding get insert
  get-insert k j v [] = refl
  get-insert k j v ((i, w) ∷ d) =
      ground (arith, e.beq_iff k j, e.beq_iff i k, e.beq_iff i j, get-insert k j v d)

  pub get-insert_same : (k : K) (v : V) (d : Dict K V) → get k (insert k v d) ≡ some v
  get-insert_same k v d = rw (get-insert k k v d, (e.beq_iff k k).1 refl) refl

  pub get-insert_at :
      (k j : K) (v : V) (d : Dict K V) → (k == j) ≡ true → get j (insert k v d) ≡ some v
  get-insert_at k j v d h = rw (get-insert k j v d, h) refl

  pub get-insert_off :
      (k j : K) (v : V) (d : Dict K V) → (k == j) ≡ false → get j (insert k v d) ≡ get j d
  get-insert_off k j v d h = rw (get-insert k j v d, h) refl

  -- What a read after a write finds: the value written, or what was there under another key.
  pub get-insert-cases :
      (k j : K) (v w : V) (d : Dict K V)
      → get j (insert k v d) ≡ some w
      → ((k ≡ j) × (v ≡ w)) ⊎ (get j d ≡ some w)
  get-insert-cases k j v w d h = elim (Bool-cases (k == j)) [
    | inl same ↦
        let p : some v ≡ some w = rw (get-insert_at k j v d same) at h in
        inl ((e.beq_iff k j).0 same, cc)
    | inr other ↦ inr (rw (get-insert_off k j v d other) at h)
  ]

  -- A write under a key that is absent, or that holds something else, keeps what is there.
  pub get-insert_keeps :
      (k j : K) (v w : V) (d : Dict K V)
      → get j d ≡ some w
      → get k d ≢ some w
      → get j (insert k v d) ≡ some w
  get-insert_keeps k j v w d h differs = elim (Bool-cases (k == j)) [
    | inl same ↦ let p = (e.beq_iff k j).0 same in absurd (differs (ap (λ x. get x d) p ∙ h))
    | inr other ↦ get-insert_off k j v d other ∙ h
  ]

  pub get-remove :
      (k j : K) (d : Dict K V) → get j (remove k d) ≡ (if k == j then none else get j d)
  unfolding get remove
  get-remove k j [] = ground arith
  get-remove k j ((i, w) ∷ d) =
      ground (arith, e.beq_iff k j, e.beq_iff i k, e.beq_iff i j, get-remove k j d)

module _ {ℓ κ} {K : Type ℓ} {V : Type κ} where
  -- `k in d`
  abbrev pub has : ⦃e : Eq K⦄ → K → Dict K V → Bool
  has k d = elim (get k d) [ none ↦ false | some _ ↦ true ]

  pub has→get : ⦃e : Eq K⦄ (k : K) (d : Dict K V) → has k d ≡ true → (v : V) × (get k d ≡ some v)
  has→get k d h = elim (Option-cases (get k d)) [
    | inl absent ↦ cc (rw (absent, has) at h)
    | inr found ↦ found
  ]

  pub get→has : ⦃e : Eq K⦄ (k : K) (d : Dict K V) (v : V) → get k d ≡ some v → has k d ≡ true
  get→has k d v h = rw (h, has)

  pub has-insert :
      ⦃e : Eq K⦄ (k j : K) (v : V) (d : Dict K V) → has j d ≡ true → has j (insert k v d) ≡ true
  has-insert ⦃e⦄ k j v d h = elim (Bool-cases (k == j)) [
    | inl same ↦ rw (get-insert_at k j v d same, has)
    | inr other ↦ rw (get-insert_off k j v d other, has) h
  ]

  pub has-insert_same : ⦃e : Eq K⦄ (k : K) (v : V) (d : Dict K V) → has k (insert k v d) ≡ true
  has-insert_same k v d = rw (get-insert_same k v d, has)

  -- `d.values()`
  abbrev pub values : Dict K V → List V
  values [] = []
  values ((k, v) ∷ d) = v ∷ values d

  -- `d.keys()`
  abbrev pub keys : Dict K V → List K
  keys [] = []
  keys ((k, v) ∷ d) = k ∷ keys d

  -- `{k: v for k, v in d.items() if p(k)}`
  unfoldable pub keep_keys : (K → Bool) → Dict K V → Dict K V
  keep_keys p [] = []
  keep_keys p ((k, v) ∷ d) = let rest = keep_keys p d in if p k then (k, v) ∷ rest else rest

  pub get-keep_keys :
      ⦃e : Eq K⦄ (p : K → Bool) (j : K) (d : Dict K V)
      → get j (keep_keys p d) ≡ (if p j then get j d else none)
  unfolding get keep_keys
  get-keep_keys p j [] = ground arith
  get-keep_keys ⦃e⦄ p j ((k, v) ∷ d) = ground (arith, e.beq_iff k j, get-keep_keys p j d)

-- Keys that occur once, and a property of all entries, under a write.
module _ {ℓ κ} {K : Type ℓ} {V : Type κ} ⦃e : Eq K⦄ where
  pub All-get :
      (P : K × V → Type κ) (d : Dict K V) (k : K) (v : V) → All P d → get k d ≡ some v → P (k, v)
  unfolding get
  All-get P [] k v h g = cc
  All-get P ((j, w) ∷ d) k v h g = elim (Bool-cases (j == k)) [
    | inl same ↦
        let p : some w ≡ some v = rw same at g in
        let q : w ≡ v = cc in
        let r = (e.beq_iff j k).0 same in subst (λ x. P (k, x)) q (subst (λ x. P (x, w)) r h.0)
    | inr other ↦ All-get P d k v h.1 (rw other at g)
  ]

  pub All-insert :
      (P : K × V → Type κ) (k : K) (v : V) (d : Dict K V)
      → P (k, v)
      → All P d
      → All P (insert k v d)
  unfolding insert
  All-insert P k v [] p h = (p, tt)
  All-insert P k v ((j, w) ∷ d) p h = elim (Bool-cases (j == k)) [
    | inl same ↦ rw same (p, h.1)
    | inr other ↦ rw other (h.0, All-insert P k v d p h.1)
  ]

  All-keys-insert :
      (P : K → Type ℓ) (k : K) (v : V) (d : Dict K V)
      → P k
      → All P (keys d)
      → All P (keys (insert k v d))
  unfolding insert
  All-keys-insert P k v [] p h = (p, tt)
  All-keys-insert P k v ((j, w) ∷ d) p h = elim (Bool-cases (j == k)) [
    | inl same ↦ rw same (p, h.1)
    | inr other ↦ rw other (h.0, All-keys-insert P k v d p h.1)
  ]

  pub Distinct-keys-insert :
      (k : K) (v : V) (d : Dict K V) → Distinct (keys d) → Distinct (keys (insert k v d))
  unfolding insert
  Distinct-keys-insert k v [] h = (tt, tt)
  Distinct-keys-insert k v ((j, w) ∷ d) h = elim (Bool-cases (j == k)) [
    | inl same ↦ rw same (rw ((e.beq_iff j k).0 same) at h)
    | inr other ↦ rw other (
      All-keys-insert (λ i. j ≢ i) k v d (λ p. cc ((e.beq_iff j k).1 p)) h.0,
      Distinct-keys-insert k v d h.1,
    )
  ]
