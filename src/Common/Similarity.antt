-- ===== src/Common/Similarity.antt =====
-- Bounds of `ContextSignature.similarity`.
use evolvable_user_memory.Base.{
  ℕ, ◌+◌, ◌-◌, ◌*◌, ◌≤◌, ◌≡◌, ◌⊎◌, inl, inr, refl, false, keep, leb, leb→le, Bool-cases, List, [],
  ◌∷◌, ◌++◌, arith, length, length-append, length-keep-le, list_eq, pair_eq, nat_eq,
}
use evolvable_user_memory.Base.Text.{Text}
use evolvable_user_memory.Base.Sort.{set_of, contains, set_of-append, Distinct-set_of}
use evolvable_user_memory.Base.Fixed.{one, percent, ratio-le_one}
use evolvable_user_memory.Base.Signed.{ℤ, pos, difference, max_zero, max_zero-difference}
use evolvable_user_memory.Common.{
  ContextSignature, matching, conflicting_keys, similarity_of, similarity,
}

matching-le_union :
    (xs ys : List (Text × Text))
    → length (matching (set_of xs) ys) ≤ length (set_of (set_of xs ++ ys))
unfolding matching
matching-le_union xs ys =
    let (rest, e) = set_of-append (set_of xs) ys (Distinct-set_of xs) in
    rw e (omega (arith, length-append (set_of xs) rest, length-keep-le (contains ys) (set_of xs)))

-- How many keys of two lists of facets have different values.
abbrev pub conflicts : List (Text × Text) → List (Text × Text) → ℕ
conflicts xs ys = length (conflicting_keys (set_of xs) (set_of ys))

-- A score in [0, 1], which each of `n` conflicts has lowered by 0.35 as far as it could.
record IsPenalized (n : ℕ) (score : ℤ) : Type 0 where
  pub value : ℕ
  pub same : score ≡ pos value
  pub bound : value ≤ one
  pub penalty : (value ≡ 0) ⊎ (value + percent 35 * n ≤ one)

less-IsPenalized : (n a : ℕ) → a ≤ one → IsPenalized n (max_zero (difference a (percent 35 * n)))
less-IsPenalized n a h = record {
  value = a - percent 35 * n;
  same = max_zero-difference a (percent 35 * n);
  bound = omega (arith, h);
  penalty = elim (Bool-cases (leb (percent 35 * n) a)) [
    | inl enough ↦ inr (let le = leb→le _ _ enough in omega (arith, le, h))
    | inr less ↦ inl (ground arith)
  ];
}

plain-IsPenalized : (n a : ℕ) → a ≤ one → n ≡ 0 → IsPenalized n (pos a)
plain-IsPenalized n a h none = record {
  value = a;
  same = refl;
  bound = h;
  penalty = inr (omega (arith, h, none));
}

keep_none : (xs : List (Text × Text)) → keep (λ s. false) xs ≡ []
keep_none [] = refl
keep_none (x ∷ xs) = keep_none xs

conflicts_none : (xs : List (Text × Text)) → conflicts xs [] ≡ 0
unfolding conflicting_keys set_of
conflicts_none xs = rw (keep_none (set_of xs)) refl

none_conflicts : (ys : List (Text × Text)) → conflicts [] ys ≡ 0
unfolding conflicting_keys set_of
none_conflicts ys = refl

similarity_of-IsPenalized :
    (xs ys : List (Text × Text)) → IsPenalized (conflicts xs ys) (similarity_of xs ys)
unfolding similarity_of
similarity_of-IsPenalized [] [] =
    plain-IsPenalized (conflicts [] []) one (omega arith) (none_conflicts [])
similarity_of-IsPenalized [] (y ∷ ys) =
    plain-IsPenalized (conflicts [] (y ∷ ys)) (percent 80) (omega arith) (none_conflicts (y ∷ ys))
similarity_of-IsPenalized (x ∷ xs) [] =
    plain-IsPenalized (conflicts (x ∷ xs) []) (percent 25) (omega arith) (conflicts_none (x ∷ xs))
similarity_of-IsPenalized (x ∷ xs) (y ∷ ys) =
    less-IsPenalized (conflicts (x ∷ xs) (y ∷ ys)) _
      (ratio-le_one _ _ (matching-le_union (x ∷ xs) (set_of (y ∷ ys))))

-- The similarity of any two contexts lies in [0, 1]. With `n` conflicting keys it is 0 or at most
-- 1 - 0.35 * n.
pub similarity-bounds :
    (stored requested : ContextSignature)
    → (v : ℕ) × (similarity stored requested ≡ pos v)
      × (v ≤ one)
      × ((v ≡ 0) ⊎ (v + percent 35 * conflicts stored.facets requested.facets ≤ one))
unfolding similarity
similarity-bounds stored requested =
    let h = similarity_of-IsPenalized stored.facets requested.facets in
    (h.value, h.same, h.bound, h.penalty)
