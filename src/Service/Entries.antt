-- ===== src/Service/Entries.antt =====
-- The loop of `recall` returns, and what its entries are.
use evolvable_user_memory.Base.{
  ℕ, ◌≤◌, ◌<◌, ◌⊎◌, length, ◌≡◌, refl, true, ◌&&◌, &&-true, List, [], ◌∷◌, ◌++◌, leb, leb→le,
  le→leb, nat_eq, Option, some, Option-cases, Bool-cases, inl, inr, arith, ap, All,
}
use evolvable_user_memory.Base.Result.{ok}
use evolvable_user_memory.Base.Text.{Text}
use evolvable_user_memory.Base.Dict.{Dict, get, insert, All-insert, All-get}
use evolvable_user_memory.Base.Fixed.{one, ratio-le_one}
use evolvable_user_memory.Base.Signed.{magnitude}
use evolvable_user_memory.Base.Weigh.{weigh}
use evolvable_user_memory.Common.{Uuid, Instant, ContextSignature, Hashing, similarity}
use evolvable_user_memory.Common.Similarity.{similarity-bounds}
use evolvable_user_memory.Memory.{MemoryRevision, MemorySnapshot}
use evolvable_user_memory.Experience.{
  ScoreBreakdown, make_breakdown, within_one, UtilityEstimate, mean,
}
use evolvable_user_memory.Evolution.Strategy.{StrategySnapshot, RetrievalWeights}
use evolvable_user_memory.Store.State.{Store}
use evolvable_user_memory.Store.Reads.{IsHead}
use evolvable_user_memory.Store.Visible.{IsVisible}
use evolvable_user_memory.Commands.{RecallMemory}
use evolvable_user_memory.Service.Lexical.{Folding, lexical_similarity-le_one}
use evolvable_user_memory.Service.Recall.{
  Decay, scores_of, or_zero, weighted_score, Entry, breakdown_for, entry_for, entries_for,
  passes_relevance_admission, unit_of,
}

-- `pow(0.5, x)` of an `x` that is not negative.
abbrev pub IsDecay : Decay → Type 0
IsDecay d = (age half_life : ℕ) → d.half_power age half_life ≤ one

-- What `ProjectionHit.__post_init__` guarantees.
abbrev pub IsHit : Uuid × ℕ → Type 0
IsHit (i, score) = score ≤ one

-- What `BeliefState.__post_init__` guarantees.
abbrev pub IsCredible : Uuid × MemoryRevision → Type 0
IsCredible (i, r) = r.belief.confidence ≤ one

pub scores_of-All :
    (hits : List (Uuid × ℕ)) (d : Dict Uuid ℕ)
    → All IsHit hits
    → All IsHit d
    → All IsHit (scores_of hits d)
unfolding scores_of
scores_of-All [] d h k = k
scores_of-All ((i, v) ∷ hits) d h k =
    scores_of-All hits (insert i v d) h.1 (All-insert IsHit i v d h.0 k)

mean-le_one : (u : UtilityEstimate) → mean u ≤ one
unfolding mean
mean-le_one u = ratio-le_one _ _ (omega arith)

weighted_score-le_one : (b : ScoreBreakdown) (w : RetrievalWeights) → weighted_score b w ≤ one
unfolding weighted_score
weighted_score-le_one b w = omega arith

-- A memory is relevant when its text bears on the query, or both contexts say something and match in
-- part.
abbrev pub IsRelevant : ContextSignature → ContextSignature → ScoreBreakdown → Type 0
IsRelevant stored requested b =
    (0 < b.semantic)
    ⊎ ((1 ≤ length stored.facets) × (1 ≤ length requested.facets) × (0 < b.context))

passes-IsRelevant :
    (stored requested : ContextSignature) (b : ScoreBreakdown)
    → passes_relevance_admission b.semantic stored requested b.context ≡ true
    → IsRelevant stored requested b
unfolding passes_relevance_admission
passes-IsRelevant stored requested b h = ground arith

-- What an entry of the loop has passed.
pub record IsAdmitted (policy : StrategySnapshot) (requested : ContextSignature)
    (valid_at known_at : Instant) (e : Entry) : Type 0 where
  pub relevant : IsRelevant e.memory.context requested e.breakdown
  pub weighed : e.score ≡ weighted_score e.breakdown policy.weights
  pub score : e.score ≤ one
  pub enough : policy.min_score ≤ e.score
  pub held : e.revision.valid_from ≤ valid_at
  pub known : e.revision.recorded_at ≤ known_at

-- A breakdown whose numbers all lie in [0, 1].
pub record IsBounded (b : ScoreBreakdown) : Type 0 where
  semantic : b.semantic ≤ one
  context : b.context ≤ one
  belief : b.belief ≤ one
  utility : b.utility ≤ one
  recency : b.recency ≤ one
  lexical : within_one b.lexical ≡ true
  vector : within_one b.vector ≡ true

pub make_breakdown-ok : (b : ScoreBreakdown) → IsBounded b → make_breakdown b ≡ ok b
unfolding make_breakdown
make_breakdown-ok b h =
    rw
      (
        le→leb _ _ h.semantic,
        le→leb _ _ h.context,
        le→leb _ _ h.belief,
        le→leb _ _ h.utility,
        le→leb _ _ h.recency,
        h.lexical,
        h.vector,
      )
      refl

abbrev pub entry_with : MemorySnapshot → ScoreBreakdown → StrategySnapshot → Entry
entry_with x b policy = record {
  score = weighted_score b policy.weights;
  memory = x.memory;
  revision = x.revision;
  breakdown = b;
}

entry_for-cases :
    (command : RecallMemory) (policy : StrategySnapshot) (x : MemorySnapshot) (b : ScoreBreakdown)
    (e : Entry)
    → entry_for command policy x b ≡ some e
    → IsRelevant x.memory.context command.context b
      × (policy.min_score ≤ weighted_score b policy.weights)
      × (e ≡ entry_with x b policy)
unfolding entry_for
entry_for-cases command policy x b e h =
    elim (Bool-cases (
      passes_relevance_admission b.semantic x.memory.context command.context b.context
      && leb policy.min_score (weighted_score b policy.weights))) [
        | inl passed ↦
            let p : some (entry_with x b policy) ≡ some e = rw passed at h in
            let (related, enough) = &&-true _ _ passed in
            (passes-IsRelevant x.memory.context command.context b related, leb→le _ _ enough, cc)
        | inr refused ↦ cc (rw refused at h)
      ]

-- The breakdown of a memory, with the similarity of its context.
abbrev pub breakdown_of :
    ⦃h : Hashing⦄ ⦃f : Folding⦄ ⦃d : Decay⦄
    → Text
    → RecallMemory
    → StrategySnapshot
    → Dict Uuid ℕ
    → (valid_at known_at : Instant) → Store
    → MemorySnapshot
    → ScoreBreakdown
breakdown_of query command policy vector_scores valid_at known_at s x =
    breakdown_for query command policy vector_scores valid_at known_at s x
      (magnitude (similarity x.memory.context command.context))

module _ ⦃h : Hashing⦄ ⦃f : Folding⦄ ⦃d : Decay⦄ (decays : IsDecay d) (query : Text)
    (command : RecallMemory) (policy : StrategySnapshot) (vector_scores : Dict Uuid ℕ)
    (bounded : All IsHit vector_scores) (valid_at known_at : Instant) (s : Store)
    (credible : All IsCredible s.revisions) where
  within-vector : (i : Uuid) → within_one (get i vector_scores) ≡ true
  within-vector i = elim (Option-cases (get i vector_scores)) [
    | inl absent ↦ rw absent refl
    | inr (v, e) ↦ rw e (le→leb v one (All-get IsHit vector_scores i v bounded e))
  ]

  or_zero-le_one : (i : Uuid) → or_zero (get i vector_scores) ≤ one
  or_zero-le_one i = elim (Option-cases (get i vector_scores)) [
    | inl absent ↦ rw absent (omega arith)
    | inr (v, e) ↦ rw e (All-get IsHit vector_scores i v bounded e)
  ]

  breakdown_for-IsBounded :
      (x : MemorySnapshot) (context : ℕ)
      → IsHead s x
      → context ≤ one
      → IsBounded (breakdown_for query command policy vector_scores valid_at known_at s x context)
  unfolding breakdown_for
  breakdown_for-IsBounded x context head bound =
      let lexical = lexical_similarity-le_one query (x.memory.key ++ b' ' ∷ x.revision.value) in
      record {
        semantic = omega (arith, lexical, or_zero-le_one x.revision.id);
        context = bound;
        belief = All-get IsCredible s.revisions x.revision.id x.revision credible head.1;
        utility = mean-le_one _;
        recency = decays _ _;
        lexical = le→leb _ _ lexical;
        vector = within-vector x.revision.id;
      }

  abbrev result : MemorySnapshot → Option Entry
  result x =
      entry_for command policy x
        (breakdown_of query command policy vector_scores valid_at known_at s x)

  pub breakdown-returns :
      (x : MemorySnapshot)
      → IsHead s x
      → (unit_of (similarity x.memory.context command.context)
          ≡ ok (magnitude (similarity x.memory.context command.context)))
        × (make_breakdown (breakdown_of query command policy vector_scores valid_at known_at s x)
            ≡ ok (breakdown_of query command policy vector_scores valid_at known_at s x))
  unfolding unit_of
  breakdown-returns x head =
      let (v, same, bound, _) = similarity-bounds x.memory.context command.context in
      let small : magnitude (similarity x.memory.context command.context) ≤ one =
        rw same (omega (arith, bound)) in
      (rw same refl, make_breakdown-ok _ (breakdown_for-IsBounded x _ head small))

  abbrev Scored : List MemorySnapshot → Type 0
  Scored xs =
      (es : List Entry) × (entries_for query command policy vector_scores valid_at known_at s xs
        ≡ ok es)
      × All (IsAdmitted policy command.context valid_at known_at) es
      × ((g : MemoryRevision → ℕ)
          → weigh (λ (e : Entry). g e.revision) es
            ≤ weigh (λ (x : MemorySnapshot). g x.revision) xs)

  entry_for-IsAdmitted :
      (x : MemorySnapshot) (e : Entry)
      → IsVisible command.scope valid_at known_at x
      → result x ≡ some e
      → IsAdmitted policy command.context valid_at known_at e × (e.revision ≡ x.revision)
  entry_for-IsAdmitted x e visible h =
      let (related, enough, same) = entry_for-cases command policy x _ e h in
      rw same (
        record {
          relevant = related;
          weighed = refl;
          score = weighted_score-le_one _ _;
          enough = enough;
          held = visible.held;
          known = visible.known;
        },
        refl,
      )

  pub entries_for-returns :
      (xs : List MemorySnapshot)
      → All (IsHead s) xs
      → All (IsVisible command.scope valid_at known_at) xs
      → Scored xs
  unfolding entries_for
  entries_for-returns [] heads visible = ([], refl, tt, λ g. omega arith)
  entries_for-returns (x ∷ xs) heads visible =
      let (es, rest, admitted, le) = entries_for-returns xs heads.1 visible.1 in
      let (near, made) = breakdown-returns x heads.0 in
      elim (Option-cases (result x)) [
        | inl refused ↦
            (es, rw (near, made, rest, refused) refl, admitted, λ g. omega (arith, le g))
        | inr (e, kept) ↦
            let (good, same) = entry_for-IsAdmitted x e visible.0 kept in
            (
              e ∷ es,
              rw (near, made, rest, kept) refl,
              (good, admitted),
              λ g. omega (arith, le g, ap g same),
            )
      ]
