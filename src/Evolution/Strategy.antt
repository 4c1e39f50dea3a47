-- ===== src/Evolution/Strategy.antt =====
-- domain/evolution.py: retrieval weights, strategy snapshots and failure diagnoses. A number is a
-- multiple of 10 ^ -12 (Base/Fixed.antt).
use evolvable_user_memory.Base.{
  ℕ, ◌+◌, ◌-◌, ◌*◌, max, ◌≡◌, ◌↔◌, Bool, true, ◌&&◌, ◌||◌, not, List, [], ◌∷◌, ◌==◌, Eq, ==_iff,
  nat_eq, ltb, leb, arith, Option, none, some, if◌then◌else◌, option_eq,
}
use evolvable_user_memory.Base.Result.{Result, ok, domain_error, ◌>>◌, raise_if}
use evolvable_user_memory.Base.Fixed.{one, percent}
use evolvable_user_memory.Common.{Uuid, Instant}

pub record RetrievalWeights : Type 0 where
  pub semantic : ℕ
  pub context : ℕ
  pub belief : ℕ
  pub utility : ℕ
  pub recency : ℕ

abbrev pub default_weights : RetrievalWeights
default_weights = record {
  semantic = percent 35;
  context = percent 25;
  belief = percent 20;
  utility = percent 15;
  recency = percent 5;
}

-- `0.05 <= value <= 0.60`
abbrev pub in_range : ℕ → Bool
in_range value = leb (percent 5) value && leb value (percent 60)

-- The exact sum of the weights.
abbrev pub total : RetrievalWeights → ℕ
total w = w.semantic + w.context + w.belief + w.utility + w.recency

-- `math.isclose(a, b, abs_tol=1e-9)`, whose relative tolerance is 1e-9 too
unfoldable pub is_close : ℕ → ℕ → Bool
is_close a b =
    let distance = (a - b) + (b - a) in
    leb (distance * 1_000_000_000) (max a b) || leb distance 1_000

-- Python's float arithmetic on weights, which rounds: `a + b`, `a - b` of an `a` that is at least `b`,
-- and the built-in `sum`.
pub record Rounding : Type 0 where
  pub plus : ℕ → ℕ → ℕ
  pub minus : ℕ → ℕ → ℕ
  pub sum_of : List ℕ → ℕ

abbrev pub values_of : RetrievalWeights → List ℕ
values_of w = w.semantic ∷ w.context ∷ w.belief ∷ w.utility ∷ w.recency ∷ []

unfoldable pub make_weights : ⦃f : Rounding⦄ → RetrievalWeights → Result RetrievalWeights
make_weights ⦃f⦄ w = do
  raise_if
      (not (
        in_range w.semantic
        && in_range w.context
        && in_range w.belief
        && in_range w.utility
        && in_range w.recency))
      (domain_error "retrieval weights must each be in [0.05, 0.60]")
  raise_if (not (is_close (f.sum_of (values_of w)) one))
      (domain_error "retrieval weights must sum to 1")
  ok w

pub record StrategySnapshot : Type 0 where
  pub id : Uuid
  pub version : ℕ
  pub weights : RetrievalWeights
  pub min_score : ℕ
  pub recency_half_life_days : ℕ
  pub created_at : Instant
  pub parent_id : Option Uuid

unfoldable pub make_strategy : StrategySnapshot → Result StrategySnapshot
make_strategy s = do
  raise_if (ltb s.version 1) (domain_error "strategy version must be positive")
  raise_if (ltb one s.min_score) (domain_error "min_score must be between 0 and 1")
  raise_if (not (leb one s.recency_half_life_days && leb s.recency_half_life_days (3650 * one)))
      (domain_error "recency half-life must be in [1, 3650] days")
  ok s

abbrev weights_beq : RetrievalWeights → RetrievalWeights → Bool
weights_beq a b =
    a.semantic == b.semantic
    && a.context == b.context
    && a.belief == b.belief
    && a.utility == b.utility
    && a.recency == b.recency

pub weights_beq_iff : (a b : RetrievalWeights) → (weights_beq a b ≡ true) ↔ (a ≡ b)
weights_beq_iff a b = (λ h. ground arith, λ h. ground arith)

instance abbrev pub weights_eq : Eq RetrievalWeights
weights_eq = record { beq = weights_beq; beq_iff = weights_beq_iff }

abbrev strategy_beq : StrategySnapshot → StrategySnapshot → Bool
strategy_beq a b =
    a.id == b.id
    && a.version == b.version
    && a.weights == b.weights
    && a.min_score == b.min_score
    && a.recency_half_life_days == b.recency_half_life_days
    && a.created_at == b.created_at
    && a.parent_id == b.parent_id

pub strategy_beq_iff : (a b : StrategySnapshot) → (strategy_beq a b ≡ true) ↔ (a ≡ b)
strategy_beq_iff a b = (
  λ h. ground (arith, weights_beq_iff a.weights b.weights, ==_iff a.parent_id b.parent_id),
  λ h. ground (arith, weights_beq_iff a.weights b.weights, ==_iff a.parent_id b.parent_id),
)

instance abbrev pub strategy_eq : Eq StrategySnapshot
strategy_eq = record { beq = strategy_beq; beq_iff = strategy_beq_iff }

pub record FailureDiagnosis : Type 0 where
  pub irrelevant_results : ℕ
  pub context_mismatches : ℕ
  pub low_belief_results : ℕ
  pub harmful_results : ℕ
  pub stale_results : ℕ

-- The names of the five weights.
pub data Component : Type 0 where
  semantic context belief utility recency : Component

abbrev pub count_for : FailureDiagnosis → Component → ℕ
count_for d Component.semantic = d.irrelevant_results
count_for d Component.context = d.context_mismatches
count_for d Component.belief = d.low_belief_results
count_for d Component.utility = d.harmful_results
count_for d Component.recency = d.stale_results

abbrev pub components : List Component
components =
    Component.semantic ∷ Component.context ∷ Component.belief ∷ Component.utility
    ∷ Component.recency ∷ []

-- `max(items, key=...)`: the first of the largest.
unfoldable pub largest : (Component → ℕ) → Component → List Component → Component
largest key best [] = best
largest key best (c ∷ cs) = largest key (if ltb (key best) (key c) then c else best) cs

unfoldable pub dominant_component : FailureDiagnosis → Option Component
dominant_component d =
    let component = largest (count_for d) Component.semantic components in
    if ltb 0 (count_for d component) then some component else none
