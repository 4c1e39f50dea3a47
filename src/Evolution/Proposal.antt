-- ===== src/Evolution/Proposal.antt =====
-- domain/evolution.py: `PolicyEvolution.propose`.
use evolvable_user_memory.Base.{
  ℕ, ◌+◌, min, ◌≡◌, ◌↔◌, Bool, true, List, [], ◌∷◌, ◌==◌, ◌!=◌, Eq, nat_eq, leb, arith, keep,
  Option, none, some, if◌then◌else◌,
}
use evolvable_user_memory.Base.Result.{Result, ok, err, value_error, ◌>>=◌}
use evolvable_user_memory.Base.Sort.{sorted}
use evolvable_user_memory.Base.Fixed.{percent}
use evolvable_user_memory.Common.{Uuid, Instant}
use evolvable_user_memory.Evolution.Strategy.{
  RetrievalWeights, Rounding, make_weights, StrategySnapshot, make_strategy, FailureDiagnosis,
  Component, components, dominant_component,
}

abbrev component_code : Component → ℕ
component_code Component.semantic = 0
component_code Component.context = 1
component_code Component.belief = 2
component_code Component.utility = 3
component_code Component.recency = 4

abbrev component_beq : Component → Component → Bool
component_beq a b = component_code a == component_code b

pub component_beq_iff : (a b : Component) → (component_beq a b ≡ true) ↔ (a ≡ b)
component_beq_iff a b = (λ h. ground arith, λ h. ground arith)

instance abbrev pub component_eq : Eq Component
component_eq = record { beq = component_beq; beq_iff = component_beq_iff }

-- `values[name]`
abbrev pub weight_of : RetrievalWeights → Component → ℕ
weight_of w Component.semantic = w.semantic
weight_of w Component.context = w.context
weight_of w Component.belief = w.belief
weight_of w Component.utility = w.utility
weight_of w Component.recency = w.recency

-- `values[name] = value`
abbrev pub with_weight : RetrievalWeights → Component → ℕ → RetrievalWeights
with_weight w Component.semantic value = record w { semantic = value }
with_weight w Component.context value = record w { context = value }
with_weight w Component.belief value = record w { belief = value }
with_weight w Component.utility value = record w { utility = value }
with_weight w Component.recency value = record w { recency = value }

-- The other components, the heaviest first.
unfoldable pub donors : RetrievalWeights → Component → List Component
donors w target =
    sorted (λ a b. leb (weight_of w b) (weight_of w a)) (keep (λ c. c != target) components)

-- `_MAX_DELTA`
abbrev pub max_delta : ℕ
max_delta = percent 3

unfoldable pub delta_for : ⦃f : Rounding⦄ → RetrievalWeights → Component → Component → ℕ
delta_for ⦃f⦄ w target donor =
    min max_delta
      (min (f.minus (percent 60) (weight_of w target)) (f.minus (weight_of w donor) (percent 5)))

-- `values[target] += delta; values[donor] -= delta`
unfoldable pub shifted :
    ⦃f : Rounding⦄ → RetrievalWeights → Component → Component → ℕ → RetrievalWeights
shifted ⦃f⦄ w target donor delta =
    let raised = with_weight w target (f.plus (weight_of w target) delta) in
    with_weight raised donor (f.minus (weight_of raised donor) delta)

-- The part of `propose` that follows the choice of target and donor.
unfoldable pub proposal :
    ⦃f : Rounding⦄
    → StrategySnapshot
    → Component
    → Component
    → Uuid
    → Instant
    → Result (Option StrategySnapshot)
proposal parent target donor proposal_id at =
    let delta = delta_for parent.weights target donor in
    if leb delta 0 then ok none else do
      weights ← make_weights (shifted parent.weights target donor delta)
      snapshot ← make_strategy (record {
        id = proposal_id;
        version = parent.version + 1;
        weights = weights;
        min_score = parent.min_score;
        recency_half_life_days = parent.recency_half_life_days;
        created_at = at;
        parent_id = some parent.id;
      })
      ok (some snapshot)

-- `donors[0]` of an empty list would raise; there are four donors.
unfoldable pub propose :
    ⦃f : Rounding⦄
    → StrategySnapshot
    → FailureDiagnosis
    → Uuid
    → Instant
    → Result (Option StrategySnapshot)
propose parent diagnosis proposal_id at = elim (dominant_component diagnosis) [
  | none ↦ ok none
  | some target ↦ elim (donors parent.weights target) [
    | [] ↦ err (value_error "list index out of range")
    | donor ∷ rest ↦ proposal parent target donor proposal_id at
  ]
]
