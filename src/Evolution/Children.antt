-- ===== src/Evolution/Children.antt =====
-- What the constructors of a strategy accept, and what a proposal is to its parent.
use evolvable_user_memory.Base.{
  ℕ, ◌+◌, ◌*◌, All-imp, All-keep_test, keep, ◌!=◌, length, ◌≡◌, ◌≢◌, ◌≤◌, ◌<◌, ◌⊎◌, true, false,
  Option, arith, All, some,
}
use evolvable_user_memory.Base.Result.{Result, ok, err, domain_error}
use evolvable_user_memory.Base.Sort.{All-sorted, length-sorted}
use evolvable_user_memory.Base.Fixed.{one, percent}
use evolvable_user_memory.Evolution.Strategy.{
  RetrievalWeights, Rounding, values_of, make_weights, is_close, total, StrategySnapshot,
  make_strategy, Component, components,
}
use evolvable_user_memory.Evolution.Proposal.{
  component_eq, component_beq_iff, weight_of, donors, max_delta,
}
use evolvable_user_memory.Evolution.Shift.{Near}

-- What the constructors of a strategy guarantee.
pub record IsStrategy ⦃f : Rounding⦄ (s : StrategySnapshot) : Type 0 where
  pub version : 1 ≤ s.version
  pub low : (c : Component) → percent 5 ≤ weight_of s.weights c
  pub high : (c : Component) → weight_of s.weights c ≤ percent 60
  pub close : is_close (f.sum_of (values_of s.weights)) one ≡ true
  pub score : s.min_score ≤ one
  pub half_life_low : one ≤ s.recency_half_life_days
  pub half_life_high : s.recency_half_life_days ≤ 3650 * one

pub donor-ne : (w : RetrievalWeights) (target : Component) → All (λ c. c ≢ target) (donors w target)
unfolding donors
donor-ne w target =
    All-sorted _ (λ c. c ≢ target) (keep (λ c. c != target) components)
      (All-imp (λ c. (c != target) ≡ true) (λ c. c ≢ target) (keep (λ c. c != target) components)
        (λ c h p. ground (arith, component_beq_iff c target))
        (All-keep_test (λ c. c != target) components))

pub length-donors : (w : RetrievalWeights) (target : Component) → length (donors w target) ≡ 4
unfolding donors
length-donors w target = rw length-sorted (ground arith)

-- The exact sum of the weights is almost 10 ^ -9 away from 1, or further.
abbrev pub AtEdge : RetrievalWeights → Type 0
AtEdge w = (total w + 990 ≤ one) ⊎ (one + 990 ≤ total w)

-- What a proposal changes.
pub record Moves (parent s : StrategySnapshot) (target : Component) : Type 0 where
  pub donor : Component
  pub delta : ℕ
  pub other : donor ≢ target
  pub positive : 0 < delta
  pub bounded : delta ≤ max_delta
  pub raised : Near 1 (weight_of s.weights target) (weight_of parent.weights target + delta)
  pub lowered : Near 1 (weight_of s.weights donor + delta) (weight_of parent.weights donor)
  pub rest :
      (c : Component) → c ≢ target → c ≢ donor → weight_of s.weights c ≡ weight_of parent.weights c
  pub same_total : Near 2 (total s.weights) (total parent.weights)
  pub next_version : s.version ≡ parent.version + 1
  pub extends : s.parent_id ≡ some parent.id
  pub same_score : s.min_score ≡ parent.min_score
  pub same_half_life : s.recency_half_life_days ≡ parent.recency_half_life_days

-- What `propose` answers for a target, when it does not give nothing.
abbrev pub Proposes :
    ⦃f : Rounding⦄ → StrategySnapshot → Component → Result (Option StrategySnapshot) → Type 0
Proposes parent target result =
    ((s : StrategySnapshot) × (result ≡ ok (some s)) × IsStrategy s × Moves parent s target)
    ⊎ ((result ≡ err (domain_error "retrieval weights must sum to 1")) × AtEdge parent.weights)

pub make_weights-ok :
    ⦃f : Rounding⦄ (w : RetrievalWeights)
    → ((c : Component) → (percent 5 ≤ weight_of w c) × (weight_of w c ≤ percent 60))
    → is_close (f.sum_of (values_of w)) one ≡ true
    → make_weights w ≡ ok w
unfolding make_weights
make_weights-ok w range close = ground (
  arith,
  range Component.semantic,
  range Component.context,
  range Component.belief,
  range Component.utility,
  range Component.recency,
)

pub make_weights-not_close :
    ⦃f : Rounding⦄ (w : RetrievalWeights)
    → ((c : Component) → (percent 5 ≤ weight_of w c) × (weight_of w c ≤ percent 60))
    → is_close (f.sum_of (values_of w)) one ≡ false
    → make_weights w ≡ err (domain_error "retrieval weights must sum to 1")
unfolding make_weights
make_weights-not_close w range far = ground (
  arith,
  range Component.semantic,
  range Component.context,
  range Component.belief,
  range Component.utility,
  range Component.recency,
)

pub make_strategy-ok : ⦃f : Rounding⦄ (s : StrategySnapshot) → IsStrategy s → make_strategy s ≡ ok s
unfolding make_strategy
make_strategy-ok s h = ground arith
