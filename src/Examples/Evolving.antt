-- ===== src/Examples/Evolving.antt =====
-- Proposals, experiment histories and similarities on small inputs.
use evolvable_user_memory.Base.{
  ℕ, ◌+◌, ◌-◌, sum, ◌*◌, ◌≡◌, ◌≤◌, ◌⊎◌, refl, none, some, List, [], ◌∷◌, length, arith, nat_eq,
}
use evolvable_user_memory.Base.Result.{ok, err, domain_error}
use evolvable_user_memory.Base.Sort.{sorted, set_of}
use evolvable_user_memory.Base.Fixed.{one, percent, ratio}
use evolvable_user_memory.Base.Signed.{pos}
use evolvable_user_memory.Base.Text.{text, strip}
use evolvable_user_memory.Common.{
  Instant, ContextSignature, similarity, similarity_of, matching, conflicting_keys, make_context,
  require_text, require_facets, facet_leb, text_leb,
}
use evolvable_user_memory.Common.Similarity.{conflicts, similarity-bounds}
use evolvable_user_memory.Evolution.Strategy.{
  Rounding, default_weights, StrategySnapshot, FailureDiagnosis, Component, dominant_component,
  largest, is_close, make_weights, make_strategy,
}
use evolvable_user_memory.Evolution.Proposal.{propose, donors, proposal, delta_for, shifted}
use evolvable_user_memory.Evolution.Bounds.{propose-returns}
use evolvable_user_memory.Evolution.Children.{IsStrategy, Proposes}
use evolvable_user_memory.Evolution.Shift.{IsRounding}
use evolvable_user_memory.Evolution.Experiment.{
  ExperimentStage, EvolutionExperiment, transition, make_experiment, is_legal,
}
use evolvable_user_memory.Evolution.Stages.{
  run, targets, promotion_path, run-promotion_path, run-bounds,
}

abbrev pub default_strategy : StrategySnapshot
default_strategy = record {
  id = 1;
  version = 1;
  weights = default_weights;
  min_score = percent 20;
  recency_half_life_days = 180 * one;
  created_at = 5;
  parent_id = none;
}

abbrev pub irrelevant : FailureDiagnosis
irrelevant = record {
  irrelevant_results = 3;
  context_mismatches = 1;
  low_belief_results = 3;
  harmful_results = 0;
  stale_results = 0;
}

-- Float arithmetic that never rounds.
instance abbrev pub exact : Rounding
exact = record { plus = λ a b. a + b; minus = λ a b. a - b; sum_of = sum }

-- The first of the two largest counts is raised, at the cost of the heaviest other weight.
abbrev tuned : StrategySnapshot
tuned = record {
  id = 2;
  version = 2;
  weights = record {
    semantic = percent 38;
    context = percent 22;
    belief = percent 20;
    utility = percent 15;
    recency = percent 5;
  };
  min_score = percent 20;
  recency_half_life_days = 180 * one;
  created_at = 9;
  parent_id = some 1;
}

program : Unit {0}
unfolding propose dominant_component largest donors sorted proposal delta_for shifted make_weights
    is_close make_strategy transition make_experiment is_legal run set_of similarity similarity_of
    matching conflicting_keys ratio make_context require_facets require_text facet_leb text_leb
    strip
program = tt

propose-irrelevant : propose default_strategy irrelevant 2 9 ≡ ok (some tuned)
unfolding program
propose-irrelevant = refl

default-IsStrategy : IsStrategy default_strategy
unfolding is_close
default-IsStrategy = record {
  version = omega arith;
  low = λ c. ground arith;
  high = λ c. ground arith;
  close = refl;
  score = omega arith;
  half_life_low = omega arith;
  half_life_high = omega arith;
}

exact-IsRounding : IsRounding exact
exact-IsRounding = record {
  plus-Near = λ a b ha hb. omega arith;
  minus-Near = λ a b le h. omega arith;
  sum-Near = λ xs size small. omega arith;
  plus_high = λ a b h. h;
  minus_low = λ a b le h. omega arith;
  minus_exact = λ a b le twice h. refl;
}

propose-returns_example :
    (propose default_strategy irrelevant 2 9 ≡ ok none)
    ⊎ ((target : Component) × (dominant_component irrelevant ≡ some target)
        × Proposes default_strategy target (propose default_strategy irrelevant 2 9))
propose-returns_example =
    propose-returns exact-IsRounding default_strategy irrelevant 2 9 default-IsStrategy

-- A sum that loses a unit.
abbrev lossy : Rounding
lossy = record { plus = λ a b. a + b - 1; minus = λ a b. a - b; sum_of = sum }

lossy-IsRounding : IsRounding lossy
lossy-IsRounding = record {
  plus-Near = λ a b ha hb. omega arith;
  minus-Near = λ a b le h. omega arith;
  sum-Near = λ xs size small. omega arith;
  plus_high = λ a b h. omega arith;
  minus_low = λ a b le h. omega arith;
  minus_exact = λ a b le twice h. refl;
}

-- Weights whose sum is as far from 1 as it may be.
abbrev at_edge : StrategySnapshot
at_edge = record default_strategy {
  weights = record default_weights { utility = percent 15 - 1000 };
}

at_edge_accepted : make_weights ⦃f = lossy⦄ at_edge.weights ≡ ok at_edge.weights
unfolding program
at_edge_accepted = refl

-- A rounding that loses one unit makes their proposal fail.
propose-at_edge :
    propose ⦃f = lossy⦄ at_edge irrelevant 2 9
    ≡ err (domain_error "retrieval weights must sum to 1")
unfolding program
propose-at_edge = refl

abbrev pub experiment : ExperimentStage → Instant → EvolutionExperiment
experiment stage updated_at = record {
  id = 10;
  baseline_id = 1;
  candidate_id = 2;
  stage = stage;
  created_at = 5;
  updated_at = updated_at;
}

abbrev ascent : List (ExperimentStage × Instant)
ascent =
    (ExperimentStage.offline_passed, 6)
    ∷ (ExperimentStage.shadow, 7)
    ∷ (ExperimentStage.canary, 7)
    ∷ (ExperimentStage.promoted, 9)
    ∷ []

run-ascent :
    run (experiment ExperimentStage.proposed 5) ascent ≡ ok (experiment ExperimentStage.promoted 9)
unfolding program
run-ascent = refl

run-promotion_path_example : targets ascent ≡ promotion_path
run-promotion_path_example =
    run-promotion_path (experiment ExperimentStage.proposed 5)
      (experiment ExperimentStage.promoted 9) ascent refl run-ascent refl

run-bounds_example : (length ascent ≤ 5) × (5 ≤ 9)
run-bounds_example =
    run-bounds ascent (experiment ExperimentStage.proposed 5)
      (experiment ExperimentStage.promoted 9) run-ascent

abbrev pub at_home : ContextSignature
at_home = record { facets = (text "lang", text "en") ∷ (text "place", text "home") ∷ [] }

abbrev at_work : ContextSignature
at_work = record { facets = (text "lang", text "en") ∷ (text "place", text "work") ∷ [] }

make_context_home :
    make_context ((text " place", text "home ") ∷ (text "lang", text "en") ∷ []) ≡ ok at_home
unfolding program
make_context_home = refl

-- One facet of three is shared, and one key conflicts: 1/3 - 0.35 is below 0.
similarity_conflict : similarity at_home at_work ≡ pos 0
unfolding program
similarity_conflict = refl

similarity-bounds_example :
    (v : ℕ) × (similarity at_home at_work ≡ pos v)
    × (v ≤ one)
    × ((v ≡ 0) ⊎ (v + percent 35 * conflicts at_home.facets at_work.facets ≤ one))
similarity-bounds_example = similarity-bounds at_home at_work
