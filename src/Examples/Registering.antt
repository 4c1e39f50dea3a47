-- ===== src/Examples/Registering.antt =====
-- A registry from its bootstrap to the promotion of a candidate.
use evolvable_user_memory.Base.{
  ◌≡◌, ◌⊎◌, refl, Option, none, some, [], ◌∷◌, arith, nat_eq, map, last,
}
use evolvable_user_memory.Base.Result.{ok}
use evolvable_user_memory.Base.Dict.{get, insert}
use evolvable_user_memory.Base.Text.{Text, text}
use evolvable_user_memory.Common.{Uuid, Instant}
use evolvable_user_memory.Evolution.Strategy.{StrategySnapshot}
use evolvable_user_memory.Evolution.Activation.{StrategyActivation, bootstrap, promotion}
use evolvable_user_memory.Evolution.Experiment.{
  ExperimentStage, EvolutionExperiment, ExperimentTransition, transition, make_experiment, is_legal,
}
use evolvable_user_memory.Registry.State.{
  Registry, empty, check_lineage, save_strategy, active_strategy, ensure_active_strategy,
  register_evolution_experiment, advanced, advance_evolution_experiment, validate_activation,
  validate_switch, experiment_transition_history,
}
use evolvable_user_memory.Registry.Valid.{IsValid, IsValid-empty, stage_of, path_to}
use evolvable_user_memory.Registry.Saving.{save_strategy-IsValid, active_strategy-returns}
use evolvable_user_memory.Registry.Register.{
  ensure_active_strategy-IsValid, register_evolution_experiment-IsValid,
}
use evolvable_user_memory.Registry.Advance.{
  advance_evolution_experiment-IsValid, active_id, advance-active_id,
}
use evolvable_user_memory.Registry.Active.{experiment_transition_history-path_to}
use evolvable_user_memory.Examples.Evolving.{default_strategy, experiment}

abbrev candidate : StrategySnapshot
candidate = record default_strategy { id = 2; version = 2; parent_id = some 1 }

abbrev pub boot : StrategyActivation
boot = record {
  id = 50;
  strategy_id = 1;
  kind = bootstrap;
  activated_at = 5;
  reason = text "initial default strategy";
  previous_strategy_id = none;
  experiment_id = none;
}

abbrev evidence :
    Uuid → Option ExperimentStage → ExperimentStage → Instant → Text → ExperimentTransition
evidence id from to at key = record {
  id = id;
  experiment_id = 10;
  to_stage = to;
  transitioned_at = at;
  reason = text "gate";
  evidence_ref = text "run-1";
  idempotency_key = key;
  request_fingerprint = [];
  from_stage = from;
}

abbrev to_proposed : ExperimentTransition
to_proposed = evidence 100 none ExperimentStage.proposed 5 (text "k0")

abbrev to_offline : ExperimentTransition
to_offline =
    evidence 101 (some ExperimentStage.proposed) ExperimentStage.offline_passed 6 (text "k1")

abbrev to_shadow : ExperimentTransition
to_shadow = evidence 102 (some ExperimentStage.offline_passed) ExperimentStage.shadow 7 (text "k2")

abbrev to_canary : ExperimentTransition
to_canary = evidence 103 (some ExperimentStage.shadow) ExperimentStage.canary 8 (text "k3")

abbrev to_promoted : ExperimentTransition
to_promoted = evidence 104 (some ExperimentStage.canary) ExperimentStage.promoted 9 (text "k4")

abbrev promote : StrategyActivation
promote = record {
  id = 51;
  strategy_id = 2;
  kind = promotion;
  activated_at = 9;
  reason = text "gate";
  previous_strategy_id = some 1;
  experiment_id = some 10;
}

abbrev pub booted : Registry
booted = record empty { strategies = (1, default_strategy) ∷ []; activations = boot ∷ [] }

abbrev proposed : Registry
proposed = record booted {
  strategies = (1, default_strategy) ∷ (2, candidate) ∷ [];
  experiments = (10, experiment ExperimentStage.proposed 5) ∷ [];
  transitions = (10, to_proposed ∷ []) ∷ [];
  transition_ids = 100 ∷ [];
  transition_keys = (text "k0", to_proposed) ∷ [];
}

abbrev offline : Registry
offline =
    advanced (experiment ExperimentStage.offline_passed 6) to_offline none (to_proposed ∷ [])
      proposed

abbrev shadow : Registry
shadow =
    advanced (experiment ExperimentStage.shadow 7) to_shadow none (to_proposed ∷ to_offline ∷ [])
      offline

abbrev pub canary : Registry
canary =
    advanced (experiment ExperimentStage.canary 8) to_canary none
      (to_proposed ∷ to_offline ∷ to_shadow ∷ []) shadow

abbrev promoted : Registry
promoted =
    advanced (experiment ExperimentStage.promoted 9) to_promoted (some promote)
      (to_proposed ∷ to_offline ∷ to_shadow ∷ to_canary ∷ []) canary

program : Unit {0}
unfolding get insert check_lineage save_strategy active_strategy ensure_active_strategy
    register_evolution_experiment advanced advance_evolution_experiment validate_activation
    validate_switch transition make_experiment is_legal
program = tt

ensure_active_strategy-IsValid_example : IsValid booted
unfolding program
ensure_active_strategy-IsValid_example =
    ensure_active_strategy-IsValid default_strategy default_strategy boot empty booted IsValid-empty
      refl

booted-IsValid : IsValid booted
unfolding program
booted-IsValid =
    ensure_active_strategy-IsValid default_strategy default_strategy boot empty booted IsValid-empty
      refl

save_strategy-IsValid_example :
    IsValid (record booted { strategies = (1, default_strategy) ∷ (2, candidate) ∷ [] })
unfolding program
save_strategy-IsValid_example = save_strategy-IsValid candidate booted _ booted-IsValid refl

active_strategy-returns_example :
    ((last booted.activations ≡ none) × (active_strategy booted ≡ ok none))
    ⊎ ((a : StrategyActivation) × (s : StrategySnapshot) × (last booted.activations ≡ some a)
        × (active_strategy booted ≡ ok (some s))
        × (get a.strategy_id booted.strategies ≡ some s)
        × (s.id ≡ a.strategy_id))
active_strategy-returns_example = active_strategy-returns booted booted-IsValid

proposed-IsValid : IsValid proposed
unfolding program
proposed-IsValid =
    register_evolution_experiment-IsValid candidate (experiment ExperimentStage.proposed 5)
      to_proposed booted proposed booted-IsValid refl

register_evolution_experiment-IsValid_example : IsValid proposed
unfolding program
register_evolution_experiment-IsValid_example =
    register_evolution_experiment-IsValid candidate (experiment ExperimentStage.proposed 5)
      to_proposed booted proposed booted-IsValid refl

offline-IsValid : IsValid offline
unfolding program
offline-IsValid =
    advance_evolution_experiment-IsValid (experiment ExperimentStage.offline_passed 6) to_offline
      none proposed offline proposed-IsValid refl

shadow-IsValid : IsValid shadow
unfolding program
shadow-IsValid =
    advance_evolution_experiment-IsValid (experiment ExperimentStage.shadow 7) to_shadow none
      offline shadow offline-IsValid refl

pub canary-IsValid : IsValid canary
unfolding program
canary-IsValid =
    advance_evolution_experiment-IsValid (experiment ExperimentStage.canary 8) to_canary none shadow
      canary shadow-IsValid refl

promotion_accepted :
    advance_evolution_experiment
      (experiment ExperimentStage.promoted 9)
      to_promoted
      (some promote)
      canary
    ≡ ok promoted
unfolding program
promotion_accepted = refl

advance_evolution_experiment-IsValid_example : IsValid promoted
advance_evolution_experiment-IsValid_example =
    advance_evolution_experiment-IsValid (experiment ExperimentStage.promoted 9) to_promoted
      (some promote) canary promoted canary-IsValid promotion_accepted

advance-active_id_example :
    (current : EvolutionExperiment) × (get 10 canary.experiments ≡ some current)
    × (((current.stage ≡ ExperimentStage.canary)
          × (ExperimentStage.promoted ≡ ExperimentStage.promoted)
          × (active_id canary ≡ some current.baseline_id)
          × (active_id promoted ≡ some current.candidate_id))
        ⊎ (((current.stage ≡ ExperimentStage.promoted)
              × (ExperimentStage.promoted ≡ ExperimentStage.rolled_back)
              × (active_id canary ≡ some current.candidate_id)
              × (active_id promoted ≡ some current.baseline_id))
            ⊎ (promoted.activations ≡ canary.activations)))
advance-active_id_example =
    advance-active_id (experiment ExperimentStage.promoted 9) to_promoted (some promote) canary
      promoted canary-IsValid promotion_accepted

experiment_transition_history-path_to_example :
    map stage_of (experiment_transition_history 10 promoted) ≡ path_to ExperimentStage.promoted
unfolding program
experiment_transition_history-path_to_example =
    experiment_transition_history-path_to promoted 10 (experiment ExperimentStage.promoted 9)
      advance_evolution_experiment-IsValid_example refl (omega arith)
