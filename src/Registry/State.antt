-- ===== src/Registry/State.antt =====
-- adapters/in_memory.py: the strategies, activations and experiments of `InMemoryMemoryStore`, and
-- the methods on them. Each method checks first and writes last, so a failure writes nothing. The
-- lock makes a method one step.
use evolvable_user_memory.Base.{
  ℕ, ◌+◌, Bool, false, ◌&&◌, ◌||◌, not, List, [], ◌∷◌, ◌++◌, map, ◌==◌, ◌!=◌, nat_eq, option_eq,
  list_eq, last, Option, none, some, if◌then◌else◌,
}
use evolvable_user_memory.Base.Result.{
  Result, ok, err, conflict_error, key_error, ◌>>=◌, ◌>>◌, raise_if,
}
use evolvable_user_memory.Base.Dict.{Dict, get, insert, has}
use evolvable_user_memory.Base.Sort.{contains}
use evolvable_user_memory.Base.Text.{Text, strip}
use evolvable_user_memory.Common.{Uuid}
use evolvable_user_memory.Evolution.Strategy.{StrategySnapshot, strategy_eq}
use evolvable_user_memory.Evolution.Activation.{
  StrategyActivation, StrategyActivationKind, bootstrap, promotion, kind_eq,
}
use evolvable_user_memory.Evolution.Experiment.{
  ExperimentStage, stage_eq, EvolutionExperiment, experiment_eq, ExperimentTransition, transition,
}

pub record Registry : Type 0 where
  pub strategies : Dict Uuid StrategySnapshot
  pub activations : List StrategyActivation
  pub experiments : Dict Uuid EvolutionExperiment
  pub transitions : Dict Uuid (List ExperimentTransition)
  pub transition_ids : List Uuid
  pub transition_keys : Dict Text ExperimentTransition

abbrev pub empty : Registry
empty = record {
  strategies = [];
  activations = [];
  experiments = [];
  transitions = [];
  transition_ids = [];
  transition_keys = [];
}

-- `strategy`
unfoldable pub strategy : Uuid → Registry → Option StrategySnapshot
strategy strategy_id r = get strategy_id r.strategies

-- A root has version 1, and any other strategy the version after its parent's.
unfoldable pub check_lineage : Option Uuid → ℕ → Dict Uuid StrategySnapshot → Result (Unit {0})
check_lineage none version strategies =
    raise_if (version != 1) (conflict_error "root strategy version must be 1")
check_lineage (some parent_id) version strategies = elim (get parent_id strategies) [
  | none ↦ err (conflict_error "strategy parent and version are inconsistent")
  | some parent ↦
      raise_if (version != parent.version + 1)
        (conflict_error "strategy parent and version are inconsistent")
]

-- `_save_strategy_unlocked`
unfoldable pub save_strategy : StrategySnapshot → Registry → Result Registry
save_strategy s r = elim (get s.id r.strategies) [
  | some existing ↦
      if existing != s
      then err (conflict_error "strategy id already belongs to a different snapshot")
      else ok r
  | none ↦
      check_lineage s.parent_id s.version r.strategies
      >> ok (record r { strategies = insert s.id s r.strategies })
]

-- `_active_strategy_unlocked`
unfoldable pub active_strategy : Registry → Result (Option StrategySnapshot)
active_strategy r = elim (last r.activations) [
  | none ↦ ok none
  | some activation ↦ elim (get activation.strategy_id r.strategies) [
    | none ↦ err (key_error "strategy_id")
    | some s ↦ ok (some s)
  ]
]

abbrev pub is_bootstrap : StrategySnapshot → StrategyActivation → Bool
is_bootstrap s a =
    a.kind == bootstrap && a.strategy_id == s.id && s.parent_id == none && s.version == 1

-- `ensure_active_strategy`
unfoldable pub ensure_active_strategy :
    StrategySnapshot → StrategyActivation → Registry → Result (StrategySnapshot × Registry)
ensure_active_strategy s a r = do
  active ← active_strategy r
  elim active [
    | some current ↦ ok (current, r)
    | none ↦ do
      raise_if (not (is_bootstrap s a))
          (conflict_error "initial active strategy requires a root bootstrap activation")
      saved ← save_strategy s r
      ok (s, record saved { activations = saved.activations ++ a ∷ [] })
  ]

abbrev pub extends_active :
    Option StrategySnapshot → StrategySnapshot → EvolutionExperiment → Result (Unit {0})
extends_active none candidate e =
    err (conflict_error "experiment baseline is not the active strategy")
extends_active (some active) candidate e = do
  raise_if (active.id != e.baseline_id)
      (conflict_error "experiment baseline is not the active strategy")
  raise_if
      (candidate.id != e.candidate_id
        || candidate.parent_id != some active.id
        || candidate.version != active.version + 1)
      (conflict_error "experiment candidate does not extend the active baseline")

abbrev pub creation_differs : EvolutionExperiment → ExperimentTransition → Registry → Bool
creation_differs e t r =
    e.stage != ExperimentStage.proposed
    || e.created_at != e.updated_at
    || contains r.transition_ids t.id
    || has t.idempotency_key r.transition_keys
    || t.experiment_id != e.id
    || t.from_stage != none
    || t.to_stage != ExperimentStage.proposed
    || t.transitioned_at != e.created_at

-- `register_evolution_experiment`
unfoldable pub register_evolution_experiment :
    StrategySnapshot → EvolutionExperiment → ExperimentTransition → Registry → Result Registry
register_evolution_experiment candidate e t r = do
  active ← active_strategy r
  extends_active active candidate e
  raise_if (has e.id r.experiments) (conflict_error "evolution experiment already exists")
  raise_if (creation_differs e t r) (conflict_error "experiment creation evidence is inconsistent")
  saved ← save_strategy candidate r
  ok (record saved {
    experiments = insert e.id e saved.experiments;
    transitions = insert e.id (t ∷ []) saved.transitions;
    transition_ids = t.id ∷ saved.transition_ids;
    transition_keys = insert t.idempotency_key t saved.transition_keys;
  })

-- `evolution_experiment`
unfoldable pub evolution_experiment : Uuid → Registry → Option EvolutionExperiment
evolution_experiment experiment_id r = get experiment_id r.experiments

-- `dict.get(key, [])`
abbrev pub or_empty {ℓ} : {A : Type ℓ} → Option (List A) → List A
or_empty none = []
or_empty (some l) = l

-- `experiment_transition_history`
unfoldable pub experiment_transition_history : Uuid → Registry → List ExperimentTransition
experiment_transition_history experiment_id r = or_empty (get experiment_id r.transitions)

-- `experiment_transition_by_idempotency`
unfoldable pub experiment_transition_by_idempotency : Text → Registry → Option ExperimentTransition
experiment_transition_by_idempotency key r = get (strip key) r.transition_keys

abbrev pub advance_differs :
    EvolutionExperiment → EvolutionExperiment → ExperimentTransition → Registry → Bool
advance_differs current e t r =
    e.baseline_id != current.baseline_id
    || e.candidate_id != current.candidate_id
    || e.created_at != current.created_at
    || contains r.transition_ids t.id
    || has t.idempotency_key r.transition_keys
    || t.experiment_id != current.id
    || t.from_stage != some current.stage
    || t.to_stage != e.stage
    || t.transitioned_at != e.updated_at

abbrev pub is_promotion : EvolutionExperiment → EvolutionExperiment → Bool
is_promotion current e =
    current.stage == ExperimentStage.canary && e.stage == ExperimentStage.promoted

abbrev pub is_rollback : EvolutionExperiment → EvolutionExperiment → Bool
is_rollback current e =
    current.stage == ExperimentStage.promoted && e.stage == ExperimentStage.rolled_back

abbrev pub has_id : Option StrategySnapshot → Uuid → Bool
has_id none i = false
has_id (some s) i = s.id == i

abbrev pub activation_differs :
    StrategyActivationKind
    → (target previous : Uuid) → Option StrategySnapshot
    → EvolutionExperiment
    → ExperimentTransition
    → StrategyActivation
    → Registry
    → Bool
activation_differs kind target previous active current t a r =
    a.kind != kind
    || a.strategy_id != target
    || a.previous_strategy_id != some previous
    || a.experiment_id != some current.id
    || a.activated_at != t.transitioned_at
    || a.reason != t.reason
    || not (has_id active previous)
    || not (has target r.strategies)

abbrev pub activation_id : StrategyActivation → Uuid
activation_id a = a.id

-- The part of `_validate_activation_unlocked` for a promotion or a rollback.
unfoldable pub validate_switch :
    Bool
    → EvolutionExperiment
    → ExperimentTransition
    → Option StrategyActivation
    → Registry
    → Result (Unit {0})
validate_switch promotes current t none r =
    err (conflict_error "strategy activation evidence is missing or duplicated")
validate_switch promotes current t (some a) r = do
  raise_if (contains (map activation_id r.activations) a.id)
      (conflict_error "strategy activation evidence is missing or duplicated")
  active ← active_strategy r
  raise_if
      (activation_differs (if promotes then promotion else StrategyActivationKind.rollback)
        (if promotes then current.candidate_id else current.baseline_id)
        (if promotes then current.baseline_id else current.candidate_id) active current t a r)
      (conflict_error "strategy activation does not match experiment state")

abbrev pub refuse_activation : Option StrategyActivation → Result (Unit {0})
refuse_activation none = ok tt
refuse_activation (some a) =
    err (conflict_error "this experiment transition cannot activate a strategy")

-- `_validate_activation_unlocked`
unfoldable pub validate_activation :
    EvolutionExperiment
    → EvolutionExperiment
    → ExperimentTransition
    → Option StrategyActivation
    → Registry
    → Result (Unit {0})
validate_activation current e t activation r =
    if is_promotion current e || is_rollback current e
    then validate_switch (is_promotion current e) current t activation r
    else refuse_activation activation

abbrev pub appended : Option StrategyActivation → List StrategyActivation → List StrategyActivation
appended none activations = activations
appended (some a) activations = activations ++ a ∷ []

-- The writes of `advance_evolution_experiment`.
unfoldable pub advanced :
    EvolutionExperiment
    → ExperimentTransition
    → Option StrategyActivation
    → List ExperimentTransition
    → Registry
    → Registry
advanced e t activation history r = record r {
  activations = appended activation r.activations;
  experiments = insert e.id e r.experiments;
  transitions = insert e.id (history ++ t ∷ []) r.transitions;
  transition_ids = t.id ∷ r.transition_ids;
  transition_keys = insert t.idempotency_key t r.transition_keys;
}

-- `advance_evolution_experiment`; a stored experiment has a history, and a missing one is a KeyError.
unfoldable pub advance_evolution_experiment :
    EvolutionExperiment
    → ExperimentTransition
    → Option StrategyActivation
    → Registry
    → Result Registry
advance_evolution_experiment e t activation r = elim (get e.id r.experiments) [
  | none ↦ err (conflict_error "evolution experiment does not exist")
  | some current ↦ do
    raise_if (advance_differs current e t r)
        (conflict_error "experiment transition evidence is inconsistent")
    expected ← transition current e.stage t.transitioned_at
    raise_if (e != expected) (conflict_error "experiment transition does not match current state")
    validate_activation current e t activation r
    elim (get e.id r.transitions) [
      | none ↦ err (key_error "experiment_id")
      | some history ↦ ok (advanced e t activation history r)
    ]
]
