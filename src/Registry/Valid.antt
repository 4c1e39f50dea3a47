-- ===== src/Registry/Valid.antt =====
-- The invariant of the strategy registry.
use evolvable_user_memory.Base.{
  ℕ, ◌+◌, ◌≤◌, ◌≡◌, true, List, [], ◌∷◌, ◌++◌, map, nat_eq, list_eq, All, none, some, arith, ap,
}
use mathlib.Core.List.{map-append}
use evolvable_user_memory.Base.Dict.{Dict, get, has}
use evolvable_user_memory.Common.{Uuid}
use evolvable_user_memory.Evolution.Strategy.{StrategySnapshot}
use evolvable_user_memory.Evolution.Activation.{StrategyActivation}
use evolvable_user_memory.Evolution.Experiment.{
  ExperimentStage, is_legal, EvolutionExperiment, ExperimentTransition,
}
use evolvable_user_memory.Evolution.Stages.{height, legal-height, legal-next_up, next_up}
use evolvable_user_memory.Registry.State.{Registry, empty}

-- Strategy `i` is stored and `n - 1` parents lead from it to a root.
pub data Descends (strategies : Dict Uuid StrategySnapshot) : Uuid → ℕ → Type 0 where
  root :
      {i : Uuid} {n : ℕ} (s : StrategySnapshot)
      → get i strategies ≡ some s
      → s.parent_id ≡ none
      → n ≡ 1
      → Descends strategies i n
  child :
      {i : Uuid} {n : ℕ} (s : StrategySnapshot) (p : Uuid) (m : ℕ)
      → get i strategies ≡ some s
      → s.parent_id ≡ some p
      → Descends strategies p m
      → n ≡ m + 1
      → Descends strategies i n

-- A history of legal transitions from the creation of an experiment to its stage.
pub data Follows : List ExperimentTransition → ExperimentStage → Type 0 where
  created :
      {history : List ExperimentTransition} {stage : ExperimentStage} (t : ExperimentTransition)
      → t.from_stage ≡ none
      → t.to_stage ≡ stage
      → stage ≡ ExperimentStage.proposed
      → history ≡ t ∷ []
      → Follows history stage
  grew :
      {history : List ExperimentTransition} {stage : ExperimentStage}
      (earlier : List ExperimentTransition) (s : ExperimentStage) (t : ExperimentTransition)
      → Follows earlier s
      → t.from_stage ≡ some s
      → t.to_stage ≡ stage
      → is_legal s stage ≡ true
      → history ≡ earlier ++ t ∷ []
      → Follows history stage

pub record IsTracked (r : Registry) (i : Uuid) (e : EvolutionExperiment) : Type 0 where
  pub named : e.id ≡ i
  pub baseline : has e.baseline_id r.strategies ≡ true
  pub candidate : has e.candidate_id r.strategies ≡ true
  pub history : List ExperimentTransition
  pub stored : get i r.transitions ≡ some history
  pub follows : Follows history e.stage

abbrev pub IsStored : Dict Uuid StrategySnapshot → StrategyActivation → Type 0
IsStored strategies a = has a.strategy_id strategies ≡ true

pub record IsValid (r : Registry) : Type 0 where
  pub named : (i : Uuid) (s : StrategySnapshot) → get i r.strategies ≡ some s → s.id ≡ i
  pub descends :
      (i : Uuid) (s : StrategySnapshot)
      → get i r.strategies ≡ some s
      → Descends r.strategies i s.version
  pub active : All (IsStored r.strategies) r.activations
  pub tracked :
      (i : Uuid) (e : EvolutionExperiment) → get i r.experiments ≡ some e → IsTracked r i e

pub IsValid-empty : IsValid empty
unfolding get
IsValid-empty = record {
  named = λ i s h. cc;
  descends = λ i s h. cc;
  active = tt;
  tracked = λ i e h. cc;
}

abbrev pub stage_of : ExperimentTransition → ExperimentStage
stage_of t = t.to_stage

-- The stages up to one that is on the way to a promotion.
abbrev pub path_to : ExperimentStage → List ExperimentStage
path_to ExperimentStage.proposed = ExperimentStage.proposed ∷ []
path_to ExperimentStage.offline_passed =
    ExperimentStage.proposed ∷ ExperimentStage.offline_passed ∷ []
path_to ExperimentStage.shadow =
    ExperimentStage.proposed ∷ ExperimentStage.offline_passed ∷ ExperimentStage.shadow ∷ []
path_to ExperimentStage.canary =
    ExperimentStage.proposed ∷ ExperimentStage.offline_passed ∷ ExperimentStage.shadow
    ∷ ExperimentStage.canary ∷ []
path_to _ =
    ExperimentStage.proposed ∷ ExperimentStage.offline_passed ∷ ExperimentStage.shadow
    ∷ ExperimentStage.canary ∷ ExperimentStage.promoted ∷ []

path_to-next_up :
    (s : ExperimentStage) → 2 ≤ height s → path_to s ++ next_up s ∷ [] ≡ path_to (next_up s)
path_to-next_up s h = ground arith

-- The history of an experiment that can still be promoted, or is, holds the stages up to its own.
pub Follows-path_to :
    {history : List ExperimentTransition} {stage : ExperimentStage}
    → Follows history stage
    → 1 ≤ height stage
    → map stage_of history ≡ path_to stage
Follows-path_to (created t from to start all) up = rw all (cc (ap path_to start))
Follows-path_to {stage = stage} (grew earlier s t before from to legal all) up =
    let e : stage ≡ next_up s = legal-next_up s stage legal up in
    let more = Follows-path_to before (omega (arith, legal-height s stage legal)) in
    rw all (
      cc (
        map-append stage_of earlier (t ∷ []),
        more,
        path_to-next_up s (omega (arith, legal-height s stage legal)),
        ap path_to e,
      ))
