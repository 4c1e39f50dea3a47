-- ===== src/Evolution/Stages.antt =====
-- The experiment state machine: which histories it admits, and that each is short.
use evolvable_user_memory.Base.{
  ℕ, ◌+◌, ◌≡◌, ◌≤◌, ◌<◌, refl, ◌≢◌, subst, true, List, [], ◌∷◌, arith, length, Bool-cases, inl, inr,
  Option, none, some, if◌then◌else◌, ◌∙◌, ap,
}
use evolvable_user_memory.Base.Result.{Result, ok, ◌>>=◌, >>=-eq-ok}
use evolvable_user_memory.Common.{Instant}
use evolvable_user_memory.Evolution.Experiment.{
  ExperimentStage, is_legal, EvolutionExperiment, make_experiment, transition,
}

-- Several transitions, one after the other; the first failure ends the run.
unfoldable pub run :
    EvolutionExperiment → List (ExperimentStage × Instant) → Result EvolutionExperiment
run e [] = ok e
run e ((target, at) ∷ rest) = do e' ← transition e target at; run e' rest

abbrev pub targets : List (ExperimentStage × Instant) → List ExperimentStage
targets [] = []
targets ((target, at) ∷ rest) = target ∷ targets rest

-- The stages alone.
walk : ExperimentStage → List ExperimentStage → Option ExperimentStage
walk s [] = some s
walk s (t ∷ ts) = let rest = walk t ts in if is_legal s t then rest else none

-- What a transition that returns has checked, and what it keeps.
pub record Advances (e e' : EvolutionExperiment) (target : ExperimentStage) (at : Instant)
    : Type 0 where
  pub legal : is_legal e.stage target ≡ true
  pub stage : e'.stage ≡ target
  pub time : e'.updated_at ≡ at
  pub later : e.updated_at ≤ at
  pub same_id : e'.id ≡ e.id
  pub same_baseline : e'.baseline_id ≡ e.baseline_id
  pub same_candidate : e'.candidate_id ≡ e.candidate_id
  pub same_creation : e'.created_at ≡ e.created_at

pub transition-Advances :
    (e : EvolutionExperiment) (target : ExperimentStage) (at : Instant) (e' : EvolutionExperiment)
    → transition e target at ≡ ok e'
    → Advances e e' target at
unfolding transition make_experiment
transition-Advances e target at e' h = ground arith

run-walk :
    (steps : List (ExperimentStage × Instant)) (e e' : EvolutionExperiment)
    → run e steps ≡ ok e'
    → walk e.stage (targets steps) ≡ some e'.stage
unfolding run walk
run-walk [] e e' h = ground arith
run-walk ((target, at) ∷ rest) e e' h =
    let (next, made, more) = >>=-eq-ok (transition e target at) (λ x. run x rest) h in
    let a = transition-Advances e target at next made in
    rw (a.legal) (rw (← a.stage) (run-walk rest next e' more))

run-updated :
    (steps : List (ExperimentStage × Instant)) (e e' : EvolutionExperiment)
    → run e steps ≡ ok e'
    → e.updated_at ≤ e'.updated_at
unfolding run
run-updated [] e e' h = ground arith
run-updated ((target, at) ∷ rest) e e' h =
    let (next, made, more) = >>=-eq-ok (transition e target at) (λ x. run x rest) h in
    omega (arith, transition-Advances e target at next made, run-updated rest next e' more)

-- How many transitions a stage has before it at most.
abbrev pub height : ExperimentStage → ℕ
height ExperimentStage.proposed = 5
height ExperimentStage.offline_passed = 4
height ExperimentStage.shadow = 3
height ExperimentStage.canary = 2
height ExperimentStage.promoted = 1
height _ = 0

height-le : (s : ExperimentStage) → height s ≤ 5
height-le s = ground arith

length-targets : (steps : List (ExperimentStage × Instant)) → length (targets steps) ≡ length steps
length-targets [] = refl
length-targets (step ∷ steps) = omega (arith, length-targets steps)

pub legal-height : (s t : ExperimentStage) → is_legal s t ≡ true → height t < height s
unfolding is_legal
legal-height s t h = ground arith

walk-length :
    (ts : List ExperimentStage) (s t : ExperimentStage)
    → walk s ts ≡ some t
    → length ts + height t ≤ height s
unfolding walk
walk-length [] s t h = ground arith
walk-length (x ∷ ts) s t h = elim (Bool-cases (is_legal s x)) [
  | inl e ↦ omega (arith, legal-height s x e, walk-length ts x t (rw e at h))
  | inr e ↦ cc (rw e at h)
]

walk_step :
    (s t : ExperimentStage) (ts : List ExperimentStage)
    → walk s (t ∷ ts) ≡ some ExperimentStage.promoted
    → (is_legal s t ≡ true) × (walk t ts ≡ some ExperimentStage.promoted) × (1 ≤ height t)
unfolding walk
walk_step s t ts h = elim (Bool-cases (is_legal s t)) [
  | inl e ↦
      let rest = rw e at h in
      (e, rest, omega (arith, walk-length ts t ExperimentStage.promoted rest))
  | inr e ↦ cc (rw e at h)
]

-- The stage that follows on the way to a promotion.
abbrev pub next_up : ExperimentStage → ExperimentStage
next_up ExperimentStage.proposed = ExperimentStage.offline_passed
next_up ExperimentStage.offline_passed = ExperimentStage.shadow
next_up ExperimentStage.shadow = ExperimentStage.canary
next_up ExperimentStage.canary = ExperimentStage.promoted
next_up s = s

pub legal-next_up : (s t : ExperimentStage) → is_legal s t ≡ true → 1 ≤ height t → t ≡ next_up s
unfolding is_legal
legal-next_up s t h k = ground arith

from_promoted :
    (ts : List ExperimentStage)
    → walk ExperimentStage.promoted ts ≡ some ExperimentStage.promoted
    → ts ≡ []
from_promoted [] h = refl
from_promoted (t ∷ ts) h =
    absurd (omega (arith, walk-length (t ∷ ts) ExperimentStage.promoted ExperimentStage.promoted h))

module _ (s : ExperimentStage) (path : List ExperimentStage) where
  -- One step back on the way to a promotion.
  step_back :
      s ≢ ExperimentStage.promoted
      → ((ts : List ExperimentStage)
          → walk (next_up s) ts ≡ some ExperimentStage.promoted
          → ts ≡ path)
      → (ts : List ExperimentStage) → walk s ts ≡ some ExperimentStage.promoted
      → ts ≡ next_up s ∷ path
  step_back open_yet later [] h = absurd (open_yet (unfold walk in ground arith))
  step_back open_yet later (t ∷ ts) h =
      let (legal, rest, up) = walk_step s t ts h in
      let e : t ≡ next_up s = legal-next_up s t legal up in cc (e, later ts (rw e at rest))

-- The stages between proposal and promotion.
abbrev pub promotion_path : List ExperimentStage
promotion_path =
    ExperimentStage.offline_passed ∷ ExperimentStage.shadow ∷ ExperimentStage.canary
    ∷ ExperimentStage.promoted ∷ []

from_proposed :
    (ts : List ExperimentStage)
    → walk ExperimentStage.proposed ts ≡ some ExperimentStage.promoted
    → ts ≡ promotion_path
from_proposed =
    step_back ExperimentStage.proposed _ (λ p. cc)
      (step_back ExperimentStage.offline_passed _ (λ p. cc)
        (step_back ExperimentStage.shadow _ (λ p. cc)
          (step_back ExperimentStage.canary _ (λ p. cc) from_promoted)))

-- An experiment that starts as a proposal and is promoted in the end has passed offline, shadow and
-- canary in this order, with no other transition.
pub run-promotion_path :
    (e e' : EvolutionExperiment) (steps : List (ExperimentStage × Instant))
    → e.stage ≡ ExperimentStage.proposed
    → run e steps ≡ ok e'
    → e'.stage ≡ ExperimentStage.promoted
    → targets steps ≡ promotion_path
run-promotion_path e e' steps start h end = from_proposed (targets steps) (
    subst (λ s. walk s (targets steps) ≡ some ExperimentStage.promoted) start
      (run-walk steps e e' h ∙ ap some end))

-- Whatever transitions are tried, at most five of them succeed one after the other, and the time of
-- the last update never goes back.
pub run-bounds :
    (steps : List (ExperimentStage × Instant)) (e e' : EvolutionExperiment)
    → run e steps ≡ ok e'
    → (length steps ≤ 5) × (e.updated_at ≤ e'.updated_at)
run-bounds steps e e' h = (
  omega (
    arith,
    length-targets steps,
    walk-length (targets steps) e.stage e'.stage (run-walk steps e e' h),
    height-le e.stage,
  ),
  run-updated steps e e' h,
)
