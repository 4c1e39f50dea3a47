-- ===== src/Registry/Register.antt =====
-- Bootstrapping and registering an experiment keep the registry valid.
use evolvable_user_memory.Base.{
  ◌≡◌, refl, true, false, not, List, [], ◌∷◌, ◌++◌, nat_eq, list_eq, option_eq, Option, none, some,
  arith, ◌==◌, ==_iff, Bool-cases, inl, inr, sym, All-append, subst, ◌∙◌, ap,
}
use evolvable_user_memory.Base.Result.{ok, >>=-eq-ok, >>-eq-ok, raise_if->>-eq-ok}
use evolvable_user_memory.Base.Dict.{get, insert, has, get-insert, get→has}
use evolvable_user_memory.Common.{Uuid}
use evolvable_user_memory.Evolution.Strategy.{StrategySnapshot}
use evolvable_user_memory.Evolution.Activation.{StrategyActivation}
use evolvable_user_memory.Evolution.Experiment.{
  ExperimentStage, stage_eq, stage_beq_iff, EvolutionExperiment, ExperimentTransition,
}
use evolvable_user_memory.Registry.State.{
  Registry, save_strategy, active_strategy, ensure_active_strategy, is_bootstrap, extends_active,
  creation_differs, register_evolution_experiment,
}
use evolvable_user_memory.Registry.Valid.{Follows, created, IsTracked, IsStored, IsValid}
use evolvable_user_memory.Registry.Saving.{
  Saves, save_strategy-Saves, save_strategy-IsValid, active_strategy-returns, has-old,
}

-- A registry with one more activation, of a stored strategy.
pub append-IsValid :
    (r : Registry) (a : StrategyActivation)
    → IsValid r
    → has a.strategy_id r.strategies ≡ true
    → IsValid (record r { activations = r.activations ++ a ∷ [] })
append-IsValid r a valid stored = record {
  named = valid.named;
  descends = valid.descends;
  active = All-append (IsStored r.strategies) r.activations (a ∷ []) valid.active (stored, tt);
  tracked = λ i e found.
      let t = valid.tracked i e found in
      record {
        named = t.named;
        baseline = t.baseline;
        candidate = t.candidate;
        history = t.history;
        stored = t.stored;
        follows = t.follows;
      };
}

saved-has : (s : StrategySnapshot) (r r' : Registry) → Saves s r r' → has s.id r'.strategies ≡ true
saved-has s r r' saves =
    get→has s.id r'.strategies s (ground (arith, saves.strategies s.id, ==_iff s.id s.id))

bootstrapped :
    (s : StrategySnapshot) (a : StrategyActivation) (r : Registry) {x : StrategySnapshot}
    {r' : Registry}
    → active_strategy r ≡ ok none
    → ensure_active_strategy s a r ≡ ok (x, r')
    → (saved : Registry) × (is_bootstrap s a ≡ true)
      × (save_strategy s r ≡ ok saved)
      × (r' ≡ record saved { activations = saved.activations ++ a ∷ [] })
      × (x ≡ s)
unfolding ensure_active_strategy
bootstrapped s a r fresh h =
    let (test, rest) = raise_if->>-eq-ok (not (is_bootstrap s a)) _ _ (rw fresh at h) in
    let (saved, made, done) = >>=-eq-ok (save_strategy s r) _ rest in
    (saved, ground arith, made, ground arith, ground arith)

already_active :
    (s : StrategySnapshot) (a : StrategyActivation) (r : Registry) {x current : StrategySnapshot}
    {r' : Registry}
    → active_strategy r ≡ ok (some current)
    → ensure_active_strategy s a r ≡ ok (x, r')
    → r' ≡ r
unfolding ensure_active_strategy
already_active s a r {current = current} active h = ground (arith, rw active at h)

-- `ensure_active_strategy` keeps the registry valid.
pub ensure_active_strategy-IsValid :
    (s x : StrategySnapshot) (a : StrategyActivation) (r r' : Registry)
    → IsValid r
    → ensure_active_strategy s a r ≡ ok (x, r')
    → IsValid r'
ensure_active_strategy-IsValid s x a r r' valid h = elim (active_strategy-returns r valid) [
  | inl (nothing, fresh) ↦
      let (saved, boot, made, e, same) = bootstrapped s a r fresh h in
      let kept = save_strategy-IsValid s r saved valid made in
      let names : s.id ≡ a.strategy_id = ground arith in
      let stored = saved-has s r saved (save_strategy-Saves s r saved made) in
      rw e (append-IsValid saved a kept (subst (λ i. has i saved.strategies ≡ true) names stored))
  | inr (b, current, e, active, found, named) ↦ rw (already_active s a r active h) valid
]

-- The writes that register or advance an experiment.
abbrev pub tracking :
    EvolutionExperiment → ExperimentTransition → List ExperimentTransition → Registry → Registry
tracking e t history r = record r {
  experiments = insert e.id e r.experiments;
  transitions = insert e.id history r.transitions;
  transition_ids = t.id ∷ r.transition_ids;
  transition_keys = insert t.idempotency_key t r.transition_keys;
}

module _ (e : EvolutionExperiment) (t : ExperimentTransition) (history : List ExperimentTransition)
    (r : Registry) (valid : IsValid r) (follows : Follows history e.stage)
    (baseline : has e.baseline_id r.strategies ≡ true)
    (candidate : has e.candidate_id r.strategies ≡ true) where
  new-IsTracked : IsTracked (tracking e t history r) e.id e
  new-IsTracked = record {
    named = refl;
    baseline = baseline;
    candidate = candidate;
    history = history;
    stored = rw get-insert (ground (arith, ==_iff e.id e.id));
    follows = follows;
  }

  old-IsTracked :
      (i : Uuid) (x : EvolutionExperiment)
      → (e.id == i) ≡ false
      → IsTracked r i x
      → IsTracked (tracking e t history r) i x
  old-IsTracked i x other k = record {
    named = k.named;
    baseline = k.baseline;
    candidate = k.candidate;
    history = k.history;
    stored = rw get-insert (rw other k.stored);
    follows = k.follows;
  }

  pub tracking-IsValid : IsValid (tracking e t history r)
  tracking-IsValid = record {
    named = valid.named;
    descends = valid.descends;
    active = valid.active;
    tracked = λ i x found. elim (Bool-cases (e.id == i)) [
      | inl same ↦
          let p : e.id ≡ i = (==_iff e.id i).0 same in
          let q : e ≡ x = ground (arith, rw (get-insert e.id i e r.experiments) at found) in
          subst (λ j. IsTracked (tracking e t history r) j x) p
            (subst (λ y. IsTracked (tracking e t history r) e.id y) q new-IsTracked)
      | inr other ↦
          old-IsTracked i x other
            (valid.tracked i x (ground (arith, rw (get-insert e.id i e r.experiments) at found)))
    ];
  }

record Registers (candidate : StrategySnapshot) (e : EvolutionExperiment) (t : ExperimentTransition)
    (r r' : Registry) : Type 0 where
  active : StrategySnapshot
  is_active : active_strategy r ≡ ok (some active)
  baseline : active.id ≡ e.baseline_id
  named : candidate.id ≡ e.candidate_id
  saved : Registry
  saves : save_strategy candidate r ≡ ok saved
  proposal : e.stage ≡ ExperimentStage.proposed
  creation : t.from_stage ≡ none
  target : t.to_stage ≡ ExperimentStage.proposed
  result : r' ≡ tracking e t (t ∷ []) saved

extends_active-eq-ok :
    (active : Option StrategySnapshot) (candidate : StrategySnapshot) (e : EvolutionExperiment)
    → extends_active active candidate e ≡ ok tt
    → (a : StrategySnapshot) × (active ≡ some a)
      × (a.id ≡ e.baseline_id)
      × (candidate.id ≡ e.candidate_id)
extends_active-eq-ok none candidate e h = cc
extends_active-eq-ok (some a) candidate e h = (a, refl, ground arith, ground arith)

creation_agrees :
    (e : EvolutionExperiment) (t : ExperimentTransition) (r : Registry)
    → creation_differs e t r ≡ false
    → (e.stage ≡ ExperimentStage.proposed)
      × (t.from_stage ≡ none)
      × (t.to_stage ≡ ExperimentStage.proposed)
creation_agrees e t r h = ground (
  arith,
  stage_beq_iff e.stage ExperimentStage.proposed,
  stage_beq_iff t.to_stage ExperimentStage.proposed,
  ==_iff t.from_stage none,
)

register-Registers :
    (candidate : StrategySnapshot) (e : EvolutionExperiment) (t : ExperimentTransition)
    (r r' : Registry)
    → register_evolution_experiment candidate e t r ≡ ok r'
    → Registers candidate e t r r'
unfolding register_evolution_experiment
register-Registers candidate e t r r' h =
    let (active, read, h₁) = >>=-eq-ok (active_strategy r) _ h in
    let (extends, h₂) = >>-eq-ok (extends_active active candidate e) _ h₁ in
    let (new, h₃) = raise_if->>-eq-ok (has e.id r.experiments) _ _ h₂ in
    let (agrees, h₄) = raise_if->>-eq-ok (creation_differs e t r) _ _ h₃ in
    let (saved, saves, done) = >>=-eq-ok (save_strategy candidate r) _ h₄ in
    let (a, some_active, baseline, named) = extends_active-eq-ok active candidate e extends in
    let (proposal, creation, target) = creation_agrees e t r agrees in
    record {
      active = a;
      is_active = rw some_active at read;
      baseline = baseline;
      named = named;
      saved = saved;
      saves = saves;
      proposal = proposal;
      creation = creation;
      target = target;
      result = ground arith;
    }

-- The strategy that is active is stored under its id.
pub active-has :
    (r : Registry) (s : StrategySnapshot)
    → IsValid r
    → active_strategy r ≡ ok (some s)
    → has s.id r.strategies ≡ true
active-has r s valid h = elim (active_strategy-returns r valid) [
  | inl (nothing, fresh) ↦ cc
  | inr (a, x, e, read, found, named) ↦
      let same : x ≡ s = ground arith in
      get→has s.id r.strategies x (
        subst (λ i. get i r.strategies ≡ some x)
          (sym named ∙ ap (λ (y : StrategySnapshot). y.id) same) found)
]

-- `register_evolution_experiment` keeps the registry valid.
pub register_evolution_experiment-IsValid :
    (candidate : StrategySnapshot) (e : EvolutionExperiment) (t : ExperimentTransition)
    (r r' : Registry)
    → IsValid r
    → register_evolution_experiment candidate e t r ≡ ok r'
    → IsValid r'
register_evolution_experiment-IsValid candidate e t r r' valid h =
    let k = register-Registers candidate e t r r' h in
    let saves = save_strategy-Saves candidate r k.saved k.saves in
    let base = rw k.baseline at (active-has r k.active valid k.is_active) in
    rw k.result (
      tracking-IsValid e t (t ∷ []) k.saved
        (save_strategy-IsValid candidate r k.saved valid k.saves)
        (created t k.creation (k.target ∙ sym k.proposal) k.proposal refl)
        (has-old r.strategies k.saved.strategies e.baseline_id saves.old base)
        (rw k.named at (saved-has candidate r k.saved saves)))
