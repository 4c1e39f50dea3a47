-- ===== src/Registry/Advance.antt =====
-- `advance_evolution_experiment` keeps the registry valid, and when it changes the active strategy.
use evolvable_user_memory.Base.{
  ||-false, &&-true, !=-false, ◌≡◌, refl, Bool, true, false, ◌||◌, not, List, [], ◌∷◌, ◌++◌, map,
  nat_eq, list_eq, option_eq, Option, none, some, arith, if◌then◌else◌, ◌==◌, ◌!=◌, Option-cases,
  Bool-cases, inl, inr, sym, ◌∙◌, ap, last, last-append, ◌⊎◌,
}
use evolvable_user_memory.Base.Result.{
  ok, err, key_error, >>=-eq-ok, >>-eq-ok, raise_if->>-eq-ok, raise_if-eq-ok,
}
use evolvable_user_memory.Base.Dict.{get, has}
use evolvable_user_memory.Base.Sort.{contains}
use evolvable_user_memory.Common.{Uuid}
use evolvable_user_memory.Evolution.Strategy.{StrategySnapshot}
use evolvable_user_memory.Evolution.Activation.{StrategyActivation, StrategyActivationKind, kind_eq}
use evolvable_user_memory.Evolution.Experiment.{
  ExperimentStage, stage_eq, stage_beq_iff, EvolutionExperiment, experiment_eq,
  ExperimentTransition, transition, is_legal,
}
use evolvable_user_memory.Evolution.Stages.{transition-Advances}
use evolvable_user_memory.Registry.State.{
  Registry, active_strategy, advance_differs, is_promotion, is_rollback, activation_differs, has_id,
  activation_id, validate_switch, validate_activation, refuse_activation, advanced,
  advance_evolution_experiment,
}
use evolvable_user_memory.Registry.Valid.{grew, IsValid}
use evolvable_user_memory.Registry.Saving.{active_strategy-returns}
use evolvable_user_memory.Registry.Register.{append-IsValid, tracking-IsValid}

-- What a switch of the active strategy has checked.
pub record Switches (promotes : Bool) (current : EvolutionExperiment) (a : StrategyActivation)
    (r : Registry) : Type 0 where
  pub active : StrategySnapshot
  pub is_active : active_strategy r ≡ ok (some active)
  pub from : active.id ≡ (if promotes then current.baseline_id else current.candidate_id)
  pub to : a.strategy_id ≡ (if promotes then current.candidate_id else current.baseline_id)
  pub previous : a.previous_strategy_id ≡ some active.id
  pub stored : has a.strategy_id r.strategies ≡ true

-- What an advance that returns has checked, and what it wrote.
pub record Advanced (current e : EvolutionExperiment) (t : ExperimentTransition)
    (activation : Option StrategyActivation) (r r' : Registry) : Type 0 where
  pub found : get e.id r.experiments ≡ some current
  pub legal : is_legal current.stage e.stage ≡ true
  pub before : t.from_stage ≡ some current.stage
  pub after : t.to_stage ≡ e.stage
  pub same_baseline : e.baseline_id ≡ current.baseline_id
  pub same_candidate : e.candidate_id ≡ current.candidate_id
  pub history : List ExperimentTransition
  pub stored : get e.id r.transitions ≡ some history
  pub validated : validate_activation current e t activation r ≡ ok tt
  pub result : r' ≡ advanced e t activation history r

advance_agrees :
    (current e : EvolutionExperiment) (t : ExperimentTransition) (r : Registry)
    → advance_differs current e t r ≡ false
    → (t.from_stage ≡ some current.stage)
      × (t.to_stage ≡ e.stage)
      × (e.baseline_id ≡ current.baseline_id)
      × (e.candidate_id ≡ current.candidate_id)
advance_agrees current e t r h =
    let (h₁, time) = ||-false _ (t.transitioned_at != e.updated_at) h in
    let (h₂, after) = ||-false _ (t.to_stage != e.stage) h₁ in
    let (h₃, before) = ||-false _ (t.from_stage != some current.stage) h₂ in
    let (h₄, owner) = ||-false _ (t.experiment_id != current.id) h₃ in
    let (h₅, key) = ||-false _ (has t.idempotency_key r.transition_keys) h₄ in
    let (h₆, fresh) = ||-false _ (contains r.transition_ids t.id) h₅ in
    let (h₇, creation) = ||-false _ (e.created_at != current.created_at) h₆ in
    let (baseline, candidate) = ||-false (e.baseline_id != current.baseline_id) _ h₇ in
    (
      !=-false t.from_stage (some current.stage) before,
      !=-false t.to_stage e.stage after,
      !=-false e.baseline_id current.baseline_id baseline,
      !=-false e.candidate_id current.candidate_id candidate,
    )

-- The last step of the method.
written :
    (e : EvolutionExperiment) (t : ExperimentTransition) (activation : Option StrategyActivation)
    (r r' : Registry)
    → (elim (get e.id r.transitions) [
      | none ↦ err (key_error "experiment_id")
      | some history ↦ ok (advanced e t activation history r)
    ]
        ≡ ok r')
    → (history : List ExperimentTransition) × (get e.id r.transitions ≡ some history)
      × (r' ≡ advanced e t activation history r)
written e t activation r r' h = elim (Option-cases (get e.id r.transitions)) [
  | inl absent ↦ cc (rw absent at h)
  | inr (history, found) ↦ (history, found, cc (rw found at h))
]

advance-cases :
    (e : EvolutionExperiment) (t : ExperimentTransition) (activation : Option StrategyActivation)
    (r r' : Registry)
    → advance_evolution_experiment e t activation r ≡ ok r'
    → (current : EvolutionExperiment) × Advanced current e t activation r r'
unfolding advance_evolution_experiment
advance-cases e t activation r r' h = elim (Option-cases (get e.id r.experiments)) [
  | inl absent ↦ cc (rw (absent, advance_evolution_experiment) at h)
  | inr (current, found) ↦
      let (agrees, h₁) =
        raise_if->>-eq-ok (advance_differs current e t r) _ _
          (rw (found, advance_evolution_experiment) at h) in
      let (expected, moved, h₂) = >>=-eq-ok (transition current e.stage t.transitioned_at) _ h₁ in
      let (same, h₃) = raise_if->>-eq-ok (e != expected) _ _ h₂ in
      let (validated, h₄) = >>-eq-ok (validate_activation current e t activation r) _ h₃ in
      let (before, after, baseline, candidate) = advance_agrees current e t r agrees in
      let (history, stored, result) = written e t activation r r' h₄ in
      (
        current,
        record {
          found = found;
          legal = (transition-Advances current e.stage t.transitioned_at expected moved).legal;
          before = before;
          after = after;
          same_baseline = baseline;
          same_candidate = candidate;
          history = history;
          stored = stored;
          validated = validated;
          result = result;
        },
      )
]

has_id-some :
    (active : Option StrategySnapshot) (i : Uuid)
    → not (has_id active i) ≡ false
    → (s : StrategySnapshot) × (active ≡ some s) × (s.id ≡ i)
has_id-some none i h = cc
has_id-some (some s) i h = (s, refl, ground arith)

switch_agrees :
    (kind : StrategyActivationKind) (target previous : Uuid) (active : Option StrategySnapshot)
    (current : EvolutionExperiment) (t : ExperimentTransition) (a : StrategyActivation)
    (r : Registry)
    → activation_differs kind target previous active current t a r ≡ false
    → (s : StrategySnapshot) × (active ≡ some s)
      × (s.id ≡ previous)
      × (a.strategy_id ≡ target)
      × (a.previous_strategy_id ≡ some previous)
      × (has target r.strategies ≡ true)
switch_agrees kind target previous active current t a r h =
    let (h₁, stored) = ||-false _ (not (has target r.strategies)) h in
    let (h₂, is_active) = ||-false _ (not (has_id active previous)) h₁ in
    let (h₃, reason) = ||-false _ (a.reason != t.reason) h₂ in
    let (h₄, time) = ||-false _ (a.activated_at != t.transitioned_at) h₃ in
    let (h₅, owner) = ||-false _ (a.experiment_id != some current.id) h₄ in
    let (h₆, before) = ||-false _ (a.previous_strategy_id != some previous) h₅ in
    let (h₇, names) = ||-false (a.kind != kind) (a.strategy_id != target) h₆ in
    let (s, e, is_previous) = has_id-some active previous is_active in
    (
      s,
      e,
      is_previous,
      !=-false a.strategy_id target names,
      !=-false a.previous_strategy_id (some previous) before,
      ground arith,
    )

switch-Switches :
    (promotes : Bool) (current : EvolutionExperiment) (t : ExperimentTransition)
    (activation : Option StrategyActivation) (r : Registry)
    → validate_switch promotes current t activation r ≡ ok tt
    → (a : StrategyActivation) × (activation ≡ some a) × Switches promotes current a r
unfolding validate_switch
switch-Switches promotes current t none r h = cc
switch-Switches promotes current t (some a) r h =
    let (new, h₁) = raise_if->>-eq-ok (contains (map activation_id r.activations) a.id) _ _ h in
    let (active, read, h₂) = >>=-eq-ok (active_strategy r) _ h₁ in
    let (s, is_some, e, target, before, stored) =
      switch_agrees _ _ _ active current t a r (raise_if-eq-ok _ _ h₂) in
    (
      a,
      refl,
      record {
        active = s;
        is_active = rw is_some at read;
        from = e;
        to = target;
        previous = before ∙ ap some (sym e);
        stored = rw (← target) at stored;
      },
    )

-- The two ways in which an advance passes the validation of its activation.
validated_cases :
    (current e : EvolutionExperiment) (t : ExperimentTransition)
    (activation : Option StrategyActivation) (r : Registry)
    → validate_activation current e t activation r ≡ ok tt
    → ((activation ≡ none) × (is_promotion current e ≡ false) × (is_rollback current e ≡ false))
      ⊎ ((a : StrategyActivation) × (activation ≡ some a)
          × ((is_promotion current e || is_rollback current e) ≡ true)
          × Switches (is_promotion current e) current a r)
unfolding validate_activation
validated_cases current e t activation r h =
    elim (Bool-cases (is_promotion current e || is_rollback current e)) [
      | inl switch ↦
          let (a, some_a, s) =
            switch-Switches (is_promotion current e) current t activation r (rw switch at h) in
          inr (a, some_a, switch, s)
      | inr stays ↦
          let (p, q) = ||-false (is_promotion current e) (is_rollback current e) stays in
          inl (refused activation (rw stays at h), p, q)
    ]
  where
    refused : (o : Option StrategyActivation) → refuse_activation o ≡ ok tt → o ≡ none
    refused none h = refl
    refused (some a) h = cc

-- `advance_evolution_experiment` keeps the registry valid.
pub advance_evolution_experiment-IsValid :
    (e : EvolutionExperiment) (t : ExperimentTransition) (activation : Option StrategyActivation)
    (r r' : Registry)
    → IsValid r
    → advance_evolution_experiment e t activation r ≡ ok r'
    → IsValid r'
unfolding advanced
advance_evolution_experiment-IsValid e t activation r r' valid h =
    let (current, k) = advance-cases e t activation r r' h in
    let old = valid.tracked e.id current k.found in
    let same : old.history ≡ k.history = cc (old.stored, k.stored) in
    let follows =
      grew old.history current.stage t old.follows k.before k.after k.legal
        (ap (λ (l : List ExperimentTransition). l ++ t ∷ []) (sym same)) in
    let base : has e.baseline_id r.strategies ≡ true = rw k.same_baseline old.baseline in
    let cand : has e.candidate_id r.strategies ≡ true = rw k.same_candidate old.candidate in
    elim (validated_cases current e t activation r k.validated) [
      | inl (nothing, p, q) ↦
          rw (k.result, nothing)
            (tracking-IsValid e t (k.history ++ t ∷ []) r valid follows base cand)
      | inr (a, some_a, q, s) ↦
          rw (k.result, some_a)
            (tracking-IsValid e t (k.history ++ t ∷ [])
              (record r { activations = r.activations ++ a ∷ [] })
              (append-IsValid r a valid s.stored) follows base cand)
    ]

-- The id of the active strategy.
abbrev pub active_id : Registry → Option Uuid
active_id r = elim (last r.activations) [ none ↦ none | some a ↦ some a.strategy_id ]

active_id-read :
    (r : Registry) (s : StrategySnapshot)
    → IsValid r
    → active_strategy r ≡ ok (some s)
    → active_id r ≡ some s.id
active_id-read r s valid h = elim (active_strategy-returns r valid) [
  | inl (nothing, fresh) ↦ cc
  | inr (a, x, e, read, found, named) ↦
      let same : x ≡ s = ground arith in
      rw (e, active_id) (ap some (sym named ∙ ap (λ (y : StrategySnapshot). y.id) same))
]

-- An advance that returns changes which strategy is active in two cases only: when the stage goes
-- from canary to promoted, from the experiment's baseline to its candidate, and when it goes from
-- promoted to rolled back, from the candidate back to the baseline. Otherwise the activations stay.
pub advance-active_id :
    (e : EvolutionExperiment) (t : ExperimentTransition) (activation : Option StrategyActivation)
    (r r' : Registry)
    → IsValid r
    → advance_evolution_experiment e t activation r ≡ ok r'
    → (current : EvolutionExperiment) × (get e.id r.experiments ≡ some current)
      × (((current.stage ≡ ExperimentStage.canary)
            × (e.stage ≡ ExperimentStage.promoted)
            × (active_id r ≡ some current.baseline_id)
            × (active_id r' ≡ some current.candidate_id))
          ⊎ (((current.stage ≡ ExperimentStage.promoted)
                × (e.stage ≡ ExperimentStage.rolled_back)
                × (active_id r ≡ some current.candidate_id)
                × (active_id r' ≡ some current.baseline_id))
              ⊎ (r'.activations ≡ r.activations)))
unfolding advanced
advance-active_id e t activation r r' valid h =
    let (current, k) = advance-cases e t activation r r' h in
    (
      current,
      k.found,
      elim (validated_cases current e t activation r k.validated) [
        | inl (nothing, p, q) ↦ inr (inr (rw (k.result, nothing)))
        | inr (a, some_a, switch, s) ↦
            let after : active_id r' ≡ some a.strategy_id =
              rw (k.result, some_a) (rw (last-append r.activations a, active_id)) in
            elim (Bool-cases (is_promotion current e)) [
              | inl up ↦
                  let m : Switches true current a r = rw up at s in
                  let (was, now) = &&-true (current.stage == ExperimentStage.canary) _ up in
                  inl (
                    (stage_beq_iff current.stage ExperimentStage.canary).0 was,
                    (stage_beq_iff e.stage ExperimentStage.promoted).0 now,
                    active_id-read r m.active valid m.is_active ∙ ap some m.from,
                    after ∙ ap some m.to,
                  )
              | inr down ↦
                  let m : Switches false current a r = rw down at s in
                  let back : is_rollback current e ≡ true = ground arith in
                  let (was, now) = &&-true (current.stage == ExperimentStage.promoted) _ back in
                  inr (
                    inl (
                      (stage_beq_iff current.stage ExperimentStage.promoted).0 was,
                      (stage_beq_iff e.stage ExperimentStage.rolled_back).0 now,
                      active_id-read r m.active valid m.is_active ∙ ap some m.from,
                      after ∙ ap some m.to,
                    ))
            ]
      ],
    )
