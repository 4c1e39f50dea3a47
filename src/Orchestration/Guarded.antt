-- ===== src/Orchestration/Guarded.antt =====
-- `EvolutionApplication` keeps the registry valid, and the active strategy changes only by a receipt.
use evolvable_user_memory.Base.{
  ◌≡◌, ◌⊎◌, refl, true, false, not, ◌||◌, ◌&&◌, ◌==◌, ◌!=◌, nat_eq, list_eq, option_eq, Option,
  none, some, inl, inr, ap, sym, ◌∙◌, !=-false, ||-false, arith, ltb,
}
use evolvable_user_memory.Base.Result.{
  Result, ok, err, Error, domain_error, not_found_error, conflict_error, attribution_error,
  value_error, key_error, processing_denied_error, governance_unavailable_error, other_error,
  >>=-eq-ok, >>-eq-ok, raise_if->>-eq-ok, raise_if-eq-ok, ok-injective,
}
use evolvable_user_memory.Base.Dict.{get}
use evolvable_user_memory.Base.Text.{Text}
use evolvable_user_memory.Common.{Uuid, Instant, Hmac, require_text}
use evolvable_user_memory.Evolution.Strategy.{Rounding, StrategySnapshot, FailureDiagnosis}
use evolvable_user_memory.Evolution.Proposal.{propose}
use evolvable_user_memory.Evolution.Experiment.{
  ExperimentStage, stage_eq, is_legal, GateDecision, GateReceipt, EvolutionExperiment,
  make_experiment, transition, ExperimentTransition, make_transition,
}
use evolvable_user_memory.Evolution.Activation.{StrategyActivation}
use evolvable_user_memory.Registry.State.{
  Registry, active_strategy, register_evolution_experiment, evolution_experiment,
  experiment_transition_by_idempotency, advance_evolution_experiment,
}
use evolvable_user_memory.Registry.Valid.{IsValid}
use evolvable_user_memory.Registry.Register.{register_evolution_experiment-IsValid}
use evolvable_user_memory.Registry.Advance.{
  advance_evolution_experiment-IsValid, active_id, advance-active_id,
}
use evolvable_user_memory.Gate.{Formatting, Keys, verify}
use evolvable_user_memory.Gate.Verified.{IsAuthentic, verify_iff}
use evolvable_user_memory.Orchestration.{
  Fingerprints, EvolutionProposal, EvolutionTransitionResult, required, replayed_proposal,
  replayed_advance, or_concurrent, Ids, register_proposal, propose_candidate, propose_new,
  propose_keyed, propose_experiment, expected_decision, is_pass, decision_is,
  require_matching_gate_receipt, activation_for, advance_new, advance_keyed, advance_experiment,
}

required-eq-ok {ℓ} :
    {A : Type ℓ} (o : Option A) (e : Error) (x : A) → required o e ≡ ok x → o ≡ some x
required-eq-ok none e x h = cc
required-eq-ok (some y) e x h = ap some (ok-injective h)

-- A guarded write either took place, or the answer is that of a concurrent call and nothing changed.
or_concurrent-cases {ℓ} :
    {A : Type ℓ} (written : Result Registry) (answer : Registry → A)
    (concurrent : Option ExperimentTransition) (replay : ExperimentTransition → Result A)
    (r r' : Registry) (x : A)
    → or_concurrent written answer concurrent replay r ≡ ok (x, r')
    → (r' ≡ r) ⊎ ((written ≡ ok r') × (x ≡ answer r'))
or_concurrent-cases {A = A} (ok w) answer concurrent replay r r' x h =
    let e = ok-injective h in
    let same = ap (λ (p : A × Registry). p.1) e in
    inr (ap ok same, sym (ap (λ (p : A × Registry). p.0) e) ∙ ap answer same)
or_concurrent-cases (err (conflict_error m)) answer none replay r r' x h = cc
or_concurrent-cases {A = A} (err (conflict_error m)) answer (some t) replay r r' x h =
    let (y, e, k) = >>=-eq-ok (replay t) (λ z. ok (z, r)) h in
    inl (sym (ap (λ (p : A × Registry). p.1) (ok-injective k)))
or_concurrent-cases (err (domain_error m)) answer concurrent replay r r' x h = cc
or_concurrent-cases (err (not_found_error m)) answer concurrent replay r r' x h = cc
or_concurrent-cases (err (attribution_error m)) answer concurrent replay r r' x h = cc
or_concurrent-cases (err (value_error m)) answer concurrent replay r r' x h = cc
or_concurrent-cases (err (key_error m)) answer concurrent replay r r' x h = cc
or_concurrent-cases (err (processing_denied_error m)) answer concurrent replay r r' x h = cc
or_concurrent-cases (err (governance_unavailable_error m)) answer concurrent replay r r' x h = cc
or_concurrent-cases (err (other_error m)) answer concurrent replay r r' x h = cc

transition-stage :
    (e e' : EvolutionExperiment) (target : ExperimentStage) (at : Instant)
    → transition e target at ≡ ok e'
    → (e'.stage ≡ target) × (e'.id ≡ e.id)
unfolding transition make_experiment
transition-stage e e' target at h =
    let (late, h1) = raise_if->>-eq-ok (ltb at e.updated_at) _ _ h in
    let (legal, h2) = raise_if->>-eq-ok (not (is_legal e.stage target)) _ _ h1 in
    let (differs, h3) = raise_if->>-eq-ok (e.baseline_id == e.candidate_id) _ _ h2 in
    let (ordered, h4) = raise_if->>-eq-ok (ltb at e.created_at) _ _ h3 in
    let same = sym (ok-injective h4) in
    (ap (λ (y : EvolutionExperiment). y.stage) same, ap (λ (y : EvolutionExperiment). y.id) same)

-- What a call of `advance` that wrote something has checked and written.
record IsAdvance ⦃h : Hmac⦄ ⦃f : Formatting⦄ (keys : Keys) (experiment_id : Uuid)
    (target : ExperimentStage) (receipt : GateReceipt) (now : Instant) (r r' : Registry)
    : Type 0 where
  current : EvolutionExperiment
  found : evolution_experiment experiment_id r ≡ some current
  verified : verify keys receipt now ≡ ok tt
  matches : require_matching_gate_receipt current target receipt ≡ ok tt
  updated : EvolutionExperiment
  moved : transition current target now ≡ ok updated
  t : ExperimentTransition
  activation : Option StrategyActivation
  written : advance_evolution_experiment updated t activation r ≡ ok r'

module _ ⦃h : Hmac⦄ ⦃f : Formatting⦄ (keys : Keys) (experiment_id : Uuid) (target : ExperimentStage)
    (receipt : GateReceipt) (now : Instant) (ids : Ids) (r r' : Registry)
    (x : EvolutionTransitionResult) where
  advance_new-cases :
      (key fingerprint : Text)
      → advance_new keys experiment_id target receipt key fingerprint now ids r ≡ ok (x, r')
      → (r' ≡ r) ⊎ IsAdvance keys experiment_id target receipt now r r'
  unfolding advance_new
  advance_new-cases key fingerprint k =
      let (current, e0, k1) = >>=-eq-ok (required (evolution_experiment experiment_id r) _) _ k in
      let (verified, k2) = >>-eq-ok (verify keys receipt now) _ k1 in
      let (matches, k3) = >>-eq-ok (require_matching_gate_receipt current target receipt) _ k2 in
      let (updated, moved, k4) = >>=-eq-ok (transition current target now) _ k3 in
      let (t, e4, k5) = >>=-eq-ok (make_transition _) _ k4 in
      let (activation, e5, k6) =
        >>=-eq-ok (activation_for current updated receipt.reason now ids.activation_id) _ k5 in
      elim (or_concurrent-cases (advance_evolution_experiment updated t activation r) _
        (experiment_transition_by_idempotency key r) _ r r' x k6) [
          | inl same ↦ inl same
          | inr (written, answer) ↦ inr (record {
            current = current;
            found = required-eq-ok (evolution_experiment experiment_id r) _ current e0;
            verified = verified;
            matches = matches;
            updated = updated;
            moved = moved;
            t = t;
            activation = activation;
            written = written;
          })
        ]

  advance_keyed-cases :
      (seen : Option ExperimentTransition) (key fingerprint : Text)
      → advance_keyed seen keys experiment_id target receipt key fingerprint now ids r ≡ ok (x, r')
      → (r' ≡ r) ⊎ IsAdvance keys experiment_id target receipt now r r'
  advance_keyed-cases none key fingerprint k = advance_new-cases key fingerprint k
  advance_keyed-cases (some t) key fingerprint k =
      let (y, e, k1) = >>=-eq-ok (replayed_advance t fingerprint r) _ k in
      inl (sym (ap (λ (p : EvolutionTransitionResult × Registry). p.1) (ok-injective k1)))

  advance_experiment-cases :
      ⦃d : Fingerprints⦄ (idempotency_key : Text)
      → advance_experiment keys experiment_id target receipt idempotency_key now ids r ≡ ok (x, r')
      → (r' ≡ r) ⊎ IsAdvance keys experiment_id target receipt now r r'
  unfolding advance_experiment
  advance_experiment-cases ⦃d⦄ idempotency_key k =
      let (key, e, k1) = >>=-eq-ok (require_text idempotency_key) _ k in
      advance_keyed-cases (experiment_transition_by_idempotency key r) key
        (d.advance experiment_id target receipt) k1

  -- A call of `advance` that returns keeps the registry valid.
  pub advance_experiment-IsValid :
      ⦃d : Fingerprints⦄ (idempotency_key : Text)
      → IsValid r
      → advance_experiment keys experiment_id target receipt idempotency_key now ids r ≡ ok (x, r')
      → IsValid r'
  advance_experiment-IsValid idempotency_key valid k =
      elim (advance_experiment-cases idempotency_key k) [
        | inl same ↦ rw same valid
        | inr a ↦
            advance_evolution_experiment-IsValid a.updated a.t a.activation r r' valid a.written
      ]

record IsMatching (e : EvolutionExperiment) (target : ExperimentStage) (receipt : GateReceipt)
    : Type 0 where
  experiment : receipt.experiment_id ≡ e.id
  stage : receipt.from_stage ≡ e.stage
  decision : decision_is receipt.decision (expected_decision target) ≡ true
  gates : (is_pass (expected_decision target) && not receipt.hard_gates_passed) ≡ false

require_matching_gate_receipt-IsMatching :
    (e : EvolutionExperiment) (target : ExperimentStage) (receipt : GateReceipt)
    → require_matching_gate_receipt e target receipt ≡ ok tt
    → IsMatching e target receipt
unfolding require_matching_gate_receipt
require_matching_gate_receipt-IsMatching e target receipt h =
    let (same, h1) =
      raise_if->>-eq-ok
        (receipt.experiment_id != e.id
          || receipt.baseline_id != e.baseline_id
          || receipt.candidate_id != e.candidate_id)
        _ _ h in
    let (stages, h2) =
      raise_if->>-eq-ok (receipt.from_stage != e.stage || receipt.to_stage != target) _ _ h1 in
    let (decided, h3) =
      raise_if->>-eq-ok (not (decision_is receipt.decision (expected_decision target))) _ _ h2 in
    let gates =
      raise_if-eq-ok (is_pass (expected_decision target) && not receipt.hard_gates_passed) _ h3 in
    record {
      experiment =
          !=-false receipt.experiment_id e.id
            (||-false (receipt.experiment_id != e.id) (receipt.baseline_id != e.baseline_id)
              (||-false _ (receipt.candidate_id != e.candidate_id) same).0).0;
      stage =
          !=-false receipt.from_stage e.stage
            (||-false (receipt.from_stage != e.stage) (receipt.to_stage != target) stages).0;
      decision = ground arith;
      gates = gates;
    }

promoted-gates :
    (e : EvolutionExperiment) (target : ExperimentStage) (receipt : GateReceipt)
    → target ≡ ExperimentStage.promoted
    → IsMatching e target receipt
    → receipt.hard_gates_passed ≡ true
promoted-gates e target receipt at m =
    let gates : not receipt.hard_gates_passed ≡ false = rw at at m.gates in ground arith

rolled_back-decision :
    (e : EvolutionExperiment) (target : ExperimentStage) (receipt : GateReceipt)
    → target ≡ ExperimentStage.rolled_back
    → IsMatching e target receipt
    → receipt.decision ≡ GateDecision.rollback
rolled_back-decision e target receipt at m = go receipt.decision (rw at at m.decision)
  where
    go : (d : GateDecision) → decision_is d GateDecision.rollback ≡ true → d ≡ GateDecision.rollback
    go GateDecision.pass k = cc
    go GateDecision.reject k = cc
    go GateDecision.rollback k = refl

abbrev pub IsSwitch :
    EvolutionExperiment → ExperimentStage → GateReceipt → (r r' : Registry) → Type 0
IsSwitch current target receipt r r' =
    ((current.stage ≡ ExperimentStage.canary)
      × (target ≡ ExperimentStage.promoted)
      × (receipt.hard_gates_passed ≡ true)
      × (active_id r ≡ some current.baseline_id)
      × (active_id r' ≡ some current.candidate_id))
    ⊎ ((current.stage ≡ ExperimentStage.promoted)
        × (target ≡ ExperimentStage.rolled_back)
        × (receipt.decision ≡ GateDecision.rollback)
        × (active_id r ≡ some current.candidate_id)
        × (active_id r' ≡ some current.baseline_id))

-- How the active strategy may change: by a receipt of the current experiment that promotes its
-- candidate after its hard gates, or that rolls the promotion back.
pub record IsAuthorized ⦃h : Hmac⦄ ⦃f : Formatting⦄ (keys : Keys) (experiment_id : Uuid)
    (target : ExperimentStage) (receipt : GateReceipt) (now : Instant) (r r' : Registry)
    : Type 0 where
  pub current : EvolutionExperiment
  pub found : evolution_experiment experiment_id r ≡ some current
  pub authentic : IsAuthentic keys receipt now
  pub experiment : receipt.experiment_id ≡ experiment_id
  pub stage : receipt.from_stage ≡ current.stage
  pub switch : IsSwitch current target receipt r r'

module _ ⦃h : Hmac⦄ ⦃f : Formatting⦄ (keys : Keys) (experiment_id : Uuid) (target : ExperimentStage)
    (receipt : GateReceipt) (now : Instant) (r r' : Registry) (valid : IsValid r) where
  advance-IsAuthorized :
      IsAdvance keys experiment_id target receipt now r r'
      → (active_id r' ≡ active_id r) ⊎ IsAuthorized keys experiment_id target receipt now r r'
  unfolding evolution_experiment
  advance-IsAuthorized a =
      let m = require_matching_gate_receipt-IsMatching a.current target receipt a.matches in
      let (at, same_id) = transition-stage a.current a.updated target now a.moved in
      let named = (valid.tracked experiment_id a.current a.found).named in
      let (other, there, changes) =
        advance-active_id a.updated a.t a.activation r r' valid a.written in
      let p : some other ≡ some a.current =
        sym there ∙ ap (λ i. get i r.experiments) (same_id ∙ named) ∙ a.found in
      let same : other ≡ a.current = cc in
      let authorized : IsSwitch a.current target receipt r r'
          → IsAuthorized keys experiment_id target receipt now r r' =
        λ switch. record {
          current = a.current;
          found = a.found;
          authentic = (verify_iff keys receipt now).0 a.verified;
          experiment = m.experiment ∙ named;
          stage = m.stage;
          switch = switch;
        } in
      elim changes [
        | inl (from, to, before, after) ↦
            let goal = sym at ∙ to in
            inr (
              authorized (
                inl (
                  ap (λ (y : EvolutionExperiment). y.stage) (sym same) ∙ from,
                  goal,
                  promoted-gates a.current target receipt goal m,
                  before ∙ ap some (ap (λ (y : EvolutionExperiment). y.baseline_id) same),
                  after ∙ ap some (ap (λ (y : EvolutionExperiment). y.candidate_id) same),
                )))
        | inr (inl (from, to, before, after)) ↦
            let goal = sym at ∙ to in
            inr (
              authorized (
                inr (
                  ap (λ (y : EvolutionExperiment). y.stage) (sym same) ∙ from,
                  goal,
                  rolled_back-decision a.current target receipt goal m,
                  before ∙ ap some (ap (λ (y : EvolutionExperiment). y.candidate_id) same),
                  after ∙ ap some (ap (λ (y : EvolutionExperiment). y.baseline_id) same),
                )))
        | inr (inr still) ↦ inl (rw (active_id, still) refl)
      ]

  -- A call of `advance` that returns leaves the active strategy as it is, or its receipt is one that the
  -- verifier accepts now, for the experiment and its stage, and either promotes the candidate from the
  -- canary stage with its hard gates passed, or rolls the promotion back by a rollback decision.
  pub advance_experiment-IsAuthorized :
      ⦃d : Fingerprints⦄ (idempotency_key : Text) (ids : Ids) (x : EvolutionTransitionResult)
      → advance_experiment keys experiment_id target receipt idempotency_key now ids r ≡ ok (x, r')
      → (active_id r' ≡ active_id r) ⊎ IsAuthorized keys experiment_id target receipt now r r'
  advance_experiment-IsAuthorized idempotency_key ids x k =
      elim (advance_experiment-cases keys experiment_id target receipt now ids r r' x
        idempotency_key k) [ inl same ↦ inl (rw same refl) | inr a ↦ advance-IsAuthorized a ]

module _ ⦃f : Rounding⦄ (diagnosis : FailureDiagnosis) (now : Instant) (ids : Ids) (r r' : Registry)
    (valid : IsValid r) where
  register_proposal-IsValid :
      (baseline candidate : StrategySnapshot) (reason evidence_ref key fingerprint : Text)
      (p : EvolutionProposal)
      → register_proposal baseline candidate reason evidence_ref key fingerprint now ids r
        ≡ ok (p, r')
      → IsValid r'
  unfolding register_proposal
  register_proposal-IsValid baseline candidate reason evidence_ref key fingerprint p k =
      let (experiment, e0, k1) = >>=-eq-ok (make_experiment _) _ k in
      let (t, e1, k2) = >>=-eq-ok (make_transition _) _ k1 in
      elim (or_concurrent-cases (register_evolution_experiment candidate experiment t r) _
        (experiment_transition_by_idempotency key r) _ r r' p k2) [
          | inl same ↦ rw same valid
          | inr (written, answer) ↦
              register_evolution_experiment-IsValid candidate experiment t r r' valid written
        ]

  propose_keyed-IsValid :
      (seen : Option ExperimentTransition) (reason evidence_ref key fingerprint : Text)
      (p : Option EvolutionProposal)
      → propose_keyed seen diagnosis reason evidence_ref key fingerprint now ids r ≡ ok (p, r')
      → IsValid r'
  unfolding propose_new
  propose_keyed-IsValid (some t) reason evidence_ref key fingerprint p k =
      let (y, e, k1) = >>=-eq-ok (replayed_proposal t fingerprint r) _ k in
      rw (sym (ap (λ (q : Option EvolutionProposal × Registry). q.1) (ok-injective k1))) valid
  propose_keyed-IsValid none reason evidence_ref key fingerprint p k =
      let (active, e0, k1) = >>=-eq-ok (active_strategy r) _ k in
      let (baseline, e1, k2) = >>=-eq-ok (required active _) _ k1 in
      let (candidate, e2, k3) = >>=-eq-ok (propose baseline diagnosis ids.proposal_id now) _ k2 in
      go baseline candidate k3
    where
      go :
          (baseline : StrategySnapshot)
          → (candidate : Option StrategySnapshot)
          → propose_candidate candidate baseline reason evidence_ref key fingerprint now ids r
            ≡ ok (p, r')
          → IsValid r'
      go baseline none k1 =
          rw (sym (ap (λ (q : Option EvolutionProposal × Registry). q.1) (ok-injective k1))) valid
      go baseline (some candidate) k1 =
          let (x, e, k2) =
            >>=-eq-ok
              (register_proposal baseline candidate reason evidence_ref key fingerprint now ids r) _
              k1 in
          register_proposal-IsValid baseline candidate reason evidence_ref key fingerprint x.0 (
            e
            ∙ ap (λ s. ok (x.0, s))
                (ap (λ (q : Option EvolutionProposal × Registry). q.1) (ok-injective k2)))

  -- A call of `propose` that returns keeps the registry valid.
  pub propose_experiment-IsValid :
      ⦃d : Fingerprints⦄ (reason evidence_ref idempotency_key : Text) (p : Option EvolutionProposal)
      → propose_experiment diagnosis reason evidence_ref idempotency_key now ids r ≡ ok (p, r')
      → IsValid r'
  unfolding propose_experiment
  propose_experiment-IsValid ⦃d⦄ reason evidence_ref idempotency_key p k =
      let (normal, e0, k1) = >>=-eq-ok (require_text reason) _ k in
      let (evidence, e1, k2) = >>=-eq-ok (require_text evidence_ref) _ k1 in
      let (key, e2, k3) = >>=-eq-ok (require_text idempotency_key) _ k2 in
      propose_keyed-IsValid (experiment_transition_by_idempotency key r) normal evidence key
        (d.proposal diagnosis normal evidence) p k3
