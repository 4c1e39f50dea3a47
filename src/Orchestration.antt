-- ===== src/Orchestration.antt =====
-- application/evolution.py: `EvolutionApplication` over the registry. The digests of the requests are a
-- parameter over their payloads; the clock's reading and the fresh ids are arguments.
pub mod Guarded
use Prim.Native.String.{String}
use evolvable_user_memory.Base.{
  ℕ, Bool, true, false, not, ◌||◌, ◌&&◌, List, [], ◌∷◌, ◌==◌, ◌!=◌, nat_eq, list_eq, option_eq,
  Option, none, some, if◌then◌else◌,
}
use evolvable_user_memory.Base.Result.{
  Result, ok, err, Error, domain_error, not_found_error, conflict_error, ◌>>=◌, ◌>>◌, raise_if,
}
use evolvable_user_memory.Base.Text.{Text}
use evolvable_user_memory.Common.{Uuid, Instant, Hmac, require_text}
use evolvable_user_memory.Evolution.Strategy.{Rounding, StrategySnapshot, FailureDiagnosis}
use evolvable_user_memory.Evolution.Proposal.{propose}
use evolvable_user_memory.Evolution.Experiment.{
  ExperimentStage, stage_eq, GateDecision, GateReceipt, EvolutionExperiment, make_experiment,
  transition, ExperimentTransition, make_transition,
}
use evolvable_user_memory.Evolution.Activation.{
  StrategyActivationKind, StrategyActivation, make_activation,
}
use evolvable_user_memory.Registry.State.{
  Registry, strategy, active_strategy, register_evolution_experiment, evolution_experiment,
  experiment_transition_by_idempotency, is_promotion, is_rollback, advance_evolution_experiment,
}
use evolvable_user_memory.Gate.{Formatting, Keys, verify}

-- `_proposal_fingerprint` and `_advance_fingerprint`: SHA-256 of the JSON of what is asked for.
pub record Fingerprints : Type 0 where
  pub proposal : FailureDiagnosis → (reason evidence_ref : Text) → Text
  pub advance : Uuid → ExperimentStage → GateReceipt → Text

pub record EvolutionProposal : Type 0 where
  pub candidate : StrategySnapshot
  pub experiment : EvolutionExperiment
  pub idempotent_replay : Bool

pub record EvolutionTransitionResult : Type 0 where
  pub experiment : EvolutionExperiment
  pub idempotent_replay : Bool

-- `Option.get` of a value that must be there.
abbrev pub required {ℓ} : {A : Type ℓ} → Option A → Error → Result A
required none e = err e
required (some x) e = ok x

-- `_replayed_proposal`
unfoldable pub replayed_proposal : ExperimentTransition → Text → Registry → Result EvolutionProposal
replayed_proposal t request_fingerprint r = do
  raise_if
      (t.from_stage != none
        || t.to_stage != ExperimentStage.proposed
        || t.request_fingerprint != request_fingerprint)
      (conflict_error "proposal idempotency key was reused with different data")
  current ←
      required (evolution_experiment t.experiment_id r)
        (conflict_error "proposal idempotency key belongs to incomplete state")
  candidate ←
      required (strategy current.candidate_id r)
        (conflict_error "proposal candidate is unavailable")
  experiment ←
      make_experiment
        (record current { stage = ExperimentStage.proposed; updated_at = t.transitioned_at })
  ok (record { candidate = candidate; experiment = experiment; idempotent_replay = true })

-- `_replayed_advance`
unfoldable pub replayed_advance :
    ExperimentTransition → Text → Registry → Result EvolutionTransitionResult
replayed_advance t request_fingerprint r = do
  raise_if (t.request_fingerprint != request_fingerprint)
      (conflict_error "transition idempotency key was reused with different data")
  current ←
      required (evolution_experiment t.experiment_id r)
        (conflict_error "transition idempotency key belongs to incomplete state")
  experiment ←
      make_experiment (record current { stage = t.to_stage; updated_at = t.transitioned_at })
  ok (record { experiment = experiment; idempotent_replay = true })

-- The `except ConflictError` around a write to the registry.
abbrev pub or_concurrent {ℓ} :
    {A : Type ℓ}
    → Result Registry
    → (Registry → A)
    → Option ExperimentTransition
    → (ExperimentTransition → Result A)
    → Registry
    → Result (A × Registry)
or_concurrent (ok r') answer concurrent replay r = ok (answer r', r')
or_concurrent (err (conflict_error m)) answer none replay r = err (conflict_error m)
or_concurrent (err (conflict_error m)) answer (some t) replay r = do
  result ← replay t
  ok (result, r)
or_concurrent (err e) answer concurrent replay r = err e

-- The ids that one call draws.
pub record Ids : Type 0 where
  pub proposal_id : Uuid
  pub experiment_id : Uuid
  pub transition_id : Uuid
  pub activation_id : Uuid

-- `propose` once the candidate is there
unfoldable pub register_proposal :
    StrategySnapshot
    → StrategySnapshot
    → (reason evidence_ref key fingerprint : Text) → Instant
    → Ids
    → Registry
    → Result (EvolutionProposal × Registry)
register_proposal baseline candidate reason evidence_ref key fingerprint now ids r = do
  experiment ← make_experiment (record {
    id = ids.experiment_id;
    baseline_id = baseline.id;
    candidate_id = candidate.id;
    stage = ExperimentStage.proposed;
    created_at = now;
    updated_at = now;
  })
  t ← make_transition (record {
    id = ids.transition_id;
    experiment_id = experiment.id;
    to_stage = ExperimentStage.proposed;
    transitioned_at = now;
    reason = reason;
    evidence_ref = evidence_ref;
    idempotency_key = key;
    request_fingerprint = fingerprint;
    from_stage = none;
  })
  or_concurrent (register_evolution_experiment candidate experiment t r)
      (λ r'. record { candidate = candidate; experiment = experiment; idempotent_replay = false })
      (experiment_transition_by_idempotency key r)
      (λ concurrent. replayed_proposal concurrent fingerprint r) r

abbrev pub some_proposal :
    Result (EvolutionProposal × Registry) → Result (Option EvolutionProposal × Registry)
some_proposal result = do (p, r) ← result; ok (some p, r)

abbrev pub propose_candidate :
    Option StrategySnapshot
    → StrategySnapshot
    → (reason evidence_ref key fingerprint : Text) → Instant
    → Ids
    → Registry
    → Result (Option EvolutionProposal × Registry)
propose_candidate none baseline reason evidence_ref key fingerprint now ids r = ok (none, r)
propose_candidate (some candidate) baseline reason evidence_ref key fingerprint now ids r =
    some_proposal
      (register_proposal baseline candidate reason evidence_ref key fingerprint now ids r)

-- `propose` of a request whose key is new
unfoldable pub propose_new :
    ⦃f : Rounding⦄
    → FailureDiagnosis
    → (reason evidence_ref key fingerprint : Text) → Instant
    → Ids
    → Registry
    → Result (Option EvolutionProposal × Registry)
propose_new diagnosis reason evidence_ref key fingerprint now ids r = do
  active ← active_strategy r
  baseline ← required active (domain_error "active strategy is unavailable")
  candidate ← propose baseline diagnosis ids.proposal_id now
  propose_candidate candidate baseline reason evidence_ref key fingerprint now ids r

abbrev pub propose_keyed :
    ⦃f : Rounding⦄
    → Option ExperimentTransition
    → FailureDiagnosis
    → (reason evidence_ref key fingerprint : Text) → Instant
    → Ids
    → Registry
    → Result (Option EvolutionProposal × Registry)
propose_keyed (some t) diagnosis reason evidence_ref key fingerprint now ids r = do
  p ← replayed_proposal t fingerprint r
  ok (some p, r)
propose_keyed none diagnosis reason evidence_ref key fingerprint now ids r =
    propose_new diagnosis reason evidence_ref key fingerprint now ids r

-- `EvolutionApplication.propose`
unfoldable pub propose_experiment :
    ⦃f : Rounding⦄ ⦃d : Fingerprints⦄
    → FailureDiagnosis
    → (reason evidence_ref idempotency_key : Text) → Instant
    → Ids
    → Registry
    → Result (Option EvolutionProposal × Registry)
propose_experiment ⦃d = d⦄ diagnosis reason evidence_ref idempotency_key now ids r = do
  normalized_reason ← require_text reason
  evidence ← require_text evidence_ref
  key ← require_text idempotency_key
  propose_keyed (experiment_transition_by_idempotency key r) diagnosis normalized_reason evidence
      key (d.proposal diagnosis normalized_reason evidence) now ids r

abbrev pub expected_decision : ExperimentStage → GateDecision
expected_decision ExperimentStage.rejected = GateDecision.reject
expected_decision ExperimentStage.rolled_back = GateDecision.rollback
expected_decision _ = GateDecision.pass

abbrev pub is_pass : GateDecision → Bool
is_pass GateDecision.pass = true
is_pass _ = false

abbrev pub decision_is : GateDecision → GateDecision → Bool
decision_is GateDecision.pass GateDecision.pass = true
decision_is GateDecision.reject GateDecision.reject = true
decision_is GateDecision.rollback GateDecision.rollback = true
decision_is _ _ = false

-- `_require_matching_gate_receipt`
unfoldable pub require_matching_gate_receipt :
    EvolutionExperiment → ExperimentStage → GateReceipt → Result (Unit {0})
require_matching_gate_receipt e target receipt = do
  raise_if
      (receipt.experiment_id != e.id
        || receipt.baseline_id != e.baseline_id
        || receipt.candidate_id != e.candidate_id)
      (domain_error "gate receipt does not match the evolution experiment")
  raise_if (receipt.from_stage != e.stage || receipt.to_stage != target)
      (domain_error "gate receipt does not match the requested experiment transition")
  raise_if (not (decision_is receipt.decision (expected_decision target)))
      (domain_error "gate receipt decision does not authorize the target stage")
  raise_if (is_pass (expected_decision target) && not receipt.hard_gates_passed)
      (domain_error "passing gate receipt must attest that hard gates passed")

abbrev pub some_activation : Result StrategyActivation → Result (Option StrategyActivation)
some_activation made = do a ← made; ok (some a)

-- `_activation_for`
unfoldable pub activation_for :
    EvolutionExperiment
    → EvolutionExperiment
    → Text
    → Instant
    → Uuid
    → Result (Option StrategyActivation)
activation_for current updated reason at activation_id =
    if is_promotion current updated
    then some_activation (
        make_activation (record {
          id = activation_id;
          strategy_id = current.candidate_id;
          kind = StrategyActivationKind.promotion;
          activated_at = at;
          reason = reason;
          previous_strategy_id = some current.baseline_id;
          experiment_id = some current.id;
        }))
    else if is_rollback current updated
    then some_activation (
        make_activation (record {
          id = activation_id;
          strategy_id = current.baseline_id;
          kind = StrategyActivationKind.rollback;
          activated_at = at;
          reason = reason;
          previous_strategy_id = some current.candidate_id;
          experiment_id = some current.id;
        }))
    else ok none

-- `advance` of a request whose key is new
unfoldable pub advance_new :
    ⦃h : Hmac⦄ ⦃f : Formatting⦄
    → Keys
    → Uuid
    → ExperimentStage
    → GateReceipt
    → (key fingerprint : Text) → Instant
    → Ids
    → Registry
    → Result (EvolutionTransitionResult × Registry)
advance_new keys experiment_id target receipt key fingerprint now ids r = do
  current ←
      required (evolution_experiment experiment_id r)
        (not_found_error "evolution experiment not found")
  verify keys receipt now
  require_matching_gate_receipt current target receipt
  updated ← transition current target now
  t ← make_transition (record {
    id = ids.transition_id;
    experiment_id = current.id;
    to_stage = target;
    transitioned_at = now;
    reason = receipt.reason;
    evidence_ref = receipt.artifact_ref;
    idempotency_key = key;
    request_fingerprint = fingerprint;
    from_stage = some current.stage;
  })
  activation ← activation_for current updated receipt.reason now ids.activation_id
  or_concurrent (advance_evolution_experiment updated t activation r)
      (λ r'. record { experiment = updated; idempotent_replay = false })
      (experiment_transition_by_idempotency key r)
      (λ concurrent. replayed_advance concurrent fingerprint r) r

abbrev pub advance_keyed :
    ⦃h : Hmac⦄ ⦃f : Formatting⦄
    → Option ExperimentTransition
    → Keys
    → Uuid
    → ExperimentStage
    → GateReceipt
    → (key fingerprint : Text) → Instant
    → Ids
    → Registry
    → Result (EvolutionTransitionResult × Registry)
advance_keyed (some t) keys experiment_id target receipt key fingerprint now ids r = do
  result ← replayed_advance t fingerprint r
  ok (result, r)
advance_keyed none keys experiment_id target receipt key fingerprint now ids r =
    advance_new keys experiment_id target receipt key fingerprint now ids r

-- `EvolutionApplication.advance`
unfoldable pub advance_experiment :
    ⦃h : Hmac⦄ ⦃f : Formatting⦄ ⦃d : Fingerprints⦄
    → Keys
    → Uuid
    → ExperimentStage
    → GateReceipt
    → (idempotency_key : Text) → Instant
    → Ids
    → Registry
    → Result (EvolutionTransitionResult × Registry)
advance_experiment ⦃d = d⦄ keys experiment_id target receipt idempotency_key now ids r = do
  key ← require_text idempotency_key
  advance_keyed (experiment_transition_by_idempotency key r) keys experiment_id target receipt key
      (d.advance experiment_id target receipt) now ids r
