-- ===== src/Examples/Orchestrating.antt =====
-- A receipt that is issued, verified and used to promote the candidate of an experiment.
use evolvable_user_memory.Base.{
  ◌≡◌, ◌↔◌, ◌⊎◌, refl, true, false, Bool, none, some, Option, [], ◌∷◌, nat_eq, list_eq, arith,
}
use evolvable_user_memory.Base.Result.{ok, result_or}
use evolvable_user_memory.Base.Dict.{get, insert}
use evolvable_user_memory.Base.Sort.{sorted}
use evolvable_user_memory.Base.Text.{text, strip}
use evolvable_user_memory.Common.{require_text, text_leb}
use evolvable_user_memory.Projection.{
  require_sha256, is_hex, lower, is_int16, scan_unsigned, scan_digits,
}
use evolvable_user_memory.Compression.Json.{dumps_string}
use evolvable_user_memory.Compression.Hex.{IsDigest}
use evolvable_user_memory.Evolution.Strategy.{
  dominant_component, largest, make_weights, is_close, make_strategy,
}
use evolvable_user_memory.Evolution.Proposal.{propose, donors, proposal, delta_for, shifted}
use evolvable_user_memory.Evolution.Experiment.{
  ExperimentStage, GateDecision, GateReceipt, make_receipt, is_legal, make_experiment, transition,
  make_transition,
}
use evolvable_user_memory.Evolution.Activation.{make_activation}
use evolvable_user_memory.Registry.State.{
  Registry, register_evolution_experiment, save_strategy, check_lineage, active_strategy, advanced,
  advance_evolution_experiment, validate_activation, validate_switch, evolution_experiment,
  experiment_transition_by_idempotency,
}
use evolvable_user_memory.Registry.Valid.{IsValid}
use evolvable_user_memory.Registry.Advance.{active_id}
use evolvable_user_memory.Gate.{
  Formatting, zeros, Signer, Authorization, unsigned_receipt, issue, Keys, verify, verify_with,
  canonical_gate_receipt_payload, gate_receipt_claims, dumps_claims,
}
use evolvable_user_memory.Gate.Verified.{AreSignatures, IsAuthentic, verify_iff, issue-verify}
use evolvable_user_memory.Orchestration.{
  Fingerprints, EvolutionTransitionResult, EvolutionProposal, Ids, propose_experiment, propose_new,
  register_proposal, advance_experiment, advance_new, activation_for, require_matching_gate_receipt,
}
use evolvable_user_memory.Orchestration.Guarded.{
  IsAuthorized, advance_experiment-IsValid, advance_experiment-IsAuthorized,
  propose_experiment-IsValid,
}
use evolvable_user_memory.Examples.Evolving.{exact, experiment, irrelevant}
use evolvable_user_memory.Examples.Registering.{canary, canary-IsValid}
use evolvable_user_memory.Examples.Governing.{by_length, digits_for}

instance abbrev plain : Formatting
plain = record { uuid_text = λ i. []; isoformat = λ t. [] }

instance abbrev digests : Fingerprints
digests = record { proposal = λ d r e. digits_for true; advance = λ i s r. digits_for false }

program : Unit {0}
unfolding zeros strip require_text require_sha256 make_receipt is_legal make_experiment transition
    make_transition make_activation active_strategy advanced advance_evolution_experiment
    validate_activation validate_switch evolution_experiment experiment_transition_by_idempotency
    issue verify_with canonical_gate_receipt_payload gate_receipt_claims dumps_claims
    propose_experiment propose_new register_proposal advance_experiment advance_new activation_for
    require_matching_gate_receipt get insert sorted text_leb lower is_int16 scan_unsigned
    scan_digits is_hex dumps_string propose dominant_component largest donors proposal delta_for
    make_weights shifted is_close make_strategy register_evolution_experiment save_strategy
    check_lineage
program = tt

digits_for-IsDigest : (b : Bool) → IsDigest (digits_for b)
unfolding zeros is_hex
digits_for-IsDigest true = record { size = refl; digits = grind arith }
digits_for-IsDigest false = record { size = refl; digits = grind arith }

by_length-AreSignatures : AreSignatures by_length
by_length-AreSignatures key t = digits_for-IsDigest _

abbrev signer : Signer
signer = record { issuer = text "gate"; key_id = text "key-1"; secret = zeros 32 }

abbrev authorization : Authorization
authorization = record {
  receipt_id = 70;
  target = ExperimentStage.promoted;
  decision = GateDecision.pass;
  artifact_ref = text "run-1";
  artifact_sha256 = digits_for true;
  issued_at = 8;
  expires_at = 20;
  hard_gates_passed = true;
  reason = text "gate";
}

abbrev keys : Keys
keys = ((text "gate", text "key-1"), zeros 32) ∷ []

abbrev receipt : GateReceipt
receipt = record (unsigned_receipt signer (experiment ExperimentStage.canary 8) authorization) {
  signature = digits_for false;
}

issued : issue signer (experiment ExperimentStage.canary 8) authorization ≡ ok receipt
unfolding program
issued = refl

issue-verify_example :
    (verify keys receipt 9 ≡ ok tt)
    × (receipt.experiment_id ≡ 10)
    × (receipt.baseline_id ≡ 1)
    × (receipt.candidate_id ≡ 2)
    × (receipt.from_stage ≡ ExperimentStage.canary)
    × (receipt.to_stage ≡ ExperimentStage.promoted)
    × (receipt.decision ≡ GateDecision.pass)
    × (receipt.hard_gates_passed ≡ true)
unfolding program
issue-verify_example =
    issue-verify signer (experiment ExperimentStage.canary 8) authorization keys 9 receipt
      by_length-AreSignatures refl refl (digits_for-IsDigest true) issued refl (omega arith)
      (omega arith)

verify_iff_example : (verify keys receipt 9 ≡ ok tt) ↔ IsAuthentic keys receipt 9
verify_iff_example = verify_iff keys receipt 9

abbrev ids : Ids
ids = record { proposal_id = 3; experiment_id = 11; transition_id = 104; activation_id = 51 }

abbrev unchanged : EvolutionTransitionResult × Registry
unchanged =
    (record { experiment = experiment ExperimentStage.canary 8; idempotent_replay = true }, canary)

abbrev promotion_result : EvolutionTransitionResult × Registry
promotion_result =
    result_or unchanged
      (advance_experiment keys 10 ExperimentStage.promoted receipt (text "k4") 9 ids canary)

promoted_ok :
    advance_experiment keys 10 ExperimentStage.promoted receipt (text "k4") 9 ids canary
    ≡ ok promotion_result
unfolding program
promoted_ok = refl

active_two : active_id promotion_result.1 ≡ some 2
unfolding program
active_two = refl

advance_experiment-IsValid_example : IsValid promotion_result.1
advance_experiment-IsValid_example =
    advance_experiment-IsValid keys 10 ExperimentStage.promoted receipt 9 ids canary
      promotion_result.1 promotion_result.0 (text "k4") canary-IsValid promoted_ok

advance_experiment-IsAuthorized_example :
    (active_id promotion_result.1 ≡ active_id canary)
    ⊎ IsAuthorized keys 10 ExperimentStage.promoted receipt 9 canary promotion_result.1
advance_experiment-IsAuthorized_example =
    advance_experiment-IsAuthorized keys 10 ExperimentStage.promoted receipt 9 canary
      promotion_result.1 canary-IsValid (text "k4") ids promotion_result.0 promoted_ok

abbrev proposal_result : Option EvolutionProposal × Registry
proposal_result =
    result_or (none, canary)
      (propose_experiment irrelevant (text "drift") (text "run-2") (text "p-1") 9 ids canary)

proposed_ok :
    propose_experiment irrelevant (text "drift") (text "run-2") (text "p-1") 9 ids canary
    ≡ ok proposal_result
unfolding program
proposed_ok = refl

propose_experiment-IsValid_example : IsValid proposal_result.1
propose_experiment-IsValid_example =
    propose_experiment-IsValid irrelevant 9 ids canary proposal_result.1 canary-IsValid
      (text "drift") (text "run-2") (text "p-1") proposal_result.0 proposed_ok
