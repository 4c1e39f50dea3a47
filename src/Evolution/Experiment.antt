-- ===== src/Evolution/Experiment.antt =====
-- domain/evolution.py: experiment stages, gate receipts, experiments and transition evidence.
use evolvable_user_memory.Base.{
  ℕ, ◌≡◌, ◌↔◌, Bool, true, ◌&&◌, not, List, [], ◌∷◌, ◌==◌, ◌!=◌, Eq, nat_eq, ltb, leb, arith,
  Option, none, some,
}
use evolvable_user_memory.Base.Result.{Result, ok, domain_error, ◌>>=◌, ◌>>◌, raise_if}
use evolvable_user_memory.Base.Sort.{contains}
use evolvable_user_memory.Base.Text.{Text}
use evolvable_user_memory.Common.{Uuid, Instant, require_text}
use evolvable_user_memory.Projection.{require_sha256}

pub data ExperimentStage : Type 0 where
  proposed offline_passed shadow canary promoted rejected rolled_back : ExperimentStage

abbrev pub stage_code : ExperimentStage → ℕ
stage_code ExperimentStage.proposed = 0
stage_code ExperimentStage.offline_passed = 1
stage_code ExperimentStage.shadow = 2
stage_code ExperimentStage.canary = 3
stage_code ExperimentStage.promoted = 4
stage_code ExperimentStage.rejected = 5
stage_code ExperimentStage.rolled_back = 6

abbrev pub stage_beq : ExperimentStage → ExperimentStage → Bool
stage_beq a b = stage_code a == stage_code b

pub stage_beq_iff : (a b : ExperimentStage) → (stage_beq a b ≡ true) ↔ (a ≡ b)
stage_beq_iff a b = (λ h. ground arith, λ h. ground arith)

instance abbrev pub stage_eq : Eq ExperimentStage
stage_eq = record { beq = stage_beq; beq_iff = stage_beq_iff }

pub data GateDecision : Type 0 where
  pass reject rollback : GateDecision

-- `_EXPERIMENT_TRANSITIONS.get(stage, frozenset())`
abbrev pub transitions_from : ExperimentStage → List ExperimentStage
transitions_from ExperimentStage.proposed =
    ExperimentStage.offline_passed ∷ ExperimentStage.rejected ∷ []
transitions_from ExperimentStage.offline_passed =
    ExperimentStage.shadow ∷ ExperimentStage.rejected ∷ []
transitions_from ExperimentStage.shadow = ExperimentStage.canary ∷ ExperimentStage.rolled_back ∷ []
transitions_from ExperimentStage.canary =
    ExperimentStage.promoted ∷ ExperimentStage.rolled_back ∷ []
transitions_from ExperimentStage.promoted = ExperimentStage.rolled_back ∷ []
transitions_from ExperimentStage.rejected = []
transitions_from ExperimentStage.rolled_back = []

-- `target in _EXPERIMENT_TRANSITIONS.get(stage, frozenset())`
unfoldable pub is_legal : ExperimentStage → ExperimentStage → Bool
is_legal stage target = contains (transitions_from stage) target

pub record GateReceipt : Type 0 where
  pub id : Uuid
  pub experiment_id : Uuid
  pub baseline_id : Uuid
  pub candidate_id : Uuid
  pub from_stage : ExperimentStage
  pub to_stage : ExperimentStage
  pub decision : GateDecision
  pub artifact_ref : Text
  pub artifact_sha256 : Text
  pub issuer : Text
  pub key_id : Text
  pub issued_at : Instant
  pub expires_at : Instant
  pub hard_gates_passed : Bool
  pub reason : Text
  pub signature : Text

-- `GateReceipt.__post_init__`; the types rule out values outside the enumerations.
unfoldable pub make_receipt : GateReceipt → Result GateReceipt
make_receipt r = do
  raise_if (r.baseline_id == r.candidate_id)
      (domain_error "gate receipt candidate must differ from baseline")
  raise_if (not (is_legal r.from_stage r.to_stage))
      (domain_error "gate receipt must authorize a legal experiment transition")
  artifact_ref ← require_text r.artifact_ref
  artifact_sha256 ← require_sha256 r.artifact_sha256
  issuer ← require_text r.issuer
  key_id ← require_text r.key_id
  raise_if (leb r.expires_at r.issued_at)
      (domain_error "gate receipt expires_at must follow issued_at")
  reason ← require_text r.reason
  signature ← require_sha256 r.signature
  ok (record r {
    artifact_ref = artifact_ref;
    artifact_sha256 = artifact_sha256;
    issuer = issuer;
    key_id = key_id;
    reason = reason;
    signature = signature;
  })

pub record EvolutionExperiment : Type 0 where
  pub id : Uuid
  pub baseline_id : Uuid
  pub candidate_id : Uuid
  pub stage : ExperimentStage
  pub created_at : Instant
  pub updated_at : Instant

abbrev experiment_beq : EvolutionExperiment → EvolutionExperiment → Bool
experiment_beq a b =
    a.id == b.id
    && a.baseline_id == b.baseline_id
    && a.candidate_id == b.candidate_id
    && a.stage == b.stage
    && a.created_at == b.created_at
    && a.updated_at == b.updated_at

pub experiment_beq_iff : (a b : EvolutionExperiment) → (experiment_beq a b ≡ true) ↔ (a ≡ b)
experiment_beq_iff a b = (
  λ h. ground (arith, stage_beq_iff a.stage b.stage),
  λ h. ground (arith, stage_beq_iff a.stage b.stage),
)

instance abbrev pub experiment_eq : Eq EvolutionExperiment
experiment_eq = record { beq = experiment_beq; beq_iff = experiment_beq_iff }

unfoldable pub make_experiment : EvolutionExperiment → Result EvolutionExperiment
make_experiment e = do
  raise_if (e.baseline_id == e.candidate_id)
      (domain_error "experiment candidate must differ from baseline")
  raise_if (ltb e.updated_at e.created_at)
      (domain_error "experiment updated_at must not precede created_at")
  ok e

-- `EvolutionExperiment.transition`; `replace` runs the constructor's checks again.
unfoldable pub transition :
    EvolutionExperiment → ExperimentStage → Instant → Result EvolutionExperiment
transition e target at = do
  raise_if (ltb at e.updated_at) (domain_error "experiment transition time must be non-decreasing")
  raise_if (not (is_legal e.stage target)) (domain_error "illegal experiment transition")
  make_experiment (record e { stage = target; updated_at = at })

pub record ExperimentTransition : Type 0 where
  pub id : Uuid
  pub experiment_id : Uuid
  pub to_stage : ExperimentStage
  pub transitioned_at : Instant
  pub reason : Text
  pub evidence_ref : Text
  pub idempotency_key : Text
  pub request_fingerprint : Text
  pub from_stage : Option ExperimentStage

-- The last check of `ExperimentTransition.__post_init__`.
abbrev pub creates_or_advances : Option ExperimentStage → ExperimentStage → Result (Unit {0})
creates_or_advances none to_stage =
    raise_if (to_stage != ExperimentStage.proposed)
      (domain_error "experiment creation must transition to proposed")
creates_or_advances (some from_stage) to_stage =
    raise_if (not (is_legal from_stage to_stage))
      (domain_error "illegal experiment transition evidence")

unfoldable pub make_transition : ExperimentTransition → Result ExperimentTransition
make_transition t = do
  reason ← require_text t.reason
  evidence_ref ← require_text t.evidence_ref
  idempotency_key ← require_text t.idempotency_key
  request_fingerprint ← require_sha256 t.request_fingerprint
  creates_or_advances t.from_stage t.to_stage
  ok (record t {
    reason = reason;
    evidence_ref = evidence_ref;
    idempotency_key = idempotency_key;
    request_fingerprint = request_fingerprint;
  })
