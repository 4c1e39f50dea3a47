-- ===== src/Commands.antt =====
-- application/commands.py: the requests that the memory application takes, and their results.
-- A constructor runs on instants, since `require_utc` stands at the boundary.
use evolvable_user_memory.Base.{ℕ, Bool, List, Option, not}
use evolvable_user_memory.Base.Result.{Result, ok, domain_error, ◌>>=◌, ◌>>◌, raise_if}
use evolvable_user_memory.Base.Text.{Text}
use evolvable_user_memory.Common.{Uuid, Instant, Scope, ContextSignature, require_text}
use evolvable_user_memory.Projection.{ContextCompressionAlgorithm, budget_fits}
use evolvable_user_memory.Experience.{
  OutcomeKind, OutcomeEvent, UtilityEstimate, MemoryUsage, normal_note,
}

pub record RememberPreference : Type 0 where
  pub scope : Scope
  pub source : Text
  pub idempotency_key : Text
  pub key : Text
  pub value : Text
  pub context : ContextSignature
  pub evidence_text : Text
  pub confidence : ℕ
  pub occurred_at : Instant

unfoldable pub make_remember : RememberPreference → Result RememberPreference
make_remember c = do
  source ← require_text c.source
  idempotency_key ← require_text c.idempotency_key
  key ← require_text c.key
  value ← require_text c.value
  evidence_text ← require_text c.evidence_text
  ok (record c {
    source = source;
    idempotency_key = idempotency_key;
    key = key;
    value = value;
    evidence_text = evidence_text;
  })

pub record CorrectPreference : Type 0 where
  pub scope : Scope
  pub record_id : Uuid
  pub source : Text
  pub idempotency_key : Text
  pub value : Text
  pub evidence_text : Text
  pub reason : Text
  pub occurred_at : Instant
  pub expected_revision_id : Option Uuid

unfoldable pub make_correct : CorrectPreference → Result CorrectPreference
make_correct c = do
  source ← require_text c.source
  idempotency_key ← require_text c.idempotency_key
  value ← require_text c.value
  evidence_text ← require_text c.evidence_text
  reason ← require_text c.reason
  ok (record c {
    source = source;
    idempotency_key = idempotency_key;
    value = value;
    evidence_text = evidence_text;
    reason = reason;
  })

pub record RecallMemory : Type 0 where
  pub scope : Scope
  pub query : Text
  pub context : ContextSignature
  pub limit : ℕ
  pub valid_at : Option Instant
  pub known_at : Option Instant

unfoldable pub make_recall : RecallMemory → Result RecallMemory
make_recall c = do query ← require_text c.query; ok (record c { query = query })

pub record RecordOutcome : Type 0 where
  pub scope : Scope
  pub trace_id : Uuid
  pub revision_id : Uuid
  pub kind : OutcomeKind
  pub idempotency_key : Text
  pub occurred_at : Instant
  pub usage_id : Option Uuid
  pub weight : ℕ
  pub note : Option Text

unfoldable pub make_record_outcome : RecordOutcome → Result RecordOutcome
make_record_outcome c = do
  idempotency_key ← require_text c.idempotency_key
  ok (record c { idempotency_key = idempotency_key; note = normal_note c.note })

pub record ProjectRecallContext : Type 0 where
  pub scope : Scope
  pub trace_id : Uuid
  pub algorithm : ContextCompressionAlgorithm
  pub budget_characters : ℕ

unfoldable pub make_project : ProjectRecallContext → Result ProjectRecallContext
make_project c = do
  raise_if (not (budget_fits c.budget_characters))
      (domain_error "projection budget must be in [64, 100000] characters")
  ok c

pub record RecordMemoryUsage : Type 0 where
  pub scope : Scope
  pub trace_id : Uuid
  pub algorithm : ContextCompressionAlgorithm
  pub budget_characters : ℕ
  pub source_projection_sha256 : Text
  pub delivered_context_sha256 : Text
  pub revision_ids : List Uuid
  pub idempotency_key : Text
  pub occurred_at : Instant

unfoldable pub make_record_usage : RecordMemoryUsage → Result RecordMemoryUsage
make_record_usage c = do
  raise_if (not (budget_fits c.budget_characters))
      (domain_error "projection budget must be in [64, 100000] characters")
  idempotency_key ← require_text c.idempotency_key
  ok (record c { idempotency_key = idempotency_key })

pub record PreferenceResult : Type 0 where
  pub observation_id : Uuid
  pub candidate_id : Uuid
  pub record_id : Uuid
  pub revision_id : Uuid
  pub sequence : ℕ
  pub idempotent_replay : Bool

pub record OutcomeResult : Type 0 where
  pub outcome : OutcomeEvent
  pub utility : UtilityEstimate
  pub idempotent_replay : Bool

pub record MemoryUsageResult : Type 0 where
  pub usage : MemoryUsage
  pub idempotent_replay : Bool
