-- ===== src/Experience.antt =====
-- domain/experience.py: recalled items and traces, usage receipts, outcomes and utility estimates.
use evolvable_user_memory.Base.{
  ℕ, ◌+◌, ◌-◌, ◌*◌, Bool, true, ◌&&◌, not, List, [], ◌∷◌, length, ◌==◌, ◌!=◌, ltb, leb, nat_eq,
  if◌then◌else◌, Option, none, some, max,
}
use evolvable_user_memory.Base.Result.{Result, ok, err, domain_error, ◌>>=◌, ◌>>◌, raise_if}
use evolvable_user_memory.Base.Text.{Text, strip}
use evolvable_user_memory.Base.Sort.{set_of}
use evolvable_user_memory.Base.Fixed.{one, times, ratio}
use evolvable_user_memory.Common.{Uuid, Instant, Scope, ContextSignature, require_text}
use evolvable_user_memory.Projection.{ContextCompressionAlgorithm, budget_fits, require_sha256}

pub record ScoreBreakdown : Type 0 where
  pub semantic : ℕ
  pub context : ℕ
  pub belief : ℕ
  pub utility : ℕ
  pub recency : ℕ
  pub lexical : Option ℕ
  pub vector : Option ℕ

abbrev pub within_one : Option ℕ → Bool
within_one none = true
within_one (some v) = leb v one

unfoldable pub make_breakdown : ScoreBreakdown → Result ScoreBreakdown
make_breakdown b =
    if leb b.semantic one
      && leb b.context one
      && leb b.belief one
      && leb b.utility one
      && leb b.recency one
      && within_one b.lexical
      && within_one b.vector
    then ok b
    else err (domain_error "score must be between 0 and 1")

pub record RecalledItem : Type 0 where
  pub record_id : Uuid
  pub revision_id : Uuid
  pub key : Text
  pub value : Text
  pub context : ContextSignature
  pub revision_valid_from : Instant
  pub revision_recorded_at : Instant
  pub rank : ℕ
  pub score : ℕ
  pub breakdown : ScoreBreakdown
  pub evidence_ids : List Uuid

unfoldable pub make_item : RecalledItem → Result RecalledItem
make_item item = do
  raise_if (ltb item.rank 1) (domain_error "recall rank must be positive")
  raise_if (ltb one item.score) (domain_error "recall score must be between 0 and 1")
  ok item

pub record RecallTrace : Type 0 where
  pub id : Uuid
  pub scope : Scope
  pub query : Text
  pub context : ContextSignature
  pub policy_id : Uuid
  pub policy_version : ℕ
  pub items : List RecalledItem
  pub valid_at : Instant
  pub known_at : Instant
  pub created_at : Instant

unfoldable pub check_items : Instant → Instant → List RecalledItem → Result (Unit {0})
check_items valid_at known_at [] = ok tt
check_items valid_at known_at (item ∷ items) = do
  raise_if (ltb valid_at item.revision_valid_from)
      (domain_error "recalled revision was not valid at valid_at")
  raise_if (ltb known_at item.revision_recorded_at)
      (domain_error "recalled revision was not known at known_at")
  check_items valid_at known_at items

unfoldable pub make_trace : RecallTrace → Result RecallTrace
make_trace trace = do
  raise_if (length (strip trace.query) == 0) (domain_error "recall query must not be blank")
  raise_if (ltb trace.created_at trace.known_at)
      (domain_error "known_at must not be later than trace creation")
  check_items trace.valid_at trace.known_at trace.items
  ok trace

pub record MemoryUsage : Type 0 where
  pub id : Uuid
  pub scope : Scope
  pub trace_id : Uuid
  pub algorithm : ContextCompressionAlgorithm
  pub budget_characters : ℕ
  pub source_projection_sha256 : Text
  pub delivered_context_sha256 : Text
  pub revision_ids : List Uuid
  pub idempotency_key : Text
  pub occurred_at : Instant
  pub recorded_at : Instant

unfoldable pub make_usage : MemoryUsage → Result MemoryUsage
make_usage usage = do
  raise_if (not (budget_fits usage.budget_characters))
      (domain_error "memory usage projection budget must be in [64, 100000]")
  source ← require_sha256 usage.source_projection_sha256
  delivered ← require_sha256 usage.delivered_context_sha256
  raise_if (length usage.revision_ids == 0)
      (domain_error "memory usage must cite at least one revision")
  raise_if (length (set_of usage.revision_ids) != length usage.revision_ids)
      (domain_error "memory usage revisions must be distinct")
  key ← require_text usage.idempotency_key
  ok (record usage {
    source_projection_sha256 = source;
    delivered_context_sha256 = delivered;
    idempotency_key = key;
  })

pub data OutcomeKind : Type 0 where
  helpful accepted harmful rejected corrected : OutcomeKind

unfoldable pub success_value : OutcomeKind → ℕ
success_value OutcomeKind.helpful = one
success_value OutcomeKind.accepted = one
success_value _ = 0

pub record OutcomeEvent : Type 0 where
  pub id : Uuid
  pub scope : Scope
  pub trace_id : Uuid
  pub revision_id : Uuid
  pub kind : OutcomeKind
  pub idempotency_key : Text
  pub occurred_at : Instant
  pub recorded_at : Instant
  pub usage_id : Option Uuid
  pub weight : ℕ
  pub note : Option Text

-- `note.strip() or None`
unfoldable pub normal_note : Option Text → Option Text
normal_note none = none
normal_note (some note) = elim (strip note) [ [] ↦ none | c ∷ s ↦ some (c ∷ s) ]

unfoldable pub make_outcome : OutcomeEvent → Result OutcomeEvent
make_outcome outcome = do
  key ← require_text outcome.idempotency_key
  raise_if (not (ltb 0 outcome.weight && leb outcome.weight (10 * one)))
      (domain_error "outcome weight must be in (0, 10]")
  ok (record outcome { idempotency_key = key; note = normal_note outcome.note })

pub record UtilityEstimate : Type 0 where
  pub revision_id : Uuid
  pub context_fingerprint : Text
  pub positive_weight : ℕ
  pub negative_weight : ℕ
  pub last_outcome_at : Option Instant

abbrev pub no_outcomes : Uuid → Text → UtilityEstimate
no_outcomes revision_id fingerprint = record {
  revision_id = revision_id;
  context_fingerprint = fingerprint;
  positive_weight = 0;
  negative_weight = 0;
  last_outcome_at = none;
}

unfoldable pub mean : UtilityEstimate → ℕ
mean u = ratio (one + u.positive_weight) (2 * one + u.positive_weight + u.negative_weight)

-- `max` of the time so far and a new one
abbrev pub later : Option Instant → Instant → Option Instant
later none t = some t
later (some s) t = some (max s t)

unfoldable pub updated : (success weight : ℕ) → Instant → UtilityEstimate → Result UtilityEstimate
updated success weight at u = do
  raise_if (ltb one success) (domain_error "success must be between 0 and 1")
  raise_if (leb weight 0) (domain_error "utility update weight must be positive")
  ok (record u {
    positive_weight = u.positive_weight + times success weight;
    negative_weight = u.negative_weight + times (one - success) weight;
    last_outcome_at = later u.last_outcome_at at;
  })
