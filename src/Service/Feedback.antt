-- ===== src/Service/Feedback.antt =====
-- `record_outcome`, `record_usage`, `project_recall_context`, `history` and `list_preferences`.
use Prim.Native.String.{String}
use evolvable_user_memory.Base.{
  not, ◌&&◌, ◌||◌, List, any, all, keep, length, ◌==◌, ◌!=◌, nat_eq, list_eq, option_eq, ltb,
  Option, none, some,
}
use evolvable_user_memory.Base.Result.{
  Result, ok, err, domain_error, not_found_error, conflict_error, attribution_error, ◌>>=◌, ◌>>◌,
  raise_if,
}
use evolvable_user_memory.Base.Sort.{sorted, contains}
use evolvable_user_memory.Common.{Uuid, Instant, Scope, Hashing}
use evolvable_user_memory.Projection.{RecallContextProjection, lower, source_revision_ids}
use evolvable_user_memory.Experience.{RecallTrace, RecalledItem, make_usage, make_outcome}
use evolvable_user_memory.Compression.{Digests, project}
use evolvable_user_memory.Memory.{MemoryRevision, MemorySnapshot}
use evolvable_user_memory.Commands.{
  RecordOutcome, OutcomeResult, RecordMemoryUsage, MemoryUsageResult, ProjectRecallContext,
}
use evolvable_user_memory.Store.State.{Store, trace}
use evolvable_user_memory.Store.Memories.{snapshot, revision_history, memories_as_of, snapshot_leb}
use evolvable_user_memory.Store.Feedback.{usage, save_usage, apply_outcome}
use evolvable_user_memory.Service.Ingestion.{is_preference}

abbrev pub found {ℓ} : {A : Type ℓ} → Option A → String → Result A
found none m = err (not_found_error m)
found (some x) m = ok x

-- The attribution tests of `record_outcome`.
unfoldable pub check_attribution :
    RecordOutcome → RecallTrace → Option Uuid → Store → Result (Unit {0})
check_attribution command t none s =
    raise_if (not (any (λ (item : RecalledItem). item.revision_id == command.revision_id) t.items))
      (attribution_error "revision was not present in the supplied recall trace")
check_attribution command t (some usage_id) s = do
  u ← found (usage command.scope usage_id s) "memory usage not found in scope"
  raise_if (u.trace_id != command.trace_id)
      (attribution_error "memory usage does not belong to the supplied trace")
  raise_if (not (contains u.revision_ids command.revision_id))
      (attribution_error "revision was not present in the supplied memory usage")

unfoldable pub record_outcome :
    ⦃h : Hashing⦄ → RecordOutcome → Uuid → Instant → Store → Result (OutcomeResult × Store)
record_outcome command outcome_id now s = do
  t ← found (trace command.scope command.trace_id s) "recall trace not found in scope"
  check_attribution command t command.usage_id s
  outcome ← make_outcome (record {
    id = outcome_id;
    scope = command.scope;
    trace_id = command.trace_id;
    revision_id = command.revision_id;
    kind = command.kind;
    idempotency_key = command.idempotency_key;
    occurred_at = command.occurred_at;
    recorded_at = now;
    usage_id = command.usage_id;
    weight = command.weight;
    note = command.note;
  })
  (stored, utility, created, s') ← apply_outcome outcome t.context s
  raise_if (not created && stored.note != outcome.note)
      (conflict_error "outcome idempotency key was reused with different data")
  ok (record { outcome = stored; utility = utility; idempotent_replay = not created }, s')

unfoldable pub record_usage :
    ⦃d : Digests⦄ → RecordMemoryUsage → Uuid → Instant → Store → Result (MemoryUsageResult × Store)
record_usage command usage_id now s = do
  t ← found (trace command.scope command.trace_id s) "recall trace not found in scope"
  projection ← project t command.algorithm command.budget_characters
  raise_if (projection.projection_sha256 != lower command.source_projection_sha256)
      (attribution_error "source projection digest does not match the recall trace")
  raise_if
      (length command.revision_ids == 0
        || not (all (contains (source_revision_ids projection)) command.revision_ids))
      (attribution_error "memory usage cited a revision outside the source projection")
  raise_if (ltb now command.occurred_at)
      (domain_error "memory usage occurred_at must not be in the future")
  u ← make_usage (record {
    id = usage_id;
    scope = command.scope;
    trace_id = command.trace_id;
    algorithm = command.algorithm;
    budget_characters = command.budget_characters;
    source_projection_sha256 = command.source_projection_sha256;
    delivered_context_sha256 = command.delivered_context_sha256;
    revision_ids = command.revision_ids;
    idempotency_key = command.idempotency_key;
    occurred_at = command.occurred_at;
    recorded_at = now;
  })
  (stored, created, s') ← save_usage u s
  ok (record { usage = stored; idempotent_replay = not created }, s')

unfoldable pub project_recall_context :
    ⦃d : Digests⦄ → ProjectRecallContext → Store → Result RecallContextProjection
project_recall_context command s = do
  t ← found (trace command.scope command.trace_id s) "recall trace not found in scope"
  project t command.algorithm command.budget_characters

unfoldable pub history : Scope → Uuid → Store → Result (List MemoryRevision)
history scope record_id s = do
  x ← snapshot scope record_id s
  known ← found x "memory record not found in scope"
  revision_history scope record_id s

unfoldable pub list_preferences :
    ⦃h : Hashing⦄ → Scope → Instant → Store → Result (List MemorySnapshot)
list_preferences scope now s = do
  snapshots ← memories_as_of scope now now s
  ok (sorted snapshot_leb (keep (λ (x : MemorySnapshot). is_preference x.memory.kind) snapshots))
