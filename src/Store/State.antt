-- ===== src/Store/State.antt =====
-- The memory part of the state of `InMemoryMemoryStore`, ingestion and traces.
use evolvable_user_memory.Base.{
  ◌||◌, List, [], ◌==◌, ◌!=◌, nat_eq, list_eq, pair_eq, Option, none, some, if◌then◌else◌,
}
use evolvable_user_memory.Base.Result.{Result, ok, err, conflict_error, ◌>>◌, raise_if}
use evolvable_user_memory.Base.Text.{Text}
use evolvable_user_memory.Base.Dict.{Dict, get, insert, has}
use evolvable_user_memory.Common.{Uuid, Scope, scope_eq}
use evolvable_user_memory.Evidence.{Observation, EvidenceSpan, Candidate}
use evolvable_user_memory.Memory.{MemoryRecord, MemoryRevision, RevisionTransition}
use evolvable_user_memory.Experience.{RecallTrace, MemoryUsage, OutcomeEvent, UtilityEstimate}

pub record Store : Type 0 where
  pub observations : Dict Uuid Observation
  pub observation_keys : Dict (Scope × Text) Uuid
  pub evidence : Dict Uuid EvidenceSpan
  pub candidates : Dict Uuid Candidate
  pub candidate_by_observation : Dict Uuid Uuid
  pub records : Dict Uuid MemoryRecord
  pub record_identity : Dict (Scope × (Text × Text)) Uuid
  pub revisions : Dict Uuid MemoryRevision
  pub revision_ids_by_record : Dict Uuid (List Uuid)
  pub active_revision : Dict Uuid Uuid
  pub transitions : List RevisionTransition
  pub traces : Dict Uuid RecallTrace
  pub usages : Dict Uuid MemoryUsage
  pub usage_keys : Dict (Scope × Text) Uuid
  pub outcomes : Dict Uuid OutcomeEvent
  pub outcome_keys : Dict (Scope × Text) Uuid
  pub utilities : Dict (Scope × (Uuid × Text)) UtilityEstimate

abbrev pub empty : Store
empty = record {
  observations = [];
  observation_keys = [];
  evidence = [];
  candidates = [];
  candidate_by_observation = [];
  records = [];
  record_identity = [];
  revisions = [];
  revision_ids_by_record = [];
  active_revision = [];
  transitions = [];
  traces = [];
  usages = [];
  usage_keys = [];
  outcomes = [];
  outcome_keys = [];
  utilities = [];
}

-- `d.get(id) if id else None`
abbrev pub follow {ℓ} : {A : Type ℓ} → Option Uuid → Dict Uuid A → Option A
follow none d = none
follow (some i) d = get i d

unfoldable pub observation_by_idempotency : Scope → Text → Store → Option Observation
observation_by_idempotency scope key s = follow (get (scope, key) s.observation_keys) s.observations

-- The writes of `save_ingestion`.
abbrev pub with_ingestion : Observation → EvidenceSpan → Candidate → Store → Store
with_ingestion o evidence c s = record s {
  observations = insert o.id o s.observations;
  observation_keys = insert (o.scope, o.idempotency_key) o.id s.observation_keys;
  evidence = insert evidence.id evidence s.evidence;
  candidates = insert c.id c s.candidates;
  candidate_by_observation = insert o.id c.id s.candidate_by_observation;
}

unfoldable pub save_ingestion : Observation → EvidenceSpan → Candidate → Store → Result Store
save_ingestion o evidence c s = do
  raise_if (has (o.scope, o.idempotency_key) s.observation_keys)
      (conflict_error "observation idempotency key already exists")
  raise_if (evidence.observation_id != o.id)
      (conflict_error "evidence does not belong to observation")
  raise_if (c.observation_id != o.id || c.scope != o.scope)
      (conflict_error "candidate does not belong to observation scope")
  ok (with_ingestion o evidence c s)

-- The last line of the readers that answer within one scope only.
abbrev pub only_in {ℓ} : {A : Type ℓ} → (A → Scope) → Scope → Option A → Option A
only_in scope_of scope none = none
only_in scope_of scope (some x) = if scope_of x == scope then some x else none

abbrev pub candidate_scope : Candidate → Scope
candidate_scope c = c.scope

unfoldable pub candidate_for_observation : Scope → Uuid → Store → Option Candidate
candidate_for_observation scope observation_id s =
    only_in candidate_scope scope
      (follow (get observation_id s.candidate_by_observation) s.candidates)

unfoldable pub update_candidate : Candidate → Store → Result Store
update_candidate c s =
    if has c.id s.candidates
    then ok (record s { candidates = insert c.id c s.candidates })
    else err (conflict_error "candidate does not exist")

unfoldable pub save_trace : RecallTrace → Store → Store
save_trace t s = record s { traces = insert t.id t s.traces }

abbrev pub trace_scope : RecallTrace → Scope
trace_scope t = t.scope

unfoldable pub trace : Scope → Uuid → Store → Option RecallTrace
trace scope trace_id s = only_in trace_scope scope (get trace_id s.traces)
