-- ===== src/Service/Ingestion.antt =====
-- `remember_preference` and `correct_preference`: an observation, its evidence and candidate, and the
-- revision that the candidate becomes. Each method is one transaction.
use evolvable_user_memory.Base.{
  ℕ, ◌+◌, ◌≡◌, ◌↔◌, Bool, true, false, not, ◌||◌, List, [], ◌∷◌, ◌++◌, length, ◌==◌, ◌!=◌, Eq,
  nat_eq, list_eq, option_eq, arith, Option, none, some, if◌then◌else◌,
}
use evolvable_user_memory.Base.Result.{
  Result, ok, err, domain_error, not_found_error, conflict_error, ◌>>=◌, ◌>>◌, raise_if,
}
use evolvable_user_memory.Base.Text.{Text, text}
use evolvable_user_memory.Base.Dict.{Dict, get, insert}
use evolvable_user_memory.Base.Fixed.{one}
use evolvable_user_memory.Common.{Uuid, Instant, Hashing, fingerprint}
use evolvable_user_memory.Evidence.{
  Observation, ObservationKind, make_observation, EvidenceStance, make_evidence, Candidate,
  CandidateState, make_candidate, accept,
}
use evolvable_user_memory.Memory.{
  BeliefState, make_belief, reinforced, MemoryKind, make_record, MemoryRevision, make_revision,
  TransitionKind, make_revision_transition, MemorySnapshot,
}
use evolvable_user_memory.Commands.{RememberPreference, CorrectPreference, PreferenceResult}
use evolvable_user_memory.Store.State.{
  Store, observation_by_idempotency, save_ingestion, candidate_for_observation, update_candidate,
}
use evolvable_user_memory.Store.Memories.{
  snapshot, current_by_identity, add_memory, append_revision, revision_history,
}

-- What one call reads from the clock and draws from the id generator.
pub record Draws : Type 0 where
  pub now : Instant
  pub observation_id : Uuid
  pub evidence_id : Uuid
  pub candidate_id : Uuid
  pub accepted_at : Instant
  pub record_id : Uuid
  pub revision_id : Uuid
  pub transition_id : Uuid

abbrev observation_kind_code : ObservationKind → ℕ
observation_kind_code ObservationKind.message = 0
observation_kind_code ObservationKind.action = 1
observation_kind_code ObservationKind.tool_result = 2
observation_kind_code ObservationKind.user_feedback = 3
observation_kind_code ObservationKind.outcome = 4

abbrev pub observation_kind_beq : ObservationKind → ObservationKind → Bool
observation_kind_beq a b = observation_kind_code a == observation_kind_code b

pub observation_kind_beq_iff : (a b : ObservationKind) → (observation_kind_beq a b ≡ true) ↔ (a ≡ b)
observation_kind_beq_iff a b = (λ h. ground arith, λ h. ground arith)

instance abbrev pub observation_kind_eq : Eq ObservationKind
observation_kind_eq = record { beq = observation_kind_beq; beq_iff = observation_kind_beq_iff }

abbrev pub is_preference : MemoryKind → Bool
is_preference MemoryKind.preference = true
is_preference _ = false

-- `dict(pairs)`
unfoldable pub dict_of : List (Text × Text) → Dict Text Text → Dict Text Text
dict_of [] d = d
dict_of ((k, v) ∷ pairs) d = dict_of pairs (insert k v d)

-- The arguments of `_existing_preference_result` that an observation must match.
pub record Replay : Type 0 where
  pub kind : ObservationKind
  pub source : Text
  pub key : Text
  pub value : Text
  pub context_fingerprint : Text
  pub evidence_text : Text
  pub confidence : ℕ
  pub record_id : Option Uuid
  pub correction_reason : Option Text

abbrev pub is_other : Option Uuid → Uuid → Bool
is_other none accepted = false
is_other (some expected) accepted = accepted != expected

unfoldable pub replay_differs : ⦃h : Hashing⦄ → Observation → Candidate → Uuid → Replay → Bool
replay_differs o c accepted_record_id r =
    o.kind != r.kind
    || o.source != r.source
    || o.content != r.evidence_text
    || c.key != r.key
    || c.value != r.value
    || fingerprint c.context != r.context_fingerprint
    || c.confidence != r.confidence
    || is_other r.record_id accepted_record_id
    || get (text "correction_reason") (dict_of o.metadata []) != r.correction_reason

-- `next((revision for revision in history if revision.id == id), None)`
unfoldable pub revision_with : Uuid → List MemoryRevision → Option MemoryRevision
revision_with i [] = none
revision_with i (r ∷ rs) = let rest = revision_with i rs in if r.id == i then some r else rest

-- The end of `_existing_preference_result`.
abbrev pub replayed :
    Observation
    → Candidate
    → (record_id revision_id : Uuid) → Option MemorySnapshot
    → Option MemoryRevision
    → Result PreferenceResult
replayed o c record_id revision_id (some x) (some matching) = ok (record {
  observation_id = o.id;
  candidate_id = c.id;
  record_id = record_id;
  revision_id = revision_id;
  sequence = matching.sequence;
  idempotent_replay = true;
})
replayed o c record_id revision_id x matching =
    err (conflict_error "accepted idempotent result is no longer resolvable")

-- `_existing_preference_result`, for a candidate that was accepted
abbrev pub accepted_result :
    ⦃h : Hashing⦄
    → Observation
    → Candidate
    → Option Uuid
    → Option Uuid
    → Replay
    → Store
    → Result PreferenceResult
accepted_result o c (some record_id) (some revision_id) r s = do
  raise_if (replay_differs o c record_id r)
      (conflict_error "idempotency key was reused for a different preference request")
  x ← snapshot c.scope record_id s
  history ← revision_history c.scope record_id s
  replayed o c record_id revision_id x (revision_with revision_id history)
accepted_result o c record_id revision_id r s =
    err (conflict_error "idempotency key belongs to an incomplete ingestion")

-- `_existing_preference_result`
unfoldable pub existing_preference_result :
    ⦃h : Hashing⦄ → Observation → Replay → Store → Result PreferenceResult
existing_preference_result o r s = elim (candidate_for_observation o.scope o.id s) [
  | none ↦ err (conflict_error "idempotency key belongs to an incomplete ingestion")
  | some c ↦ accepted_result o c c.accepted_record_id c.accepted_revision_id r s
]

-- The belief of a value that is seen for the first time.
abbrev pub first_belief : Candidate → Instant → Text → BeliefState
first_belief c valid_from source = record {
  confidence = c.confidence;
  support_count = 1;
  contradiction_count = 0;
  source_diversity = 1;
  last_evidence_at = valid_from;
  source_keys = source ∷ [];
}

abbrev pub result_for : Candidate → MemoryRevision → PreferenceResult
result_for c r = record {
  observation_id = c.observation_id;
  candidate_id = c.id;
  record_id = r.record_id;
  revision_id = r.id;
  sequence = r.sequence;
  idempotent_replay = false;
}

-- The branch of `_accept_candidate` for a new memory; the result is the revision and the store.
unfoldable pub accept_new :
    ⦃h : Hashing⦄
    → Candidate
    → Instant
    → Text
    → Option Text
    → Draws
    → Store
    → Result (MemoryRevision × Store)
accept_new c valid_from source reason draws s = do
  memory ← make_record (record {
    id = draws.record_id;
    scope = c.scope;
    kind = MemoryKind.preference;
    key = c.key;
    context = c.context;
    created_at = draws.accepted_at;
  })
  belief ← make_belief (first_belief c valid_from source)
  revision ← make_revision (record {
    id = draws.revision_id;
    record_id = memory.id;
    sequence = 1;
    value = c.value;
    belief = belief;
    evidence_ids = c.evidence_ids;
    valid_from = valid_from;
    recorded_at = draws.accepted_at;
    supersedes_revision_id = none;
  })
  t ← make_revision_transition (record {
    id = draws.transition_id;
    record_id = memory.id;
    kind = TransitionKind.created;
    occurred_at = draws.accepted_at;
    to_revision_id = some revision.id;
    from_revision_id = none;
    reason = reason;
  })
  added ← add_memory memory revision t s
  ok (revision, added)

-- The belief and the evidence of the next revision: a repeated value reinforces the belief.
abbrev pub next_belief :
    Candidate → Instant → Text → MemoryRevision → Result (BeliefState × List Uuid)
next_belief c valid_from source current =
    if current.value == c.value
    then (do
      belief ← reinforced current.belief c.confidence valid_from (some source)
      ok (belief, current.evidence_ids ++ c.evidence_ids))
    else (do belief ← make_belief (first_belief c valid_from source); ok (belief, c.evidence_ids))

-- The branch of `_accept_candidate` for a memory that is there.
unfoldable pub accept_next :
    Candidate
    → Instant
    → Text
    → Option Text
    → Option Uuid
    → Draws
    → MemorySnapshot
    → Store
    → Result (MemoryRevision × Store)
accept_next c valid_from source reason expected_record_id draws current s = do
  raise_if (is_other expected_record_id current.memory.id)
      (conflict_error "correction target does not match active memory identity")
  (belief, evidence_ids) ← next_belief c valid_from source current.revision
  revision ← make_revision (record {
    id = draws.revision_id;
    record_id = current.memory.id;
    sequence = current.revision.sequence + 1;
    value = c.value;
    belief = belief;
    evidence_ids = evidence_ids;
    valid_from = valid_from;
    recorded_at = draws.accepted_at;
    supersedes_revision_id = some current.revision.id;
  })
  t ← make_revision_transition (record {
    id = draws.transition_id;
    record_id = current.memory.id;
    kind = TransitionKind.superseded;
    occurred_at = draws.accepted_at;
    to_revision_id = some revision.id;
    from_revision_id = some current.revision.id;
    reason = reason;
  })
  appended ← append_revision current.revision.id revision t s
  ok (revision, appended)

abbrev pub accept_either :
    ⦃h : Hashing⦄
    → Candidate
    → Instant
    → Text
    → Option Text
    → Option Uuid
    → Draws
    → Option MemorySnapshot
    → Store
    → Result (MemoryRevision × Store)
accept_either c valid_from source reason none draws none s =
    accept_new c valid_from source reason draws s
accept_either c valid_from source reason (some i) draws none s =
    err (conflict_error "expected memory record is no longer active")
accept_either c valid_from source reason expected_record_id draws (some current) s =
    accept_next c valid_from source reason expected_record_id draws current s

-- `_accept_candidate`
unfoldable pub accept_candidate :
    ⦃h : Hashing⦄
    → Candidate
    → Instant
    → Text
    → Option Text
    → Option Uuid
    → Draws
    → Store
    → Result (PreferenceResult × Store)
accept_candidate c valid_from source reason expected_record_id draws s = do
  current ← current_by_identity c.scope c.key c.context s
  (revision, stored) ← accept_either c valid_from source reason expected_record_id draws current s
  accepted ← accept c revision.record_id revision.id
  done ← update_candidate accepted stored
  ok (result_for c revision, done)

-- The `except ConflictError` of `save_ingestion`: another call may have taken the key.
abbrev pub or_replayed {ℓ} :
    {A : Type ℓ}
    → Result Store
    → (Store → Result A)
    → Option Observation
    → (Observation → Result A)
    → Result A
or_replayed (ok s) go concurrent replay = go s
or_replayed (err (conflict_error m)) go none replay = err (conflict_error m)
or_replayed (err (conflict_error m)) go (some o) replay = replay o
or_replayed (err e) go concurrent replay = err e

abbrev pub remember_replay : ⦃h : Hashing⦄ → RememberPreference → Replay
remember_replay command = record {
  kind = ObservationKind.message;
  source = command.source;
  key = command.key;
  value = command.value;
  context_fingerprint = fingerprint command.context;
  evidence_text = command.evidence_text;
  confidence = command.confidence;
  record_id = none;
  correction_reason = none;
}

-- The answer to a retry leaves the store as it is.
abbrev pub answered : Result PreferenceResult → Store → Result (PreferenceResult × Store)
answered r s = do result ← r; ok (result, s)

-- `remember_preference` when the idempotency key is new
unfoldable pub remember_new :
    ⦃h : Hashing⦄ → RememberPreference → Draws → Store → Result (PreferenceResult × Store)
remember_new command draws s = do
  o ← make_observation (record {
    id = draws.observation_id;
    scope = command.scope;
    kind = ObservationKind.message;
    source = command.source;
    content = command.evidence_text;
    idempotency_key = command.idempotency_key;
    occurred_at = command.occurred_at;
    ingested_at = draws.now;
    metadata = [];
  })
  evidence ←
      make_evidence draws.evidence_id o.id command.evidence_text EvidenceStance.supports 0
        (some (length command.evidence_text))
  c ← make_candidate (record {
    id = draws.candidate_id;
    scope = command.scope;
    observation_id = o.id;
    key = command.key;
    value = command.value;
    context = command.context;
    evidence_ids = evidence.id ∷ [];
    confidence = command.confidence;
    proposed_at = draws.now;
    state = CandidateState.proposed;
    accepted_record_id = none;
    accepted_revision_id = none;
  })
  or_replayed (save_ingestion o evidence c s)
      (accept_candidate c command.occurred_at command.source none none draws)
      (observation_by_idempotency command.scope command.idempotency_key s)
      (λ concurrent. answered (existing_preference_result concurrent (remember_replay command) s) s)

unfoldable pub remember_preference :
    ⦃h : Hashing⦄ → RememberPreference → Draws → Store → Result (PreferenceResult × Store)
remember_preference command draws s =
    elim (observation_by_idempotency command.scope command.idempotency_key s) [
      | some existing ↦ answered (existing_preference_result existing (remember_replay command) s) s
      | none ↦ remember_new command draws s
    ]

abbrev pub correct_replay : ⦃h : Hashing⦄ → CorrectPreference → MemorySnapshot → Replay
correct_replay command current = record {
  kind = ObservationKind.user_feedback;
  source = command.source;
  key = current.memory.key;
  value = command.value;
  context_fingerprint = fingerprint current.memory.context;
  evidence_text = command.evidence_text;
  confidence = one;
  record_id = some command.record_id;
  correction_reason = some command.reason;
}

-- `correct_preference` when the idempotency key is new
unfoldable pub correct_new :
    ⦃h : Hashing⦄
    → CorrectPreference
    → MemorySnapshot
    → Draws
    → Store
    → Result (PreferenceResult × Store)
correct_new command current draws s = do
  raise_if (is_other command.expected_revision_id current.revision.id)
      (conflict_error "expected revision is no longer active")
  o ← make_observation (record {
    id = draws.observation_id;
    scope = command.scope;
    kind = ObservationKind.user_feedback;
    source = command.source;
    content = command.evidence_text;
    idempotency_key = command.idempotency_key;
    occurred_at = command.occurred_at;
    ingested_at = draws.now;
    metadata = (text "correction_reason", command.reason) ∷ [];
  })
  evidence ←
      make_evidence draws.evidence_id o.id command.evidence_text EvidenceStance.supports 0
        (some (length command.evidence_text))
  c ← make_candidate (record {
    id = draws.candidate_id;
    scope = command.scope;
    observation_id = o.id;
    key = current.memory.key;
    value = command.value;
    context = current.memory.context;
    evidence_ids = evidence.id ∷ [];
    confidence = one;
    proposed_at = draws.now;
    state = CandidateState.proposed;
    accepted_record_id = none;
    accepted_revision_id = none;
  })
  or_replayed (save_ingestion o evidence c s)
      (accept_candidate c command.occurred_at command.source (some command.reason)
        (some command.record_id) draws)
      (observation_by_idempotency command.scope command.idempotency_key s)
      (λ concurrent.
        answered (existing_preference_result concurrent (correct_replay command current) s) s)

abbrev pub correct_current :
    ⦃h : Hashing⦄
    → CorrectPreference
    → Option MemorySnapshot
    → Draws
    → Store
    → Result (PreferenceResult × Store)
correct_current command none draws s = err (not_found_error "memory record not found in scope")
correct_current command (some current) draws s = do
  raise_if (not (is_preference current.memory.kind))
      (domain_error "only preference memories can use this correction command")
  elim (observation_by_idempotency command.scope command.idempotency_key s) [
    | some existing ↦
        answered (existing_preference_result existing (correct_replay command current) s) s
    | none ↦ correct_new command current draws s
  ]

unfoldable pub correct_preference :
    ⦃h : Hashing⦄ → CorrectPreference → Draws → Store → Result (PreferenceResult × Store)
correct_preference command draws s = do
  current ← snapshot command.scope command.record_id s
  correct_current command current draws s
