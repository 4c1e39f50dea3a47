-- ===== src/Evidence.antt =====
-- domain/evidence.py: observations, evidence spans and memory candidates.
use evolvable_user_memory.Base.{ℕ, List, length, ◌==◌, ltb, leb, nat_eq, Option, none, some}
use evolvable_user_memory.Base.Result.{Result, ok, err, domain_error, ◌>>=◌, ◌>>◌, raise_if}
use evolvable_user_memory.Base.Text.{Text}
use evolvable_user_memory.Base.Sort.{sorted}
use evolvable_user_memory.Base.Fixed.{one}
use evolvable_user_memory.Common.{Uuid, Instant, Scope, ContextSignature, require_text, facet_leb}

pub data ObservationKind : Type 0 where
  message action tool_result user_feedback outcome : ObservationKind

pub data EvidenceStance : Type 0 where
  supports contradicts : EvidenceStance

pub data CandidateState : Type 0 where
  proposed accepted rejected quarantined : CandidateState

pub record Observation : Type 0 where
  pub id : Uuid
  pub scope : Scope
  pub kind : ObservationKind
  pub source : Text
  pub content : Text
  pub idempotency_key : Text
  pub occurred_at : Instant
  pub ingested_at : Instant
  pub metadata : List (Text × Text)

unfoldable pub make_observation : Observation → Result Observation
make_observation o = do
  source ← require_text o.source
  content ← require_text o.content
  key ← require_text o.idempotency_key
  ok (record o {
    source = source;
    content = content;
    idempotency_key = key;
    metadata = sorted facet_leb o.metadata;
  })

pub record EvidenceSpan : Type 0 where
  pub id : Uuid
  pub observation_id : Uuid
  pub quote : Text
  pub stance : EvidenceStance
  pub start_offset : ℕ
  pub end_offset : ℕ

abbrev pub or_length : Option ℕ → Text → ℕ
or_length none quote = length quote
or_length (some end_offset) quote = end_offset

-- `EvidenceSpan.__post_init__`; an absent end is the length of the stripped quote.
unfoldable pub make_evidence :
    (id observation_id : Uuid)
    → Text
    → EvidenceStance
    → (start_offset : ℕ) → (end_offset : Option ℕ) → Result EvidenceSpan
make_evidence id observation_id quote stance start_offset end_offset = do
  required ← require_text quote
  raise_if (leb (or_length end_offset required) start_offset)
      (domain_error "end_offset must be greater than start_offset")
  ok (record {
    id = id;
    observation_id = observation_id;
    quote = required;
    stance = stance;
    start_offset = start_offset;
    end_offset = or_length end_offset required;
  })

pub record Candidate : Type 0 where
  pub id : Uuid
  pub scope : Scope
  pub observation_id : Uuid
  pub key : Text
  pub value : Text
  pub context : ContextSignature
  pub evidence_ids : List Uuid
  pub confidence : ℕ
  pub proposed_at : Instant
  pub state : CandidateState
  pub accepted_record_id : Option Uuid
  pub accepted_revision_id : Option Uuid

unfoldable pub make_candidate : Candidate → Result Candidate
make_candidate c = do
  key ← require_text c.key
  value ← require_text c.value
  raise_if (length c.evidence_ids == 0)
      (domain_error "candidate must reference at least one evidence span")
  raise_if (ltb one c.confidence) (domain_error "confidence must be between 0 and 1")
  ok (record c { key = key; value = value })

-- `accept`; `replace` runs the constructor again.
unfoldable pub accept : Candidate → (record_id revision_id : Uuid) → Result Candidate
accept c record_id revision_id = elim c.state [
  | CandidateState.proposed ↦ make_candidate (record c {
    state = CandidateState.accepted;
    accepted_record_id = some record_id;
    accepted_revision_id = some revision_id;
  })
  | _ ↦ err (domain_error "only proposed candidates can be accepted")
]
