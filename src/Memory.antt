-- ===== src/Memory.antt =====
-- domain/memory.py: beliefs, records, revisions, transitions and snapshots of memories.
use evolvable_user_memory.Base.{
  ℕ, ◌+◌, ◌-◌, ◌&&◌, List, [], ◌∷◌, ◌++◌, length, ◌==◌, ◌!=◌, ltb, nat_eq, list_eq, Option, none,
  some, max, min, if◌then◌else◌,
}
use evolvable_user_memory.Base.Result.{Result, ok, domain_error, ◌>>=◌, ◌>>◌, raise_if}
use evolvable_user_memory.Base.Text.{Text}
use evolvable_user_memory.Base.Sort.{sorted, set_of}
use evolvable_user_memory.Base.Fixed.{one, times}
use evolvable_user_memory.Common.{Uuid, Instant, Scope, ContextSignature, require_text, text_leb}

pub data MemoryKind : Type 0 where
  preference episodic semantic procedural prospective : MemoryKind

pub data TransitionKind : Type 0 where
  created superseded retracted suppressed restored : TransitionKind

pub record BeliefState : Type 0 where
  pub confidence : ℕ
  pub support_count : ℕ
  pub contradiction_count : ℕ
  pub source_diversity : ℕ
  pub last_evidence_at : Instant
  pub source_keys : List Text

unfoldable pub require_texts : List Text → Result (List Text)
require_texts [] = ok []
require_texts (s ∷ rest) = do text ← require_text s; texts ← require_texts rest; ok (text ∷ texts)

unfoldable pub make_belief : BeliefState → Result BeliefState
make_belief b = do
  raise_if (ltb one b.confidence) (domain_error "belief confidence must be between 0 and 1")
  sources ← require_texts b.source_keys
  let canonical = sorted text_leb (set_of sources)
  raise_if (length canonical != 0 && b.source_diversity != length canonical)
      (domain_error "source_diversity must match the number of known sources")
  ok (record b { source_keys = canonical })

-- 0.995
abbrev pub max_confidence : ℕ
max_confidence = 995_000_000_000

abbrev pub combined : ℕ → ℕ → ℕ
combined confidence evidence = one - times (one - confidence) (one - evidence)

-- `sources.add(require_text(source, ...))` when there is a source
unfoldable pub add_source : List Text → Option Text → Result (List Text)
add_source sources none = ok sources
add_source sources (some source) = do required ← require_text source; ok (sources ++ required ∷ [])

-- What `reinforced` hands to the constructor.
abbrev pub reinforced_with : BeliefState → ℕ → Instant → List Text → BeliefState
reinforced_with b evidence_confidence at canonical = record {
  confidence = min max_confidence (combined b.confidence evidence_confidence);
  support_count = b.support_count + 1;
  contradiction_count = b.contradiction_count;
  source_diversity =
      if length b.source_keys == 0
      then max b.source_diversity (length canonical)
      else length canonical;
  last_evidence_at = max b.last_evidence_at at;
  source_keys = if length b.source_keys == 0 then [] else canonical;
}

unfoldable pub reinforced : BeliefState → ℕ → Instant → Option Text → Result BeliefState
reinforced b evidence_confidence at source = do
  raise_if (ltb one evidence_confidence)
      (domain_error "evidence confidence must be between 0 and 1")
  sources ← add_source b.source_keys source
  make_belief (reinforced_with b evidence_confidence at (sorted text_leb (set_of sources)))

pub record MemoryRecord : Type 0 where
  pub id : Uuid
  pub scope : Scope
  pub kind : MemoryKind
  pub key : Text
  pub context : ContextSignature
  pub created_at : Instant

unfoldable pub make_record : MemoryRecord → Result MemoryRecord
make_record r = do key ← require_text r.key; ok (record r { key = key })

pub record MemoryRevision : Type 0 where
  pub id : Uuid
  pub record_id : Uuid
  pub sequence : ℕ
  pub value : Text
  pub belief : BeliefState
  pub evidence_ids : List Uuid
  pub valid_from : Instant
  pub recorded_at : Instant
  pub supersedes_revision_id : Option Uuid

unfoldable pub make_revision : MemoryRevision → Result MemoryRevision
make_revision r = do
  raise_if (ltb r.sequence 1) (domain_error "revision sequence must be positive")
  value ← require_text r.value
  raise_if (length r.evidence_ids == 0) (domain_error "revision must reference evidence")
  ok (record r { value = value })

pub record RevisionTransition : Type 0 where
  pub id : Uuid
  pub record_id : Uuid
  pub kind : TransitionKind
  pub occurred_at : Instant
  pub to_revision_id : Option Uuid
  pub from_revision_id : Option Uuid
  pub reason : Option Text

unfoldable pub make_revision_transition : RevisionTransition → Result RevisionTransition
make_revision_transition t = elim t.reason [
  | none ↦ ok t
  | some reason ↦ do required ← require_text reason; ok (record t { reason = some required })
]

pub record MemorySnapshot : Type 0 where
  pub memory : MemoryRecord
  pub revision : MemoryRevision

unfoldable pub make_snapshot : MemoryRecord → MemoryRevision → Result MemorySnapshot
make_snapshot memory revision = do
  raise_if (memory.id != revision.record_id)
      (domain_error "snapshot record and revision do not match")
  ok (record { memory = memory; revision = revision })
