-- ===== src/Service/Recall.antt =====
-- `recall`: the memories of a scope, scored by the active strategy, the best first.
use evolvable_user_memory.Base.{
  ℕ, ◌+◌, ◌-◌, Bool, not, ◌&&◌, ◌||◌, List, [], ◌∷◌, ◌++◌, take, ltb, leb, ◌==◌, nat_eq, Option,
  none, some, min, max, length, if◌then◌else◌,
}
use evolvable_user_memory.Base.Result.{Result, ok, err, domain_error, ◌>>=◌, ◌>>◌, raise_if}
use evolvable_user_memory.Base.Text.{Text, strip}
use evolvable_user_memory.Base.Dict.{Dict, get, insert}
use evolvable_user_memory.Base.Sort.{sorted}
use evolvable_user_memory.Base.Fixed.{one, times}
use evolvable_user_memory.Base.Signed.{ℤ, pos, negsuc}
use evolvable_user_memory.Common.{Uuid, Instant, ContextSignature, Hashing, similarity}
use evolvable_user_memory.Memory.{MemoryRecord, MemoryRevision, MemorySnapshot}
use evolvable_user_memory.Experience.{
  ScoreBreakdown, make_breakdown, RecalledItem, make_item, RecallTrace, make_trace, mean,
}
use evolvable_user_memory.Evolution.Strategy.{RetrievalWeights, StrategySnapshot}
use evolvable_user_memory.Store.State.{Store, save_trace}
use evolvable_user_memory.Store.Memories.{memories_as_of, cons_some}
use evolvable_user_memory.Store.Feedback.{utility_for_as_of}
use evolvable_user_memory.Commands.{RecallMemory}
use evolvable_user_memory.Service.Lexical.{Folding, lexical_similarity}

-- `pow(0.5, age_days / half_life_days)` of an age in microseconds and a half-life in 10 ^ -12 days.
pub record Decay : Type 0 where
  pub half_power : (age half_life : ℕ) → ℕ

-- `{hit.revision_id: hit.score for hit in hits}`
unfoldable pub scores_of : List (Uuid × ℕ) → Dict Uuid ℕ → Dict Uuid ℕ
scores_of [] d = d
scores_of ((revision_id, score) ∷ hits) d = scores_of hits (insert revision_id score d)

abbrev pub or_zero : Option ℕ → ℕ
or_zero none = 0
or_zero (some v) = v

-- `_passes_relevance_admission`
unfoldable pub passes_relevance_admission : ℕ → ContextSignature → ContextSignature → ℕ → Bool
passes_relevance_admission semantic stored requested context_score =
    ltb 0 semantic
    || (not (length stored.facets == 0)
        && not (length requested.facets == 0)
        && ltb 0 context_score)

-- `_weighted_score`
unfoldable pub weighted_score : ScoreBreakdown → RetrievalWeights → ℕ
weighted_score b w = min one (
    times b.semantic w.semantic
    + times b.context w.context
    + times b.belief w.belief
    + times b.utility w.utility
    + times b.recency w.recency)

pub record Entry : Type 0 where
  pub score : ℕ
  pub memory : MemoryRecord
  pub revision : MemoryRevision
  pub breakdown : ScoreBreakdown

-- A score of either sign as `ScoreBreakdown.__post_init__` reads it, which refuses a negative one.
unfoldable pub unit_of : ℤ → Result ℕ
unit_of (pos n) = ok n
unit_of (negsuc n) = err (domain_error "score must be between 0 and 1")

-- What the body of the loop hands to `ScoreBreakdown(...)`.
unfoldable pub breakdown_for :
    ⦃h : Hashing⦄ ⦃f : Folding⦄ ⦃d : Decay⦄
    → Text
    → RecallMemory
    → StrategySnapshot
    → Dict Uuid ℕ
    → (valid_at known_at : Instant) → Store
    → MemorySnapshot
    → ℕ
    → ScoreBreakdown
breakdown_for ⦃d = d⦄ query command policy vector_scores valid_at known_at s x context =
    let lexical = lexical_similarity query (x.memory.key ++ b' ' ∷ x.revision.value) in
    let vector = get x.revision.id vector_scores in
    record {
      semantic = max lexical (or_zero vector);
      context = context;
      belief = x.revision.belief.confidence;
      utility = mean (utility_for_as_of command.scope x.revision.id command.context known_at s);
      recency =
          d.half_power (valid_at - x.revision.belief.last_evidence_at)
            policy.recency_half_life_days;
      lexical = some lexical;
      vector = vector;
    }

-- The body of the loop, once the breakdown is made.
unfoldable pub entry_for :
    RecallMemory → StrategySnapshot → MemorySnapshot → ScoreBreakdown → Option Entry
entry_for command policy x b =
    let score = weighted_score b policy.weights in
    if passes_relevance_admission b.semantic x.memory.context command.context b.context
      && leb policy.min_score score
    then some (record { score = score; memory = x.memory; revision = x.revision; breakdown = b })
    else none

unfoldable pub entries_for :
    ⦃h : Hashing⦄ ⦃f : Folding⦄ ⦃d : Decay⦄
    → Text
    → RecallMemory
    → StrategySnapshot
    → Dict Uuid ℕ
    → (valid_at known_at : Instant) → Store
    → List MemorySnapshot
    → Result (List Entry)
entries_for query command policy vector_scores valid_at known_at s [] = ok []
entries_for query command policy vector_scores valid_at known_at s (x ∷ xs) = do
  context ← unit_of (similarity x.memory.context command.context)
  breakdown ←
      make_breakdown
        (breakdown_for query command policy vector_scores valid_at known_at s x context)
  rest ← entries_for query command policy vector_scores valid_at known_at s xs
  ok (cons_some (entry_for command policy x breakdown) rest)

-- `sort(key=(score, recorded_at, str(revision.id)), reverse=True)`
abbrev pub entry_geb : Entry → Entry → Bool
entry_geb a b =
    ltb b.score a.score
    || (a.score == b.score
        && (ltb b.revision.recorded_at a.revision.recorded_at
            || (a.revision.recorded_at == b.revision.recorded_at
                && leb b.revision.id a.revision.id)))

abbrev pub item_for : ℕ → Entry → RecalledItem
item_for rank e = record {
  record_id = e.memory.id;
  revision_id = e.revision.id;
  key = e.memory.key;
  value = e.revision.value;
  context = e.memory.context;
  revision_valid_from = e.revision.valid_from;
  revision_recorded_at = e.revision.recorded_at;
  rank = rank;
  score = e.score;
  breakdown = e.breakdown;
  evidence_ids = e.revision.evidence_ids;
}

-- The generator over `enumerate(..., start=rank)`
unfoldable pub items_from : ℕ → List Entry → Result (List RecalledItem)
items_from rank [] = ok []
items_from rank (e ∷ es) = do
  item ← make_item (item_for rank e)
  rest ← items_from (rank + 1) es
  ok (item ∷ rest)

abbrev pub or_now : Option Instant → Instant → Instant
or_now none now = now
or_now (some t) now = t

-- `recall`. The policy is the one in force, `hits` what the recall projection answers, if there is
-- one.
unfoldable pub recall :
    ⦃h : Hashing⦄ ⦃f : Folding⦄ ⦃d : Decay⦄
    → RecallMemory
    → StrategySnapshot
    → List (Uuid × ℕ)
    → Instant
    → Uuid
    → Store
    → Result (RecallTrace × Store)
recall command policy hits now trace_id s = do
  raise_if (not (leb 1 command.limit && leb command.limit 100))
      (domain_error "recall limit must be in [1, 100]")
  let query = strip command.query
  raise_if (length query == 0) (domain_error "recall query must not be blank")
  let valid_at = or_now command.valid_at now
  let known_at = or_now command.known_at now
  raise_if (ltb now known_at) (domain_error "known_at must not be in the future")
  snapshots ← memories_as_of command.scope valid_at known_at s
  scored ← entries_for query command policy (scores_of hits []) valid_at known_at s snapshots
  items ← items_from 1 (take command.limit (sorted entry_geb scored))
  trace ← make_trace (record {
    id = trace_id;
    scope = command.scope;
    query = query;
    context = command.context;
    policy_id = policy.id;
    policy_version = policy.version;
    items = items;
    valid_at = valid_at;
    known_at = known_at;
    created_at = now;
  })
  ok (trace, save_trace trace s)
