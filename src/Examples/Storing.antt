-- ===== src/Examples/Storing.antt =====
-- A store with one memory, its correction, a usage receipt and an outcome.
use evolvable_user_memory.Base.{
  ◌*◌, ◌≡◌, ◌≢◌, ◌⊎◌, refl, true, false, none, some, [], ◌∷◌, nat_eq, All, list_eq, pair_eq, ◌==◌,
  ==_iff, Bool-cases, inl, inr,
}
use evolvable_user_memory.Base.Result.{ok}
use evolvable_user_memory.Base.Dict.{get, insert, remove, keep_keys}
use evolvable_user_memory.Base.Sort.{sorted, set_of}
use evolvable_user_memory.Base.Fixed.{one, percent, times}
use evolvable_user_memory.Base.Text.{text}
use evolvable_user_memory.Common.{Uuid, Scope, Hashing, fingerprint}
use evolvable_user_memory.Projection.{exact_deduplicated}
use evolvable_user_memory.Experience.{
  RecallTrace, MemoryUsage, OutcomeEvent, OutcomeKind, UtilityEstimate, updated, success_value,
}
use evolvable_user_memory.Memory.{
  BeliefState, MemoryKind, MemoryRecord, MemoryRevision, RevisionTransition, TransitionKind,
  make_snapshot,
}
use evolvable_user_memory.Store.State.{Store, empty, trace, save_trace}
use evolvable_user_memory.Store.Memories.{
  add_memory, append_revision, with_memory, with_revision, snapshot, memories_as_of, head_as_of,
  heads_as_of, revisions_for, newest, newest_from,
}
use evolvable_user_memory.Store.Feedback.{
  save_usage, with_usage, apply_outcome, with_outcome, utility_for, usage_differs, outcome_differs,
}
use evolvable_user_memory.Store.Replay.{save_usage-replay, apply_outcome-replay}
use evolvable_user_memory.Store.Chain.{IsConsistent, IsConsistent-empty}
use evolvable_user_memory.Store.Revisions.{add_memory-IsConsistent, append_revision-IsConsistent}
use evolvable_user_memory.Store.Snapshots.{snapshot-returns}
use evolvable_user_memory.Store.Visible.{IsVisible, memories_as_of-IsVisible}
use evolvable_user_memory.Store.Erasure.{
  ErasureSummary, erase_scope, remove_all, total_for, erase_scope-trace,
}
use evolvable_user_memory.Examples.Evolving.{at_home}
use evolvable_user_memory.Examples.Compressing.{teas}

abbrev pub identity : Hashing
identity = record { hexdigest = λ s. s }

abbrev pub ann : Scope
ann = record { tenant_id = text "acme"; subject_id = text "ann" }

abbrev belief : BeliefState
belief = record {
  confidence = percent 80;
  support_count = 1;
  contradiction_count = 0;
  source_diversity = 1;
  last_evidence_at = 1;
  source_keys = text "chat" ∷ [];
}

abbrev drink : MemoryRecord
drink = record {
  id = 1;
  scope = ann;
  kind = MemoryKind.preference;
  key = text "drink";
  context = at_home;
  created_at = 2;
}

abbrev coffee : MemoryRevision
coffee = record {
  id = 11;
  record_id = 1;
  sequence = 1;
  value = text "coffee";
  belief = belief;
  evidence_ids = 7 ∷ [];
  valid_from = 1;
  recorded_at = 2;
  supersedes_revision_id = none;
}

abbrev tea : MemoryRevision
tea = record coffee {
  id = 12;
  sequence = 2;
  value = text "tea";
  valid_from = 4;
  recorded_at = 5;
  supersedes_revision_id = some 11;
}

abbrev creation : RevisionTransition
creation = record {
  id = 21;
  record_id = 1;
  kind = TransitionKind.created;
  occurred_at = 2;
  to_revision_id = some 11;
  from_revision_id = none;
  reason = none;
}

abbrev correction : RevisionTransition
correction = record {
  id = 22;
  record_id = 1;
  kind = TransitionKind.superseded;
  occurred_at = 5;
  to_revision_id = some 12;
  from_revision_id = some 11;
  reason = none;
}

abbrev pub stored : Store
stored = with_memory ⦃h = identity⦄ drink coffee creation empty

abbrev corrected : Store
corrected = with_revision tea correction (11 ∷ []) stored

program : Unit {0}
unfolding get insert sorted times fingerprint updated success_value make_snapshot add_memory
    append_revision snapshot memories_as_of head_as_of heads_as_of revisions_for newest newest_from
    save_usage apply_outcome utility_for usage_differs outcome_differs erase_scope remove_all
    total_for remove keep_keys set_of save_trace trace
program = tt

memory_added : add_memory ⦃h = identity⦄ drink coffee creation empty ≡ ok stored
unfolding program
memory_added = refl

revision_appended : append_revision 11 tea correction stored ≡ ok corrected
unfolding program
revision_appended = refl

pub stored-IsConsistent : IsConsistent stored
stored-IsConsistent =
    add_memory-IsConsistent ⦃h = identity⦄ drink coffee creation empty stored IsConsistent-empty
      (unfold get in refl) memory_added

add_memory-IsConsistent_example : IsConsistent stored
add_memory-IsConsistent_example =
    add_memory-IsConsistent ⦃h = identity⦄ drink coffee creation empty stored IsConsistent-empty
      (unfold get in refl) memory_added

coffee_only : get 12 stored.revisions ≡ none
unfolding program
coffee_only = refl

append_revision-IsConsistent_example : IsConsistent corrected
append_revision-IsConsistent_example =
    append_revision-IsConsistent 11 tea correction stored corrected stored-IsConsistent coffee_only
      revision_appended

snapshot-returns_example :
    ((snapshot ann 1 stored ≡ ok none)
      × ((get 1 stored.records ≡ none)
          ⊎ ((m : MemoryRecord) × (get 1 stored.records ≡ some m) × (m.scope ≢ ann))
          ⊎ (get 1 stored.active_revision ≡ none)))
    ⊎ ((m : MemoryRecord) × (r : MemoryRevision) × (a : Uuid) × (snapshot ann 1 stored
          ≡ ok (some (record { memory = m; revision = r })))
        × (get 1 stored.records ≡ some m)
        × (m.scope ≡ ann)
        × (get 1 stored.active_revision ≡ some a)
        × (get a stored.revisions ≡ some r)
        × (r.record_id ≡ 1))
snapshot-returns_example = snapshot-returns ann 1 stored stored-IsConsistent

-- Before the correction was known, the first revision is shown.
recalled_at_four :
    memories_as_of ⦃h = identity⦄ ann 4 4 corrected
    ≡ ok (record { memory = drink; revision = coffee } ∷ [])
unfolding program
recalled_at_four = refl

memories_as_of-IsVisible_example :
    All (IsVisible ann 4 4) (record { memory = drink; revision = coffee } ∷ [])
memories_as_of-IsVisible_example =
    memories_as_of-IsVisible ⦃h = identity⦄ ann 4 4 corrected _ recalled_at_four

abbrev delivered : MemoryUsage
delivered = record {
  id = 40;
  scope = ann;
  trace_id = 30;
  algorithm = exact_deduplicated;
  budget_characters = 100;
  source_projection_sha256 = [];
  delivered_context_sha256 = [];
  revision_ids = 12 ∷ [];
  idempotency_key = text "use";
  occurred_at = 6;
  recorded_at = 6;
}

usage_saved : save_usage delivered corrected ≡ ok (delivered, true, with_usage delivered corrected)
unfolding program
usage_saved = refl

save_usage-replay_example :
    save_usage
      (record delivered { id = 41; occurred_at = 8; recorded_at = 9 })
      (with_usage delivered corrected)
    ≡ ok (delivered, false, with_usage delivered corrected)
save_usage-replay_example =
    save_usage-replay delivered delivered true 41 8 9 corrected (with_usage delivered corrected)
      usage_saved

abbrev liked : OutcomeEvent
liked = record {
  id = 50;
  scope = ann;
  trace_id = 30;
  revision_id = 12;
  kind = OutcomeKind.helpful;
  idempotency_key = text "liked";
  occurred_at = 7;
  recorded_at = 7;
  usage_id = some 40;
  weight = 2 * one;
  note = none;
}

abbrev liked_utility : UtilityEstimate
liked_utility = record {
  revision_id = 12;
  context_fingerprint = fingerprint ⦃h = identity⦄ at_home;
  positive_weight = 2 * one;
  negative_weight = 0;
  last_outcome_at = some 7;
}

abbrev rated : Store
rated = with_outcome ⦃h = identity⦄ liked at_home liked_utility corrected

outcome_applied :
    apply_outcome ⦃h = identity⦄ liked at_home corrected ≡ ok (liked, liked_utility, true, rated)
unfolding program
outcome_applied = refl

apply_outcome-replay_example :
    apply_outcome ⦃h = identity⦄
      (record liked { id = 51; occurred_at = 8; recorded_at = 9 })
      at_home
      rated
    ≡ ok (liked, liked_utility, false, rated)
apply_outcome-replay_example =
    apply_outcome-replay ⦃h = identity⦄ liked liked at_home liked_utility true 51 8 9 corrected
      rated outcome_applied

abbrev recalled : Store
recalled = record empty { traces = (30, teas) ∷ [] }

abbrev erased : ErasureSummary
erased = record {
  observations = 0;
  evidence_spans = 0;
  candidates = 0;
  memory_records = 0;
  memory_revisions = 0;
  revision_transitions = 0;
  recall_traces = 1;
  recall_trace_items = 2;
  memory_usages = 0;
  memory_usage_items = 0;
  outcomes = 0;
  utility_estimates = 0;
  outbox_events = 0;
  projection_jobs = 0;
  projection_documents = 0;
}

scope_erased : erase_scope ann recalled ≡ ok (erased, empty)
unfolding program
scope_erased = refl

recalled_named : (j : Uuid) (t : RecallTrace) → get j recalled.traces ≡ some t → t.id ≡ j
unfolding get
recalled_named j t h = elim (Bool-cases (30 == j)) [
  | inl same ↦
      let p : some teas ≡ some t = rw same at h in
      let q : teas ≡ t = cc in cc (q, (==_iff 30 j).0 same)
  | inr other ↦ cc (rw other at h)
]

erase_scope-trace_example : trace ann 30 empty ≡ none
erase_scope-trace_example =
    erase_scope-trace ann recalled empty erased 30 recalled_named scope_erased
