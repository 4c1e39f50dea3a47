-- ===== src/Service/Keeping.antt =====
-- Sound memories: one chain of revisions for each record, and confidences of at most 1. Ingestion and the
-- writes of the store keep them sound.
use evolvable_user_memory.Base.{
  ℕ, ◌≤◌, ◌≡◌, inl, inr, refl, Option, none, ap, sym, ◌∙◌, All, ◌||◌, ◌!=◌, not-ltb→le, nat_eq,
  Bool-cases, list_eq, pair_eq,
}
use evolvable_user_memory.Base.Result.{ok, >>=-eq-ok, raise_if->>-eq-ok}
use evolvable_user_memory.Base.Text.{Text}
use evolvable_user_memory.Base.Dict.{get, insert, has, All-insert}
use evolvable_user_memory.Base.Fixed.{one}
use evolvable_user_memory.Base.Sort.{sorted, set_of}
use evolvable_user_memory.Common.{Uuid, Instant, Hashing, text_leb, scope_eq}
use evolvable_user_memory.Evidence.{Observation, EvidenceSpan, Candidate}
use evolvable_user_memory.Memory.{
  BeliefState, make_belief, reinforced, require_texts, add_source, MemoryRecord, MemoryRevision,
  RevisionTransition,
}
use evolvable_user_memory.Store.State.{Store, with_ingestion, save_ingestion, update_candidate}
use evolvable_user_memory.Store.Memories.{add_memory, append_revision}
use evolvable_user_memory.Store.Chain.{IsConsistent}
use evolvable_user_memory.Store.Revisions.{
  add_memory-IsConsistent, append_revision-IsConsistent, append_revision-revisions,
  add_memory-revisions,
}
use evolvable_user_memory.Service.Entries.{IsCredible}

pub record IsSound (s : Store) : Type 0 where
  pub consistent : IsConsistent s
  pub credible : All IsCredible s.revisions

-- Two stores with the same memories.
pub record Agree (s s' : Store) : Type 0 where
  pub records : s'.records ≡ s.records
  pub revisions : s'.revisions ≡ s.revisions
  pub listed : s'.revision_ids_by_record ≡ s.revision_ids_by_record
  pub active : s'.active_revision ≡ s.active_revision

pub Agree-IsSound : (s s' : Store) → Agree s s' → IsSound s → IsSound s'
Agree-IsSound s s' same h = record {
  consistent = record {
    entries = rw same.records h.consistent.entries;
    distinct = rw same.records h.consistent.distinct;
    filed = rw same.revisions h.consistent.filed;
    traced = λ i a active.
        let t = h.consistent.traced i a (ap (get i) (sym same.active) ∙ active) in
        record {
          ids = t.ids;
          count = t.count;
          listed = ap (get i) same.listed ∙ t.listed;
          chain = rw same.revisions t.chain;
        };
    headed = λ i ids listed.
        let (a, e) = h.consistent.headed i ids (ap (get i) (sym same.listed) ∙ listed) in
        (a, ap (get i) same.active ∙ e);
  };
  credible = rw same.revisions h.credible;
}

pub save_ingestion-Agree :
    (o : Observation) (evidence : EvidenceSpan) (c : Candidate) (s s' : Store)
    → save_ingestion o evidence c s ≡ ok s'
    → Agree s s'
unfolding save_ingestion
save_ingestion-Agree o evidence c s s' h =
    let (fresh, h1) =
      raise_if->>-eq-ok (has (o.scope, o.idempotency_key) s.observation_keys) _ _ h in
    let (belongs, h2) = raise_if->>-eq-ok (evidence.observation_id != o.id) _ _ h1 in
    let (inside, done) =
      raise_if->>-eq-ok (c.observation_id != o.id || c.scope != o.scope) _
        (ok (with_ingestion o evidence c s)) h2 in
    let e : with_ingestion o evidence c s ≡ s' = cc done in
    rw (sym e) (record { records = refl; revisions = refl; listed = refl; active = refl })

pub update_candidate-Agree :
    (c : Candidate) (s s' : Store) → update_candidate c s ≡ ok s' → Agree s s'
unfolding update_candidate
update_candidate-Agree c s s' h = elim (Bool-cases (has c.id s.candidates)) [
  | inl there ↦
      let k : ok (record s { candidates = insert c.id c s.candidates }) ≡ ok s' = rw there at h in
      let e : record s { candidates = insert c.id c s.candidates } ≡ s' = cc in
      rw (sym e) (record { records = refl; revisions = refl; listed = refl; active = refl })
  | inr absent ↦ cc (rw absent at h)
]

pub make_belief-le_one : (b b' : BeliefState) → make_belief b ≡ ok b' → b'.confidence ≤ one
unfolding make_belief
make_belief-le_one b b' h =
    let (low, h1) = raise_if->>-eq-ok _ _ _ h in
    let (sources, found, h2) = >>=-eq-ok (require_texts b.source_keys) _ h1 in
    let (counted, done) =
      raise_if->>-eq-ok _ _ (ok (record b { source_keys = sorted text_leb (set_of sources) })) h2 in
    let e : record b { source_keys = sorted text_leb (set_of sources) } ≡ b' = cc done in
    rw (sym e) (not-ltb→le one b.confidence low)

pub reinforced-le_one :
    (b b' : BeliefState) (confidence : ℕ) (at : Instant) (source : Option Text)
    → reinforced b confidence at source ≡ ok b'
    → b'.confidence ≤ one
unfolding reinforced
reinforced-le_one b b' confidence at source h =
    let (low, h1) = raise_if->>-eq-ok _ _ _ h in
    let (sources, found, done) = >>=-eq-ok (add_source b.source_keys source) _ h1 in
    make_belief-le_one _ b' done

pub add_memory-IsSound :
    ⦃h : Hashing⦄ (m : MemoryRecord) (r : MemoryRevision) (t : RevisionTransition) (s s' : Store)
    → IsSound s
    → get r.id s.revisions ≡ none
    → r.belief.confidence ≤ one
    → add_memory m r t s ≡ ok s'
    → IsSound s'
add_memory-IsSound m r t s s' sound fresh low h = record {
  consistent = add_memory-IsConsistent m r t s s' sound.consistent fresh h;
  credible =
      rw (add_memory-revisions m r t s s' h)
        (All-insert IsCredible r.id r s.revisions low sound.credible);
}

pub append_revision-IsSound :
    (expected : Uuid) (r : MemoryRevision) (t : RevisionTransition) (s s' : Store)
    → IsSound s
    → get r.id s.revisions ≡ none
    → r.belief.confidence ≤ one
    → append_revision expected r t s ≡ ok s'
    → IsSound s'
append_revision-IsSound expected r t s s' sound fresh low h = record {
  consistent = append_revision-IsConsistent expected r t s s' sound.consistent fresh h;
  credible =
      rw (append_revision-revisions expected r t s s' h)
        (All-insert IsCredible r.id r s.revisions low sound.credible);
}
