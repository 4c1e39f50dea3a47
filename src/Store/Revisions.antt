-- ===== src/Store/Revisions.antt =====
-- `add_memory` and `append_revision` keep the stored memories consistent.
use evolvable_user_memory.Base.{
  ℕ, ◌+◌, ◌≡◌, inl, inr, refl, List, [], ◌∷◌, ◌++◌, ◌==◌, ==_iff, ==_refl, !=-false, nat_eq,
  list_eq, pair_eq, option_eq, none, some, Bool-cases, ap, sym, ◌∙◌, subst, ||-false,
}
use evolvable_user_memory.Base.Result.{ok, >>=-eq-ok, raise_if->>-eq-ok}
use evolvable_user_memory.Base.Dict.{
  get, insert, get-insert_at, get-insert_off, All-insert, Distinct-keys-insert,
}
use evolvable_user_memory.Common.{Uuid, scope_eq, Hashing}
use evolvable_user_memory.Memory.{MemoryRecord, MemoryRevision, RevisionTransition}
use evolvable_user_memory.Store.State.{Store}
use evolvable_user_memory.Store.Chain.{
  Chain, first, next, IsTraced, IsNamed, IsFiled, IsConsistent, Chain-last, Chain-insert,
}
use evolvable_user_memory.Store.Fetch.{fetch-eq-ok}
use evolvable_user_memory.Store.Memories.{
  add_memory, append_revision, with_memory, with_revision, fetch,
}

-- A store in which record `i` has gained the revision `new` as its head, and all else is kept.
record Extends (s s' : Store) (i : Uuid) (new : MemoryRevision) (ids : List Uuid) : Type 0 where
  revisions : s'.revisions ≡ insert new.id new s.revisions
  listed : s'.revision_ids_by_record ≡ insert i ids s.revision_ids_by_record
  active : s'.active_revision ≡ insert i new.id s.active_revision

Extends-IsTraced :
    (s s' : Store) (i : Uuid) (new : MemoryRevision) (ids : List Uuid)
    → Extends s s' i new ids
    → get new.id s.revisions ≡ none
    → IsConsistent s
    → (n : ℕ) → Chain s'.revisions i ids new.id n
    → (j a : Uuid) → get j s'.active_revision ≡ some a
    → IsTraced s' j a
Extends-IsTraced s s' i new ids e fresh valid n chain j a found = elim (Bool-cases (i == j)) [
  | inl same ↦
      let p : i ≡ j = (==_iff i j).0 same in
      let head : some new.id ≡ some a =
        sym (get-insert_at i j new.id s.active_revision same) ∙ ap (get j) (sym e.active) ∙ found in
      let q : new.id ≡ a = cc in
      record {
        ids = ids;
        count = n;
        listed = rw e.listed (get-insert_at i j ids s.revision_ids_by_record same);
        chain =
            subst (λ x. Chain s'.revisions j ids x n) q
              (subst (λ x. Chain s'.revisions x ids new.id n) p chain);
      }
  | inr other ↦
      let before = valid.traced j a (
        sym (get-insert_off i j new.id s.active_revision other)
        ∙ ap (get j) (sym e.active)
        ∙ found) in
      record {
        ids = before.ids;
        count = before.count;
        listed =
            rw e.listed (get-insert_off i j ids s.revision_ids_by_record other ∙ before.listed);
        chain = rw e.revisions (Chain-insert new fresh before.chain);
      }
]

Extends-headed :
    (s s' : Store) (i : Uuid) (new : MemoryRevision) (ids : List Uuid)
    → Extends s s' i new ids
    → IsConsistent s
    → (j : Uuid) (old : List Uuid) → get j s'.revision_ids_by_record ≡ some old
    → (a : Uuid) × (get j s'.active_revision ≡ some a)
Extends-headed s s' i new ids e valid j old found = elim (Bool-cases (i == j)) [
  | inl same ↦ (new.id, rw e.active (get-insert_at i j new.id s.active_revision same))
  | inr other ↦
      let (a, active) = valid.headed j old (
        sym (get-insert_off i j ids s.revision_ids_by_record other)
        ∙ ap (get j) (sym e.listed)
        ∙ found) in
      (a, rw e.active (get-insert_off i j new.id s.active_revision other ∙ active))
]

-- What `append_revision` has checked, and what it did.
record Appends (expected : Uuid) (r : MemoryRevision) (s s' : Store) : Type 0 where
  active : get r.record_id s.active_revision ≡ some expected
  current : MemoryRevision
  found : get expected s.revisions ≡ some current
  number : r.sequence ≡ current.sequence + 1
  back : r.supersedes_revision_id ≡ some expected
  ids : List Uuid
  listed : get r.record_id s.revision_ids_by_record ≡ some ids
  records : s'.records ≡ s.records
  extends : Extends s s' r.record_id r (ids ++ r.id ∷ [])

append_revision-Appends :
    (expected : Uuid) (r : MemoryRevision) (t : RevisionTransition) (s s' : Store)
    → append_revision expected r t s ≡ ok s'
    → Appends expected r s s'
unfolding append_revision
append_revision-Appends expected r t s s' h =
    let (active, h1) = raise_if->>-eq-ok _ _ _ h in
    let (current, found, h2) = >>=-eq-ok (fetch expected s.revisions) _ h1 in
    let (number, h3) = raise_if->>-eq-ok _ _ _ h2 in
    let (back, h4) = raise_if->>-eq-ok _ _ _ h3 in
    let (moved, h5) = raise_if->>-eq-ok _ _ _ h4 in
    let (ids, listed, done) = >>=-eq-ok (fetch r.record_id s.revision_ids_by_record) _ h5 in
    let e : with_revision r t ids s ≡ s' = cc in
    record {
      active = !=-false _ _ active;
      current = current;
      found = fetch-eq-ok _ _ _ found;
      number = !=-false _ _ number;
      back = !=-false _ _ back;
      ids = ids;
      listed = fetch-eq-ok _ _ _ listed;
      records = ap (λ (x : Store). x.records) (sym e);
      extends = record {
        revisions = ap (λ (x : Store). x.revisions) (sym e);
        listed = ap (λ (x : Store). x.revision_ids_by_record) (sym e);
        active = ap (λ (x : Store). x.active_revision) (sym e);
      };
    }

-- `append_revision` of a revision whose id is new keeps the store consistent: every active revision
-- is the last of its record's chain.
pub append_revision-IsConsistent :
    (expected : Uuid) (r : MemoryRevision) (t : RevisionTransition) (s s' : Store)
    → IsConsistent s
    → get r.id s.revisions ≡ none
    → append_revision expected r t s ≡ ok s'
    → IsConsistent s'
append_revision-IsConsistent expected r t s s' valid fresh h =
    let k = append_revision-Appends expected r t s s' h in
    let before = valid.traced r.record_id expected k.active in
    let (current, found, owner, number) = Chain-last before.chain in
    let same_ids : before.ids ≡ k.ids = (let p = sym before.listed ∙ k.listed in cc) in
    let same : current ≡ k.current = (let p = sym found ∙ k.found in cc) in
    let up : r.sequence ≡ before.count + 1 =
      k.number ∙ ap (λ (x : MemoryRevision). x.sequence + 1) (sym same) ∙ ap (λ x. x + 1) number in
    record {
      entries = rw k.records valid.entries;
      distinct = rw k.records valid.distinct;
      filed = rw k.extends.revisions (All-insert IsFiled r.id r s.revisions refl valid.filed);
      headed = Extends-headed s s' r.record_id r (k.ids ++ r.id ∷ []) k.extends valid;
      traced =
          Extends-IsTraced s s' r.record_id r (k.ids ++ r.id ∷ []) k.extends fresh valid r.sequence
            (rw k.extends.revisions (
              next before.ids expected before.count r (Chain-insert r fresh before.chain)
                (get-insert_at r.id r.id r s.revisions (==_refl r.id)) refl refl up k.back
                (ap (λ l. l ++ r.id ∷ []) (sym same_ids))));
    }

add_memory-eq-ok :
    ⦃h : Hashing⦄ (m : MemoryRecord) (r : MemoryRevision) (t : RevisionTransition) (s s' : Store)
    → add_memory m r t s ≡ ok s'
    → (r.record_id ≡ m.id) × (with_memory m r t s ≡ s')
unfolding add_memory
add_memory-eq-ok m r t s s' h =
    let (absent, h1) = raise_if->>-eq-ok _ _ _ h in
    let (owned, done) = raise_if->>-eq-ok _ _ (ok (with_memory m r t s)) h1 in
    let owner : r.record_id ≡ m.id = !=-false _ _ (||-false _ _ owned).0 in (owner, cc done)

-- `add_memory` with a revision whose id is new keeps the store consistent.
pub add_memory-IsConsistent :
    ⦃h : Hashing⦄ (m : MemoryRecord) (r : MemoryRevision) (t : RevisionTransition) (s s' : Store)
    → IsConsistent s
    → get r.id s.revisions ≡ none
    → add_memory m r t s ≡ ok s'
    → IsConsistent s'
add_memory-IsConsistent m r t s s' valid fresh h =
    let (owner, e) = add_memory-eq-ok m r t s s' h in
    rw (sym e) (record {
      entries = All-insert IsNamed m.id m s.records refl valid.entries;
      distinct = Distinct-keys-insert m.id m s.records valid.distinct;
      filed = All-insert IsFiled r.id r s.revisions refl valid.filed;
      headed =
          Extends-headed s (with_memory m r t s) m.id r (r.id ∷ [])
            (record { revisions = refl; listed = refl; active = refl }) valid;
      traced =
          Extends-IsTraced s (with_memory m r t s) m.id r (r.id ∷ [])
            (record { revisions = refl; listed = refl; active = refl }) fresh valid r.sequence
            (first r (get-insert_at r.id r.id r s.revisions (==_refl r.id)) owner refl refl);
    })

-- What the two methods write to the revisions.
pub append_revision-revisions :
    (expected : Uuid) (r : MemoryRevision) (t : RevisionTransition) (s s' : Store)
    → append_revision expected r t s ≡ ok s'
    → s'.revisions ≡ insert r.id r s.revisions
append_revision-revisions expected r t s s' h =
    (append_revision-Appends expected r t s s' h).extends.revisions

pub add_memory-revisions :
    ⦃h : Hashing⦄ (m : MemoryRecord) (r : MemoryRevision) (t : RevisionTransition) (s s' : Store)
    → add_memory m r t s ≡ ok s'
    → s'.revisions ≡ insert r.id r s.revisions
add_memory-revisions m r t s s' h =
    ap (λ (x : Store). x.revisions) (sym (add_memory-eq-ok m r t s s' h).1)
