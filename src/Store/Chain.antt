-- ===== src/Store/Chain.antt =====
-- The invariant of the stored memories: the revisions of each form one chain that ends in the active
-- one.
use evolvable_user_memory.Base.{
  ℕ, ◌+◌, ◌≡◌, inl, inr, List, [], ◌∷◌, ◌++◌, ◌==◌, ==_iff, nat_eq, none, some, Bool-cases, sym,
  subst, All, All-append,
}
use evolvable_user_memory.Base.Dict.{Dict, get, insert, get-insert, keys}
use evolvable_user_memory.Base.Sort.{Distinct}
use evolvable_user_memory.Common.{Uuid}
use evolvable_user_memory.Memory.{MemoryRecord, MemoryRevision}
use evolvable_user_memory.Store.State.{Store, empty}

-- The revisions `ids` of record `i`, the oldest first: each follows the one before it by one, and
-- supersedes it. The last is `a`, with sequence number `n`.
pub data Chain (revisions : Dict Uuid MemoryRevision) (i : Uuid)
    : List Uuid → Uuid → ℕ → Type 0 where
  first :
      {ids : List Uuid} {a : Uuid} {n : ℕ} (r : MemoryRevision)
      → get a revisions ≡ some r
      → r.record_id ≡ i
      → r.sequence ≡ n
      → ids ≡ a ∷ []
      → Chain revisions i ids a n
  next :
      {ids : List Uuid} {a : Uuid} {n : ℕ} (earlier : List Uuid) (b : Uuid) (m : ℕ)
      (r : MemoryRevision)
      → Chain revisions i earlier b m
      → get a revisions ≡ some r
      → r.record_id ≡ i
      → r.sequence ≡ n
      → n ≡ m + 1
      → r.supersedes_revision_id ≡ some b
      → ids ≡ earlier ++ a ∷ []
      → Chain revisions i ids a n

pub record IsTraced (s : Store) (i a : Uuid) : Type 0 where
  pub ids : List Uuid
  pub count : ℕ
  pub listed : get i s.revision_ids_by_record ≡ some ids
  pub chain : Chain s.revisions i ids a count

-- A record is stored under its id.
abbrev pub IsNamed : Uuid × MemoryRecord → Type 0
IsNamed (i, m) = m.id ≡ i

-- A revision is stored under its id.
abbrev pub IsFiled : Uuid × MemoryRevision → Type 0
IsFiled (j, r) = r.id ≡ j

pub record IsConsistent (s : Store) : Type 0 where
  pub entries : All IsNamed s.records
  pub distinct : Distinct (keys s.records)
  pub filed : All IsFiled s.revisions
  pub traced : (i a : Uuid) → get i s.active_revision ≡ some a → IsTraced s i a
  pub headed :
      (i : Uuid) (ids : List Uuid)
      → get i s.revision_ids_by_record ≡ some ids
      → (a : Uuid) × (get i s.active_revision ≡ some a)

pub IsConsistent-empty : IsConsistent empty
unfolding get
IsConsistent-empty = record {
  entries = tt;
  distinct = tt;
  filed = tt;
  traced = λ i a h. cc;
  headed = λ i ids h. cc;
}

-- What the last revision of a chain is.
pub Chain-last :
    {revisions : Dict Uuid MemoryRevision} {i : Uuid} {ids : List Uuid} {a : Uuid} {n : ℕ}
    → Chain revisions i ids a n
    → (r : MemoryRevision) × (get a revisions ≡ some r) × (r.record_id ≡ i) × (r.sequence ≡ n)
Chain-last (first r found owner number all) = (r, found, owner, number)
Chain-last (next earlier b m r before found owner number up back all) = (r, found, owner, number)

pub kept_by_insert :
    (revisions : Dict Uuid MemoryRevision) (new r : MemoryRevision) (j : Uuid)
    → get new.id revisions ≡ none
    → get j revisions ≡ some r
    → get j (insert new.id new revisions) ≡ some r
kept_by_insert revisions new r j fresh found = rw get-insert (elim (Bool-cases (new.id == j)) [
  | inl same ↦ let e = (==_iff new.id j).0 same in cc (fresh, rw e at fresh, found)
  | inr other ↦ rw other found
])

pub Chain-insert :
    {revisions : Dict Uuid MemoryRevision} {i : Uuid} {ids : List Uuid} {a : Uuid} {n : ℕ}
    (new : MemoryRevision)
    → get new.id revisions ≡ none
    → Chain revisions i ids a n
    → Chain (insert new.id new revisions) i ids a n
Chain-insert {revisions = revisions} {a = a} new fresh (first r found owner number all) =
    first r (kept_by_insert revisions new r a fresh found) owner number all
Chain-insert {revisions = revisions} {a = a} new fresh
      (next earlier b m r before found owner number up back all) =
    next earlier b m r (Chain-insert new fresh before)
      (kept_by_insert revisions new r a fresh found) owner number up back all

-- Every revision of a chain is stored, and belongs to the record.
abbrev pub IsOwned : Dict Uuid MemoryRevision → Uuid → Uuid → Type 0
IsOwned revisions i j = (r : MemoryRevision) × (get j revisions ≡ some r) × (r.record_id ≡ i)

pub Chain-All :
    {revisions : Dict Uuid MemoryRevision} {i : Uuid} {ids : List Uuid} {a : Uuid} {n : ℕ}
    → Chain revisions i ids a n
    → All (IsOwned revisions i) ids
Chain-All {revisions = revisions} {i = i} (first r found owner number all) =
    subst (All (IsOwned revisions i)) (sym all) ((r, found, owner), tt)
Chain-All {revisions = revisions} {i = i}
      (next earlier b m r before found owner number up back all) =
    subst (All (IsOwned revisions i)) (sym all)
      (All-append (IsOwned revisions i) earlier _ (Chain-All before) ((r, found, owner), tt))
