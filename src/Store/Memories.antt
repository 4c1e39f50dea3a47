-- ===== src/Store/Memories.antt =====
-- The methods of `InMemoryMemoryStore` on memory records and their revisions.
use evolvable_user_memory.Base.{
  ◌+◌, Bool, ◌&&◌, ◌||◌, List, [], ◌∷◌, ◌++◌, ◌==◌, ◌!=◌, nat_eq, list_eq, pair_eq, option_eq, ltb,
  leb, keep, Option, none, some, if◌then◌else◌,
}
use evolvable_user_memory.Base.Result.{
  Result, ok, err, conflict_error, key_error, ◌>>=◌, ◌>>◌, raise_if,
}
use evolvable_user_memory.Base.Text.{Text}
use evolvable_user_memory.Base.Dict.{Dict, get, insert, has, values, keys}
use evolvable_user_memory.Base.Sort.{sorted}
use evolvable_user_memory.Common.{
  Uuid, Instant, Scope, scope_eq, ContextSignature, Hashing, fingerprint, text_leb,
}
use evolvable_user_memory.Memory.{
  MemoryRecord, MemoryRevision, RevisionTransition, MemorySnapshot, make_snapshot,
}
use evolvable_user_memory.Store.State.{Store}

-- `d[key]`
abbrev pub fetch {ℓ} : {A : Type ℓ} → Uuid → Dict Uuid A → Result A
fetch i d = elim (get i d) [ none ↦ err (key_error "id") | some x ↦ ok x ]

-- `_snapshot_unlocked`, once the active revision is known
abbrev pub snapshot_of : MemoryRecord → Option Uuid → Store → Result (Option MemorySnapshot)
snapshot_of memory none s = ok none
snapshot_of memory (some revision_id) s = do
  revision ← fetch revision_id s.revisions
  made ← make_snapshot memory revision
  ok (some made)

-- `_snapshot_unlocked` and `snapshot`
unfoldable pub snapshot : Scope → Uuid → Store → Result (Option MemorySnapshot)
snapshot scope record_id s = elim (get record_id s.records) [
  | none ↦ ok none
  | some memory ↦
      if memory.scope == scope
      then snapshot_of memory (get record_id s.active_revision) s
      else ok none
]

abbrev pub identity_of : ⦃h : Hashing⦄ → MemoryRecord → Scope × (Text × Text)
identity_of memory = (memory.scope, (memory.key, fingerprint memory.context))

unfoldable pub current_by_identity :
    ⦃h : Hashing⦄ → Scope → Text → ContextSignature → Store → Result (Option MemorySnapshot)
current_by_identity scope key context s =
    elim (get (scope, (key, fingerprint context)) s.record_identity) [
      | none ↦ ok none
      | some record_id ↦ snapshot scope record_id s
    ]

-- The writes of `add_memory`.
abbrev pub with_memory :
    ⦃h : Hashing⦄ → MemoryRecord → MemoryRevision → RevisionTransition → Store → Store
with_memory memory revision t s = record s {
  records = insert memory.id memory s.records;
  record_identity = insert (identity_of memory) memory.id s.record_identity;
  revisions = insert revision.id revision s.revisions;
  revision_ids_by_record = insert memory.id (revision.id ∷ []) s.revision_ids_by_record;
  active_revision = insert memory.id revision.id s.active_revision;
  transitions = s.transitions ++ t ∷ [];
}

unfoldable pub add_memory :
    ⦃h : Hashing⦄ → MemoryRecord → MemoryRevision → RevisionTransition → Store → Result Store
add_memory memory revision t s = do
  raise_if (has (identity_of memory) s.record_identity)
      (conflict_error "memory identity already exists")
  raise_if (revision.record_id != memory.id || t.record_id != memory.id)
      (conflict_error "initial revision does not belong to record")
  ok (with_memory memory revision t s)

-- The writes of `append_revision`.
abbrev pub with_revision : MemoryRevision → RevisionTransition → List Uuid → Store → Store
with_revision revision t ids s = record s {
  revisions = insert revision.id revision s.revisions;
  revision_ids_by_record =
      insert revision.record_id (ids ++ revision.id ∷ []) s.revision_ids_by_record;
  active_revision = insert revision.record_id revision.id s.active_revision;
  transitions = s.transitions ++ t ∷ [];
}

-- `append_revision`; the list of a record's revisions is read in its place among the writes.
unfoldable pub append_revision : Uuid → MemoryRevision → RevisionTransition → Store → Result Store
append_revision expected_revision_id revision t s = do
  raise_if (get revision.record_id s.active_revision != some expected_revision_id)
      (conflict_error "active revision changed concurrently")
  current ← fetch expected_revision_id s.revisions
  raise_if (revision.sequence != current.sequence + 1)
      (conflict_error "revision sequence is not contiguous")
  raise_if (revision.supersedes_revision_id != some expected_revision_id)
      (conflict_error "revision does not supersede active revision")
  raise_if
      (t.record_id != revision.record_id
        || t.from_revision_id != some expected_revision_id
        || t.to_revision_id != some revision.id)
      (conflict_error "revision transition is inconsistent")
  ids ← fetch revision.record_id s.revision_ids_by_record
  ok (with_revision revision t ids s)

-- The snapshots among the results of a loop.
abbrev pub cons_some {ℓ} : {A : Type ℓ} → Option A → List A → List A
cons_some none xs = xs
cons_some (some x) xs = x ∷ xs

unfoldable pub snapshots_for : Scope → List Uuid → Store → Result (List MemorySnapshot)
snapshots_for scope [] s = ok []
snapshots_for scope (i ∷ is) s = do
  first ← snapshot scope i s
  rest ← snapshots_for scope is s
  ok (cons_some first rest)

unfoldable pub active_memories : Scope → Store → Result (List MemorySnapshot)
active_memories scope s = snapshots_for scope (keys s.active_revision) s

unfoldable pub revisions_for : List Uuid → Store → Result (List MemoryRevision)
revisions_for [] s = ok []
revisions_for (i ∷ is) s = do
  first ← fetch i s.revisions
  rest ← revisions_for is s
  ok (first ∷ rest)

-- `d.get(key, [])`
abbrev pub ids_of : Uuid → Store → List Uuid
ids_of record_id s = elim (get record_id s.revision_ids_by_record) [ none ↦ [] | some ids ↦ ids ]

unfoldable pub revision_history : Scope → Uuid → Store → Result (List MemoryRevision)
revision_history scope record_id s = elim (get record_id s.records) [
  | none ↦ ok []
  | some memory ↦ if memory.scope == scope then revisions_for (ids_of record_id s) s else ok []
]

-- The order of `(recorded_at, sequence, str(id))`, strictly.
abbrev pub precedes : MemoryRevision → MemoryRevision → Bool
precedes a b =
    ltb a.recorded_at b.recorded_at
    || (a.recorded_at == b.recorded_at
        && (ltb a.sequence b.sequence || (a.sequence == b.sequence && ltb a.id b.id)))

-- `max(..., default=None)`: the first of the largest.
unfoldable pub newest_from : MemoryRevision → List MemoryRevision → MemoryRevision
newest_from best [] = best
newest_from best (r ∷ rs) = newest_from (if precedes best r then r else best) rs

unfoldable pub newest : List MemoryRevision → Option MemoryRevision
newest [] = none
newest (r ∷ rs) = some (newest_from r rs)

abbrev pub eligible : (valid_at known_at : Instant) → MemoryRevision → Bool
eligible valid_at known_at r = leb r.recorded_at known_at && leb r.valid_from valid_at

abbrev pub snapshot_with : MemoryRecord → Option MemoryRevision → Result (Option MemorySnapshot)
snapshot_with memory none = ok none
snapshot_with memory (some revision) = do made ← make_snapshot memory revision; ok (some made)

-- The body of the loop in `memories_as_of`.
unfoldable pub head_as_of :
    Scope → (valid_at known_at : Instant) → MemoryRecord → Store → Result (Option MemorySnapshot)
head_as_of scope valid_at known_at memory s =
    if memory.scope != scope || ltb known_at memory.created_at then ok none else do
      revisions ← revisions_for (ids_of memory.id s) s
      snapshot_with memory (newest (keep (eligible valid_at known_at) revisions))

unfoldable pub heads_as_of :
    Scope → (valid_at known_at : Instant) → List MemoryRecord → Store → Result (List MemorySnapshot)
heads_as_of scope valid_at known_at [] s = ok []
heads_as_of scope valid_at known_at (memory ∷ rest) s = do
  first ← head_as_of scope valid_at known_at memory s
  others ← heads_as_of scope valid_at known_at rest s
  ok (cons_some first others)

-- The order of `(record.key, record.context.fingerprint, str(record.id))`.
unfoldable pub snapshot_leb : ⦃h : Hashing⦄ → MemorySnapshot → MemorySnapshot → Bool
snapshot_leb a b =
    let m = a.memory in
    let n = b.memory in
    let f = fingerprint m.context in
    let g = fingerprint n.context in
    (text_leb m.key n.key && m.key != n.key)
    || (m.key == n.key && ((text_leb f g && f != g) || (f == g && leb m.id n.id)))

unfoldable pub memories_as_of :
    ⦃h : Hashing⦄ → Scope → (valid_at known_at : Instant) → Store → Result (List MemorySnapshot)
memories_as_of scope valid_at known_at s = do
  snapshots ← heads_as_of scope valid_at known_at (values s.records) s
  ok (sorted snapshot_leb snapshots)
