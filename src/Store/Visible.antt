-- ===== src/Store/Visible.antt =====
-- What `memories_as_of` may show: revisions that were recorded and valid at the two times.
use evolvable_user_memory.Base.{
  ◌≤◌, ◌≡◌, true, ◌||◌, ◌!=◌, !=-false, ||-false, &&-true, ltb, leb→le, List, [], ◌∷◌, All, keep,
  nat_eq, Option, none, some, Option-cases, Bool-cases, inl, inr, sym, subst, not-ltb→le,
  All-keep_test,
}
use evolvable_user_memory.Base.Result.{ok, >>=-eq-ok, raise_if->>-eq-ok}
use evolvable_user_memory.Base.Dict.{values}
use evolvable_user_memory.Base.Sort.{sorted, All-sorted}
use evolvable_user_memory.Common.{Instant, Scope, scope_eq, Hashing}
use evolvable_user_memory.Memory.{MemoryRecord, MemoryRevision, MemorySnapshot, make_snapshot}
use evolvable_user_memory.Store.State.{Store}
use evolvable_user_memory.Store.Memories.{
  newest, newest_from, eligible, precedes, revisions_for, ids_of, head_as_of, heads_as_of,
  cons_some, memories_as_of, snapshot_leb, snapshot_with,
}

pub record IsVisible (scope : Scope) (valid_at known_at : Instant) (x : MemorySnapshot)
    : Type 0 where
  pub inside : x.memory.scope ≡ scope
  pub created : x.memory.created_at ≤ known_at
  pub known : x.revision.recorded_at ≤ known_at
  pub held : x.revision.valid_from ≤ valid_at
  pub owner : x.memory.id ≡ x.revision.record_id

newest_from-All :
    (P : MemoryRevision → Type 0) (r : MemoryRevision) (rs : List MemoryRevision)
    → P r
    → All P rs
    → P (newest_from r rs)
unfolding newest_from
newest_from-All P r [] p h = p
newest_from-All P r (x ∷ rs) p h = elim (Bool-cases (precedes r x)) [
  | inl e ↦ rw e (newest_from-All P x rs h.0 h.1)
  | inr e ↦ rw e (newest_from-All P r rs p h.1)
]

pub newest-All :
    (P : MemoryRevision → Type 0) (rs : List MemoryRevision) (r : MemoryRevision)
    → All P rs
    → newest rs ≡ some r
    → P r
unfolding newest
newest-All P [] r h e = cc
newest-All P (x ∷ rs) r h e =
    let p : newest_from x rs ≡ r = cc in subst P p (newest_from-All P x rs h.0 h.1)

make_snapshot-eq-ok :
    (m : MemoryRecord) (r : MemoryRevision) (x : MemorySnapshot)
    → make_snapshot m r ≡ ok x
    → (m.id ≡ r.record_id) × (x ≡ record { memory = m; revision = r })
unfolding make_snapshot
make_snapshot-eq-ok m r x h =
    let (same, done) = raise_if->>-eq-ok _ _ (ok (record { memory = m; revision = r })) h in
    (!=-false _ _ same, let p : record { memory = m; revision = r } ≡ x = cc done in sym p)

-- A result of the loop's body, if it has one.
abbrev IsShown : Scope → (valid_at known_at : Instant) → Option MemorySnapshot → Type 0
IsShown scope valid_at known_at none = Unit
IsShown scope valid_at known_at (some x) = IsVisible scope valid_at known_at x

module _ (scope : Scope) (valid_at known_at : Instant) (s : Store) where
  snapshot_with-IsShown :
      (m : MemoryRecord) (rs : List MemoryRevision) (o : Option MemorySnapshot)
      → m.scope ≡ scope
      → m.created_at ≤ known_at
      → snapshot_with m (newest (keep (eligible valid_at known_at) rs)) ≡ ok o
      → IsShown scope valid_at known_at o
  snapshot_with-IsShown m rs o inside created h =
      elim (Option-cases (newest (keep (eligible valid_at known_at) rs))) [
        | inl nothing ↦
            let k : ok none ≡ ok o = rw nothing at h in
            let p : none ≡ o = cc in subst (IsShown scope valid_at known_at) p tt
        | inr (r, e) ↦
            let good =
              newest-All (λ r. eligible valid_at known_at r ≡ true) _ r
                (All-keep_test (eligible valid_at known_at) rs) e in
            let (x, made, done) = >>=-eq-ok (make_snapshot m r) _ (rw e at h) in
            let (owner, shape) = make_snapshot-eq-ok m r x made in
            let p : some x ≡ o = cc done in
            subst (IsShown scope valid_at known_at) p (
              rw shape (record {
                inside = inside;
                created = created;
                known = leb→le _ _ (&&-true _ _ good).0;
                held = leb→le _ _ (&&-true _ _ good).1;
                owner = owner;
              }))
      ]

  head_as_of-IsShown :
      (m : MemoryRecord) (o : Option MemorySnapshot)
      → head_as_of scope valid_at known_at m s ≡ ok o
      → IsShown scope valid_at known_at o
  unfolding head_as_of
  head_as_of-IsShown m o h = elim (Bool-cases (m.scope != scope || ltb known_at m.created_at)) [
    | inl hidden ↦
        let k : ok none ≡ ok o = rw hidden at h in
        let p : none ≡ o = cc in subst (IsShown scope valid_at known_at) p tt
    | inr open_to ↦
        let (rs, found, k) = >>=-eq-ok (revisions_for (ids_of m.id s) s) _ (rw open_to at h) in
        let (inside, created) = ||-false _ _ open_to in
        snapshot_with-IsShown m rs o (!=-false _ _ inside) (not-ltb→le _ _ created) k
  ]

  cons_some-All :
      (o : Option MemorySnapshot) (xs : List MemorySnapshot)
      → IsShown scope valid_at known_at o
      → All (IsVisible scope valid_at known_at) xs
      → All (IsVisible scope valid_at known_at) (cons_some o xs)
  cons_some-All none xs p h = h
  cons_some-All (some x) xs p h = (p, h)

  heads_as_of-All :
      (ms : List MemoryRecord) (xs : List MemorySnapshot)
      → heads_as_of scope valid_at known_at ms s ≡ ok xs
      → All (IsVisible scope valid_at known_at) xs
  unfolding heads_as_of
  heads_as_of-All [] xs h =
      let p : [] ≡ xs = cc in subst (All (IsVisible scope valid_at known_at)) p tt
  heads_as_of-All (m ∷ ms) xs h =
      let (o, one, k) = >>=-eq-ok (head_as_of scope valid_at known_at m s) _ h in
      let (rest, others, done) = >>=-eq-ok (heads_as_of scope valid_at known_at ms s) _ k in
      let p : cons_some o rest ≡ xs = cc done in
      subst (All (IsVisible scope valid_at known_at)) p
        (cons_some-All o rest (head_as_of-IsShown m o one) (heads_as_of-All ms rest others))

-- Whatever `memories_as_of` returns lies in the scope: each snapshot's record was created, and its
-- revision recorded, no later than `known_at`, the revision was valid from `valid_at` or before, and
-- it belongs to the record.
pub memories_as_of-IsVisible :
    ⦃h : Hashing⦄ (scope : Scope) (valid_at known_at : Instant) (s : Store)
    (xs : List MemorySnapshot)
    → memories_as_of scope valid_at known_at s ≡ ok xs
    → All (IsVisible scope valid_at known_at) xs
unfolding memories_as_of
memories_as_of-IsVisible scope valid_at known_at s xs h =
    let (found, e, done) =
      >>=-eq-ok (heads_as_of scope valid_at known_at (values s.records) s) _ h in
    let p : sorted snapshot_leb found ≡ xs = cc done in
    subst (All (IsVisible scope valid_at known_at)) p (
      All-sorted snapshot_leb (IsVisible scope valid_at known_at) found
        (heads_as_of-All scope valid_at known_at s (values s.records) found e))
