-- ===== src/Store/Reads.antt =====
-- `memories_as_of` returns on a consistent store, and shows each revision at most once.
use evolvable_user_memory.Base.{
  ℕ, ◌≤◌, ◌≡◌, refl, List, [], ◌∷◌, ◌==◌, ◌!=◌, ◌||◌, ==_iff, nat_eq, Option, none, some,
  Option-cases, Bool-cases, inl, inr, arith, ap, sym, ◌∙◌, subst, All, All-keep, map, keep, ltb,
}
use evolvable_user_memory.Base.Result.{ok, ◌>>=◌}
use evolvable_user_memory.Base.Dict.{Dict, get, keys, values, All-get}
use evolvable_user_memory.Base.Sort.{Distinct, sorted, All-sorted}
use evolvable_user_memory.Base.Weigh.{weigh, occurs, weigh-sorted, occurs-le_one}
use evolvable_user_memory.Common.{Uuid, Scope, scope_eq, Instant, Hashing}
use evolvable_user_memory.Memory.{MemoryRecord, MemoryRevision, MemorySnapshot}
use evolvable_user_memory.Store.State.{Store}
use evolvable_user_memory.Store.Chain.{IsNamed, IsFiled, IsConsistent, Chain-All, IsOwned}
use evolvable_user_memory.Store.Memories.{
  fetch, revisions_for, ids_of, newest, eligible, head_as_of, heads_as_of, memories_as_of,
  snapshot_leb, cons_some,
}
use evolvable_user_memory.Store.Visible.{newest-All}
use evolvable_user_memory.Store.Snapshots.{make_snapshot-ok}

-- A revision that a record owns and that is stored under its own id.
abbrev IsPlaced : Store → Uuid → MemoryRevision → Type 0
IsPlaced s i r = (r.record_id ≡ i) × (get r.id s.revisions ≡ some r)

-- A snapshot of a stored revision and its record.
abbrev pub IsHead : Store → MemorySnapshot → Type 0
IsHead s x = IsPlaced s x.memory.id x.revision

abbrev pub memory_id : MemorySnapshot → Uuid
memory_id x = x.memory.id

abbrev pub revision_id : MemorySnapshot → Uuid
revision_id x = x.revision.id

abbrev record_id : MemoryRecord → Uuid
record_id m = m.id

module _ (s : Store) (valid : IsConsistent s) where
  revisions_for-returns :
      (i : Uuid) (ids : List Uuid)
      → All (IsOwned s.revisions i) ids
      → (rs : List MemoryRevision) × (revisions_for ids s ≡ ok rs) × All (IsPlaced s i) rs
  unfolding revisions_for
  revisions_for-returns i [] h = ([], refl, tt)
  revisions_for-returns i (j ∷ ids) h =
      let (r, found, owner) = h.0 in
      let (rs, rest, placed) = revisions_for-returns i ids h.1 in
      let filed : r.id ≡ j = All-get IsFiled s.revisions j r valid.filed found in
      (
        r ∷ rs,
        rw (found, fetch) (rw rest refl),
        ((owner, subst (λ k. get k s.revisions ≡ some r) (sym filed) found), placed),
      )

  ids_none : (i : Uuid) → get i s.revision_ids_by_record ≡ none → ids_of i s ≡ []
  ids_none i h = rw (h, ids_of) refl

  ids_some :
      (i : Uuid) (ids : List Uuid) → get i s.revision_ids_by_record ≡ some ids → ids_of i s ≡ ids
  ids_some i ids h = rw (h, ids_of) refl

  ids_of-IsOwned : (i : Uuid) → All (IsOwned s.revisions i) (ids_of i s)
  ids_of-IsOwned i = elim (Option-cases (get i s.revision_ids_by_record)) [
    | inl none_listed ↦ subst (All (IsOwned s.revisions i)) (sym (ids_none i none_listed)) tt
    | inr (ids, e) ↦
        let (a, active) = valid.headed i ids e in
        let t = valid.traced i a active in
        let p : some t.ids ≡ some ids = sym t.listed ∙ e in
        let q : t.ids ≡ ids = cc in
        subst (All (IsOwned s.revisions i)) (q ∙ sym (ids_some i ids e)) (Chain-All t.chain)
  ]

  module _ (scope : Scope) (valid_at known_at : Instant) where
    abbrev weight : (MemoryRecord → ℕ) → Option MemorySnapshot → ℕ
    weight f none = 0
    weight f (some x) = f x.memory

    abbrev IsHeaded : MemoryRecord → Option MemorySnapshot → Type 0
    IsHeaded m none = Unit
    IsHeaded m (some x) = IsHead s x × (x.memory ≡ m)

    head_as_of-returns :
        (m : MemoryRecord)
        → (o : Option MemorySnapshot) × (head_as_of scope valid_at known_at m s ≡ ok o)
          × IsHeaded m o
    unfolding head_as_of
    head_as_of-returns m = elim (Bool-cases (m.scope != scope || ltb known_at m.created_at)) [
      | inl hidden ↦ (none, rw hidden refl, tt)
      | inr shown ↦
          let (rs, found, placed) =
            revisions_for-returns m.id (ids_of m.id s) (ids_of-IsOwned m.id) in
          elim (Option-cases (newest (keep (eligible valid_at known_at) rs))) [
            | inl nothing ↦ (none, rw shown (rw found (rw nothing refl)), tt)
            | inr (r, e) ↦
                let kept = All-keep (eligible valid_at known_at) (IsPlaced s m.id) rs placed in
                let p = newest-All (IsPlaced s m.id) _ r kept e in
                (
                  some (record { memory = m; revision = r }),
                  rw shown (rw found (rw e (rw (make_snapshot-ok m r (sym p.0)) refl))),
                  (p, refl),
                )
          ]
    ]

    heads_as_of-returns :
        (ms : List MemoryRecord)
        → (xs : List MemorySnapshot) × (heads_as_of scope valid_at known_at ms s ≡ ok xs)
          × All (IsHead s) xs
          × ((f : MemoryRecord → ℕ) → weigh (λ (x : MemorySnapshot). f x.memory) xs ≤ weigh f ms)
    unfolding heads_as_of
    heads_as_of-returns [] = ([], refl, tt, λ f. omega arith)
    heads_as_of-returns (m ∷ ms) =
        let (rest, others, heads, le) = heads_as_of-returns ms in
        let (o, one, h) = head_as_of-returns m in
        elim o
            as (λ o.
              (head_as_of scope valid_at known_at m s ≡ ok o)
              → IsHeaded m o
              → (xs : List MemorySnapshot) × ((do
                first ← head_as_of scope valid_at known_at m s
                others ← heads_as_of scope valid_at known_at ms s
                ok (cons_some first others))
                  ≡ ok xs)
                × All (IsHead s) xs
                × ((f : MemoryRecord → ℕ)
                    → weigh (λ (x : MemorySnapshot). f x.memory) xs ≤ weigh f (m ∷ ms))) [
                      | none ↦
                          λ one h. (rest, rw (one, others) refl, heads, λ f. omega (arith, le f))
                      | some x ↦ λ one h. (
                        x ∷ rest,
                        rw (one, others) refl,
                        (h.0, heads),
                        λ f. omega (arith, le f, ap f h.1),
                      )
                    ]
          one h

  values-named : (d : Dict Uuid MemoryRecord) → All IsNamed d → map record_id (values d) ≡ keys d
  values-named [] h = refl
  values-named ((i, m) ∷ d) h = cc (h.0, values-named d h.1)

  -- Of snapshots of stored revisions, those of one revision are of one record.
  weigh-revision :
      (k : Uuid) (r : MemoryRevision)
      → get k s.revisions ≡ some r
      → (xs : List MemorySnapshot) → All (IsHead s) xs
      → weigh (occurs revision_id k) xs ≤ weigh (occurs memory_id r.record_id) xs
  weigh-revision k r found [] h = omega arith
  weigh-revision k r found (x ∷ xs) h = elim (Bool-cases (x.revision.id == k)) [
    | inl same ↦
        let e : x.revision.id ≡ k = (==_iff x.revision.id k).0 same in
        let p : some x.revision ≡ some r = sym (h.0.1) ∙ ap (λ j. get j s.revisions) e ∙ found in
        let q : x.revision ≡ r = cc in
        let owner : x.memory.id ≡ r.record_id =
          sym h.0.0 ∙ ap (λ (y : MemoryRevision). y.record_id) q in
        rw (same, (==_iff x.memory.id r.record_id).1 owner)
          (omega (arith, weigh-revision k r found xs h.1))
    | inr other ↦ rw other (omega (arith, weigh-revision k r found xs h.1))
  ]

  weigh-absent :
      (k : Uuid)
      → get k s.revisions ≡ none
      → (xs : List MemorySnapshot) → All (IsHead s) xs
      → weigh (occurs revision_id k) xs ≤ 0
  weigh-absent k absent [] h = omega arith
  weigh-absent k absent (x ∷ xs) h = elim (Bool-cases (x.revision.id == k)) [
    | inl same ↦
        let e : x.revision.id ≡ k = (==_iff x.revision.id k).0 same in
        let p : none ≡ some x.revision = sym absent ∙ ap (λ j. get j s.revisions) (sym e) ∙ h.0.1 in
        absurd cc
    | inr other ↦ rw other (omega (arith, weigh-absent k absent xs h.1))
  ]

  revisions-once :
      (xs : List MemorySnapshot)
      → All (IsHead s) xs
      → ((k : Uuid) → weigh (occurs memory_id k) xs ≤ 1)
      → (k : Uuid) → weigh (occurs revision_id k) xs ≤ 1
  revisions-once xs h once k = elim (Option-cases (get k s.revisions)) [
    | inl absent ↦ omega (arith, weigh-absent k absent xs h)
    | inr (r, e) ↦ omega (arith, weigh-revision k r e xs h, once r.record_id)
  ]

-- On a consistent store `memories_as_of` returns, its snapshots hold stored revisions with the
-- records that own them, and no revision is shown twice.
pub memories_as_of-returns :
    ⦃h : Hashing⦄ (scope : Scope) (valid_at known_at : Instant) (s : Store)
    → IsConsistent s
    → (xs : List MemorySnapshot) × (memories_as_of scope valid_at known_at s ≡ ok xs)
      × All (IsHead s) xs
      × ((k : Uuid) → weigh (occurs revision_id k) xs ≤ 1)
unfolding memories_as_of
memories_as_of-returns scope valid_at known_at s valid =
    let (xs, found, heads, le) =
      heads_as_of-returns s valid scope valid_at known_at (values s.records) in
    let names : Distinct (map record_id (values s.records)) =
      subst Distinct (sym (values-named s valid s.records valid.entries)) valid.distinct in
    (
      sorted snapshot_leb xs,
      rw found refl,
      All-sorted snapshot_leb (IsHead s) xs heads,
      λ k. omega (
        arith,
        weigh-sorted (occurs revision_id k) snapshot_leb xs,
        revisions-once s valid xs heads
            (λ j.
              omega (
                arith,
                le (occurs record_id j),
                occurs-le_one record_id (values s.records) names j,
              ))
            k,
      ),
    )
