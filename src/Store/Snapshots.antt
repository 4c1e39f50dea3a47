-- ===== src/Store/Snapshots.antt =====
-- In a consistent store every read of a memory returns.
use evolvable_user_memory.Base.{
  ◌≡◌, ◌≢◌, ◌⊎◌, inl, inr, refl, ◌==◌, ==_iff, nat_eq, none, some, Option-cases, Bool-cases, arith,
  sym, ◌∙◌,
}
use evolvable_user_memory.Base.Result.{ok}
use evolvable_user_memory.Base.Dict.{get, All-get}
use evolvable_user_memory.Common.{Uuid, Scope, scope_eq}
use evolvable_user_memory.Memory.{MemoryRecord, MemoryRevision, make_snapshot}
use evolvable_user_memory.Store.State.{Store}
use evolvable_user_memory.Store.Chain.{IsNamed, IsConsistent, Chain-last}
use evolvable_user_memory.Store.Memories.{fetch, snapshot}

pub make_snapshot-ok :
    (m : MemoryRecord) (r : MemoryRevision)
    → m.id ≡ r.record_id
    → make_snapshot m r ≡ ok (record { memory = m; revision = r })
unfolding make_snapshot
make_snapshot-ok m r h = ground arith

-- In a consistent store `snapshot` returns for every scope and id. It gives none only when no record
-- has that id, or the record is in another scope, or no revision is active for it. Otherwise it gives
-- the record of that id, which is in the scope, and the revision that is active for it.
pub snapshot-returns :
    (scope : Scope) (i : Uuid) (s : Store)
    → IsConsistent s
    → ((snapshot scope i s ≡ ok none)
        × ((get i s.records ≡ none)
            ⊎ ((m : MemoryRecord) × (get i s.records ≡ some m) × (m.scope ≢ scope))
            ⊎ (get i s.active_revision ≡ none)))
      ⊎ ((m : MemoryRecord) × (r : MemoryRevision) × (a : Uuid) × (snapshot scope i s
            ≡ ok (some (record { memory = m; revision = r })))
          × (get i s.records ≡ some m)
          × (m.scope ≡ scope)
          × (get i s.active_revision ≡ some a)
          × (get a s.revisions ≡ some r)
          × (r.record_id ≡ i))
unfolding snapshot
snapshot-returns scope i s valid = elim (Option-cases (get i s.records)) [
  | inl absent ↦ inl (rw (absent, snapshot) refl, inl absent)
  | inr (m, e) ↦ elim (Bool-cases (m.scope == scope)) [
    | inl inside ↦ elim (Option-cases (get i s.active_revision)) [
      | inl headless ↦ inl (rw (e, snapshot) (rw inside (rw headless refl)), inr (inr headless))
      | inr (a, active) ↦
          let (r, found, owner, number) = Chain-last (valid.traced i a active).chain in
          let made =
            make_snapshot-ok m r (All-get IsNamed s.records i m valid.entries e ∙ sym owner) in
          inr (
            m,
            r,
            a,
            rw (e, snapshot) (rw inside (rw active (rw (found, fetch) (rw made refl)))),
            e,
            (==_iff m.scope scope).0 inside,
            active,
            found,
            owner,
          )
    ]
    | inr outside ↦ inl (
      rw (e, snapshot) (rw outside refl),
      inr (inl (m, e, λ same. cc (outside, (==_iff m.scope scope).1 same))),
    )
  ]
]
