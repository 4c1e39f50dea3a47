-- ===== src/Service/Accepting.antt =====
-- `_accept_candidate` keeps the stored memories sound.
use evolvable_user_memory.Base.{
  ◌≤◌, ◌≡◌, inl, inr, refl, List, Option, none, some, ap, sym, ◌∙◌, subst, length, ltb, nat_eq,
  ◌==◌, Bool-cases, list_eq, pair_eq,
}
use evolvable_user_memory.Base.Result.{Result, ok, err, >>=-eq-ok, raise_if->>-eq-ok}
use evolvable_user_memory.Base.Text.{Text}
use evolvable_user_memory.Base.Dict.{get}
use evolvable_user_memory.Base.Fixed.{one}
use evolvable_user_memory.Common.{Uuid, Instant, Hashing, scope_eq, require_text}
use evolvable_user_memory.Evidence.{Candidate, accept}
use evolvable_user_memory.Memory.{
  BeliefState, make_belief, reinforced, MemoryRevision, make_revision, MemorySnapshot, make_record,
  make_revision_transition,
}
use evolvable_user_memory.Commands.{PreferenceResult}
use evolvable_user_memory.Store.State.{Store, update_candidate}
use evolvable_user_memory.Store.Memories.{add_memory, append_revision, current_by_identity}
use evolvable_user_memory.Service.Ingestion.{
  Draws, accept_new, accept_next, accept_either, accept_candidate, next_belief, answered,
  first_belief, is_other,
}
use evolvable_user_memory.Service.Keeping.{
  IsSound, Agree-IsSound, make_belief-le_one, reinforced-le_one, add_memory-IsSound,
  append_revision-IsSound, update_candidate-Agree,
}

make_revision-eq-ok :
    (r r' : MemoryRevision) → make_revision r ≡ ok r' → (r'.id ≡ r.id) × (r'.belief ≡ r.belief)
unfolding make_revision
make_revision-eq-ok r r' h =
    let (low, h1) = raise_if->>-eq-ok (ltb r.sequence 1) _ _ h in
    let (value, found, h2) = >>=-eq-ok (require_text r.value) _ h1 in
    let (cited, done) =
      raise_if->>-eq-ok (length r.evidence_ids == 0) _ (ok (record r { value = value })) h2 in
    let e : record r { value = value } ≡ r' = cc done in rw (sym e) (refl, refl)

accept_new-IsSound :
    ⦃h : Hashing⦄ (c : Candidate) (valid_from : Instant) (source : Text) (reason : Option Text)
    (draws : Draws) (s s' : Store) (r : MemoryRevision)
    → IsSound s
    → get draws.revision_id s.revisions ≡ none
    → accept_new c valid_from source reason draws s ≡ ok (r, s')
    → IsSound s'
unfolding accept_new
accept_new-IsSound c valid_from source reason draws s s' r sound fresh h =
    let (memory, h0, h1) = >>=-eq-ok (make_record _) _ h in
    let (belief, credible, h2) = >>=-eq-ok (make_belief (first_belief c valid_from source)) _ h1 in
    let (revision, made, h3) = >>=-eq-ok (make_revision _) _ h2 in
    let (t, h4, h5) = >>=-eq-ok (make_revision_transition _) _ h3 in
    let (added, stored, done) = >>=-eq-ok (add_memory memory revision t s) _ h5 in
    let (named, held) = make_revision-eq-ok _ revision made in
    let e : added ≡ s' = cc done in
    subst IsSound e (
      add_memory-IsSound memory revision t s added sound (ap (λ i. get i s.revisions) named ∙ fresh)
        (rw held (make_belief-le_one _ belief credible)) stored)

next_belief-le_one :
    (c : Candidate) (valid_from : Instant) (source : Text) (current : MemoryRevision)
    (b : BeliefState) (ids : List Uuid)
    → next_belief c valid_from source current ≡ ok (b, ids)
    → b.confidence ≤ one
next_belief-le_one c valid_from source current b ids h =
    elim (Bool-cases (current.value == c.value)) [
      | inl same ↦
          let (b', made, done) =
            >>=-eq-ok (reinforced current.belief c.confidence valid_from (some source)) _
              (rw same at h) in
          let e : b' ≡ b = cc done in
          subst (λ (x : BeliefState). x.confidence ≤ one) e (reinforced-le_one _ b' _ _ _ made)
      | inr other ↦
          let (b', made, done) =
            >>=-eq-ok (make_belief (first_belief c valid_from source)) _ (rw other at h) in
          let e : b' ≡ b = cc done in
          subst (λ (x : BeliefState). x.confidence ≤ one) e (make_belief-le_one _ b' made)
    ]

accept_next-IsSound :
    (c : Candidate) (valid_from : Instant) (source : Text) (reason : Option Text)
    (expected : Option Uuid) (draws : Draws) (current : MemorySnapshot) (s s' : Store)
    (r : MemoryRevision)
    → IsSound s
    → get draws.revision_id s.revisions ≡ none
    → accept_next c valid_from source reason expected draws current s ≡ ok (r, s')
    → IsSound s'
unfolding accept_next
accept_next-IsSound c valid_from source reason expected draws current s s' r sound fresh h =
    let (target, h0) = raise_if->>-eq-ok (is_other expected current.memory.id) _ _ h in
    let ((belief, ids), credible, h1) =
      >>=-eq-ok (next_belief c valid_from source current.revision) _ h0 in
    let (revision, made, h2) = >>=-eq-ok (make_revision _) _ h1 in
    let (t, h3, h4) = >>=-eq-ok (make_revision_transition _) _ h2 in
    let (appended, stored, done) =
      >>=-eq-ok (append_revision current.revision.id revision t s) _ h4 in
    let (named, held) = make_revision-eq-ok _ revision made in
    let e : appended ≡ s' = cc done in
    subst IsSound e (
      append_revision-IsSound current.revision.id revision t s appended sound
        (ap (λ i. get i s.revisions) named ∙ fresh)
        (rw held (next_belief-le_one c valid_from source current.revision belief ids credible))
        stored)

accept_either-IsSound :
    ⦃h : Hashing⦄ (c : Candidate) (valid_from : Instant) (source : Text) (reason : Option Text)
    (expected : Option Uuid) (draws : Draws) (current : Option MemorySnapshot) (s s' : Store)
    (r : MemoryRevision)
    → IsSound s
    → get draws.revision_id s.revisions ≡ none
    → accept_either c valid_from source reason expected draws current s ≡ ok (r, s')
    → IsSound s'
accept_either-IsSound c valid_from source reason none draws none s s' r sound fresh h =
    accept_new-IsSound c valid_from source reason draws s s' r sound fresh h
accept_either-IsSound c valid_from source reason (some i) draws none s s' r sound fresh h = cc
accept_either-IsSound c valid_from source reason none draws (some x) s s' r sound fresh h =
    accept_next-IsSound c valid_from source reason none draws x s s' r sound fresh h
accept_either-IsSound c valid_from source reason (some i) draws (some x) s s' r sound fresh h =
    accept_next-IsSound c valid_from source reason (some i) draws x s s' r sound fresh h

pub accept_candidate-IsSound :
    ⦃h : Hashing⦄ (c : Candidate) (valid_from : Instant) (source : Text) (reason : Option Text)
    (expected : Option Uuid) (draws : Draws) (s s' : Store) (x : PreferenceResult)
    → IsSound s
    → get draws.revision_id s.revisions ≡ none
    → accept_candidate c valid_from source reason expected draws s ≡ ok (x, s')
    → IsSound s'
unfolding accept_candidate
accept_candidate-IsSound c valid_from source reason expected draws s s' x sound fresh h =
    let (current, h0, h1) = >>=-eq-ok (current_by_identity c.scope c.key c.context s) _ h in
    let ((revision, stored), accepted, h2) =
      >>=-eq-ok (accept_either c valid_from source reason expected draws current s) _ h1 in
    let (candidate, h3, h4) = >>=-eq-ok (accept c revision.record_id revision.id) _ h2 in
    let (final, updated, done) = >>=-eq-ok (update_candidate candidate stored) _ h4 in
    let e : final ≡ s' = cc done in
    subst IsSound e (
      Agree-IsSound stored final (update_candidate-Agree candidate stored final updated) (
        accept_either-IsSound c valid_from source reason expected draws current s stored revision
          sound fresh accepted))

pub answered-same :
    (r : Result PreferenceResult) (s s' : Store) (x : PreferenceResult)
    → answered r s ≡ ok (x, s')
    → s' ≡ s
answered-same (err e) s s' x h = cc
answered-same (ok y) s s' x h = cc
