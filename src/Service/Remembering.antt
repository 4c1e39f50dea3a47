-- ===== src/Service/Remembering.antt =====
-- `remember_preference` and `correct_preference` keep the stored memories sound.
use evolvable_user_memory.Base.{
  ◌≡◌, inl, inr, refl, not, Option, none, some, Option-cases, ap, sym, ◌∙◌, subst, nat_eq, list_eq,
  pair_eq,
}
use evolvable_user_memory.Base.Result.{
  Result, ok, err, conflict_error, domain_error, not_found_error, attribution_error, value_error,
  key_error, processing_denied_error, governance_unavailable_error, other_error, >>=-eq-ok,
  raise_if->>-eq-ok,
}
use evolvable_user_memory.Base.Text.{Text}
use evolvable_user_memory.Base.Dict.{get}
use evolvable_user_memory.Common.{Uuid, Instant, Hashing, scope_eq}
use evolvable_user_memory.Evidence.{
  Observation, EvidenceSpan, Candidate, make_observation, make_evidence, make_candidate,
}
use evolvable_user_memory.Memory.{MemorySnapshot}
use evolvable_user_memory.Commands.{RememberPreference, CorrectPreference, PreferenceResult}
use evolvable_user_memory.Store.State.{Store, save_ingestion}
use evolvable_user_memory.Service.Ingestion.{
  Draws, accept_candidate, or_replayed, answered, existing_preference_result, remember_new,
  remember_preference, correct_new, correct_current, correct_preference, Replay, is_other,
}
use evolvable_user_memory.Service.Keeping.{IsSound, Agree-IsSound, save_ingestion-Agree}
use evolvable_user_memory.Service.Accepting.{accept_candidate-IsSound, answered-same}
use evolvable_user_memory.Store.State.{observation_by_idempotency}
use evolvable_user_memory.Store.Memories.{snapshot}
use evolvable_user_memory.Service.Ingestion.{remember_replay, correct_replay, is_preference}

-- A call whose ingestion is saved and accepted, or whose answer is found.
or_replayed-IsSound :
    ⦃h : Hashing⦄ (o : Observation) (evidence : EvidenceSpan) (c : Candidate) (valid_from : Instant)
    (source : Text) (reason : Option Text) (expected : Option Uuid) (draws : Draws) (r : Replay)
    (s s' : Store) (concurrent : Option Observation) (x : PreferenceResult)
    → IsSound s
    → get draws.revision_id s.revisions ≡ none
    → or_replayed
        (save_ingestion o evidence c s)
        (accept_candidate c valid_from source reason expected draws)
        concurrent
        (λ existing. answered (existing_preference_result existing r s) s)
      ≡ ok (x, s')
    → IsSound s'
or_replayed-IsSound o evidence c valid_from source reason expected draws r s s' concurrent x sound
      fresh h =
    go (save_ingestion o evidence c s) refl concurrent h
  where
    go :
        (saved : Result Store)
        → save_ingestion o evidence c s ≡ saved
        → (concurrent : Option Observation)
        → or_replayed saved
            (accept_candidate c valid_from source reason expected draws)
            concurrent
            (λ existing. answered (existing_preference_result existing r s) s)
          ≡ ok (x, s')
        → IsSound s'
    go (ok stored) e o' k =
        let same = save_ingestion-Agree o evidence c s stored e in
        accept_candidate-IsSound c valid_from source reason expected draws stored s' x
          (Agree-IsSound s stored same sound) (ap (get draws.revision_id) same.revisions ∙ fresh) k
    go (err (conflict_error m)) e none k = cc
    go (err (conflict_error m)) e (some existing) k =
        subst IsSound (sym (answered-same (existing_preference_result existing r s) s s' x k)) sound
    go (err (domain_error m)) e o' k = cc
    go (err (not_found_error m)) e o' k = cc
    go (err (attribution_error m)) e o' k = cc
    go (err (value_error m)) e o' k = cc
    go (err (key_error m)) e o' k = cc
    go (err (processing_denied_error m)) e o' k = cc
    go (err (governance_unavailable_error m)) e o' k = cc
    go (err (other_error m)) e o' k = cc

remember_new-IsSound :
    ⦃h : Hashing⦄ (command : RememberPreference) (draws : Draws) (s s' : Store)
    (x : PreferenceResult)
    → IsSound s
    → get draws.revision_id s.revisions ≡ none
    → remember_new command draws s ≡ ok (x, s')
    → IsSound s'
unfolding remember_new
remember_new-IsSound command draws s s' x sound fresh h =
    let (o, h0, h1) = >>=-eq-ok (make_observation _) _ h in
    let (evidence, h2, h3) = >>=-eq-ok (make_evidence _ _ _ _ _ _) _ h1 in
    let (c, h4, h5) = >>=-eq-ok (make_candidate _) _ h3 in
    or_replayed-IsSound o evidence c command.occurred_at command.source none none draws
      (remember_replay command) s s'
      (observation_by_idempotency command.scope command.idempotency_key s) x sound fresh h5

-- `remember_preference` with a fresh revision id keeps the memories sound: every record has one chain
-- of revisions that ends in the active one, and every confidence is at most 1.
pub remember_preference-IsSound :
    ⦃h : Hashing⦄ (command : RememberPreference) (draws : Draws) (s s' : Store)
    (x : PreferenceResult)
    → IsSound s
    → get draws.revision_id s.revisions ≡ none
    → remember_preference command draws s ≡ ok (x, s')
    → IsSound s'
unfolding remember_preference
remember_preference-IsSound command draws s s' x sound fresh h =
    elim (Option-cases (observation_by_idempotency command.scope command.idempotency_key s)) [
      | inl unseen ↦
          remember_new-IsSound command draws s s' x sound fresh
            (rw (unseen, remember_preference) at h)
      | inr (existing, e) ↦
          subst IsSound
            (sym (
              answered-same (existing_preference_result existing (remember_replay command) s) s s' x
                (rw (e, remember_preference) at h)))
            sound
    ]

correct_new-IsSound :
    ⦃h : Hashing⦄ (command : CorrectPreference) (current : MemorySnapshot) (draws : Draws)
    (s s' : Store) (x : PreferenceResult)
    → IsSound s
    → get draws.revision_id s.revisions ≡ none
    → correct_new command current draws s ≡ ok (x, s')
    → IsSound s'
unfolding correct_new
correct_new-IsSound command current draws s s' x sound fresh h =
    let (unchanged, h0) =
      raise_if->>-eq-ok (is_other command.expected_revision_id current.revision.id) _ _ h in
    let (o, h1, h2) = >>=-eq-ok (make_observation _) _ h0 in
    let (evidence, h3, h4) = >>=-eq-ok (make_evidence _ _ _ _ _ _) _ h2 in
    let (c, h5, h6) = >>=-eq-ok (make_candidate _) _ h4 in
    or_replayed-IsSound o evidence c command.occurred_at command.source (some command.reason)
      (some command.record_id) draws (correct_replay command current) s s'
      (observation_by_idempotency command.scope command.idempotency_key s) x sound fresh h6

correct_current-IsSound :
    ⦃h : Hashing⦄ (command : CorrectPreference) (current : Option MemorySnapshot) (draws : Draws)
    (s s' : Store) (x : PreferenceResult)
    → IsSound s
    → get draws.revision_id s.revisions ≡ none
    → correct_current command current draws s ≡ ok (x, s')
    → IsSound s'
correct_current-IsSound command none draws s s' x sound fresh h = cc
correct_current-IsSound command (some current) draws s s' x sound fresh h =
    let (kind, h0) = raise_if->>-eq-ok (not (is_preference current.memory.kind)) _ _ h in
    elim (Option-cases (observation_by_idempotency command.scope command.idempotency_key s)) [
      | inl unseen ↦ correct_new-IsSound command current draws s s' x sound fresh (rw unseen at h0)
      | inr (existing, e) ↦
          subst IsSound
            (sym (
              answered-same (existing_preference_result existing (correct_replay command current) s)
                s s' x (rw e at h0)))
            sound
    ]

-- `correct_preference` with a fresh revision id keeps the memories sound.
pub correct_preference-IsSound :
    ⦃h : Hashing⦄ (command : CorrectPreference) (draws : Draws) (s s' : Store)
    (x : PreferenceResult)
    → IsSound s
    → get draws.revision_id s.revisions ≡ none
    → correct_preference command draws s ≡ ok (x, s')
    → IsSound s'
unfolding correct_preference
correct_preference-IsSound command draws s s' x sound fresh h =
    let (current, h0, h1) = >>=-eq-ok (snapshot command.scope command.record_id s) _ h in
    correct_current-IsSound command current draws s s' x sound fresh h1
