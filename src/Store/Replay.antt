-- ===== src/Store/Replay.antt =====
-- A retried receipt or outcome is answered from the store and changes nothing. The service gives each
-- retry a new id and new times, so a retry is another event with the same business data.
use evolvable_user_memory.Base.{
  ◌≡◌, refl, Bool, true, false, ==_refl, Option-cases, Bool-cases, inl, inr, nat_eq, list_eq,
  pair_eq, option_eq, some,
}
use evolvable_user_memory.Base.Result.{ok, >>=-eq-ok}
use evolvable_user_memory.Base.Dict.{get, get-insert_same}
use evolvable_user_memory.Common.{Uuid, Instant, ContextSignature, Hashing, fingerprint, scope_eq}
use evolvable_user_memory.Experience.{
  MemoryUsage, OutcomeEvent, UtilityEstimate, updated, success_value,
}
use evolvable_user_memory.Store.State.{Store}
use evolvable_user_memory.Store.Feedback.{
  save_usage, with_usage, usage_differs, apply_outcome, outcome_differs, utility_for, with_outcome,
  algorithm_eq, outcome_kind_eq,
}

usage_differs_refl : (u : MemoryUsage) → usage_differs u u ≡ false
unfolding usage_differs
usage_differs_refl u =
    rw
      (
        ==_refl u.trace_id,
        ==_refl u.algorithm,
        ==_refl u.budget_characters,
        ==_refl u.source_projection_sha256,
        ==_refl u.delivered_context_sha256,
        ==_refl u.revision_ids,
      )
      refl

outcome_differs_refl : (o : OutcomeEvent) → outcome_differs o o ≡ false
unfolding outcome_differs
outcome_differs_refl o =
    rw
      (
        ==_refl o.trace_id,
        ==_refl o.usage_id,
        ==_refl o.revision_id,
        ==_refl o.kind,
        ==_refl o.weight,
        ==_refl o.note,
      )
      refl

-- The retry of a usage: the service gives it a new id and new times.
abbrev pub retried_usage : MemoryUsage → Uuid → Instant → Instant → MemoryUsage
retried_usage u id occurred_at recorded_at = record u {
  id = id;
  occurred_at = occurred_at;
  recorded_at = recorded_at;
}

-- The retry of an outcome.
abbrev pub retried_outcome : OutcomeEvent → Uuid → Instant → Instant → OutcomeEvent
retried_outcome o id occurred_at recorded_at = record o {
  id = id;
  occurred_at = occurred_at;
  recorded_at = recorded_at;
}

usage_differs-retried :
    (x u : MemoryUsage) (id : Uuid) (at now : Instant)
    → usage_differs x (retried_usage u id at now) ≡ usage_differs x u
unfolding usage_differs
usage_differs-retried x u id at now = refl

outcome_differs-retried :
    (x o : OutcomeEvent) (id : Uuid) (at now : Instant)
    → outcome_differs x (retried_outcome o id at now) ≡ outcome_differs x o
unfolding outcome_differs
outcome_differs-retried x o id at now = refl

-- A retry whose key is stored with an event of the same data is answered from the store.
usage_found :
    (u old : MemoryUsage) (i id : Uuid) (at now : Instant) (s : Store)
    → get (u.scope, u.idempotency_key) s.usage_keys ≡ some i
    → get i s.usages ≡ some old
    → usage_differs old u ≡ false
    → save_usage (retried_usage u id at now) s ≡ ok (old, false, s)
unfolding save_usage
usage_found u old i id at now s key found same =
    rw (key, save_usage) (rw found (rw (usage_differs-retried old u id at now) (rw same refl)))

-- A usage that was saved, or was found saved, is answered as found when it comes again under a new id
-- and with new times, and the retry changes nothing.
pub save_usage-replay :
    (u x : MemoryUsage) (new : Bool) (id : Uuid) (at now : Instant) (s s' : Store)
    → save_usage u s ≡ ok (x, new, s')
    → save_usage (retried_usage u id at now) s' ≡ ok (x, false, s')
unfolding save_usage
save_usage-replay u x new id at now s s' h =
    elim (Option-cases (get (u.scope, u.idempotency_key) s.usage_keys)) [
      | inl absent ↦
          let k : ok (u, true, with_usage u s) ≡ ok (x, new, s') = rw (absent, save_usage) at h in
          let named : x ≡ u = cc in
          let stored : s' ≡ with_usage u s = cc in
          rw (named, stored)
            (usage_found u u u.id id at now (with_usage u s)
              (get-insert_same (u.scope, u.idempotency_key) u.id s.usage_keys)
              (get-insert_same u.id u s.usages) (usage_differs_refl u))
      | inr (i, e) ↦ elim (Option-cases (get i s.usages)) [
        | inl lost ↦ cc (rw (e, save_usage, lost) at h)
        | inr (old, f) ↦ elim (Bool-cases (usage_differs old u)) [
          | inl differs ↦ cc (rw (e, save_usage, f, differs) at h)
          | inr same ↦
              let k : ok (old, false, s) ≡ ok (x, new, s') = rw (e, save_usage, f, same) at h in
              let named : x ≡ old = cc in
              let stored : s' ≡ s = cc in
              rw (named, stored) (usage_found u old i id at now s e f same)
        ]
      ]
    ]

outcome_found :
    ⦃h : Hashing⦄ (o old : OutcomeEvent) (context : ContextSignature) (i id : Uuid)
    (at now : Instant) (s : Store)
    → get (o.scope, o.idempotency_key) s.outcome_keys ≡ some i
    → get i s.outcomes ≡ some old
    → outcome_differs old o ≡ false
    → apply_outcome (retried_outcome o id at now) context s
      ≡ ok (old, utility_for o.scope old.revision_id context s, false, s)
unfolding apply_outcome
outcome_found o old context i id at now s key found same =
    rw (key, apply_outcome) (rw found (rw (outcome_differs-retried old o id at now) (rw same refl)))

utility_for_written :
    ⦃h : Hashing⦄ (o : OutcomeEvent) (context : ContextSignature) (u : UtilityEstimate) (s : Store)
    → utility_for o.scope o.revision_id context (with_outcome o context u s) ≡ u
unfolding utility_for
utility_for_written o context u s =
    rw (get-insert_same (o.scope, (o.revision_id, fingerprint context)) u s.utilities, utility_for)
      refl

outcome_again :
    ⦃h : Hashing⦄ (o : OutcomeEvent) (context : ContextSignature) (u : UtilityEstimate) (id : Uuid)
    (at now : Instant) (s : Store)
    → apply_outcome (retried_outcome o id at now) context (with_outcome o context u s)
      ≡ ok (o, u, false, with_outcome o context u s)
outcome_again o context u id at now s =
    let k =
      outcome_found o o context o.id id at now (with_outcome o context u s)
        (get-insert_same (o.scope, o.idempotency_key) o.id s.outcome_keys)
        (get-insert_same o.id o s.outcomes) (outcome_differs_refl o) in
    rw (utility_for_written o context u s) at k

-- An outcome that was applied, or was found applied, is answered with the same outcome and utility when
-- it comes again under a new id and with new times, and the retry changes nothing: no outcome counts
-- twice.
pub apply_outcome-replay :
    ⦃h : Hashing⦄ (o x : OutcomeEvent) (context : ContextSignature) (u : UtilityEstimate)
    (new : Bool) (id : Uuid) (at now : Instant) (s s' : Store)
    → apply_outcome o context s ≡ ok (x, u, new, s')
    → apply_outcome (retried_outcome o id at now) context s' ≡ ok (x, u, false, s')
unfolding apply_outcome
apply_outcome-replay o x context u new id at now s s' h =
    elim (Option-cases (get (o.scope, o.idempotency_key) s.outcome_keys)) [
      | inl absent ↦
          let (v, made, k) =
            >>=-eq-ok
              (updated (success_value o.kind) o.weight o.occurred_at
                (utility_for o.scope o.revision_id context s))
              _ (rw (absent, apply_outcome) at h) in
          let same : u ≡ v = cc in
          let named : x ≡ o = cc in
          let stored : s' ≡ with_outcome o context v s = cc in
          rw (named, same, stored) (outcome_again o context v id at now s)
      | inr (i, e) ↦ elim (Option-cases (get i s.outcomes)) [
        | inl lost ↦ cc (rw (e, apply_outcome, lost) at h)
        | inr (old, f) ↦ elim (Bool-cases (outcome_differs old o)) [
          | inl differs ↦ cc (rw (e, apply_outcome, f, differs) at h)
          | inr same ↦
              let k : ok (old, utility_for o.scope old.revision_id context s, false, s)
                  ≡ ok (x, u, new, s') =
                rw (e, apply_outcome, f, same) at h in
              let named : x ≡ old = cc in
              let kept : u ≡ utility_for o.scope old.revision_id context s = cc in
              let stored : s' ≡ s = cc in
              rw (named, kept, stored) (outcome_found o old context i id at now s e f same)
        ]
      ]
    ]
