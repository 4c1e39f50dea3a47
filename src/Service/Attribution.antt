-- ===== src/Service/Attribution.antt =====
-- Every stored outcome is attributed to a trace of its scope that delivered its revision.
use evolvable_user_memory.Base.{
  ◌≡◌, Bool, true, false, not, [], any, all, length, ltb, leb, ◌&&◌, ◌||◌, ◌==◌, ◌!=◌, nat_eq,
  list_eq, pair_eq, option_eq, !=-false, ==_iff, Option, none, some, Option-cases, Bool-cases, inl,
  inr, ap, sym, ◌∙◌, arith, ◌*◌,
}
use evolvable_user_memory.Base.Result.{
  ok, >>=-eq-ok, >>-eq-ok, raise_if->>-eq-ok, raise_if-eq-ok, ok-injective,
}
use evolvable_user_memory.Base.Dict.{get, get-insert-cases, get-insert_keeps}
use evolvable_user_memory.Base.Fixed.{one}
use evolvable_user_memory.Base.Sort.{contains, set_of}
use Prim.Native.String.{String}
use evolvable_user_memory.Common.{
  Uuid, Instant, Scope, scope_eq, Hashing, ContextSignature, require_text,
}
use evolvable_user_memory.Projection.{lower, source_revision_ids, require_sha256, budget_fits}
use evolvable_user_memory.Experience.{
  RecallTrace, RecalledItem, MemoryUsage, make_usage, OutcomeEvent, make_outcome, UtilityEstimate,
  updated, success_value,
}
use evolvable_user_memory.Compression.{Digests, project}
use evolvable_user_memory.Commands.{
  RecordOutcome, OutcomeResult, RecordMemoryUsage, MemoryUsageResult,
}
use evolvable_user_memory.Store.State.{Store, only_in, save_trace, trace, trace_scope}
use evolvable_user_memory.Store.Feedback.{
  with_usage, save_usage, usage_differs, usage, usage_scope, with_outcome, apply_outcome,
  outcome_differs, utility_for,
}
use evolvable_user_memory.Service.Feedback.{found, check_attribution, record_outcome, record_usage}

abbrev delivers : Uuid → RecalledItem → Bool
delivers revision_id item = item.revision_id == revision_id

-- The revision was in the trace, or in a usage of it.
abbrev pub IsCited : Store → OutcomeEvent → Option Uuid → RecallTrace → Type 0
IsCited s o none t = any (λ (item : RecalledItem). item.revision_id == o.revision_id) t.items ≡ true
IsCited s o (some i) t =
    (u : MemoryUsage) × (get i s.usages ≡ some u)
    × (u.scope ≡ o.scope)
    × (u.trace_id ≡ o.trace_id)
    × (contains u.revision_ids o.revision_id ≡ true)

pub record IsDelivered (s : Store) (o : OutcomeEvent) : Type 0 where
  pub t : RecallTrace
  pub traced : get o.trace_id s.traces ≡ some t
  pub scoped : t.scope ≡ o.scope
  pub cited : IsCited s o o.usage_id t

abbrev pub IsAttributed : Store → Type 0
IsAttributed s = (i : Uuid) (o : OutcomeEvent) → get i s.outcomes ≡ some o → IsDelivered s o

only_in-eq-some {ℓ} :
    {A : Type ℓ} (scope_of : A → Scope) (scope : Scope) (o : Option A) (x : A)
    → only_in scope_of scope o ≡ some x
    → (o ≡ some x) × (scope_of x ≡ scope)
only_in-eq-some scope_of scope none x h = cc
only_in-eq-some scope_of scope (some y) x h = elim (Bool-cases (scope_of y == scope)) [
  | inl own ↦
      let k : some y ≡ some x = rw own at h in
      let same : y ≡ x = cc in (k, ap scope_of (sym same) ∙ (==_iff (scope_of y) scope).0 own)
  | inr foreign ↦ cc (rw foreign at h)
]

found-eq-ok {ℓ} : {A : Type ℓ} (o : Option A) (m : String) (x : A) → found o m ≡ ok x → o ≡ some x
found-eq-ok none m x h = cc
found-eq-ok (some y) m x h = ap some (ok-injective h)

-- More traces and usages leave what is delivered.
IsDelivered-grows :
    (s s' : Store) (o : OutcomeEvent)
    → ((i : Uuid) (t : RecallTrace) → get i s.traces ≡ some t → get i s'.traces ≡ some t)
    → ((i : Uuid) (u : MemoryUsage) → get i s.usages ≡ some u → get i s'.usages ≡ some u)
    → IsDelivered s o
    → IsDelivered s' o
IsDelivered-grows s s' o traces usages d = record {
  t = d.t;
  traced = traces o.trace_id d.t d.traced;
  scoped = d.scoped;
  cited = go o.usage_id d.cited;
}
  where
    go : (i : Option Uuid) → IsCited s o i d.t → IsCited s' o i d.t
    go none c = c
    go (some i) (u, there, own, same, listed) = (u, usages i u there, own, same, listed)

save_trace-IsAttributed :
    (t : RecallTrace) (s : Store)
    → get t.id s.traces ≡ none
    → IsAttributed s
    → IsAttributed (save_trace t s)
unfolding save_trace
save_trace-IsAttributed t s fresh a i o there =
    IsDelivered-grows s (save_trace t s) o
      (λ j x h. get-insert_keeps t.id j t x s.traces h (λ p. cc (p, fresh))) (λ j u h. h)
      (a i o there)

with_usage-IsAttributed :
    (u : MemoryUsage) (s : Store)
    → get u.id s.usages ≡ none
    → IsAttributed s
    → IsAttributed (with_usage u s)
with_usage-IsAttributed u s fresh a i o there =
    IsDelivered-grows s (with_usage u s) o (λ j x h. h)
      (λ j x h. get-insert_keeps u.id j u x s.usages h (λ p. cc (p, fresh))) (a i o there)

save_usage-IsAttributed :
    (u stored : MemoryUsage) (created : Bool) (s s' : Store)
    → get u.id s.usages ≡ none
    → IsAttributed s
    → save_usage u s ≡ ok (stored, created, s')
    → IsAttributed s'
unfolding save_usage
save_usage-IsAttributed u stored created s s' fresh a h =
    elim (Option-cases (get (u.scope, u.idempotency_key) s.usage_keys)) [
      | inl unseen ↦
          let k : ok (u, true, with_usage u s) ≡ ok (stored, created, s') =
            rw (unseen, save_usage) at h in
          let same : with_usage u s ≡ s' = cc in rw (sym same) (with_usage-IsAttributed u s fresh a)
      | inr (i, seen) ↦ elim (Option-cases (get i s.usages)) [
        | inl absent ↦ cc (rw (seen, absent, save_usage) at h)
        | inr (existing, there) ↦ elim (Bool-cases (usage_differs existing u)) [
          | inl other ↦ cc (rw (seen, there, other, save_usage) at h)
          | inr alike ↦
              let k : ok (existing, false, s) ≡ ok (stored, created, s') =
                rw (seen, there, alike, save_usage) at h in
              let same : s ≡ s' = cc in rw (sym same) a
        ]
      ]
    ]

with_outcome-IsAttributed :
    ⦃h : Hashing⦄ (o : OutcomeEvent) (context : ContextSignature) (utility : UtilityEstimate)
    (s : Store)
    → IsDelivered s o
    → IsAttributed s
    → IsAttributed (with_outcome o context utility s)
with_outcome-IsAttributed o context utility s d a i x there =
    elim (get-insert-cases o.id i o x s.outcomes there) [
      | inl (at, same) ↦
          rw (sym same)
            (IsDelivered-grows s (with_outcome o context utility s) o (λ j t h. h) (λ j u h. h) d)
      | inr old ↦
          IsDelivered-grows s (with_outcome o context utility s) x (λ j t h. h) (λ j u h. h)
            (a i x old)
    ]

apply_outcome-IsAttributed :
    ⦃h : Hashing⦄ (o stored : OutcomeEvent) (context : ContextSignature) (utility : UtilityEstimate)
    (created : Bool) (s s' : Store)
    → IsDelivered s o
    → IsAttributed s
    → apply_outcome o context s ≡ ok (stored, utility, created, s')
    → IsAttributed s'
unfolding apply_outcome
apply_outcome-IsAttributed o stored context utility created s s' d a h =
    elim (Option-cases (get (o.scope, o.idempotency_key) s.outcome_keys)) [
      | inl unseen ↦
          let (next, e, k) =
            >>=-eq-ok
              (updated (success_value o.kind) o.weight o.occurred_at
                (utility_for o.scope o.revision_id context s))
              (λ v. ok (o, v, true, with_outcome o context v s))
              (rw (unseen, apply_outcome) at h) in
          let same =
            ap (λ (r : OutcomeEvent × UtilityEstimate × Bool × Store). r.3) (ok-injective k) in
          rw (sym same) (with_outcome-IsAttributed o context next s d a)
      | inr (i, seen) ↦ elim (Option-cases (get i s.outcomes)) [
        | inl absent ↦ cc (rw (seen, absent, apply_outcome) at h)
        | inr (existing, there) ↦ elim (Bool-cases (outcome_differs existing o)) [
          | inl other ↦ cc (rw (seen, there, other, apply_outcome) at h)
          | inr alike ↦
              let k : ok (existing, utility_for o.scope existing.revision_id context s, false, s)
                  ≡ ok (stored, utility, created, s') =
                rw (seen, there, alike, apply_outcome) at h in
              let same =
                ap (λ (r : OutcomeEvent × UtilityEstimate × Bool × Store). r.3) (ok-injective k) in
              rw (sym same) a
        ]
      ]
    ]

module _ ⦃h : Hashing⦄ (command : RecordOutcome) (outcome_id : Uuid) (now : Instant) where
  trace-get :
      (scope : Scope) (trace_id : Uuid) (t : RecallTrace) (s : Store)
      → trace scope trace_id s ≡ some t
      → (get trace_id s.traces ≡ some t) × (t.scope ≡ scope)
  unfolding trace
  trace-get scope trace_id t s k = only_in-eq-some trace_scope scope (get trace_id s.traces) t k

  usage-get :
      (scope : Scope) (usage_id : Uuid) (u : MemoryUsage) (s : Store)
      → usage scope usage_id s ≡ some u
      → (get usage_id s.usages ≡ some u) × (u.scope ≡ scope)
  unfolding usage
  usage-get scope usage_id u s k = only_in-eq-some usage_scope scope (get usage_id s.usages) u k

  abbrev given : OutcomeEvent
  given = record {
    id = outcome_id;
    scope = command.scope;
    trace_id = command.trace_id;
    revision_id = command.revision_id;
    kind = command.kind;
    idempotency_key = command.idempotency_key;
    occurred_at = command.occurred_at;
    recorded_at = now;
    usage_id = command.usage_id;
    weight = command.weight;
    note = command.note;
  }

  check_attribution-IsCited :
      (t : RecallTrace) (i : Option Uuid) (s : Store)
      → check_attribution command t i s ≡ ok tt
      → IsCited s given i t
  unfolding check_attribution
  check_attribution-IsCited t none s k =
      let absent =
        raise_if-eq-ok
          (not (any (λ (item : RecalledItem). item.revision_id == command.revision_id) t.items)) _
          k in
      ground arith
  check_attribution-IsCited t (some i) s k =
      let (u, e, k1) = >>=-eq-ok (found (usage command.scope i s) _) _ k in
      let (there, own) =
        usage-get command.scope i u s (found-eq-ok (usage command.scope i s) _ u e) in
      let (same, k2) = raise_if->>-eq-ok (u.trace_id != command.trace_id) _ _ k1 in
      let listed = raise_if-eq-ok (not (contains u.revision_ids command.revision_id)) _ k2 in
      (u, there, own, !=-false u.trace_id command.trace_id same, ground arith)

  make_outcome-IsDelivered :
      (o : OutcomeEvent) (s : Store)
      → make_outcome given ≡ ok o
      → IsDelivered s given
      → IsDelivered s o
  unfolding make_outcome
  make_outcome-IsDelivered o s k d =
      let (key, e, k1) = >>=-eq-ok (require_text command.idempotency_key) _ k in
      let (weighed, k2) =
        raise_if->>-eq-ok (not (ltb 0 command.weight && leb command.weight (10 * one))) _ _ k1 in
      rw (sym (ok-injective k2))
        (record { t = d.t; traced = d.traced; scoped = d.scoped; cited = d.cited })

  -- `record_outcome` keeps every stored outcome attributed.
  pub record_outcome-IsAttributed :
      (s s' : Store) (x : OutcomeResult)
      → IsAttributed s
      → record_outcome command outcome_id now s ≡ ok (x, s')
      → IsAttributed s'
  unfolding record_outcome
  record_outcome-IsAttributed s s' x a k =
      let (t, e0, k1) = >>=-eq-ok (found (trace command.scope command.trace_id s) _) _ k in
      let (there, own) =
        trace-get command.scope command.trace_id t s
          (found-eq-ok (trace command.scope command.trace_id s) _ t e0) in
      let (checked, k2) = >>-eq-ok (check_attribution command t command.usage_id s) _ k1 in
      let (o, made, k3) = >>=-eq-ok (make_outcome given) _ k2 in
      let ((stored, utility, created, s1), applied, k4) =
        >>=-eq-ok (apply_outcome o t.context s) _ k3 in
      let (fine, k5) =
        raise_if->>-eq-ok (not created && stored.note != o.note) _
          (ok (record { outcome = stored; utility = utility; idempotent_replay = not created }, s1))
          k4 in
      let same = ap (λ (r : OutcomeResult × Store). r.1) (ok-injective k5) in
      let d = make_outcome-IsDelivered o s made (record {
        t = t;
        traced = there;
        scoped = own;
        cited = check_attribution-IsCited t command.usage_id s checked;
      }) in
      rw (sym same) (apply_outcome-IsAttributed o stored t.context utility created s s1 d a applied)

make_usage-id : (x u : MemoryUsage) → make_usage x ≡ ok u → u.id ≡ x.id
unfolding make_usage
make_usage-id x u h =
    let (budget, h1) = raise_if->>-eq-ok (not (budget_fits x.budget_characters)) _ _ h in
    let (a, ha, h2) = >>=-eq-ok (require_sha256 x.source_projection_sha256) _ h1 in
    let (b, hb, h3) = >>=-eq-ok (require_sha256 x.delivered_context_sha256) _ h2 in
    let (some_cited, h4) = raise_if->>-eq-ok (length x.revision_ids == 0) _ _ h3 in
    let (distinct, h5) =
      raise_if->>-eq-ok (length (set_of x.revision_ids) != length x.revision_ids) _ _ h4 in
    let (c, hc, h6) = >>=-eq-ok (require_text x.idempotency_key) _ h5 in
    ap (λ (y : MemoryUsage). y.id) (sym (ok-injective h6))

record_usage-IsAttributed :
    ⦃d : Digests⦄ (command : RecordMemoryUsage) (usage_id : Uuid) (now : Instant) (s s' : Store)
    (x : MemoryUsageResult)
    → get usage_id s.usages ≡ none
    → IsAttributed s
    → record_usage command usage_id now s ≡ ok (x, s')
    → IsAttributed s'
unfolding record_usage
record_usage-IsAttributed command usage_id now s s' x fresh a k =
    let (t, e0, k1) = >>=-eq-ok (found (trace command.scope command.trace_id s) _) _ k in
    let (p, e1, k2) = >>=-eq-ok (project t command.algorithm command.budget_characters) _ k1 in
    let (same_digest, k3) =
      raise_if->>-eq-ok (p.projection_sha256 != lower command.source_projection_sha256) _ _ k2 in
    let (inside, k4) =
      raise_if->>-eq-ok
        (length command.revision_ids == 0
          || not (all (contains (source_revision_ids p)) command.revision_ids))
        _ _ k3 in
    let (past, k5) = raise_if->>-eq-ok (ltb now command.occurred_at) _ _ k4 in
    let (u, made, k6) = >>=-eq-ok (make_usage _) _ k5 in
    let ((stored, created, s1), saved, k7) = >>=-eq-ok (save_usage u s) _ k6 in
    let same = ap (λ (r : MemoryUsageResult × Store). r.1) (ok-injective k7) in
    rw (sym same) (
      save_usage-IsAttributed u stored created s s1
        (ap (λ i. get i s.usages) (make_usage-id _ u made) ∙ fresh) a saved)

-- The calls that write traces, usages and outcomes, with fresh ids.
pub data Step ⦃h : Hashing⦄ ⦃d : Digests⦄ : Store → Store → Type 0 where
  recalls : (t : RecallTrace) {s : Store} → get t.id s.traces ≡ none → Step s (save_trace t s)
  uses :
      (command : RecordMemoryUsage) (usage_id : Uuid) (now : Instant) {s s' : Store}
      {x : MemoryUsageResult}
      → get usage_id s.usages ≡ none
      → record_usage command usage_id now s ≡ ok (x, s')
      → Step s s'
  rates :
      (command : RecordOutcome) (outcome_id : Uuid) (now : Instant) {s s' : Store}
      {x : OutcomeResult}
      → record_outcome command outcome_id now s ≡ ok (x, s')
      → Step s s'

pub data Steps ⦃h : Hashing⦄ ⦃d : Digests⦄ : Store → Store → Type 0 where
  stop : {s : Store} → Steps s s
  then_step : {a b c : Store} → Step a b → Steps b c → Steps a c

-- From a store without outcomes, any saved traces, recorded usages and recorded outcomes lead to a store
-- in which each outcome belongs to a trace of its scope that has its revision, or to a usage of that
-- trace in the scope that cites it.
pub recorded-IsAttributed :
    ⦃h : Hashing⦄ ⦃d : Digests⦄ (s s' : Store) → s.outcomes ≡ [] → Steps s s' → IsAttributed s'
unfolding get
recorded-IsAttributed s s' bare steps = go steps (λ i o there. cc (rw bare at there))
  where
    step : {a b : Store} → Step a b → IsAttributed a → IsAttributed b
    step (recalls t fresh) a = save_trace-IsAttributed t _ fresh a
    step (uses command usage_id now fresh k) a =
        record_usage-IsAttributed command usage_id now _ _ _ fresh a k
    step (rates command outcome_id now k) a =
        record_outcome-IsAttributed command outcome_id now _ _ _ a k

    go : {a b : Store} → Steps a b → IsAttributed a → IsAttributed b
    go stop a = a
    go (then_step s ss) a = go ss (step s a)
