-- ===== src/Store/Erasure.antt =====
-- `erase_scope`: all that the store holds of one scope is removed and counted.
use evolvable_user_memory.Base.{
  ℕ, ◌+◌, ◌≡◌, refl, Bool, true, false, not, List, [], ◌∷◌, ◌++◌, ◌==◌, ◌!=◌, ==_iff, nat_eq,
  list_eq, pair_eq, map, keep, length, Option, none, some, Option-cases, Bool-cases, inl, inr,
  arith, if◌then◌else◌, ap,
}
use evolvable_user_memory.Base.Result.{Result, ok, ◌>>=◌, >>=-eq-ok}
use evolvable_user_memory.Base.Dict.{Dict, get, remove, get-remove, values, keys, keep_keys}
use evolvable_user_memory.Base.Sort.{set_of, contains}
use evolvable_user_memory.Common.{Uuid, Scope, scope_eq}
use evolvable_user_memory.Evidence.{Observation, EvidenceSpan, Candidate}
use evolvable_user_memory.Memory.{MemoryRecord, RevisionTransition}
use evolvable_user_memory.Experience.{RecallTrace, MemoryUsage, OutcomeEvent}
use evolvable_user_memory.Store.State.{Store, trace, trace_scope, only_in}
use evolvable_user_memory.Store.Memories.{fetch, ids_of}

pub record ErasureSummary : Type 0 where
  pub observations : ℕ
  pub evidence_spans : ℕ
  pub candidates : ℕ
  pub memory_records : ℕ
  pub memory_revisions : ℕ
  pub revision_transitions : ℕ
  pub recall_traces : ℕ
  pub recall_trace_items : ℕ
  pub memory_usages : ℕ
  pub memory_usage_items : ℕ
  pub outcomes : ℕ
  pub utility_estimates : ℕ
  pub outbox_events : ℕ
  pub projection_jobs : ℕ
  pub projection_documents : ℕ

-- `for i in ids: d.pop(i, None)`
unfoldable pub remove_all {ℓ} : {A : Type ℓ} → List Uuid → Dict Uuid A → Dict Uuid A
remove_all [] d = d
remove_all (i ∷ is) d = remove_all is (remove i d)

-- `{item.id for item in d.values() if test(item)}`
abbrev pub ids_where {ℓ} : {A : Type ℓ} → (A → Bool) → (A → Uuid) → Dict Uuid A → List Uuid
ids_where test id_of d = set_of (map id_of (keep test (values d)))

-- `sum(len(f(d[i])) for i in ids)`
unfoldable pub total_for {ℓ} : {A : Type ℓ} → (A → ℕ) → List Uuid → Dict Uuid A → Result ℕ
total_for size [] d = ok 0
total_for size (i ∷ is) d = do x ← fetch i d; rest ← total_for size is d; ok (size x + rest)

abbrev pub all_ids : List Uuid → Store → List Uuid
all_ids [] s = []
all_ids (i ∷ is) s = ids_of i s ++ all_ids is s

abbrev pub other_scope {ℓ} : {A : Type ℓ} → Scope → Scope × A → Bool
other_scope scope (k, x) = k != scope

unfoldable pub erase_scope : Scope → Store → Result (ErasureSummary × Store)
erase_scope scope s = do
  let observation_ids = ids_where (λ (o : Observation). o.scope == scope) (λ o. o.id) s.observations
  let evidence_ids =
      ids_where (λ (e : EvidenceSpan). contains observation_ids e.observation_id) (λ e. e.id)
        s.evidence
  let candidate_ids = ids_where (λ (c : Candidate). c.scope == scope) (λ c. c.id) s.candidates
  let record_ids = ids_where (λ (m : MemoryRecord). m.scope == scope) (λ m. m.id) s.records
  let revision_ids = set_of (all_ids record_ids s)
  let trace_ids = ids_where (λ (t : RecallTrace). t.scope == scope) (λ t. t.id) s.traces
  recall_trace_items ← total_for (λ (t : RecallTrace). length t.items) trace_ids s.traces
  let usage_ids = ids_where (λ (u : MemoryUsage). u.scope == scope) (λ u. u.id) s.usages
  usage_items ← total_for (λ (u : MemoryUsage). length u.revision_ids) usage_ids s.usages
  let outcome_ids = ids_where (λ (o : OutcomeEvent). o.scope == scope) (λ o. o.id) s.outcomes
  let removed = keep (λ (t : RevisionTransition). contains record_ids t.record_id) s.transitions
  ok (
    record {
      observations = length observation_ids;
      evidence_spans = length evidence_ids;
      candidates = length candidate_ids;
      memory_records = length record_ids;
      memory_revisions = length revision_ids;
      revision_transitions = length removed;
      recall_traces = length trace_ids;
      recall_trace_items = recall_trace_items;
      memory_usages = length usage_ids;
      memory_usage_items = usage_items;
      outcomes = length outcome_ids;
      utility_estimates = length (keep (λ k. not (other_scope scope k)) (keys s.utilities));
      outbox_events = 0;
      projection_jobs = 0;
      projection_documents = 0;
    },
    record {
      observations = remove_all observation_ids s.observations;
      observation_keys = keep_keys (other_scope scope) s.observation_keys;
      evidence = remove_all evidence_ids s.evidence;
      candidates = remove_all candidate_ids s.candidates;
      candidate_by_observation = remove_all observation_ids s.candidate_by_observation;
      records = remove_all record_ids s.records;
      record_identity = keep_keys (other_scope scope) s.record_identity;
      revisions = remove_all revision_ids s.revisions;
      revision_ids_by_record = remove_all record_ids s.revision_ids_by_record;
      active_revision = remove_all record_ids s.active_revision;
      transitions =
          keep (λ (t : RevisionTransition). not (contains record_ids t.record_id)) s.transitions;
      traces = remove_all trace_ids s.traces;
      usages = remove_all usage_ids s.usages;
      usage_keys = keep_keys (other_scope scope) s.usage_keys;
      outcomes = remove_all outcome_ids s.outcomes;
      outcome_keys = keep_keys (other_scope scope) s.outcome_keys;
      utilities = keep_keys (other_scope scope) s.utilities;
    },
  )

pub get-remove_all {ℓ} :
    {A : Type ℓ} (ids : List Uuid) (j : Uuid) (d : Dict Uuid A)
    → get j (remove_all ids d) ≡ (if contains ids j then none else get j d)
unfolding remove_all
get-remove_all [] j d = refl
get-remove_all (i ∷ ids) j d = rw (get-remove_all ids j (remove i d), get-remove) (ground arith)

contains-keep :
    (p : Uuid → Bool) (xs : List Uuid) (a : Uuid)
    → p a ≡ true
    → contains (keep p xs) a ≡ contains xs a
contains-keep p [] a h = refl
contains-keep p (x ∷ xs) a h = elim (Bool-cases (p x)) [
  | inl e ↦ rw (e, contains-keep p xs a h) refl
  | inr e ↦ elim (Bool-cases (x == a)) [
    | inl same ↦ let k = (==_iff x a).0 same in cc (ap p k)
    | inr other ↦ rw (e, other, contains-keep p xs a h) refl
  ]
]

contains-set_of : (xs : List Uuid) (a : Uuid) → contains (set_of xs) a ≡ contains xs a
unfolding set_of
contains-set_of [] a = refl
contains-set_of (x ∷ xs) a = elim (Bool-cases (x == a)) [
  | inl same ↦ rw same refl
  | inr other ↦
      rw
        (
          other,
          contains-keep (λ y. not (x == y)) (set_of xs) a (rw other refl),
          contains-set_of xs a,
        )
        refl
]

contains-ids_where :
    {A : Type 0} (test : A → Bool) (id_of : A → Uuid) (i : Uuid) (x : A) (d : Dict Uuid A)
    → get i d ≡ some x
    → test x ≡ true
    → id_of x ≡ i
    → contains (map id_of (keep test (values d))) i ≡ true
unfolding get
contains-ids_where test id_of i x [] h good named = cc
contains-ids_where test id_of i x ((j, w) ∷ d) h good named = elim (Bool-cases (j == i)) [
  | inl same ↦
      let p : some w ≡ some x = rw same at h in
      let q : w ≡ x = cc in rw (q, good, (==_iff (id_of x) i).1 named) refl
  | inr other ↦
      let rest = contains-ids_where test id_of i x d (rw other at h) good named in
      elim (Bool-cases (test w)) [ inl e ↦ rw (e, rest) (ground arith) | inr e ↦ rw (e, rest) refl ]
]

abbrev traces_of : Scope → Store → List Uuid
traces_of scope s = ids_where (λ (t : RecallTrace). t.scope == scope) (λ t. t.id) s.traces

erase_scope-traces :
    (scope : Scope) (s s' : Store) (summary : ErasureSummary)
    → erase_scope scope s ≡ ok (summary, s')
    → s'.traces ≡ remove_all (traces_of scope s) s.traces
unfolding erase_scope
erase_scope-traces scope s s' summary h =
    let (n, items, h1) =
      >>=-eq-ok (total_for (λ (t : RecallTrace). length t.items) (traces_of scope s) s.traces) _
        h in
    let (m, usages, done) =
      >>=-eq-ok
        (total_for (λ (u : MemoryUsage). length u.revision_ids)
          (ids_where (λ (u : MemoryUsage). u.scope == scope) (λ u. u.id) s.usages) s.usages)
        _ h1 in
    cc done

hidden :
    (scope : Scope) (b : Bool) (o : Option RecallTrace)
    → only_in trace_scope scope o ≡ none
    → only_in trace_scope scope (if b then none else o) ≡ none
hidden scope true o h = refl
hidden scope false o h = h

-- After an erasure that returns, no trace of the scope can be read, if the store kept each trace
-- under its id.
pub erase_scope-trace :
    (scope : Scope) (s s' : Store) (summary : ErasureSummary) (i : Uuid)
    → ((j : Uuid) (t : RecallTrace) → get j s.traces ≡ some t → t.id ≡ j)
    → erase_scope scope s ≡ ok (summary, s')
    → trace scope i s' ≡ none
unfolding trace
erase_scope-trace scope s s' summary i named h =
    rw (erase_scope-traces scope s s' summary h, get-remove_all, contains-set_of)
      (elim (Option-cases (get i s.traces)) [
        | inl absent ↦ hidden scope _ (get i s.traces) (rw absent refl)
        | inr (t, e) ↦ elim (Bool-cases (t.scope == scope)) [
          | inl inside ↦
              rw
                (contains-ids_where (λ (t : RecallTrace). t.scope == scope) (λ t. t.id) i t s.traces
                  e inside (named i t e))
                refl
          | inr outside ↦ hidden scope _ (get i s.traces) (rw e (rw outside refl))
        ]
      ])
