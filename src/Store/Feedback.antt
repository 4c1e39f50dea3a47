-- ===== src/Store/Feedback.antt =====
-- The methods of `InMemoryMemoryStore` on usage receipts, outcomes and utility estimates.
use evolvable_user_memory.Base.{
  ℕ, ◌-◌, ◌≡◌, ◌↔◌, Bool, true, false, ◌&&◌, ◌||◌, List, [], ◌∷◌, ◌==◌, ◌!=◌, nat_eq, list_eq,
  pair_eq, option_eq, leb, map, sum, keep, Option, none, some, Eq, arith, if◌then◌else◌,
}
use evolvable_user_memory.Base.Result.{Result, ok, err, conflict_error, key_error, ◌>>=◌}
use evolvable_user_memory.Base.Text.{Text}
use evolvable_user_memory.Base.Dict.{get, insert, values}
use evolvable_user_memory.Base.Fixed.{one, times}
use evolvable_user_memory.Common.{
  Uuid, Instant, Scope, scope_eq, ContextSignature, Hashing, fingerprint,
}
use evolvable_user_memory.Projection.{
  ContextCompressionAlgorithm, ranked_extractive, exact_deduplicated,
}
use evolvable_user_memory.Experience.{
  MemoryUsage, OutcomeEvent, OutcomeKind, UtilityEstimate, no_outcomes, updated, success_value,
  later,
}
use evolvable_user_memory.Store.State.{Store, only_in}

abbrev algorithm_code : ContextCompressionAlgorithm → ℕ
algorithm_code ranked_extractive = 0
algorithm_code exact_deduplicated = 1

abbrev pub algorithm_beq : ContextCompressionAlgorithm → ContextCompressionAlgorithm → Bool
algorithm_beq a b = algorithm_code a == algorithm_code b

pub algorithm_beq_iff : (a b : ContextCompressionAlgorithm) → (algorithm_beq a b ≡ true) ↔ (a ≡ b)
algorithm_beq_iff a b = (λ h. ground arith, λ h. ground arith)

instance abbrev pub algorithm_eq : Eq ContextCompressionAlgorithm
algorithm_eq = record { beq = algorithm_beq; beq_iff = algorithm_beq_iff }

abbrev kind_code : OutcomeKind → ℕ
kind_code OutcomeKind.helpful = 0
kind_code OutcomeKind.accepted = 1
kind_code OutcomeKind.harmful = 2
kind_code OutcomeKind.rejected = 3
kind_code OutcomeKind.corrected = 4

abbrev pub outcome_kind_beq : OutcomeKind → OutcomeKind → Bool
outcome_kind_beq a b = kind_code a == kind_code b

pub outcome_kind_beq_iff : (a b : OutcomeKind) → (outcome_kind_beq a b ≡ true) ↔ (a ≡ b)
outcome_kind_beq_iff a b = (λ h. ground arith, λ h. ground arith)

instance abbrev pub outcome_kind_eq : Eq OutcomeKind
outcome_kind_eq = record { beq = outcome_kind_beq; beq_iff = outcome_kind_beq_iff }

unfoldable pub usage_differs : MemoryUsage → MemoryUsage → Bool
usage_differs existing u =
    existing.trace_id != u.trace_id
    || existing.algorithm != u.algorithm
    || existing.budget_characters != u.budget_characters
    || existing.source_projection_sha256 != u.source_projection_sha256
    || existing.delivered_context_sha256 != u.delivered_context_sha256
    || existing.revision_ids != u.revision_ids

-- The writes of `save_usage`.
abbrev pub with_usage : MemoryUsage → Store → Store
with_usage u s = record s {
  usages = insert u.id u s.usages;
  usage_keys = insert (u.scope, u.idempotency_key) u.id s.usage_keys;
}

-- `save_usage`: the stored usage, whether it is new, and the store.
unfoldable pub save_usage : MemoryUsage → Store → Result (MemoryUsage × Bool × Store)
save_usage u s = elim (get (u.scope, u.idempotency_key) s.usage_keys) [
  | none ↦ ok (u, true, with_usage u s)
  | some existing_id ↦ elim (get existing_id s.usages) [
    | none ↦ err (key_error "existing_id")
    | some existing ↦
        if usage_differs existing u
        then err (conflict_error "usage idempotency key was reused with different data")
        else ok (existing, false, s)
  ]
]

abbrev pub usage_scope : MemoryUsage → Scope
usage_scope u = u.scope

unfoldable pub usage : Scope → Uuid → Store → Option MemoryUsage
usage scope usage_id s = only_in usage_scope scope (get usage_id s.usages)

abbrev pub or_no_outcomes : Option UtilityEstimate → Uuid → Text → UtilityEstimate
or_no_outcomes none revision_id print = no_outcomes revision_id print
or_no_outcomes (some u) revision_id print = u

unfoldable pub utility_for :
    ⦃h : Hashing⦄ → Scope → Uuid → ContextSignature → Store → UtilityEstimate
utility_for scope revision_id context s =
    or_no_outcomes (get (scope, (revision_id, fingerprint context)) s.utilities) revision_id
      (fingerprint context)

-- The test of the generator in `utility_for_as_of`.
unfoldable pub counts :
    ⦃h : Hashing⦄ → Scope → Uuid → ContextSignature → Instant → Store → OutcomeEvent → Bool
counts scope revision_id context known_at s o =
    o.scope == scope
    && o.revision_id == revision_id
    && leb o.recorded_at known_at
    && (elim (get o.trace_id s.traces) [
      | none ↦ false
      | some t ↦ t.scope == scope && fingerprint t.context == fingerprint context
    ])

abbrev pub latest : List OutcomeEvent → Option Instant
latest [] = none
latest (o ∷ os) =
    some (elim (later (latest os) o.occurred_at) [ none ↦ o.occurred_at | some t ↦ t ])

unfoldable pub utility_for_as_of :
    ⦃h : Hashing⦄ → Scope → Uuid → ContextSignature → Instant → Store → UtilityEstimate
utility_for_as_of scope revision_id context known_at s =
    let outcomes = keep (counts scope revision_id context known_at s) (values s.outcomes) in
    record {
      revision_id = revision_id;
      context_fingerprint = fingerprint context;
      positive_weight =
          sum (map (λ (o : OutcomeEvent). times (success_value o.kind) o.weight) outcomes);
      negative_weight =
          sum (map (λ (o : OutcomeEvent). times (one - success_value o.kind) o.weight) outcomes);
      last_outcome_at = latest outcomes;
    }

unfoldable pub outcome_differs : OutcomeEvent → OutcomeEvent → Bool
outcome_differs existing o =
    existing.trace_id != o.trace_id
    || existing.usage_id != o.usage_id
    || existing.revision_id != o.revision_id
    || existing.kind != o.kind
    || existing.weight != o.weight
    || existing.note != o.note

-- The writes of `apply_outcome`.
abbrev pub with_outcome :
    ⦃h : Hashing⦄ → OutcomeEvent → ContextSignature → UtilityEstimate → Store → Store
with_outcome o context utility s = record s {
  outcomes = insert o.id o s.outcomes;
  outcome_keys = insert (o.scope, o.idempotency_key) o.id s.outcome_keys;
  utilities = insert (o.scope, (o.revision_id, fingerprint context)) utility s.utilities;
}

-- `apply_outcome`: the stored outcome, its utility, whether it is new, and the store.
unfoldable pub apply_outcome :
    ⦃h : Hashing⦄
    → OutcomeEvent
    → ContextSignature
    → Store
    → Result (OutcomeEvent × UtilityEstimate × Bool × Store)
apply_outcome o context s = elim (get (o.scope, o.idempotency_key) s.outcome_keys) [
  | none ↦ do
    utility ←
        updated (success_value o.kind) o.weight o.occurred_at
          (utility_for o.scope o.revision_id context s)
    ok (o, utility, true, with_outcome o context utility s)
  | some existing_id ↦ elim (get existing_id s.outcomes) [
    | none ↦ err (key_error "existing_id")
    | some existing ↦
        if outcome_differs existing o
        then err (conflict_error "outcome idempotency key was reused with different data")
        else ok (existing, utility_for o.scope existing.revision_id context s, false, s)
  ]
]
