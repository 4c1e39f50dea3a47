-- ===== src/Service/Application.antt =====
-- `MemoryApplication` as a whole: its construction, the policy in force, readiness, and `recall` with the search
-- of the recall projection. The store's registry and memories are two fields.
use evolvable_user_memory.Base.{
  ℕ, ◌*◌, Bool, true, false, not, ◌&&◌, List, [], ◌∷◌, length, ◌==◌, nat_eq, leb, ltb, Option, none,
  some, if◌then◌else◌,
}
use evolvable_user_memory.Base.Result.{
  Result, ok, err, domain_error, value_error, ◌>>=◌, ◌>>◌, raise_if,
}
use evolvable_user_memory.Base.Fixed.{one, percent}
use evolvable_user_memory.Base.Text.{Text, text, strip}
use evolvable_user_memory.Common.{Uuid, Instant, Scope, Hashing}
use evolvable_user_memory.Experience.{RecallTrace}
use evolvable_user_memory.Evolution.Strategy.{
  StrategySnapshot, make_strategy, make_weights, default_weights, Rounding,
}
use evolvable_user_memory.Evolution.Activation.{StrategyActivationKind, make_activation}
use evolvable_user_memory.Registry.State.{
  Registry, save_strategy, active_strategy, ensure_active_strategy,
}
use evolvable_user_memory.Store.State.{Store}
use evolvable_user_memory.Store.Memories.{memories_as_of}
use evolvable_user_memory.Worker.{ProjectionHit, ProjectionSearchResult}
use evolvable_user_memory.Commands.{RecallMemory}
use evolvable_user_memory.Service.Lexical.{Folding}
use evolvable_user_memory.Service.Recall.{Decay, or_now, recall}

-- The options of `__init__`.
pub record Options : Type 0 where
  pub has_projection : Bool
  pub projection_required : Bool
  pub projection_search_oversample : ℕ

pub record Application : Type 0 where
  pub options : Options
  pub registry : Registry
  pub memories : Store
  pub policy : StrategySnapshot
  pub follow_active_strategy : Bool
  pub projection_available : Option Bool

-- The policy of an application that follows the active strategy; the first one bootstraps it.
abbrev pub bootstrapped :
    ⦃f : Rounding⦄
    → Option StrategySnapshot
    → (default_id bootstrap_id : Uuid) → Instant
    → Registry
    → Result (StrategySnapshot × Registry)
bootstrapped (some active) default_id bootstrap_id now r = ok (active, r)
bootstrapped none default_id bootstrap_id now r = do
  weights ← make_weights default_weights
  default ← make_strategy (record {
    id = default_id;
    version = 1;
    weights = weights;
    min_score = percent 20;
    recency_half_life_days = 180 * one;
    created_at = now;
    parent_id = none;
  })
  bootstrap ← make_activation (record {
    id = bootstrap_id;
    strategy_id = default.id;
    kind = StrategyActivationKind.bootstrap;
    activated_at = now;
    reason = text "initial default strategy";
    previous_strategy_id = none;
    experiment_id = none;
  })
  ensure_active_strategy default bootstrap r

abbrev pub first_policy :
    ⦃f : Rounding⦄
    → Option StrategySnapshot
    → (default_id bootstrap_id : Uuid) → Instant
    → Registry
    → Result (StrategySnapshot × Registry)
first_policy (some given) default_id bootstrap_id now r = do
  saved ← save_strategy given r
  ok (given, saved)
first_policy none default_id bootstrap_id now r = do
  active ← active_strategy r
  bootstrapped active default_id bootstrap_id now r

abbrev pub is_given : Option StrategySnapshot → Bool
is_given none = false
is_given (some s) = true

-- `__init__`
unfoldable pub make_application :
    ⦃f : Rounding⦄
    → Options
    → Option StrategySnapshot
    → (default_id bootstrap_id : Uuid) → Instant
    → Registry
    → Store
    → Result Application
make_application o retrieval_policy default_id bootstrap_id now r s = do
  raise_if (o.projection_required && not o.has_projection)
      (value_error "a required recall projection must be configured")
  raise_if (not (leb 1 o.projection_search_oversample && leb o.projection_search_oversample 100))
      (value_error "projection_search_oversample must be in [1, 100]")
  (policy, registry) ← first_policy retrieval_policy default_id bootstrap_id now r
  ok (record {
    options = o;
    registry = registry;
    memories = s;
    policy = policy;
    follow_active_strategy = not (is_given retrieval_policy);
    projection_available = none;
  })

abbrev pub active_or_fail : Option StrategySnapshot → Result StrategySnapshot
active_or_fail none = err (domain_error "active strategy is unavailable")
active_or_fail (some s) = ok s

-- `retrieval_policy`
unfoldable pub retrieval_policy : Application → Result StrategySnapshot
retrieval_policy a =
    if a.follow_active_strategy
    then (do active ← active_strategy a.registry; active_or_fail active)
    else ok a.policy

-- `is_ready`, given whether the store and the projection are ready
unfoldable pub is_ready :
    (authority_ready projection_ready : Bool) → Application → Bool × Application
is_ready authority_ready projection_ready a =
    if a.options.has_projection && a.options.projection_required
    then (
      authority_ready && projection_ready,
      record a { projection_available = some projection_ready },
    )
    else (authority_ready, a)

-- `RecallProjectionPort.search`: scope, query, limit, valid_at and known_at.
abbrev pub Search : Type 0
Search = Scope → Text → ℕ → Instant → Instant → Result ProjectionSearchResult

abbrev pub scored_hits : List ProjectionHit → List (Uuid × ℕ)
scored_hits [] = []
scored_hits (hit ∷ hits) = (hit.revision_id, hit.score) ∷ scored_hits hits

-- What `recall` does before it asks the projection; the policy is the result.
unfoldable pub recall_policy :
    ⦃h : Hashing⦄ → RecallMemory → Instant → Application → Result StrategySnapshot
recall_policy command now a = do
  raise_if (not (leb 1 command.limit && leb command.limit 100))
      (domain_error "recall limit must be in [1, 100]")
  raise_if (length (strip command.query) == 0) (domain_error "recall query must not be blank")
  policy ← retrieval_policy a
  raise_if (ltb now (or_now command.known_at now))
      (domain_error "known_at must not be in the future")
  snapshots ←
      memories_as_of command.scope (or_now command.valid_at now) (or_now command.known_at now)
        a.memories
  ok policy

abbrev pub searched :
    Result ProjectionSearchResult → Application → Result (List (Uuid × ℕ)) × Application
searched (err e) a = (err e, a)
searched (ok r) a = (ok (scored_hits r.hits), record a { projection_available = some r.available })

-- The hits of the projection, if there is one.
abbrev pub search_hits :
    Option Search → RecallMemory → Instant → Application → Result (List (Uuid × ℕ)) × Application
search_hits none command now a = (ok [], a)
search_hits (some search) command now a =
    searched
      (search command.scope (strip command.query)
        (command.limit * a.options.projection_search_oversample) (or_now command.valid_at now)
        (or_now command.known_at now))
      a

abbrev pub with_trace :
    Result (RecallTrace × Store) → Application → Result RecallTrace × Application
with_trace (err e) a = (err e, a)
with_trace (ok (t, s)) a = (ok t, record a { memories = s })

abbrev pub recall_hits :
    ⦃h : Hashing⦄ ⦃f : Folding⦄ ⦃d : Decay⦄
    → RecallMemory
    → StrategySnapshot
    → Instant
    → Uuid
    → Result (List (Uuid × ℕ)) × Application
    → Result RecallTrace × Application
recall_hits command policy now trace_id (err e, a) = (err e, a)
recall_hits command policy now trace_id (ok hits, a) =
    with_trace (recall command policy hits now trace_id a.memories) a

abbrev pub recall_under :
    ⦃h : Hashing⦄ ⦃f : Folding⦄ ⦃d : Decay⦄
    → Result StrategySnapshot
    → Option Search
    → RecallMemory
    → Instant
    → Uuid
    → Application
    → Result RecallTrace × Application
recall_under (err e) search command now trace_id a = (err e, a)
recall_under (ok policy) search command now trace_id a =
    recall_hits command policy now trace_id (search_hits search command now a)

-- `recall`; what was seen of the projection stays even when the recall fails afterwards.
unfoldable pub recall_memory :
    ⦃h : Hashing⦄ ⦃f : Folding⦄ ⦃d : Decay⦄
    → Option Search
    → RecallMemory
    → Instant
    → Uuid
    → Application
    → Result RecallTrace × Application
recall_memory search command now trace_id a =
    recall_under (recall_policy command now a) search command now trace_id a
