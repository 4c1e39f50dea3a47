-- ===== src/Worker.antt =====
-- application/projection.py and application/projection_types.py: the worker that brings memory events into a
-- recall projection. The event source, the sink and the clock are ports, so they are parameters over a
-- state of their own, which is kept when a call raises. A duration is a number of microseconds.
pub mod Counts
use Prim.Native.String.{String}
use evolvable_user_memory.Base.{
  ℕ, ◌+◌, ◌-◌, ◌*◌, ◌^◌, min, Bool, true, false, ◌&&◌, not, List, [], ◌∷◌, ◌++◌, length, ◌==◌,
  nat_eq, ltb, leb, Option, none, some, if◌then◌else◌,
}
use evolvable_user_memory.Base.Result.{
  Result, ok, err, Error, value_error, other_error, ◌>>=◌, ◌>>◌, raise_if,
}
use evolvable_user_memory.Base.Text.{Text, text, strip}
use evolvable_user_memory.Base.Fixed.{one}
use evolvable_user_memory.Common.{Uuid, Instant, Scope, ContextSignature, Hmac, require_text}
use evolvable_user_memory.Governance.State.{Governance, projection_context}
use evolvable_user_memory.Governance.Erase.{class_name}

pub record ProjectionHit : Type 0 where
  pub revision_id : Uuid
  pub score : ℕ

unfoldable pub make_hit : ProjectionHit → Result ProjectionHit
make_hit hit = do
  raise_if (ltb one hit.score) (value_error "projection score must be between 0 and 1")
  ok hit

pub record ProjectionSearchResult : Type 0 where
  pub hits : List ProjectionHit
  pub available : Bool
  pub reason : Option Text

abbrev pub has_reason : Option Text → Bool
has_reason none = false
has_reason (some t) = true

unfoldable pub make_search_result : ProjectionSearchResult → Result ProjectionSearchResult
make_search_result r = do
  raise_if (r.available && has_reason r.reason)
      (value_error "an available projection search cannot have a failure reason")
  raise_if (not r.available && not (length r.hits == 0))
      (value_error "an unavailable projection search cannot return hits")
  ok r

pub record ProjectionDocument : Type 0 where
  pub source_event_id : Uuid
  pub scope : Scope
  pub record_id : Uuid
  pub revision_id : Uuid
  pub key : Text
  pub value : Text
  pub context : ContextSignature
  pub valid_from : Instant
  pub recorded_at : Instant

unfoldable pub make_document : ProjectionDocument → Result ProjectionDocument
make_document d = do
  key ← require_text d.key
  value ← require_text d.value
  ok (record d { key = key; value = value })

-- `" ".join(parts)`
unfoldable pub joined : List Text → Text
joined [] = []
joined (s ∷ []) = s
joined (s ∷ rest) = s ++ b' ' ∷ joined rest

abbrev pub facet_texts : List (Text × Text) → List Text
facet_texts [] = []
facet_texts ((k, v) ∷ facets) = (k ++ b' ' ∷ v) ∷ facet_texts facets

abbrev pub present : List Text → List Text
present [] = []
present ([] ∷ parts) = present parts
present ((c ∷ s) ∷ parts) = (c ∷ s) ∷ present parts

-- `ProjectionDocument.search_text`
unfoldable pub search_text : ProjectionDocument → Text
search_text d = joined (present (d.key ∷ d.value ∷ joined (facet_texts d.context.facets) ∷ []))

pub record ProjectionWorkItem : Type 0 where
  pub event_id : Uuid
  pub event_type : Text
  pub scope : Scope
  pub record_id : Uuid
  pub revision_id : Uuid
  pub occurred_at : Instant
  pub attempts : ℕ

unfoldable pub make_work_item : ProjectionWorkItem → Result ProjectionWorkItem
make_work_item w = do
  event_type ← require_text w.event_type
  raise_if (ltb w.attempts 1) (value_error "projection work attempts must be positive")
  ok (record w { event_type = event_type })

pub record ProjectionRunResult : Type 0 where
  pub claimed : ℕ
  pub succeeded : ℕ
  pub failed : ℕ
  pub dead_lettered : ℕ

abbrev pub idle : ProjectionRunResult → Bool
idle r = r.claimed == 0

pub record ProjectionWorkerSettings : Type 0 where
  pub projection_name : Text
  pub batch_size : ℕ
  pub lease : ℕ
  pub retry_base : ℕ
  pub retry_max : ℕ
  pub max_attempts : ℕ

unfoldable pub make_settings : ProjectionWorkerSettings → Result ProjectionWorkerSettings
make_settings s = do
  raise_if (length (strip s.projection_name) == 0) (value_error "projection_name must not be blank")
  raise_if (ltb s.batch_size 1) (value_error "batch_size must be positive")
  raise_if (s.lease == 0) (value_error "lease_seconds must be positive")
  raise_if (s.retry_base == 0) (value_error "retry_base_seconds must be positive")
  raise_if (ltb s.retry_max s.retry_base)
      (value_error "retry_max_seconds must be >= retry_base_seconds")
  raise_if (ltb s.max_attempts 1) (value_error "max_attempts must be positive")
  ok s

-- What a call of a port answers, and the state it leaves.
abbrev pub Call : Type 0 → Type 0 → Type 0
Call S A = S → Result A × S

-- The failure of one item, as `ProjectionEventSourcePort.fail` is told.
pub record Failure : Type 0 where
  pub failed_at : Instant
  pub retry_at : Instant
  pub error : Text
  pub dead_letter : Bool

-- The clock, the event source and the sink.
pub record Ports (S : Type 0) : Type 0 where
  pub now : S → Instant × S
  pub discover : Text → Call S (Unit {0})
  pub claim : Text → Text → ℕ → Instant → Call S (List ProjectionWorkItem)
  pub load_document : ProjectionWorkItem → Call S ProjectionDocument
  pub complete : Text → ProjectionWorkItem → Text → Instant → Call S (Unit {0})
  pub fail : Text → ProjectionWorkItem → Text → Failure → Call S (Unit {0})
  pub requeue_all : Text → Instant → Call S ℕ
  pub upsert : ProjectionDocument → Call S (Unit {0})
  pub reset : Call S (Unit {0})

-- A call and what follows it, if it returns.
abbrev pub after {ℓ} :
    {S : Type ℓ} {A B : Type ℓ} → Result A × S → (A → S → Result B × S) → Result B × S
after (err e, s) k = (err e, s)
after (ok x, s) k = k x s

-- The delay before an item is tried again; it has been tried at least once. The power is an integer,
-- which the product turns into a float: from 2 ^ 1024 on that raises OverflowError.
abbrev pub retry_delay : ProjectionWorkerSettings → ℕ → Result ℕ
retry_delay settings attempts =
    if leb 1025 attempts
    then err (other_error "OverflowError")
    else ok (min settings.retry_max (settings.retry_base * 2 ^ (attempts - 1)))

abbrev pub permitted : ⦃h : Hmac⦄ → Option Governance → ProjectionDocument → Result (Unit {0})
permitted none d = ok tt
permitted (some g) d = projection_context d.scope g

abbrev pub counted : ProjectionRunResult → Bool → ProjectionRunResult
counted r dead_letter = record r {
  failed = r.failed + 1;
  dead_lettered = r.dead_lettered + (if dead_letter then 1 else 0);
}

module _ {S : Type 0} ⦃h : Hmac⦄ (ports : Ports S) (settings : ProjectionWorkerSettings)
    (worker_id : Text) (governance : Option Governance) where
  abbrev pub upsert_permitted : ProjectionDocument → S → Result (Unit {0}) → Result (Unit {0}) × S
  upsert_permitted d s (err e) = (err e, s)
  upsert_permitted d s (ok u) = ports.upsert d s

  -- The `with` block around `upsert`; with a governance the clock is read once more.
  abbrev pub guarded_upsert : Option Governance → ProjectionDocument → Call S (Unit {0})
  guarded_upsert none d s = ports.upsert d s
  guarded_upsert (some g) d s = upsert_permitted d (ports.now s).1 (permitted (some g) d)

  -- The `try` of the loop.
  unfoldable pub process : ProjectionWorkItem → Call S (Unit {0})
  process item s = after (ports.load_document item s) (λ document s1.
      after (guarded_upsert governance document s1) (λ u s2.
        let (at, s3) = ports.now s2 in
        ports.complete settings.projection_name item worker_id at s3))

  abbrev pub failure_of : ProjectionWorkItem → Error → Instant → ℕ → Failure
  failure_of item e failed_at delay = record {
    failed_at = failed_at;
    retry_at = failed_at + delay;
    error = class_name e;
    dead_letter = leb settings.max_attempts item.attempts;
  }

  -- One turn of the loop, given how its `try` ended. What the `except` block raises ends the loop.
  abbrev pub settled :
      ProjectionWorkItem
      → ProjectionRunResult
      → Result (Unit {0}) × S
      → Result ProjectionRunResult × S
  settled item r (ok u, s) = (ok (record r { succeeded = r.succeeded + 1 }), s)
  settled item r (err e, s) =
      let (failed_at, s1) = ports.now s in
      after (retry_delay settings item.attempts, s1)
        (λ delay s2.
          after
            (ports.fail settings.projection_name item worker_id (failure_of item e failed_at delay)
              s2)
            (λ u s3. (ok (counted r (leb settings.max_attempts item.attempts)), s3)))

  -- The loop of `run_once`
  unfoldable pub process_all :
      List ProjectionWorkItem → ProjectionRunResult → Call S ProjectionRunResult
  process_all [] r s = (ok r, s)
  process_all (item ∷ items) r s =
      after (settled item r (process item s)) (λ next s1. process_all items next s1)

  unfoldable pub run_once : Call S ProjectionRunResult
  run_once s =
      let (now, s1) = ports.now s in
      after (ports.discover settings.projection_name s1) (λ u s2.
        after
          (ports.claim settings.projection_name worker_id settings.batch_size (now + settings.lease)
            s2)
          (λ items s3.
            process_all items
              (record { claimed = length items; succeeded = 0; failed = 0; dead_lettered = 0 }) s3))

  unfoldable pub rebuild : Call S ℕ
  rebuild s =
      let (now, s1) = ports.now s in
      after (ports.reset s1) (λ u s2.
        after (ports.discover settings.projection_name s2)
          (λ v s3. ports.requeue_all settings.projection_name now s3))
