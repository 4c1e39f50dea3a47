-- ===== src/Worker/Counts.antt =====
-- `run_once` returns whatever the single events do, and counts each claimed event once.
use evolvable_user_memory.Base.{
  ℕ, ◌+◌, ◌≡◌, ◌≤◌, refl, List, [], ◌∷◌, length, Option, arith, leb, ◌∙◌, All, min, ◌*◌, ◌^◌, ◌-◌,
}
use evolvable_user_memory.Base.Result.{Result, ok, err}
use evolvable_user_memory.Base.Text.{Text}
use evolvable_user_memory.Common.{Hmac}
use evolvable_user_memory.Governance.State.{Governance}
use evolvable_user_memory.Worker.{
  ProjectionWorkItem, ProjectionRunResult, ProjectionWorkerSettings, Failure, Ports, process,
  failure_of, settled, counted, process_all, run_once, retry_delay,
}

-- The event source records a failure without raising.
abbrev pub FailReturns : {S : Type 0} → Ports S → Type 0
FailReturns {S} ports =
    (name : Text) (item : ProjectionWorkItem) (worker_id : Text) (f : Failure) (s : S)
    → (ports.fail name item worker_id f s).0 ≡ ok tt

-- An event whose attempts do not let the delay of the next one overflow.
abbrev pub IsTriable : ProjectionWorkItem → Type 0
IsTriable item = item.attempts ≤ 1024

retry_delay-ok :
    (settings : ProjectionWorkerSettings) (attempts : ℕ)
    → attempts ≤ 1024
    → (delay : ℕ) × (retry_delay settings attempts ≡ ok delay)
retry_delay-ok settings attempts h =
    (min settings.retry_max (settings.retry_base * 2 ^ (attempts - 1)), ground arith)

-- How a loop over some events moves the counts.
pub record Counts (n : ℕ) (before after : ProjectionRunResult) : Type 0 where
  pub claimed : after.claimed ≡ before.claimed
  pub settled : after.succeeded + after.failed ≡ before.succeeded + before.failed + n
  pub dead : after.dead_lettered + before.failed ≤ before.dead_lettered + after.failed

module _ {S : Type 0} ⦃h : Hmac⦄ (ports : Ports S) (settings : ProjectionWorkerSettings)
    (worker_id : Text) (governance : Option Governance) (records : FailReturns ports) where
  settled-Counts :
      (item : ProjectionWorkItem) (r : ProjectionRunResult) (processed : Result (Unit {0}) × S)
      → IsTriable item
      → (next : ProjectionRunResult) × (s : S) × (settled ports settings worker_id governance item r
            processed
          ≡ (ok next, s))
        × Counts 1 r next
  settled-Counts item r (ok u, s) few = (
    record r { succeeded = r.succeeded + 1 },
    s,
    refl,
    record { claimed = refl; settled = omega arith; dead = omega arith },
  )
  settled-Counts item r (err e, s) few =
      let (delay, soon) = retry_delay-ok settings item.attempts few in
      let f = failure_of ports settings worker_id governance item e (ports.now s).0 delay in
      let done = records settings.projection_name item worker_id f (ports.now s).1 in
      (
        counted r (leb settings.max_attempts item.attempts),
        (ports.fail settings.projection_name item worker_id f (ports.now s).1).1,
        rw (soon, done) refl,
        record { claimed = refl; settled = omega arith; dead = ground arith },
      )

  process_all-Counts :
      (items : List ProjectionWorkItem) (r : ProjectionRunResult) (s : S)
      → All IsTriable items
      → (last : ProjectionRunResult) × (s' : S) × (process_all ports settings worker_id governance
            items r s
          ≡ (ok last, s'))
        × Counts (length items) r last
  unfolding process_all
  process_all-Counts [] r s few =
      (r, s, refl, record { claimed = refl; settled = omega arith; dead = omega arith })
  process_all-Counts (item ∷ items) r s few =
      let (next, s1, e, one) =
        settled-Counts item r (process ports settings worker_id governance item s) few.0 in
      let (last, s2, k, rest) = process_all-Counts items next s1 few.1 in
      (
        last,
        s2,
        rw (e, k) refl,
        record {
          claimed = rest.claimed ∙ one.claimed;
          settled = omega (arith, one.settled, rest.settled);
          dead = omega (arith, one.dead, rest.dead);
        },
      )

  -- When `discover` and `claim` of the source return, its `fail` never raises, and no claimed event has
  -- been attempted more than 1024 times, `run_once` returns, whatever loading, governance, the sink and
  -- completing do with the single events: each claimed event has succeeded or failed, and the dead
  -- letters are among the failures.
  pub run_once-returns :
      (s s1 s2 : S) (items : List ProjectionWorkItem)
      → ports.discover settings.projection_name (ports.now s).1 ≡ (ok tt, s1)
      → ports.claim settings.projection_name worker_id settings.batch_size
          ((ports.now s).0 + settings.lease)
          s1
        ≡ (ok items, s2)
      → All IsTriable items
      → (r : ProjectionRunResult) × (s' : S) × (run_once ports settings worker_id governance s
          ≡ (ok r, s'))
        × (r.claimed ≡ length items)
        × (r.succeeded + r.failed ≡ r.claimed)
        × (r.dead_lettered ≤ r.failed)
  unfolding run_once
  run_once-returns s s1 s2 items discovered claimed few =
      let (r, s', e, counts) =
        process_all-Counts items
          (record { claimed = length items; succeeded = 0; failed = 0; dead_lettered = 0 }) s2
          few in
      (
        r,
        s',
        rw (discovered, claimed, e) refl,
        counts.claimed,
        omega (arith, counts.settled, counts.claimed),
        omega (arith, counts.dead),
      )
