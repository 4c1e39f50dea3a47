-- ===== src/Examples/Projecting.antt =====
-- A worker with three events: one is projected, the document of one is missing, and one is suppressed.
use evolvable_user_memory.Base.{
  ℕ, ◌+◌, ◌≡◌, ◌≤◌, refl, arith, [], ◌∷◌, ◌==◌, nat_eq, if◌then◌else◌, some,
}
use evolvable_user_memory.Base.Result.{ok, err, other_error}
use evolvable_user_memory.Base.Text.{text}
use evolvable_user_memory.Common.{Uuid, Scope}
use evolvable_user_memory.Governance.State.{reference, scope_refs, projection_context}
use evolvable_user_memory.Base.Dict.{get, insert}
use evolvable_user_memory.Worker.{
  ProjectionDocument, ProjectionWorkItem, ProjectionRunResult, ProjectionWorkerSettings, Ports,
  process, process_all, run_once, retry_delay,
}
use evolvable_user_memory.Gate.{zeros}
use evolvable_user_memory.Worker.Counts.{run_once-returns}
use evolvable_user_memory.Examples.Evolving.{at_home}
use evolvable_user_memory.Examples.Storing.{ann}
use evolvable_user_memory.Examples.Governing.{by_length, fenced_start}

abbrev item : Uuid → ℕ → ProjectionWorkItem
item id attempts = record {
  event_id = id;
  event_type = text "revision_appended";
  scope = ann;
  record_id = 1;
  revision_id = 10 + id;
  occurred_at = 1;
  attempts = attempts;
}

abbrev document : Scope → ProjectionDocument
document scope = record {
  source_event_id = 1;
  scope = scope;
  record_id = 1;
  revision_id = 11;
  key = text "drink";
  value = text "tea";
  context = at_home;
  valid_from = 1;
  recorded_at = 1;
}

abbrev a_visitor_of_the_tenant : Scope
a_visitor_of_the_tenant = record { tenant_id = text "acme corporation"; subject_id = text "bob" }

-- The state is the number of calls, which is also the time.
abbrev ports : Ports ℕ
ports = record {
  now = λ s. (s, s + 1);
  discover = λ name s. (ok tt, s + 1);
  claim = λ name worker limit lease s. (ok (item 1 1 ∷ item 2 8 ∷ item 3 2 ∷ []), s + 1);
  load_document = λ w s.
      if w.event_id == 2
      then (err (other_error "LookupError"), s + 1)
      else if w.event_id == 3
      then (ok (document ann), s + 1)
      else (ok (document a_visitor_of_the_tenant), s + 1);
  complete = λ name w worker at s. (ok tt, s + 1);
  fail = λ name w worker f s. (ok tt, s + 1);
  requeue_all = λ name at s. (ok 3, s + 1);
  upsert = λ d s. (ok tt, s + 1);
  reset = λ s. (ok tt, s + 1);
}

abbrev settings : ProjectionWorkerSettings
settings = record {
  projection_name = text "memory";
  batch_size = 64;
  lease = 60_000_000;
  retry_base = 2_000_000;
  retry_max = 300_000_000;
  max_attempts = 8;
}

-- From 1025 attempts on, the delay of the next one overflows in the handler of the failure.
delay_overflows : retry_delay settings 1025 ≡ err (other_error "OverflowError")
delay_overflows = refl

program : Unit {0}
unfolding process process_all run_once reference scope_refs projection_context get insert zeros
program = tt

one_of_three :
    (run_once ports settings (text "w-1") (some fenced_start) 0).0
    ≡ ok (record { claimed = 3; succeeded = 1; failed = 2; dead_lettered = 1 })
unfolding program
one_of_three = refl

run_once-returns_example :
    (r : ProjectionRunResult) × (s' : ℕ) × (run_once ports settings
        (text "w-1")
        (some fenced_start)
        0
      ≡ (ok r, s'))
    × (r.claimed ≡ 3)
    × (r.succeeded + r.failed ≡ r.claimed)
    × (r.dead_lettered ≤ r.failed)
unfolding program
run_once-returns_example =
    run_once-returns ports settings (text "w-1") (some fenced_start) (λ name w worker f s. refl) 0 2
      3 (item 1 1 ∷ item 2 8 ∷ item 3 2 ∷ []) refl refl
      (omega arith, (omega arith, (omega arith, tt)))
