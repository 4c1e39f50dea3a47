-- ===== src/Examples/Attributing.antt =====
-- An outcome of a revision that a trace delivered.
use evolvable_user_memory.Base.{◌≡◌, refl, true, none, [], nat_eq, list_eq, pair_eq}
use evolvable_user_memory.Base.Result.{ok, result_or}
use evolvable_user_memory.Base.Dict.{get, insert}
use evolvable_user_memory.Base.Fixed.{one, times}
use evolvable_user_memory.Base.Text.{text, strip}
use evolvable_user_memory.Common.{Hashing, fingerprint, require_text}
use evolvable_user_memory.Experience.{
  OutcomeKind, OutcomeEvent, UtilityEstimate, make_outcome, updated, success_value,
}
use evolvable_user_memory.Compression.{Digests}
use evolvable_user_memory.Commands.{RecordOutcome, OutcomeResult}
use evolvable_user_memory.Store.State.{Store, save_trace, trace}
use evolvable_user_memory.Store.Feedback.{apply_outcome, utility_for}
use evolvable_user_memory.Service.Feedback.{check_attribution, record_outcome}
use evolvable_user_memory.Service.Attribution.{
  IsAttributed, recalls, rates, stop, then_step, recorded-IsAttributed,
}
use evolvable_user_memory.Examples.Compressing.{teas, constant}
use evolvable_user_memory.Examples.Storing.{identity, stored}

instance abbrev hashing : Hashing
hashing = identity

instance abbrev digests : Digests
digests = constant

abbrev helpful : RecordOutcome
helpful = record {
  scope = teas.scope;
  trace_id = teas.id;
  revision_id = 11;
  kind = OutcomeKind.helpful;
  idempotency_key = text "o-1";
  occurred_at = 30;
  usage_id = none;
  weight = one;
  note = none;
}

program : Unit {0}
unfolding get insert times strip require_text fingerprint make_outcome updated success_value
    save_trace trace apply_outcome utility_for check_attribution record_outcome
program = tt

abbrev recalled : Store
recalled = save_trace teas stored

abbrev no_outcome : OutcomeEvent
no_outcome = record {
  id = 0;
  scope = teas.scope;
  trace_id = 0;
  revision_id = 0;
  kind = OutcomeKind.helpful;
  idempotency_key = [];
  occurred_at = 0;
  recorded_at = 0;
  usage_id = none;
  weight = one;
  note = none;
}

abbrev no_utility : UtilityEstimate
no_utility = record {
  revision_id = 0;
  context_fingerprint = [];
  positive_weight = 0;
  negative_weight = 0;
  last_outcome_at = none;
}

abbrev rated : OutcomeResult × Store
rated =
    result_or
      (record { outcome = no_outcome; utility = no_utility; idempotent_replay = true }, recalled)
      (record_outcome helpful 80 31 recalled)

rated_ok : record_outcome helpful 80 31 recalled ≡ ok rated
unfolding program
rated_ok = refl

recorded-IsAttributed_example : IsAttributed rated.1
unfolding program
recorded-IsAttributed_example =
    recorded-IsAttributed stored rated.1 refl
      (then_step (recalls teas refl) (then_step (rates helpful 80 31 {x = rated.0} rated_ok) stop))
