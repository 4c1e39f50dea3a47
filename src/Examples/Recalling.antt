-- ===== src/Examples/Recalling.antt =====
-- A preference that is remembered, corrected and recalled.
use evolvable_user_memory.Base.{
  ◌≡◌, refl, true, false, none, some, [], ◌∷◌, nat_eq, list_eq, pair_eq, ltb, if◌then◌else◌,
}
use evolvable_user_memory.Base.Result.{ok, result_or}
use evolvable_user_memory.Base.Dict.{get, insert}
use evolvable_user_memory.Base.Sort.{sorted, set_of}
use evolvable_user_memory.Base.Fixed.{one, percent, times}
use evolvable_user_memory.Base.Text.{text, strip}
use evolvable_user_memory.Common.{require_text, text_leb, fingerprint}
use evolvable_user_memory.Memory.{
  require_texts, make_record, make_belief, make_revision, make_revision_transition, make_snapshot,
}
use evolvable_user_memory.Evidence.{make_observation, make_evidence, make_candidate, accept}
use evolvable_user_memory.Commands.{
  RememberPreference, CorrectPreference, RecallMemory, PreferenceResult,
}
use evolvable_user_memory.Store.State.{
  Store, empty, observation_by_idempotency, save_ingestion, update_candidate,
}
use evolvable_user_memory.Store.Memories.{
  add_memory, append_revision, current_by_identity, snapshot,
}
use evolvable_user_memory.Store.Chain.{IsConsistent-empty}
use evolvable_user_memory.Service.Lexical.{Folding}
use evolvable_user_memory.Service.Recall.{Decay}
use evolvable_user_memory.Service.Application.{Search, Application}
use evolvable_user_memory.Examples.Registering.{canary}
use evolvable_user_memory.Service.Keeping.{IsSound}
use evolvable_user_memory.Service.Ingestion.{
  Draws, remember_preference, remember_new, correct_preference, correct_new, accept_candidate,
  accept_new, accept_next,
}
use evolvable_user_memory.Service.Remembering.{
  remember_preference-IsSound, correct_preference-IsSound,
}
use evolvable_user_memory.Examples.Evolving.{at_home, default_strategy}
use evolvable_user_memory.Examples.Storing.{ann, identity, stored}

abbrev same_case : Folding
same_case = record { casefold = λ s. s }

-- A score that halves once, after the half-life.
abbrev halving : Decay
halving = record { half_power = λ age half_life. if ltb age half_life then one else percent 50 }

abbrev draws : Draws
draws = record {
  now = 10;
  observation_id = 31;
  evidence_id = 32;
  candidate_id = 33;
  accepted_at = 10;
  record_id = 34;
  revision_id = 35;
  transition_id = 36;
}

abbrev likes_tea : RememberPreference
likes_tea = record {
  scope = ann;
  source = text "chat";
  idempotency_key = text "m-1";
  key = text "drink";
  value = text "tea";
  context = at_home;
  evidence_text = text "I like tea";
  confidence = percent 80;
  occurred_at = 9;
}

program : Unit {0}
unfolding get insert sorted set_of times strip require_text text_leb fingerprint require_texts
    make_record make_belief make_revision make_revision_transition make_snapshot make_observation
    make_evidence make_candidate accept observation_by_idempotency save_ingestion update_candidate
    add_memory append_revision current_by_identity snapshot remember_preference remember_new
    correct_preference correct_new accept_candidate accept_new accept_next
program = tt

empty-IsSound : IsSound empty
empty-IsSound = record { consistent = IsConsistent-empty; credible = tt }

abbrev no_result : PreferenceResult × Store
no_result = (
  record {
    observation_id = 0;
    candidate_id = 0;
    record_id = 0;
    revision_id = 0;
    sequence = 0;
    idempotent_replay = false;
  },
  empty,
)

abbrev remembered : PreferenceResult × Store
remembered = result_or no_result (remember_preference ⦃h = identity⦄ likes_tea draws empty)

remembered_ok : remember_preference ⦃h = identity⦄ likes_tea draws empty ≡ ok remembered
unfolding program
remembered_ok = refl

remember_preference-IsSound_example : IsSound remembered.1
unfolding program
remember_preference-IsSound_example =
    remember_preference-IsSound ⦃h = identity⦄ likes_tea draws empty remembered.1 remembered.0
      empty-IsSound refl remembered_ok

abbrev second : Draws
second = record {
  now = 20;
  observation_id = 41;
  evidence_id = 42;
  candidate_id = 43;
  accepted_at = 20;
  record_id = 44;
  revision_id = 45;
  transition_id = 46;
}

abbrev rather_milk : CorrectPreference
rather_milk = record {
  scope = ann;
  record_id = 34;
  source = text "chat";
  idempotency_key = text "c-1";
  value = text "milk";
  evidence_text = text "rather milk";
  reason = text "changed";
  occurred_at = 19;
  expected_revision_id = some 35;
}

abbrev corrected : PreferenceResult × Store
corrected = result_or no_result (correct_preference ⦃h = identity⦄ rather_milk second remembered.1)

corrected_ok : correct_preference ⦃h = identity⦄ rather_milk second remembered.1 ≡ ok corrected
unfolding program
corrected_ok = refl

corrected_revision : corrected.0.sequence ≡ 2
unfolding program
corrected_revision = refl

correct_preference-IsSound_example : IsSound corrected.1
unfolding program
correct_preference-IsSound_example =
    correct_preference-IsSound ⦃h = identity⦄ rather_milk second remembered.1 corrected.1
      corrected.0
      (remember_preference-IsSound ⦃h = identity⦄ likes_tea draws empty remembered.1 remembered.0
        empty-IsSound refl remembered_ok)
      refl corrected_ok

abbrev drinks : RecallMemory
drinks = record {
  scope = ann;
  query = text "which drink";
  context = at_home;
  limit = 5;
  valid_at = none;
  known_at = none;
}

abbrev vectors : Search
vectors = λ scope query limit valid_at known_at. ok (record {
  hits = record { revision_id = 11; score = percent 90 } ∷ [];
  available = true;
  reason = none;
})

abbrev application : Application
application = record {
  options = record {
    has_projection = true;
    projection_required = false;
    projection_search_oversample = 10;
  };
  registry = canary;
  memories = stored;
  policy = default_strategy;
  follow_active_strategy = true;
  projection_available = none;
}
