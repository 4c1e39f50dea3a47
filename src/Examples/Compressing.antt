-- ===== src/Examples/Compressing.antt =====
-- A trace of two memories with the same content, and its projections.
use evolvable_user_memory.Base.{
  ◌+◌, ◌≡◌, ◌≤◌, refl, none, List, [], ◌∷◌, length, map, arith, nat_eq, ℕ, All,
}
use evolvable_user_memory.Base.Result.{ok}
use evolvable_user_memory.Base.Sort.{Distinct}
use evolvable_user_memory.Base.Dict.{get, insert}
use evolvable_user_memory.Base.Fixed.{one, percent}
use evolvable_user_memory.Base.Text.{text}
use evolvable_user_memory.Base.Weigh.{weigh, Sub}
use evolvable_user_memory.Common.{Uuid}
use evolvable_user_memory.Experience.{RecalledItem, RecallTrace}
use evolvable_user_memory.Projection.{
  ContextProjectionSource, exact_deduplicated, document, content_of, included, is_hex,
  RecallContextProjection, source_revision_ids, join,
}
use evolvable_user_memory.Compression.{
  Digests, CandidateSegment, text_of, apply_algorithm, select_within_budget, project, select_from,
  deduplicate, extend,
}
use evolvable_user_memory.Compression.Json.{
  dumps_memory, memory_body, dumps_object, dumps_entries, dumps_string, escape_all, escape,
  hex_digit,
}
use evolvable_user_memory.Compression.Parts.{source_for, candidate_for}
use evolvable_user_memory.Compression.Budget.{IsSettled, select_within_budget_lem}
use evolvable_user_memory.Compression.Deduplication.{all_sources, exact_deduplicated_lem}
use evolvable_user_memory.Compression.Total.{IsTrace, AreDigests, project-returns}
use evolvable_user_memory.Examples.Evolving.{at_home}

-- Every payload has the digest of 64 times the digit a.
abbrev pub constant : Digests
constant = record {
  digest = λ payload. text "aaaaaaaaaaaaaaaaaaaaaaaaaaaaaaaaaaaaaaaaaaaaaaaaaaaaaaaaaaaaaaaa";
}

constant-AreDigests : AreDigests constant
unfolding is_hex
constant-AreDigests payload = record { size = refl; digits = grind arith }

abbrev tea : Uuid → ℕ → RecalledItem
tea id rank = record {
  record_id = id;
  revision_id = 10 + id;
  key = text "drink";
  value = text "tea";
  context = at_home;
  revision_valid_from = 1;
  revision_recorded_at = 2;
  rank = rank;
  score = percent 80;
  breakdown = record {
    semantic = one;
    context = one;
    belief = percent 50;
    utility = percent 50;
    recency = one;
    lexical = none;
    vector = none;
  };
  evidence_ids = 7 ∷ [];
}

abbrev pub teas : RecallTrace
teas = record {
  id = 30;
  scope = record { tenant_id = text "acme"; subject_id = text "ann" };
  query = text "drink";
  context = at_home;
  policy_id = 1;
  policy_version = 1;
  items = tea 1 1 ∷ tea 2 2 ∷ [];
  valid_at = 5;
  known_at = 5;
  created_at = 6;
}

teas-IsTrace : IsTrace teas
teas-IsTrace = record {
  version = omega arith;
  knowledge = omega arith;
  ranked = ((omega arith, omega arith), ((omega arith, omega arith), tt));
  distinct = grind arith;
}

abbrev candidates : List CandidateSegment
candidates = candidate_for (tea 1 1) ∷ candidate_for (tea 2 2) ∷ []

program : Unit {0}
unfolding select_within_budget select_from apply_algorithm deduplicate extend get insert document
    join dumps_memory memory_body dumps_object dumps_entries dumps_string escape_all escape
    hex_digit
program = tt

-- A document has 83 characters with one memory and 152 with both.
one_fits : length (select_within_budget candidates 151) ≡ 1
unfolding program
one_fits = refl

both_fit : length (select_within_budget candidates 152) ≡ 2
unfolding program
both_fit = refl

one_content :
    map text_of (apply_algorithm candidates exact_deduplicated)
    ≡ dumps_memory at_home (text "drink") (text "tea") ∷ []
unfolding program
one_content = refl

project-returns_example :
    (p : RecallContextProjection) × (project ⦃h = constant⦄ teas exact_deduplicated 100 ≡ ok p)
    × (length p.content ≤ 100)
    × (p.content ≡ document (map content_of p.segments))
    × Distinct (source_revision_ids p)
    × (length (included p.segments) + p.omitted_item_count ≡ 2)
    × ((f : ContextProjectionSource → ℕ)
        → weigh f (included p.segments) ≤ weigh (λ item. f (source_for item)) teas.items)
project-returns_example =
    project-returns ⦃h = constant⦄ constant-AreDigests teas teas-IsTrace exact_deduplicated 100
      (omega arith) (omega arith)

select_within_budget_lem_example :
    let selected = select_within_budget candidates 100 in
    Sub selected candidates
    × (length (document (map text_of selected)) ≤ 100)
    × All (IsSettled 100 selected) candidates
select_within_budget_lem_example = select_within_budget_lem candidates 100 (omega arith)

exact_deduplicated_lem_example :
    let segments = apply_algorithm candidates exact_deduplicated in
    Distinct (map text_of segments)
    × (weigh (λ s. s.rank) (all_sources segments) ≡ weigh (λ s. s.rank) (all_sources candidates))
exact_deduplicated_lem_example = exact_deduplicated_lem candidates (λ s. s.rank)
