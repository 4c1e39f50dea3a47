-- ===== src/Compression/Total.antt =====
-- `project` returns on every sound trace and legal budget, and what it returns.
use evolvable_user_memory.Base.{
  ℕ, ◌+◌, ◌≤◌, ◌≡◌, List, map, arith, All, length, length-map, length-append, nat_eq, ==_iff,
  list_eq,
}
use evolvable_user_memory.Base.Result.{ok}
use evolvable_user_memory.Base.Sort.{Distinct, sorted, set_of-Distinct, All-sorted}
use evolvable_user_memory.Base.Weigh.{
  weigh, weigh-sorted, occurs, occurs-le_one, Distinct-of_occurs, Sub, Sub-weigh, Sub-All,
  weigh_one,
}
use evolvable_user_memory.Common.{Uuid}
use evolvable_user_memory.Experience.{RecalledItem, RecallTrace}
use evolvable_user_memory.Projection.{
  ContextCompressionAlgorithm, ContextProjectionSource, document, revision_of, content_of, included,
  RecallContextProjection, check_projection, source_revision_ids,
}
use evolvable_user_memory.Compression.{
  CandidateSegment, text_of, Digests, Payload, assemble, project, rank_leb, apply_algorithm,
  select_within_budget,
}
use evolvable_user_memory.Compression.Documents.{length-document_of, span}
use evolvable_user_memory.Compression.Budget.{select_within_budget_lem}
use evolvable_user_memory.Compression.Deduplication.{
  all_sources, weigh-apply_algorithm, All-apply_algorithm, span-apply_algorithm,
}
use evolvable_user_memory.Compression.Hex.{IsDigest, require_sha256-IsDigest}
use evolvable_user_memory.Compression.Parts.{
  IsRanked, source_for, candidate_for, candidates_of-ok, weigh-candidates, IsUsable,
  candidates-IsUsable, segment_for, segments_of-ok, weigh-segments, sum-count_of, map-content_of,
  weigh-all_sources,
}

-- What `check_projection` asks of a projection.
record IsSound (p : RecallContextProjection) : Type 0 where
  version : 1 ≤ p.policy_version
  budget_low : 64 ≤ p.budget_characters
  budget_high : p.budget_characters ≤ 100_000
  knowledge : p.known_at ≤ p.trace_created_at
  fits : length p.content ≤ p.budget_characters
  exact : p.content ≡ document (map content_of p.segments)
  shorter : length p.content ≤ p.original_character_count
  distinct : Distinct (map revision_of (included p.segments))
  covers : length (included p.segments) + p.omitted_item_count ≡ p.source_item_count
  configuration : IsDigest p.configuration_sha256
  source : IsDigest p.source_sha256
  projection : IsDigest p.projection_sha256

check_projection-ok : (p : RecallContextProjection) → IsSound p → check_projection p ≡ ok p
unfolding check_projection
check_projection-ok p h =
    rw
      (
        set_of-Distinct (map revision_of (included p.segments)) h.distinct,
        length-map revision_of (included p.segments),
        require_sha256-IsDigest p.configuration_sha256 h.configuration,
        require_sha256-IsDigest p.source_sha256 h.source,
        require_sha256-IsDigest p.projection_sha256 h.projection,
      )
      (ground (arith, (==_iff p.content (document (map content_of p.segments))).1 h.exact))

-- A trace as `recall` makes it.
pub record IsTrace (trace : RecallTrace) : Type 0 where
  pub version : 1 ≤ trace.policy_version
  pub knowledge : trace.known_at ≤ trace.created_at
  pub ranked : All IsRanked trace.items
  pub distinct : Distinct (map (λ (item : RecalledItem). item.revision_id) trace.items)

-- `hexdigest` returns 64 hex digits.
abbrev pub AreDigests : Digests → Type 0
AreDigests h = (payload : Payload) → IsDigest (h.digest payload)

abbrev pub raw_of : RecallTrace → List CandidateSegment
raw_of trace = map candidate_for (sorted rank_leb trace.items)

abbrev pub selected_of : RecallTrace → ContextCompressionAlgorithm → ℕ → List CandidateSegment
selected_of trace algorithm budget =
    select_within_budget (apply_algorithm (raw_of trace) algorithm) budget

module _ (trace : RecallTrace) (algorithm : ContextCompressionAlgorithm) (budget : ℕ)
    (low : 64 ≤ budget) where
  abbrev selected : List CandidateSegment
  selected = selected_of trace algorithm budget

  selection :
      Sub selected (apply_algorithm (raw_of trace) algorithm)
      × (length (document (map text_of selected)) ≤ budget)
  selection =
      let (s, b, _) =
        select_within_budget_lem (apply_algorithm (raw_of trace) algorithm) budget (omega arith) in
      (s, b)

  -- Whatever is weighed, the selected sources weigh no more than the trace's items.
  weigh-selected :
      (f : ContextProjectionSource → ℕ)
      → weigh f (all_sources selected) ≤ weigh (λ item. f (source_for item)) trace.items
  weigh-selected f = omega (
    arith,
    weigh-all_sources f selected,
    Sub-weigh (λ c. weigh f c.sources) selection.0,
    weigh-all_sources f (apply_algorithm (raw_of trace) algorithm),
    weigh-apply_algorithm f (raw_of trace) algorithm,
    weigh-candidates f (sorted rank_leb trace.items),
    weigh-sorted (λ item. f (source_for item)) rank_leb trace.items,
  )

  selected-once :
      Distinct (map (λ (item : RecalledItem). item.revision_id) trace.items)
      → (k : Uuid) → weigh (occurs revision_of k) (all_sources selected) ≤ 1
  selected-once d k = omega (
    arith,
    weigh-selected (occurs revision_of k),
    occurs-le_one (λ (item : RecalledItem). item.revision_id) trace.items d k,
  )

  selected-IsUsable : All IsUsable selected
  selected-IsUsable = Sub-All IsUsable selection.0 (
      All-apply_algorithm IsUsable
        (λ k xs ys hx hy. (hx.0, omega (arith, length-append xs ys, hx.1))) (raw_of trace) algorithm
        (candidates-IsUsable (sorted rank_leb trace.items)))

  shorter :
      length (document (map text_of selected)) ≤ length (document (map text_of (raw_of trace)))
  shorter = omega (
    arith,
    length-document_of selected,
    length-document_of (raw_of trace),
    Sub-weigh span selection.0,
    span-apply_algorithm (raw_of trace) algorithm,
  )

  counted : length (all_sources selected) ≤ length trace.items
  counted =
      omega
        (arith, weigh-selected (λ s. 1), weigh_one (all_sources selected), weigh_one trace.items)

module _ ⦃h : Digests⦄ (digests : AreDigests h) (trace : RecallTrace) (sound : IsTrace trace)
    (algorithm : ContextCompressionAlgorithm) (budget : ℕ) (low : 64 ≤ budget)
    (high : budget ≤ 100_000) where
  abbrev chosen : List CandidateSegment
  chosen = selected_of trace algorithm budget

  abbrev result : RecallContextProjection
  result = assemble trace algorithm budget (raw_of trace) chosen (map segment_for chosen)

  length-included : length (included (map segment_for chosen)) ≡ length (all_sources chosen)
  length-included = omega (
    arith,
    weigh-segments (λ s. 1) chosen,
    weigh_one (all_sources chosen),
    weigh_one (included (map segment_for chosen)),
  )

  once : (k : Uuid) → weigh (occurs revision_of k) (included (map segment_for chosen)) ≤ 1
  once k = omega (
    arith,
    weigh-segments (occurs revision_of k) chosen,
    selected-once trace algorithm budget low sound.distinct k,
  )

  result-IsSound : IsSound result
  unfolding assemble
  result-IsSound = record {
    version = sound.version;
    budget_low = low;
    budget_high = high;
    knowledge = sound.knowledge;
    fits = (selection trace algorithm budget low).1;
    exact = rw map-content_of;
    shorter = shorter trace algorithm budget low;
    distinct = Distinct-of_occurs revision_of (included (map segment_for chosen)) once;
    covers = omega (
      arith,
      sum-count_of (map segment_for chosen),
      length-included,
      counted trace algorithm budget low,
    );
    configuration = digests _;
    source = digests _;
    projection = digests _;
  }

  project-result : project trace algorithm budget ≡ ok result
  unfolding project
  project-result = rw (candidates_of-ok (sorted rank_leb trace.items) ranked) (
      rw (segments_of-ok chosen usable unique, check_projection-ok result result-IsSound)
        (ground arith))
    where
      ranked : All IsRanked (sorted rank_leb trace.items)
      ranked = All-sorted rank_leb IsRanked trace.items sound.ranked

      usable : All IsUsable chosen
      usable = selected-IsUsable trace algorithm budget low

      unique : (k : Uuid) → weigh (occurs revision_of k) (all_sources chosen) ≤ 1
      unique = selected-once trace algorithm budget low sound.distinct

  -- On a trace as `recall` makes it and a budget in [64, 100000], `project` returns a projection.
  -- Its content fits the budget and is the document of its segments, no revision is cited twice,
  -- the cited and the omitted items are as many as the trace's, and the cited sources, as a
  -- multiset, are among the sources of the trace's items.
  pub project-returns :
      (p : RecallContextProjection) × (project trace algorithm budget ≡ ok p)
      × (length p.content ≤ budget)
      × (p.content ≡ document (map content_of p.segments))
      × Distinct (source_revision_ids p)
      × (length (included p.segments) + p.omitted_item_count ≡ length trace.items)
      × ((f : ContextProjectionSource → ℕ)
          → weigh f (included p.segments) ≤ weigh (λ item. f (source_for item)) trace.items)
  unfolding assemble
  project-returns = (
    result,
    project-result,
    result-IsSound.fits,
    result-IsSound.exact,
    result-IsSound.distinct,
    result-IsSound.covers,
    λ f. omega (arith, weigh-segments f chosen, weigh-selected trace algorithm budget low f),
  )
