-- ===== src/Compression.antt =====
-- application/compression.py: `RecallContextCompressor`, from a recall trace to bounded JSON.
-- The characters of the content are modelled to the last one. `_digest` (json.dumps and SHA-256 of
-- a payload) is the parameter `Digests`, over the payloads as data.
pub mod Json
pub mod Documents
pub mod Budget
pub mod Hex
pub mod Deduplication
pub mod Parts
pub mod Total
pub use Json.{dumps_string, dumps_object, dumps_memory}
use evolvable_user_memory.Base.{
  ℕ, ◌+◌, ◌-◌, ◌≡◌, Bool, true, false, List, [], ◌∷◌, ◌++◌, map, length, sum, leb, not, nat_eq,
  if◌then◌else◌, list_eq, Option, none, some,
}
use evolvable_user_memory.Base.Result.{Result, ok, err, domain_error, ◌>>=◌, ◌>>◌, raise_if}
use evolvable_user_memory.Base.Text.{Text}
use evolvable_user_memory.Base.Dict.{Dict, get, insert}
use evolvable_user_memory.Base.Sort.{sorted}
use evolvable_user_memory.Common.{Uuid, Instant, Scope, ContextSignature}
use evolvable_user_memory.Experience.{RecalledItem, RecallTrace}
use evolvable_user_memory.Projection.{
  ContextCompressionAlgorithm, ranked_extractive, exact_deduplicated, algorithm_version,
  ContextProjectionSource, make_source, ContextProjectionSegment, make_segment, document,
  content_of, RecallContextProjection, check_projection, budget_fits, revision_of,
}

pub record CandidateSegment : Type 0 where
  pub content : Text
  pub sources : List ContextProjectionSource

-- `_candidate`
unfoldable pub candidate : RecalledItem → Result CandidateSegment
candidate item = do
  source ← make_source item.record_id item.revision_id item.rank item.score
  ok (record { content = dumps_memory item.context item.key item.value; sources = source ∷ [] })

unfoldable pub candidates_of : List RecalledItem → Result (List CandidateSegment)
candidates_of [] = ok []
candidates_of (item ∷ items) = do
  first ← candidate item
  rest ← candidates_of items
  ok (first ∷ rest)

-- `deduplicated.setdefault(content, []).extend(sources)`
unfoldable pub extend :
    Dict Text (List ContextProjectionSource)
    → CandidateSegment
    → Dict Text (List ContextProjectionSource)
extend d c = elim (get c.content d) [
  | none ↦ insert c.content c.sources d
  | some sources ↦ insert c.content (sources ++ c.sources) d
]

unfoldable pub deduplicate :
    Dict Text (List ContextProjectionSource)
    → List CandidateSegment
    → Dict Text (List ContextProjectionSource)
deduplicate d [] = d
deduplicate d (c ∷ cs) = deduplicate (extend d c) cs

abbrev pub segment_of : Text × List ContextProjectionSource → CandidateSegment
segment_of (content, sources) = record { content = content; sources = sources }

-- `_apply_algorithm`; the two algorithms are all that the enumeration has.
unfoldable pub apply_algorithm :
    List CandidateSegment → ContextCompressionAlgorithm → List CandidateSegment
apply_algorithm candidates ranked_extractive = candidates
apply_algorithm candidates exact_deduplicated = map segment_of (deduplicate [] candidates)

abbrev pub text_of : CandidateSegment → Text
text_of c = c.content

-- The loop of `_select_within_budget` over what is left, with what is selected so far.
unfoldable pub select_from :
    ℕ → List CandidateSegment → List CandidateSegment → List CandidateSegment
select_from budget selected [] = selected
select_from budget selected (c ∷ cs) =
    select_from budget
      (if leb (length (document (map text_of selected ++ c.content ∷ []))) budget
        then selected ++ c ∷ []
        else selected)
      cs

unfoldable pub select_within_budget : List CandidateSegment → ℕ → List CandidateSegment
select_within_budget candidates budget = select_from budget [] candidates

unfoldable pub segments_of : List CandidateSegment → Result (List ContextProjectionSegment)
segments_of [] = ok []
segments_of (c ∷ cs) = do
  first ← make_segment c.content c.sources
  rest ← segments_of cs
  ok (first ∷ rest)

-- What `_digest` is applied to.
pub data Payload : Type 0 where
  configuration : (algorithm : ContextCompressionAlgorithm) (version budget : ℕ) → Payload
  source : RecallTrace → List CandidateSegment → Payload
  projection :
      (configuration_sha256 source_sha256 content : Text) → List (Text × List Uuid) → Payload

pub record Digests : Type 0 where
  pub digest : Payload → Text

abbrev pub rank_leb : RecalledItem → RecalledItem → Bool
rank_leb a b = leb a.rank b.rank

abbrev pub count_of : ContextProjectionSegment → ℕ
count_of segment = length segment.sources

abbrev pub listed : ContextProjectionSegment → Text × List Uuid
listed segment = (segment.content, map revision_of segment.sources)

-- The arguments of `RecallContextProjection(...)` in `project`, once the segments are made.
unfoldable pub assemble :
    ⦃h : Digests⦄
    → RecallTrace
    → ContextCompressionAlgorithm
    → ℕ
    → List CandidateSegment
    → List CandidateSegment
    → List ContextProjectionSegment
    → RecallContextProjection
assemble ⦃h⦄ trace algorithm budget raw selected segments =
    let content = document (map text_of selected) in
    let configuration_sha256 =
      h.digest (Payload.configuration algorithm (algorithm_version algorithm) budget) in
    let source_sha256 = h.digest (Payload.source trace raw) in
    record {
      scope = trace.scope;
      trace_id = trace.id;
      policy_id = trace.policy_id;
      policy_version = trace.policy_version;
      algorithm = algorithm;
      budget_characters = budget;
      valid_at = trace.valid_at;
      known_at = trace.known_at;
      trace_created_at = trace.created_at;
      content = content;
      segments = segments;
      source_item_count = length trace.items;
      omitted_item_count = length trace.items - sum (map count_of segments);
      original_character_count = length (document (map text_of raw));
      configuration_sha256 = configuration_sha256;
      source_sha256 = source_sha256;
      projection_sha256 =
          h.digest
            (Payload.projection configuration_sha256 source_sha256 content (map listed segments));
    }

-- `RecallContextCompressor.project`
unfoldable pub project :
    ⦃h : Digests⦄ → RecallTrace → ContextCompressionAlgorithm → ℕ → Result RecallContextProjection
project trace algorithm budget = do
  raise_if (not (budget_fits budget))
      (domain_error "projection budget must be in [64, 100000] characters")
  raw ← candidates_of (sorted rank_leb trace.items)
  let selected = select_within_budget (apply_algorithm raw algorithm) budget
  segments ← segments_of selected
  check_projection (assemble trace algorithm budget raw selected segments)
