-- ===== src/Compression/Parts.antt =====
-- The steps of `project` return, on items as a recall makes them.
use evolvable_user_memory.Base.{
  ℕ, ◌≤◌, ◌≡◌, refl, List, [], ◌∷◌, map, arith, All, length, sum, length-append, length-map, nat_eq,
  ap, list_eq,
}
use evolvable_user_memory.Base.Result.{ok}
use evolvable_user_memory.Base.Sort.{Distinct, sorted, set_of-Distinct}
use evolvable_user_memory.Base.Fixed.{one}
use evolvable_user_memory.Base.Weigh.{weigh, weigh-append, weigh-sorted, occurs, Distinct-of_occurs}
use evolvable_user_memory.Common.{Uuid, require_text}
use evolvable_user_memory.Experience.{RecalledItem}
use evolvable_user_memory.Projection.{
  ContextProjectionSource, make_source, ContextProjectionSegment, make_segment, source_leb,
  revision_of, content_of, included,
}
use evolvable_user_memory.Compression.{
  CandidateSegment, candidate, candidates_of, segments_of, text_of, count_of, dumps_memory,
}
use evolvable_user_memory.Compression.Documents.{require_text-dumps_memory}
use evolvable_user_memory.Compression.Deduplication.{all_sources}

-- What `RecalledItem.__post_init__` guarantees.
abbrev pub IsRanked : RecalledItem → Type 0
IsRanked item = (1 ≤ item.rank) × (item.score ≤ one)

abbrev pub source_for : RecalledItem → ContextProjectionSource
source_for item = record {
  record_id = item.record_id;
  revision_id = item.revision_id;
  rank = item.rank;
  score = item.score;
}

abbrev pub candidate_for : RecalledItem → CandidateSegment
candidate_for item = record {
  content = dumps_memory item.context item.key item.value;
  sources = source_for item ∷ [];
}

candidate-ok : (item : RecalledItem) → IsRanked item → candidate item ≡ ok (candidate_for item)
unfolding candidate make_source
candidate-ok item h = ground arith

pub candidates_of-ok :
    (items : List RecalledItem)
    → All IsRanked items
    → candidates_of items ≡ ok (map candidate_for items)
unfolding candidates_of
candidates_of-ok [] h = refl
candidates_of-ok (item ∷ items) h = rw (candidate-ok item h.0, candidates_of-ok items h.1)

pub weigh-candidates :
    (f : ContextProjectionSource → ℕ) (items : List RecalledItem)
    → weigh f (all_sources (map candidate_for items)) ≡ weigh (λ item. f (source_for item)) items
weigh-candidates f [] = refl
weigh-candidates f (item ∷ items) = omega (arith, weigh-candidates f items)

-- What makes a candidate a segment.
abbrev pub IsUsable : CandidateSegment → Type 0
IsUsable c = (require_text c.content ≡ ok c.content) × (1 ≤ length c.sources)

pub candidates-IsUsable : (items : List RecalledItem) → All IsUsable (map candidate_for items)
candidates-IsUsable [] = tt
candidates-IsUsable (item ∷ items) =
    ((require_text-dumps_memory _ _ _, omega arith), candidates-IsUsable items)

abbrev pub segment_for : CandidateSegment → ContextProjectionSegment
segment_for c = record { content = c.content; sources = sorted source_leb c.sources }

make_segment-ok :
    (c : CandidateSegment)
    → IsUsable c
    → Distinct (map revision_of c.sources)
    → make_segment c.content c.sources ≡ ok (segment_for c)
unfolding make_segment
make_segment-ok c h d =
    rw (h.0, set_of-Distinct (map revision_of c.sources) d, length-map revision_of c.sources)
      (ground (arith, h.1))

abbrev pub OccursOnce : List ContextProjectionSource → Type 0
OccursOnce sources = (k : Uuid) → weigh (occurs revision_of k) sources ≤ 1

pub segments_of-ok :
    (cs : List CandidateSegment)
    → All IsUsable cs
    → OccursOnce (all_sources cs)
    → segments_of cs ≡ ok (map segment_for cs)
unfolding segments_of
segments_of-ok [] h d = refl
segments_of-ok (c ∷ cs) h d =
    let split = λ (k : Uuid). weigh-append (occurs revision_of k) c.sources (all_sources cs) in
    rw (
      make_segment-ok c h.0
          (Distinct-of_occurs revision_of c.sources (λ k. omega (arith, split k, d k))),
      segments_of-ok cs h.1 (λ k. omega (arith, split k, d k)),
    )

pub weigh-segments :
    (f : ContextProjectionSource → ℕ) (cs : List CandidateSegment)
    → weigh f (included (map segment_for cs)) ≡ weigh f (all_sources cs)
weigh-segments f [] = refl
weigh-segments f (c ∷ cs) = omega (
  arith,
  weigh-append f (sorted source_leb c.sources) (included (map segment_for cs)),
  weigh-append f c.sources (all_sources cs),
  weigh-sorted f source_leb c.sources,
  weigh-segments f cs,
)

pub sum-count_of :
    (segments : List ContextProjectionSegment)
    → sum (map count_of segments) ≡ length (included segments)
sum-count_of [] = refl
sum-count_of (s ∷ segments) =
    omega (arith, length-append s.sources (included segments), sum-count_of segments)

pub map-content_of :
    (cs : List CandidateSegment) → map content_of (map segment_for cs) ≡ map text_of cs
map-content_of [] = refl
map-content_of (c ∷ cs) = ap (λ l. c.content ∷ l) (map-content_of cs)

-- A sum over all sources is a sum over the candidates.
pub weigh-all_sources :
    (f : ContextProjectionSource → ℕ) (cs : List CandidateSegment)
    → weigh f (all_sources cs) ≡ weigh (λ c. weigh f c.sources) cs
weigh-all_sources f [] = refl
weigh-all_sources f (c ∷ cs) =
    omega (arith, weigh-append f c.sources (all_sources cs), weigh-all_sources f cs)
