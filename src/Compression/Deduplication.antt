-- ===== src/Compression/Deduplication.antt =====
-- `_apply_algorithm`: deduplication regroups the sources and loses none.
use evolvable_user_memory.Base.{
  ℕ, ◌+◌, ◌≤◌, ◌≡◌, refl, List, [], ◌∷◌, ◌++◌, map, arith, All, none, some, Option-cases, list_eq,
  nat_eq, inl, inr, ◌==◌, Bool-cases, ==_iff, ap,
}
use evolvable_user_memory.Base.Text.{Text}
use evolvable_user_memory.Base.Dict.{Dict, get, insert, keys, Distinct-keys-insert}
use evolvable_user_memory.Base.Sort.{Distinct}
use evolvable_user_memory.Base.Weigh.{weigh, weigh-append}
use evolvable_user_memory.Projection.{
  ContextCompressionAlgorithm, ranked_extractive, exact_deduplicated, ContextProjectionSource,
}
use evolvable_user_memory.Compression.{
  CandidateSegment, extend, deduplicate, apply_algorithm, segment_of, text_of,
}
use evolvable_user_memory.Compression.Documents.{span}

abbrev Grouped : Type 0
Grouped = Dict Text (List ContextProjectionSource)

-- The sources of a list of candidates, in order.
abbrev pub all_sources : List CandidateSegment → List ContextProjectionSource
all_sources [] = []
all_sources (c ∷ cs) = c.sources ++ all_sources cs

abbrev grouped_sources : Grouped → List ContextProjectionSource
grouped_sources d = all_sources (map segment_of d)

module _ (f : ContextProjectionSource → ℕ) where
  weigh-insert_new :
      (k : Text) (new : List ContextProjectionSource) (d : Grouped)
      → get k d ≡ none
      → weigh f (grouped_sources (insert k new d)) ≡ weigh f (grouped_sources d) + weigh f new
  unfolding get insert
  weigh-insert_new k new [] h = omega (arith, weigh-append f new [])
  weigh-insert_new k new ((j, w) ∷ d) h = elim (Bool-cases (j == k)) [
    | inl same ↦ cc (rw same at h)
    | inr other ↦ rw other (
        omega (
          arith,
          weigh-append f w (grouped_sources (insert k new d)),
          weigh-append f w (grouped_sources d),
          weigh-insert_new k new d (rw other at h),
        ))
  ]

  weigh-insert :
      (k : Text) (old new : List ContextProjectionSource) (d : Grouped)
      → get k d ≡ some old
      → weigh f (grouped_sources (insert k (old ++ new) d))
        ≡ weigh f (grouped_sources d) + weigh f new
  unfolding get insert
  weigh-insert k old new [] h = cc
  weigh-insert k old new ((j, w) ∷ d) h = elim (Bool-cases (j == k)) [
    | inl same ↦
        let found : w ≡ old = cc (rw same at h) in
        let rest = grouped_sources d in
        rw (same, found)
          (omega (
            arith,
            weigh-append f (old ++ new) rest,
            weigh-append f old new,
            weigh-append f old rest,
          ))
    | inr other ↦ rw other (
        omega (
          arith,
          weigh-append f w (grouped_sources (insert k (old ++ new) d)),
          weigh-append f w (grouped_sources d),
          weigh-insert k old new d (rw other at h),
        ))
  ]

  weigh-extend :
      (d : Grouped) (c : CandidateSegment)
      → weigh f (grouped_sources (extend d c)) ≡ weigh f (grouped_sources d) + weigh f c.sources
  unfolding extend
  weigh-extend d c = elim (Option-cases (get c.content d)) [
    | inl absent ↦ rw (absent, extend) (weigh-insert_new c.content c.sources d absent)
    | inr (old, e) ↦ rw (e, extend) (weigh-insert c.content old c.sources d e)
  ]

  weigh-deduplicate :
      (cs : List CandidateSegment) (d : Grouped)
      → weigh f (grouped_sources (deduplicate d cs))
        ≡ weigh f (grouped_sources d) + weigh f (all_sources cs)
  unfolding deduplicate
  weigh-deduplicate [] d = omega arith
  weigh-deduplicate (c ∷ cs) d = omega (
    arith,
    weigh-deduplicate cs (extend d c),
    weigh-extend d c,
    weigh-append f c.sources (all_sources cs),
  )

  -- Every weight has the same sum over the sources before and after.
  pub weigh-apply_algorithm :
      (cs : List CandidateSegment) (algorithm : ContextCompressionAlgorithm)
      → weigh f (all_sources (apply_algorithm cs algorithm)) ≡ weigh f (all_sources cs)
  unfolding apply_algorithm
  weigh-apply_algorithm cs ranked_extractive = refl
  weigh-apply_algorithm cs exact_deduplicated = omega (arith, weigh-deduplicate cs [])

module _ (P : CandidateSegment → Type 0) (k : Text)
    (joins : (xs ys : List ContextProjectionSource)
      → P (segment_of (k, xs))
      → P (segment_of (k, ys))
      → P (segment_of (k, xs ++ ys))) where
  All-insert_joined :
      (old new : List ContextProjectionSource) (d : Grouped)
      → get k d ≡ some old
      → P (segment_of (k, new))
      → All P (map segment_of d)
      → All P (map segment_of (insert k (old ++ new) d))
  unfolding get insert
  All-insert_joined old new [] e p h = cc
  All-insert_joined old new ((j, w) ∷ d) e p h = elim (Bool-cases (j == k)) [
    | inl same ↦
        let found : w ≡ old = cc (rw same at e) in
        let key : j ≡ k = (==_iff j k).0 same in
        rw same (joins old new (rw (key, found) at h.0) p, h.1)
    | inr other ↦ rw other (h.0, All-insert_joined old new d (rw other at e) p h.1)
  ]

All-insert_new :
    (P : CandidateSegment → Type 0) (k : Text) (new : List ContextProjectionSource) (d : Grouped)
    → get k d ≡ none
    → P (segment_of (k, new))
    → All P (map segment_of d)
    → All P (map segment_of (insert k new d))
unfolding get insert
All-insert_new P k new [] e p h = (p, tt)
All-insert_new P k new ((j, w) ∷ d) e p h = elim (Bool-cases (j == k)) [
  | inl same ↦ cc (rw same at e)
  | inr other ↦ rw other (h.0, All-insert_new P k new d (rw other at e) p h.1)
]

module _ (P : CandidateSegment → Type 0)
    (joins : (k : Text) (xs ys : List ContextProjectionSource)
      → P (segment_of (k, xs))
      → P (segment_of (k, ys))
      → P (segment_of (k, xs ++ ys))) where
  All-extend :
      (d : Grouped) (c : CandidateSegment)
      → P c
      → All P (map segment_of d)
      → All P (map segment_of (extend d c))
  unfolding extend
  All-extend d c p h = elim (Option-cases (get c.content d)) [
    | inl absent ↦ rw (absent, extend) (All-insert_new P c.content c.sources d absent p h)
    | inr (old, e) ↦
        rw (e, extend) (All-insert_joined P c.content (joins c.content) old c.sources d e p h)
  ]

  All-deduplicate :
      (cs : List CandidateSegment) (d : Grouped)
      → All P cs
      → All P (map segment_of d)
      → All P (map segment_of (deduplicate d cs))
  unfolding deduplicate
  All-deduplicate [] d p h = h
  All-deduplicate (c ∷ cs) d p h = All-deduplicate cs (extend d c) p.1 (All-extend d c p.0 h)

  -- A property of candidates that joining sources keeps holds after the algorithm too.
  pub All-apply_algorithm :
      (cs : List CandidateSegment) (algorithm : ContextCompressionAlgorithm)
      → All P cs
      → All P (apply_algorithm cs algorithm)
  unfolding apply_algorithm
  All-apply_algorithm cs ranked_extractive h = h
  All-apply_algorithm cs exact_deduplicated h = All-deduplicate cs [] h tt

span-insert :
    (k : Text) (new : List ContextProjectionSource) (d : Grouped)
    → weigh span (map segment_of (insert k new d))
      ≤ weigh span (map segment_of d) + span (segment_of (k, new))
unfolding insert
span-insert k new [] = omega arith
span-insert k new ((j, w) ∷ d) = elim (Bool-cases (j == k)) [
  | inl same ↦ rw (same, (==_iff j k).0 same) (omega arith)
  | inr other ↦ rw other (omega (arith, span-insert k new d))
]

span-extend :
    (d : Grouped) (c : CandidateSegment)
    → weigh span (map segment_of (extend d c)) ≤ weigh span (map segment_of d) + span c
unfolding extend
span-extend d c = elim (Option-cases (get c.content d)) [
  | inl absent ↦ rw (absent, extend) (span-insert c.content c.sources d)
  | inr (old, e) ↦ rw (e, extend) (span-insert c.content (old ++ c.sources) d)
]

span-deduplicate :
    (cs : List CandidateSegment) (d : Grouped)
    → weigh span (map segment_of (deduplicate d cs)) ≤ weigh span (map segment_of d) + weigh span cs
unfolding deduplicate
span-deduplicate [] d = omega arith
span-deduplicate (c ∷ cs) d = omega (arith, span-deduplicate cs (extend d c), span-extend d c)

pub span-apply_algorithm :
    (cs : List CandidateSegment) (algorithm : ContextCompressionAlgorithm)
    → weigh span (apply_algorithm cs algorithm) ≤ weigh span cs
unfolding apply_algorithm
span-apply_algorithm cs ranked_extractive = omega arith
span-apply_algorithm cs exact_deduplicated = omega (arith, span-deduplicate cs [])

keys-extend :
    (d : Grouped) (c : CandidateSegment) → Distinct (keys d) → Distinct (keys (extend d c))
unfolding extend
keys-extend d c h = elim (Option-cases (get c.content d)) [
  | inl absent ↦ rw (absent, extend) (Distinct-keys-insert c.content c.sources d h)
  | inr (old, e) ↦ rw (e, extend) (Distinct-keys-insert c.content (old ++ c.sources) d h)
]

keys-deduplicate :
    (cs : List CandidateSegment) (d : Grouped)
    → Distinct (keys d)
    → Distinct (keys (deduplicate d cs))
unfolding deduplicate
keys-deduplicate [] d h = h
keys-deduplicate (c ∷ cs) d h = keys-deduplicate cs (extend d c) (keys-extend d c h)

keys-segments : (d : Grouped) → map text_of (map segment_of d) ≡ keys d
keys-segments [] = refl
keys-segments ((k, v) ∷ d) = ap (λ l. k ∷ l) (keys-segments d)

-- After exact deduplication no two segments have the same content, and every weight has the same
-- sum over the segments' sources as over the candidates' (so no source is lost or repeated).
pub exact_deduplicated_lem :
    (cs : List CandidateSegment) (f : ContextProjectionSource → ℕ)
    → let segments = apply_algorithm cs exact_deduplicated in
      Distinct (map text_of segments) × (weigh f (all_sources segments) ≡ weigh f (all_sources cs))
exact_deduplicated_lem cs f = (
  unfold apply_algorithm in rw keys-segments (keys-deduplicate cs [] tt),
  weigh-apply_algorithm f cs exact_deduplicated,
)
