-- ===== src/Compression/Documents.antt =====
-- The length of a document, and that a memory's JSON survives `require_text`.
use evolvable_user_memory.Base.{
  ℕ, ◌+◌, ◌-◌, ◌≡◌, refl, List, [], ◌∷◌, map, length, length-append, arith,
}
use evolvable_user_memory.Base.Text.{Text, text, is_space, strip-closed}
use evolvable_user_memory.Base.Result.{ok}
use evolvable_user_memory.Base.Weigh.{weigh}
use evolvable_user_memory.Common.{ContextSignature, require_text}
use evolvable_user_memory.Projection.{join, document}
use evolvable_user_memory.Compression.{CandidateSegment, text_of}
use evolvable_user_memory.Compression.Json.{dumps_memory, memory_body}

-- A segment and the comma beside it.
abbrev pub width : Text → ℕ
width s = length s + 1

length-join : (s : Text) (rest : List Text) → length (join (s ∷ rest)) + 1 ≡ weigh width (s ∷ rest)
unfolding join
length-join s [] = omega arith
length-join s (t ∷ rest) =
    omega (arith, length-append s (b',' ∷ join (t ∷ rest)), length-join t rest)

pub length-document :
    (segments : List Text) → length (document segments) ≡ 15 + (weigh width segments - 1)
unfolding document
length-document [] = unfold join in refl
length-document (s ∷ rest) =
    omega (arith, length-append (join (s ∷ rest)) (text "]}"), length-join s rest)

-- A memory's JSON stands in braces, so stripping leaves it alone.
pub require_text-dumps_memory :
    (context : ContextSignature) (key value : Text)
    → require_text (dumps_memory context key value) ≡ ok (dumps_memory context key value)
unfolding require_text dumps_memory is_space
require_text-dumps_memory context key value =
    rw (strip-closed b'{' b'}' (memory_body context key value) refl refl, require_text)

-- A candidate's share of the document.
abbrev pub span : CandidateSegment → ℕ
span c = length c.content + 1

weigh-span : (cs : List CandidateSegment) → weigh width (map text_of cs) ≡ weigh span cs
weigh-span [] = refl
weigh-span (c ∷ cs) = omega (arith, weigh-span cs)

pub length-document_of :
    (cs : List CandidateSegment) → length (document (map text_of cs)) ≡ 15 + (weigh span cs - 1)
length-document_of cs = omega (arith, length-document (map text_of cs), weigh-span cs)
