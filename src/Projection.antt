-- ===== src/Projection.antt =====
-- domain/projection.py: a bounded view of one recall trace, and what its constructors demand.
use evolvable_user_memory.Base.{
  ℕ, ◌+◌, Bool, true, false, ◌&&◌, ◌||◌, List, [], ◌∷◌, ◌++◌, map, length, ◌==◌, ◌!=◌, ltb, leb,
  nat_eq, list_eq, if◌then◌else◌,
}
use evolvable_user_memory.Base.Result.{Result, ok, err, domain_error, ◌>>=◌, ◌>>◌, raise_if}
use evolvable_user_memory.Base.Text.{Text, text}
use evolvable_user_memory.Base.Sort.{sorted, set_of}
use evolvable_user_memory.Base.Fixed.{one}
use evolvable_user_memory.Common.{Uuid, Instant, Scope, require_text}

pub data ContextCompressionAlgorithm : Type 0 where
  ranked_extractive exact_deduplicated : ContextCompressionAlgorithm

abbrev pub algorithm_version : ContextCompressionAlgorithm → ℕ
algorithm_version _ = 1

unfoldable pub is_hex : ℕ → Bool
is_hex c = (leb b'0' c && leb c b'9') || (leb b'a' c && leb c b'f')

-- `str.lower`; no letter outside ASCII becomes a character that a number in base 16 may hold.
unfoldable pub lower : Text → Text
lower [] = []
lower (c ∷ s) = (if leb b'A' c && leb c b'Z' then c + 32 else c) ∷ lower s

-- Digits with single underscores between them; `ready` says whether an underscore may follow.
unfoldable pub scan_digits : Bool → Text → Bool
scan_digits ready [] = ready
scan_digits ready (c ∷ s) =
    let rest = scan_digits (is_hex c) s in if is_hex c then rest else ready && c == b'_' && rest

-- What follows a sign: digits, or `0x` and digits.
unfoldable pub scan_unsigned : Text → Bool
scan_unsigned (c ∷ d ∷ e ∷ s) =
    if c == b'0' && d == b'x' then scan_digits true (e ∷ s) else scan_digits false (c ∷ d ∷ e ∷ s)
scan_unsigned s = scan_digits false s

-- Whether `int(digest, 16)` returns, for a text that is stripped and in lower case. The decimal
-- digits of other scripts, which `int` takes too, are not digits here.
unfoldable pub is_int16 : Text → Bool
is_int16 [] = false
is_int16 (c ∷ s) = if c == b'+' || c == b'-' then scan_unsigned s else scan_unsigned (c ∷ s)

-- The three copies of `_require_sha256` in the domain are one definition here.
unfoldable pub require_sha256 : Text → Result Text
require_sha256 value = do
  required ← require_text value
  let digest = lower required
  raise_if (length digest != 64) (domain_error "must be a SHA-256 hex digest")
  if is_int16 digest then ok digest else err (domain_error "must be a SHA-256 hex digest")

pub record ContextProjectionSource : Type 0 where
  pub record_id : Uuid
  pub revision_id : Uuid
  pub rank : ℕ
  pub score : ℕ

unfoldable pub make_source : Uuid → Uuid → ℕ → ℕ → Result ContextProjectionSource
make_source record_id revision_id rank score = do
  raise_if (ltb rank 1) (domain_error "projection source rank must be positive")
  raise_if (ltb one score) (domain_error "projection source score must be between 0 and 1")
  ok (record { record_id = record_id; revision_id = revision_id; rank = rank; score = score })

pub record ContextProjectionSegment : Type 0 where
  pub content : Text
  pub sources : List ContextProjectionSource

abbrev pub revision_of : ContextProjectionSource → Uuid
revision_of source = source.revision_id

-- The order of `(source.rank, str(source.revision_id))`; a UUID's text has its number's order.
abbrev pub source_leb : ContextProjectionSource → ContextProjectionSource → Bool
source_leb a b = ltb a.rank b.rank || (a.rank == b.rank && leb a.revision_id b.revision_id)

unfoldable pub make_segment : Text → List ContextProjectionSource → Result ContextProjectionSegment
make_segment content sources = do
  required ← require_text content
  raise_if (length sources == 0)
      (domain_error "projection segment must reference at least one source")
  raise_if (length (set_of (map revision_of sources)) != length sources)
      (domain_error "projection segment sources must use distinct revisions")
  ok (record { content = required; sources = sorted source_leb sources })

-- `",".join(...)`
unfoldable pub join : List Text → Text
join [] = []
join (s ∷ []) = s
join (s ∷ t ∷ rest) = s ++ b',' ∷ join (t ∷ rest)

-- The document `{"memories":[...]}` around the segments' texts.
unfoldable pub document : List Text → Text
document segments = text "{\"memories\":[" ++ join segments ++ text "]}"

abbrev pub content_of : ContextProjectionSegment → Text
content_of segment = segment.content

abbrev pub included : List ContextProjectionSegment → List ContextProjectionSource
included [] = []
included (segment ∷ rest) = segment.sources ++ included rest

pub record RecallContextProjection : Type 0 where
  pub scope : Scope
  pub trace_id : Uuid
  pub policy_id : Uuid
  pub policy_version : ℕ
  pub algorithm : ContextCompressionAlgorithm
  pub budget_characters : ℕ
  pub valid_at : Instant
  pub known_at : Instant
  pub trace_created_at : Instant
  pub content : Text
  pub segments : List ContextProjectionSegment
  pub source_item_count : ℕ
  pub omitted_item_count : ℕ
  pub original_character_count : ℕ
  pub configuration_sha256 : Text
  pub source_sha256 : Text
  pub projection_sha256 : Text

abbrev pub budget_fits : ℕ → Bool
budget_fits budget = leb 64 budget && leb budget 100_000

-- `RecallContextProjection.__post_init__`; the counts are natural numbers here.
unfoldable pub check_projection : RecallContextProjection → Result RecallContextProjection
check_projection p = do
  raise_if (ltb p.policy_version 1) (domain_error "projection policy version must be positive")
  raise_if (if budget_fits p.budget_characters then false else true)
      (domain_error "projection budget must be in [64, 100000] characters")
  raise_if (ltb p.trace_created_at p.known_at)
      (domain_error "projection knowledge time must not follow trace creation")
  raise_if (ltb p.budget_characters (length p.content))
      (domain_error "projection content exceeds its character budget")
  raise_if (p.content != document (map content_of p.segments))
      (domain_error "projection content must exactly represent its segments")
  raise_if (ltb p.original_character_count (length p.content))
      (domain_error "projection cannot exceed its original source representation")
  raise_if (length (set_of (map revision_of (included p.segments))) != length (included p.segments))
      (domain_error "a revision cannot appear in multiple projection segments")
  raise_if (length (included p.segments) + p.omitted_item_count != p.source_item_count)
      (domain_error "projection included and omitted counts must cover all sources")
  configuration ← require_sha256 p.configuration_sha256
  source ← require_sha256 p.source_sha256
  projection ← require_sha256 p.projection_sha256
  ok (record p {
    configuration_sha256 = configuration;
    source_sha256 = source;
    projection_sha256 = projection;
  })

abbrev pub source_revision_ids : RecallContextProjection → List Uuid
source_revision_ids p = map revision_of (included p.segments)
