-- ===== src/Common.antt =====
-- domain/common.py: normalised texts and times, scopes, context signatures and their similarity.
-- An instant is a number of microseconds in UTC. `DateTime` is what a caller may hand over.
pub mod Similarity
use Prim.Native.String.{String}
use evolvable_user_memory.Base.{
  ℕ, ◌-◌, ◌+◌, ◌*◌, ◌≡◌, refl, Bool, true, false, ◌&&◌, ◌||◌, not, List, [], ◌∷◌, ◌++◌, map, length,
  Eq, ◌==◌, ◌!=◌, ==_iff, ltb, if◌then◌else◌, arith, keep, any, Option, none, some, list_eq, nat_eq,
  pair_eq, ◌↔◌,
}
use evolvable_user_memory.Base.Result.{Result, ok, err, domain_error, ◌>>=◌, ◌>>◌, raise_if}
use evolvable_user_memory.Base.Text.{Text, strip}
use evolvable_user_memory.Base.Sort.{sorted, set_of, contains}
use evolvable_user_memory.Base.Fixed.{one, percent, ratio}
use evolvable_user_memory.Base.Signed.{ℤ, pos, difference, max_zero}

abbrev pub Uuid : Type 0
Uuid = ℕ

abbrev pub Instant : Type 0
Instant = ℕ

-- The instant that a datetime with an offset stands for, or a datetime with no offset.
pub data DateTime : Type 0 where
  aware naive : ℕ → DateTime

unfoldable pub require_text : Text → Result Text
require_text value =
    let normalized = strip value in
    elim normalized [ [] ↦ err (domain_error "must not be blank") | c ∷ s ↦ ok (c ∷ s) ]

unfoldable pub require_utc : DateTime → Result Instant
require_utc (aware t) = ok t
require_utc (naive t) = err (domain_error "must be timezone-aware")

pub record Scope : Type 0 where
  pub tenant_id : Text
  pub subject_id : Text

unfoldable pub make_scope : Text → Text → Result Scope
make_scope tenant_id subject_id = do
  tenant ← require_text tenant_id
  subject ← require_text subject_id
  ok (record { tenant_id = tenant; subject_id = subject })

abbrev pub scope_beq : Scope → Scope → Bool
scope_beq a b = a.tenant_id == b.tenant_id && a.subject_id == b.subject_id

pub scope_beq_iff : (a b : Scope) → (scope_beq a b ≡ true) ↔ (a ≡ b)
scope_beq_iff a b = (
  λ h. ground (arith, ==_iff a.tenant_id b.tenant_id, ==_iff a.subject_id b.subject_id),
  λ h. ground (arith, ==_iff a.tenant_id b.tenant_id, ==_iff a.subject_id b.subject_id),
)

instance abbrev pub scope_eq : Eq Scope
scope_eq = record { beq = scope_beq; beq_iff = scope_beq_iff }

-- Facets in the order of their keys, each key once.
pub record ContextSignature : Type 0 where
  pub facets : List (Text × Text)

-- `<=` of Python's texts: by code points, from the left.
unfoldable pub text_leb : Text → Text → Bool
text_leb [] t = true
text_leb (c ∷ s) [] = false
text_leb (c ∷ s) (d ∷ t) = ltb c d || (c == d && text_leb s t)

unfoldable pub facet_leb : Text × Text → Text × Text → Bool
facet_leb (k, v) (j, w) = (text_leb k j && k != j) || (k == j && text_leb v w)

abbrev pub key_of : Text × Text → Text
key_of (k, v) = k

unfoldable pub require_facets : List (Text × Text) → Result (List (Text × Text))
require_facets [] = ok []
require_facets ((k, v) ∷ rest) = do
  key ← require_text k
  value ← require_text v
  facets ← require_facets rest
  ok ((key, value) ∷ facets)

-- `ContextSignature.__post_init__`; a dict of the facets has one entry for each key.
unfoldable pub make_context : List (Text × Text) → Result ContextSignature
make_context facets = do
  required ← require_facets facets
  let canonical = sorted facet_leb required
  raise_if (length (set_of (map key_of canonical)) != length canonical)
      (domain_error "context keys must be unique")
  ok (record { facets = canonical })

-- SHA-256 of the UTF-8 encoding, as hex digits. `hashlib` computes it.
pub record Hashing : Type 0 where
  pub hexdigest : Text → Text

-- `hmac.new(key, text.encode(), sha256).hexdigest()`, of Python's standard library.
pub record Hmac : Type 0 where
  pub hexdigest : List ℕ → Text → Text

join_facets : List (Text × Text) → Text
join_facets [] = []
join_facets ((k, v) ∷ []) = k ++ 0x1e ∷ v
join_facets ((k, v) ∷ rest) = (k ++ 0x1e ∷ v) ++ 0x1f ∷ join_facets rest

unfoldable pub fingerprint : ⦃h : Hashing⦄ → ContextSignature → Text
unfolding join_facets
fingerprint ⦃h⦄ c = h.hexdigest (join_facets c.facets)

-- `len(stored & query)`
unfoldable pub matching : List (Text × Text) → List (Text × Text) → List (Text × Text)
matching stored query = keep (contains query) stored

-- The keys to which the two contexts give different values.
unfoldable pub conflicting_keys : List (Text × Text) → List (Text × Text) → List Text
conflicting_keys stored query =
    set_of (map key_of (keep (λ s. any (λ q. key_of s == key_of q && s.1 != q.1) query) stored))

-- `ContextSignature.similarity`
unfoldable pub similarity_of : List (Text × Text) → List (Text × Text) → ℤ
similarity_of [] [] = pos one
similarity_of [] (q ∷ query) = pos (percent 80)
similarity_of (s ∷ stored) [] = pos (percent 25)
similarity_of (s ∷ stored) (q ∷ query) =
    let left = set_of (s ∷ stored) in
    let right = set_of (q ∷ query) in
    let common = length (matching left right) in
    let union = length (set_of (left ++ right)) in
    let score = ratio common union in
    max_zero (difference score (percent 35 * length (conflicting_keys left right)))

unfoldable pub similarity : ContextSignature → ContextSignature → ℤ
similarity stored requested = similarity_of stored.facets requested.facets
