-- ===== src/Governance.antt =====
-- domain/governance.py: processing grants, suppression fences and erasure requests. A constructor's
-- `__post_init__` is a function into a Result, as in Projection.
pub mod State
pub mod Erase
pub mod Requests
pub mod Steps
pub mod Kept
pub mod Valid
pub mod Erased
use Prim.Native.String.{String}
use evolvable_user_memory.Base.{
  ℕ, ◌≡◌, ◌↔◌, Bool, true, false, not, ◌&&◌, ◌||◌, List, [], ◌∷◌, any, length, Option, none, some,
  Eq, ◌==◌, ◌!=◌, nat_eq, list_eq, leb, arith,
}
use evolvable_user_memory.Base.Result.{Result, ok, value_error, ◌>>=◌, ◌>>◌, raise_if}
use evolvable_user_memory.Base.Text.{Text, text}
use evolvable_user_memory.Base.Sort.{sorted, set_of, contains}
use evolvable_user_memory.Common.{Uuid, Instant, require_text, text_leb}
use evolvable_user_memory.Memory.{require_texts}
use evolvable_user_memory.Store.Erasure.{ErasureSummary}

pub data ErasureStatus : Type 0 where
  pending completed failed : ErasureStatus

abbrev pub is_completed : ErasureStatus → Bool
is_completed ErasureStatus.completed = true
is_completed _ = false

pub record ProcessingGrant : Type 0 where
  pub id : Uuid
  pub tenant_ref : Text
  pub subject_ref : Text
  pub purposes : List Text
  pub lawful_basis : Text
  pub policy_version : Text
  pub issued_by_ref : Text
  pub idempotency_key : Text
  pub valid_from : Instant
  pub valid_until : Option Instant
  pub created_at : Instant
  pub revoked_at : Option Instant
  pub revoked_by_ref : Option Text

-- `valid_until is not None and valid_until <= valid_from`
abbrev pub ends_early : Option Instant → Instant → Bool
ends_early none valid_from = false
ends_early (some valid_until) valid_from = leb valid_until valid_from

abbrev pub lacks_revoker : Option Instant → Option Text → Bool
lacks_revoker (some t) none = true
lacks_revoker _ _ = false

-- `None if value is None else require_text(value)`
abbrev pub require_optional : Option Text → Result (Option Text)
require_optional none = ok none
require_optional (some t) = do value ← require_text t; ok (some value)

unfoldable pub make_grant : ProcessingGrant → Result ProcessingGrant
make_grant g = do
  tenant_ref ← require_text g.tenant_ref
  subject_ref ← require_text g.subject_ref
  lawful_basis ← require_text g.lawful_basis
  policy_version ← require_text g.policy_version
  issued_by_ref ← require_text g.issued_by_ref
  idempotency_key ← require_text g.idempotency_key
  required ← require_texts g.purposes
  let purposes = sorted text_leb (set_of required)
  raise_if (length purposes == 0 || contains purposes (text "*"))
      (value_error "processing grant purposes must be explicit")
  raise_if (ends_early g.valid_until g.valid_from)
      (value_error "valid_until must be later than valid_from")
  raise_if (lacks_revoker g.revoked_at g.revoked_by_ref)
      (value_error "revoked_by_ref is required for a revoked grant")
  revoked_by_ref ← require_optional g.revoked_by_ref
  ok (record g {
    tenant_ref = tenant_ref;
    subject_ref = subject_ref;
    lawful_basis = lawful_basis;
    policy_version = policy_version;
    issued_by_ref = issued_by_ref;
    idempotency_key = idempotency_key;
    purposes = purposes;
    revoked_by_ref = revoked_by_ref;
  })

pub record SuppressionFence : Type 0 where
  pub id : Uuid
  pub tenant_ref : Text
  pub subject_ref : Text
  pub reason_code : Text
  pub policy_version : Text
  pub requested_by_ref : Text
  pub idempotency_key : Text
  pub created_at : Instant

unfoldable pub make_fence : SuppressionFence → Result SuppressionFence
make_fence f = do
  tenant_ref ← require_text f.tenant_ref
  subject_ref ← require_text f.subject_ref
  reason_code ← require_text f.reason_code
  policy_version ← require_text f.policy_version
  requested_by_ref ← require_text f.requested_by_ref
  idempotency_key ← require_text f.idempotency_key
  ok (record f {
    tenant_ref = tenant_ref;
    subject_ref = subject_ref;
    reason_code = reason_code;
    policy_version = policy_version;
    requested_by_ref = requested_by_ref;
    idempotency_key = idempotency_key;
  })

pub record ErasureRequest : Type 0 where
  pub id : Uuid
  pub tenant_ref : Text
  pub subject_ref : Text
  pub scope_digest : Text
  pub reason_code : Text
  pub policy_version : Text
  pub requested_by_ref : Text
  pub idempotency_key : Text
  pub status : ErasureStatus
  pub created_at : Instant
  pub completed_at : Option Instant
  pub summary : Option ErasureSummary
  pub handler_results : List (Text × Text)
  pub error_code : Option Text

abbrev pub lacks_evidence : Option Instant → Option ErasureSummary → Bool
lacks_evidence (some t) (some summary) = false
lacks_evidence _ _ = true

-- `result not in {"completed", "not_applicable"}`
abbrev pub is_unfinished : Text × Text → Bool
is_unfinished (handler, result) =
    not (contains (text "completed" ∷ text "not_applicable" ∷ []) result)

unfoldable pub make_request : ErasureRequest → Result ErasureRequest
make_request r = do
  tenant_ref ← require_text r.tenant_ref
  subject_ref ← require_text r.subject_ref
  scope_digest ← require_text r.scope_digest
  reason_code ← require_text r.reason_code
  policy_version ← require_text r.policy_version
  requested_by_ref ← require_text r.requested_by_ref
  idempotency_key ← require_text r.idempotency_key
  raise_if (is_completed r.status && lacks_evidence r.completed_at r.summary)
      (value_error "completed erasure requires completion evidence")
  raise_if (is_completed r.status && any is_unfinished r.handler_results)
      (value_error "all required erasure handlers must be completed")
  error_code ← require_optional r.error_code
  ok (record r {
    tenant_ref = tenant_ref;
    subject_ref = subject_ref;
    scope_digest = scope_digest;
    reason_code = reason_code;
    policy_version = policy_version;
    requested_by_ref = requested_by_ref;
    idempotency_key = idempotency_key;
    error_code = error_code;
  })
