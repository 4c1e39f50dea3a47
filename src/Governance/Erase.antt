-- ===== src/Governance/Erase.antt =====
-- application/governance.py: the commands and `PrivacyApplication`, whose `erase` runs over the governance
-- state and the memory store; and `MemoryApplication.erase_scope` of application/service.py.
use evolvable_user_memory.Base.{
  ℕ, Bool, true, false, ◌||◌, List, [], ◌∷◌, length, Option, none, some, ◌==◌, nat_eq, list_eq,
  if◌then◌else◌,
}
use evolvable_user_memory.Base.Result.{
  Result, ok, err, Error, domain_error, not_found_error, conflict_error, attribution_error,
  value_error, key_error, processing_denied_error, governance_unavailable_error, other_error, ◌>>=◌,
  ◌>>◌, raise_if,
}
use evolvable_user_memory.Base.Text.{Text, text}
use evolvable_user_memory.Base.Sort.{sorted, set_of, contains}
use evolvable_user_memory.Common.{Uuid, Hmac, Instant, Scope, require_text, text_leb}
use evolvable_user_memory.Memory.{require_texts}
use evolvable_user_memory.Store.State.{Store}
use evolvable_user_memory.Store.Erasure.{ErasureSummary, erase_scope}
use evolvable_user_memory.Governance.{
  is_completed, ends_early, ProcessingGrant, SuppressionFence, ErasureRequest,
}
use evolvable_user_memory.Governance.State.{
  Governance, Reason, issue_processing_grant, revoke_processing_grant, suppress, begin_erasure,
  complete_erasure, fail_erasure, erasure,
}

pub record IssueProcessingGrant : Type 0 where
  pub scope : Scope
  pub purposes : List Text
  pub lawful_basis : Text
  pub idempotency_key : Text
  pub valid_from : Instant
  pub valid_until : Option Instant

unfoldable pub make_issue_grant : IssueProcessingGrant → Result IssueProcessingGrant
make_issue_grant c = do
  lawful_basis ← require_text c.lawful_basis
  idempotency_key ← require_text c.idempotency_key
  required ← require_texts c.purposes
  let purposes = sorted text_leb (set_of required)
  raise_if (length purposes == 0 || contains purposes (text "*"))
      (domain_error "processing grant purposes must be explicit")
  raise_if (ends_early c.valid_until c.valid_from)
      (domain_error "valid_until must be later than valid_from")
  ok (record c {
    lawful_basis = lawful_basis;
    idempotency_key = idempotency_key;
    purposes = purposes;
  })

pub record RevokeProcessingGrant : Type 0 where
  pub scope : Scope
  pub grant_id : Uuid

-- `SuppressProcessing`, and `EraseSubject`, which has the same fields and the same `__post_init__`.
pub record SuppressProcessing : Type 0 where
  pub scope : Scope
  pub reason_code : Text
  pub idempotency_key : Text

unfoldable pub make_suppress : SuppressProcessing → Result SuppressProcessing
make_suppress c = do
  reason_code ← require_text c.reason_code
  idempotency_key ← require_text c.idempotency_key
  ok (record c { reason_code = reason_code; idempotency_key = idempotency_key })

abbrev pub EraseSubject : Type 0
EraseSubject = SuppressProcessing

-- `PrivacyApplication.issue_processing_grant`
unfoldable pub issue_grant :
    ⦃h : Hmac⦄
    → (policy_version : Text) → IssueProcessingGrant
    → (issued_by : Text) → (grant_id : Uuid) → (now : Instant) → Governance
    → Result (ProcessingGrant × Governance)
issue_grant policy_version c issued_by grant_id now g =
    issue_processing_grant grant_id c.scope
      (record {
        purposes = c.purposes;
        lawful_basis = c.lawful_basis;
        policy_version = policy_version;
        issued_by = issued_by;
        idempotency_key = c.idempotency_key;
        valid_from = c.valid_from;
        valid_until = c.valid_until;
        created_at = now;
      })
      g

-- `PrivacyApplication.revoke_processing_grant`
unfoldable pub revoke_grant :
    ⦃h : Hmac⦄
    → RevokeProcessingGrant
    → (revoked_by : Text) → (now : Instant) → Governance
    → Result (ProcessingGrant × Governance)
revoke_grant c revoked_by now g = revoke_processing_grant c.scope c.grant_id revoked_by now g

abbrev pub reason_of : Text → SuppressProcessing → Text → Instant → Reason
reason_of policy_version c requested_by now = record {
  reason_code = c.reason_code;
  policy_version = policy_version;
  requested_by = requested_by;
  idempotency_key = c.idempotency_key;
  created_at = now;
}

-- `PrivacyApplication.suppress`
unfoldable pub suppress_subject :
    ⦃h : Hmac⦄
    → (policy_version : Text) → SuppressProcessing
    → (requested_by : Text) → (fence_id : Uuid) → (now : Instant) → Governance
    → Result (SuppressionFence × Governance)
suppress_subject policy_version c requested_by fence_id now g =
    suppress fence_id c.scope (reason_of policy_version c requested_by now) g

-- `with_projection_documents`; a count is not negative.
abbrev pub with_projection_documents : ErasureSummary → ℕ → ErasureSummary
with_projection_documents summary count = record summary { projection_documents = count }

-- What `delete_scope` of the recall projection does, if there is one: a count, or an exception.
abbrev pub Deletion : Type 0
Deletion = Option (Result ℕ)

abbrev pub deleted_count : Deletion → Result ℕ
deleted_count none = ok 0
deleted_count (some deleted) = deleted

-- `MemoryApplication.erase_scope`
unfoldable pub erase_memory : Deletion → Scope → Store → Result (ErasureSummary × Store)
erase_memory deletion scope s = do
  deleted ← deleted_count deletion
  (summary, erased) ← erase_scope scope s
  ok (with_projection_documents summary deleted, erased)

-- `MemoryApplication.projection_status`: whether there is a projection, and what was last seen of it.
abbrev pub projection_status : Bool → Option Bool → Text
projection_status false available = text "disabled"
projection_status true none = text "enabled"
projection_status true (some true) = text "ready"
projection_status true (some false) = text "degraded"

abbrev pub has_projection : Deletion → Bool
has_projection none = false
has_projection (some deleted) = true

abbrev pub handler_results : Bool → Option Bool → List (Text × Text)
handler_results configured available =
    (text "authority", text "completed")
    ∷ (text "outbox", text "completed")
    ∷ (text "projection", projection_result)
    ∷ []
  where
    projection_result : Text
    projection_result =
        if projection_status configured available == text "disabled"
        then text "not_applicable"
        else text "completed"

-- `type(exc).__name__`
abbrev pub class_name : Error → Text
class_name (domain_error m) = text "DomainError"
class_name (not_found_error m) = text "NotFoundError"
class_name (conflict_error m) = text "ConflictError"
class_name (attribution_error m) = text "AttributionError"
class_name (value_error m) = text "ValueError"
class_name (key_error m) = text "KeyError"
class_name (processing_denied_error m) = text "ProcessingDeniedError"
class_name (governance_unavailable_error m) = text "GovernanceUnavailableError"
class_name (other_error name) = text name

-- The state that `PrivacyApplication` works on.
pub record Privacy : Type 0 where
  pub governance : Governance
  pub memory : Store

abbrev pub Erased : Type 0
Erased = Result ErasureRequest × Privacy

-- The `except` of `erase`.
abbrev pub left_pending : Result (ErasureRequest × Governance) → Privacy → Erased
left_pending (err e) p = (err e, p)
left_pending (ok (r, g)) p = (
  err (governance_unavailable_error "erasure remains pending because a required handler failed"),
  record p { governance = g },
)

abbrev pub or_pending :
    ⦃h : Hmac⦄ → Result (ErasureRequest × Governance) → Scope → Uuid → Privacy → Erased
or_pending (ok (r, g)) scope request_id p = (ok r, record p { governance = g })
or_pending (err e) scope request_id p =
    left_pending (fail_erasure scope request_id (class_name e) p.governance) p

-- The `try` of `erase`.
abbrev pub run_handlers :
    ⦃h : Hmac⦄
    → Result (ErasureSummary × Store)
    → List (Text × Text)
    → Scope
    → Uuid
    → Instant
    → Privacy
    → Erased
run_handlers (err e) results scope request_id completed_at p =
    left_pending (fail_erasure scope request_id (class_name e) p.governance) p
run_handlers (ok (summary, erased)) results scope request_id completed_at p =
    or_pending (complete_erasure scope request_id summary results completed_at p.governance) scope
      request_id (record p { memory = erased })

abbrev pub continued :
    ⦃h : Hmac⦄ → Result ErasureRequest → Deletion → Option Bool → Scope → Instant → Privacy → Erased
continued (err e) deletion available scope completed_at p = (err e, p)
continued (ok request) deletion available scope completed_at p =
    if is_completed request.status
    then (ok request, p)
    else run_handlers (erase_memory deletion scope p.memory)
        (handler_results (has_projection deletion) available) scope request.id completed_at p

-- `PrivacyApplication.erase`
unfoldable pub erase :
    ⦃h : Hmac⦄
    → (policy_version : Text) → EraseSubject
    → (requested_by : Text) → (request_id fence_id : Uuid) → (now completed_at : Instant) → Deletion
    → Option Bool
    → Privacy
    → Erased
erase policy_version c requested_by request_id fence_id now completed_at deletion available p =
    let (request, begun) =
      begin_erasure request_id fence_id c.scope (reason_of policy_version c requested_by now)
        p.governance in
    continued request deletion available c.scope completed_at (record p { governance = begun })

-- `PrivacyApplication.erasure`
unfoldable pub find_erasure : ⦃h : Hmac⦄ → Scope → Uuid → Governance → Result ErasureRequest
find_erasure scope request_id g = elim (erasure scope request_id g) [
  | none ↦ err (not_found_error "erasure request not found in scope")
  | some r ↦ ok r
]
