-- ===== src/Governance/State.antt =====
-- adapters/in_memory_governance.py: `InMemoryPrivacyGovernance` as a record of its dicts. A method that
-- may write before it raises returns the new state beside its result.
use Prim.Native.String.{String}
use evolvable_user_memory.Base.{
  ℕ, Bool, true, not, ◌&&◌, ◌||◌, List, [], ◌∷◌, ◌++◌, any, length, Option, none, some, ◌==◌, ◌!=◌,
  nat_eq, list_eq, pair_eq, option_eq, leb, ltb, if◌then◌else◌,
}
use evolvable_user_memory.Base.Result.{
  Result, ok, err, value_error, conflict_error, not_found_error, processing_denied_error, ◌>>=◌,
  ◌>>◌, raise_if,
}
use evolvable_user_memory.Base.Dict.{Dict, get, insert, has, values}
use evolvable_user_memory.Base.Text.{Text, text}
use evolvable_user_memory.Base.Sort.{contains}
use evolvable_user_memory.Common.{Uuid, Instant, Scope, Hmac}
use evolvable_user_memory.Store.Erasure.{ErasureSummary}
use evolvable_user_memory.Store.Memories.{fetch}
use evolvable_user_memory.Governance.{
  ErasureStatus, is_completed, ProcessingGrant, make_grant, SuppressionFence, make_fence,
  ErasureRequest, make_request,
}

-- What stands for a scope: a tenant and a subject.
abbrev pub Refs : Type 0
Refs = Text × Text

pub record Governance : Type 0 where
  pub hmac_key : List ℕ
  pub grants : Dict Uuid ProcessingGrant
  pub grant_keys : Dict (Refs × Text) Uuid
  pub fences : Dict Refs SuppressionFence
  pub erasures : Dict Uuid ErasureRequest
  pub erasure_keys : Dict (Refs × Text) Uuid

-- `__init__`
unfoldable pub make_governance : List ℕ → Result Governance
make_governance hmac_key = do
  raise_if (ltb (length hmac_key) 16)
      (value_error "governance HMAC key must contain at least 16 bytes")
  ok (record {
    hmac_key = hmac_key;
    grants = [];
    grant_keys = [];
    fences = [];
    erasures = [];
    erasure_keys = [];
  })

unfoldable pub reference : ⦃h : Hmac⦄ → String → Text → Governance → Text
reference ⦃h⦄ kind value g = h.hexdigest g.hmac_key (text kind ++ b':' ∷ value)

abbrev pub scope_text : Scope → Text
scope_text scope = scope.tenant_id ++ 0 ∷ scope.subject_id

unfoldable pub scope_refs : ⦃h : Hmac⦄ → Scope → Governance → Refs
scope_refs scope g =
    (reference "tenant" scope.tenant_id g, reference "subject" (scope_text scope) g)

-- `valid_until is None or at < valid_until`
abbrev pub not_ended : Option Instant → Instant → Bool
not_ended none at = true
not_ended (some valid_until) at = ltb at valid_until

-- A grant that permits a purpose at a time.
abbrev pub permits : Refs → Text → Instant → ProcessingGrant → Bool
permits refs purpose at grant =
    (grant.tenant_ref, grant.subject_ref) == refs
    && contains grant.purposes purpose
    && grant.revoked_at == none
    && leb grant.valid_from at
    && not_ended grant.valid_until at

-- The tests of `processing_context`; the body of the `with` block runs when they pass.
unfoldable pub processing_context :
    ⦃h : Hmac⦄ → Scope → Text → Instant → Governance → Result (Unit {0})
processing_context scope purpose at g = do
  raise_if (has (scope_refs scope g) g.fences) (processing_denied_error "processing_suppressed")
  raise_if (not (any (permits (scope_refs scope g) purpose at) (values g.grants)))
      (processing_denied_error "processing_not_granted")

unfoldable pub projection_context : ⦃h : Hmac⦄ → Scope → Governance → Result (Unit {0})
projection_context scope g =
    raise_if (has (scope_refs scope g) g.fences) (processing_denied_error "processing_suppressed")

-- `_grant_business_values(a) != _grant_business_values(b)`
unfoldable pub grant_differs : ProcessingGrant → ProcessingGrant → Bool
grant_differs a b =
    a.tenant_ref != b.tenant_ref
    || a.subject_ref != b.subject_ref
    || a.purposes != b.purposes
    || a.lawful_basis != b.lawful_basis
    || a.policy_version != b.policy_version
    || a.valid_from != b.valid_from
    || a.valid_until != b.valid_until

-- The keyword arguments of `issue_processing_grant` other than the scope.
pub record GrantTerms : Type 0 where
  pub purposes : List Text
  pub lawful_basis : Text
  pub policy_version : Text
  pub issued_by : Text
  pub idempotency_key : Text
  pub valid_from : Instant
  pub valid_until : Option Instant
  pub created_at : Instant

-- The writes of `issue_processing_grant`.
abbrev pub with_grant : ProcessingGrant → Refs → Governance → Governance
with_grant grant refs g = record g {
  grants = insert grant.id grant g.grants;
  grant_keys = insert (refs, grant.idempotency_key) grant.id g.grant_keys;
}

abbrev pub issued :
    Option Uuid → ProcessingGrant → Refs → Governance → Result (ProcessingGrant × Governance)
issued none grant refs g = ok (grant, with_grant grant refs g)
issued (some existing_id) grant refs g = do
  existing ← fetch existing_id g.grants
  raise_if (grant_differs existing grant)
      (conflict_error "processing grant idempotency key was reused with different data")
  ok (existing, g)

unfoldable pub issue_processing_grant :
    ⦃h : Hmac⦄ → Uuid → Scope → GrantTerms → Governance → Result (ProcessingGrant × Governance)
issue_processing_grant grant_id scope terms g = do
  grant ← make_grant (record {
    id = grant_id;
    tenant_ref = (scope_refs scope g).0;
    subject_ref = (scope_refs scope g).1;
    purposes = terms.purposes;
    lawful_basis = terms.lawful_basis;
    policy_version = terms.policy_version;
    issued_by_ref = reference "principal" terms.issued_by g;
    idempotency_key = terms.idempotency_key;
    valid_from = terms.valid_from;
    valid_until = terms.valid_until;
    created_at = terms.created_at;
    revoked_at = none;
    revoked_by_ref = none;
  })
  issued (get (scope_refs scope g, grant.idempotency_key) g.grant_keys) grant (scope_refs scope g) g

abbrev pub with_revoked : Uuid → ProcessingGrant → Governance → Governance
with_revoked grant_id grant g = record g { grants = insert grant_id grant g.grants }

-- `revoke_processing_grant`, for the grant that has the id
abbrev pub revoked :
    ⦃h : Hmac⦄
    → Option ProcessingGrant
    → Scope
    → Uuid
    → Text
    → Instant
    → Governance
    → Result (ProcessingGrant × Governance)
revoked none scope grant_id revoked_by revoked_at g =
    err (not_found_error "processing grant not found in scope")
revoked (some current) scope grant_id revoked_by revoked_at g =
    if (current.tenant_ref, current.subject_ref) != scope_refs scope g
    then err (not_found_error "processing grant not found in scope")
    else if current.revoked_at != none
    then ok (current, g)
    else (do
      grant ← make_grant (record current {
        revoked_at = some revoked_at;
        revoked_by_ref = some (reference "principal" revoked_by g);
      })
      ok (grant, with_revoked grant_id grant g))

unfoldable pub revoke_processing_grant :
    ⦃h : Hmac⦄ → Scope → Uuid → Text → Instant → Governance → Result (ProcessingGrant × Governance)
revoke_processing_grant scope grant_id revoked_by revoked_at g =
    revoked (get grant_id g.grants) scope grant_id revoked_by revoked_at g

-- The reason for a fence or an erasure, and who asks for it.
pub record Reason : Type 0 where
  pub reason_code : Text
  pub policy_version : Text
  pub requested_by : Text
  pub idempotency_key : Text
  pub created_at : Instant

abbrev pub with_fence : Refs → SuppressionFence → Governance → Governance
with_fence refs fence g = record g { fences = insert refs fence g.fences }

abbrev pub fenced :
    Option SuppressionFence → SuppressionFence → Refs → Governance → SuppressionFence × Governance
fenced (some existing) fence refs g = (existing, g)
fenced none fence refs g = (fence, with_fence refs fence g)

unfoldable pub suppress :
    ⦃h : Hmac⦄ → Uuid → Scope → Reason → Governance → Result (SuppressionFence × Governance)
suppress fence_id scope reason g = do
  fence ← make_fence (record {
    id = fence_id;
    tenant_ref = (scope_refs scope g).0;
    subject_ref = (scope_refs scope g).1;
    reason_code = reason.reason_code;
    policy_version = reason.policy_version;
    requested_by_ref = reference "principal" reason.requested_by g;
    idempotency_key = reason.idempotency_key;
    created_at = reason.created_at;
  })
  ok (fenced (get (scope_refs scope g) g.fences) fence (scope_refs scope g) g)

abbrev pub with_request : ErasureRequest → Refs → Text → Governance → Governance
with_request request refs idempotency_key g = record g {
  erasures = insert request.id request g.erasures;
  erasure_keys = insert (refs, idempotency_key) request.id g.erasure_keys;
}

abbrev pub new_request : ⦃h : Hmac⦄ → Uuid → Scope → Reason → Governance → Result ErasureRequest
new_request request_id scope reason g = make_request (record {
  id = request_id;
  tenant_ref = (scope_refs scope g).0;
  subject_ref = (scope_refs scope g).1;
  scope_digest = reference "scope" (scope_text scope) g;
  reason_code = reason.reason_code;
  policy_version = reason.policy_version;
  requested_by_ref = reference "principal" reason.requested_by g;
  idempotency_key = reason.idempotency_key;
  status = ErasureStatus.pending;
  created_at = reason.created_at;
  completed_at = none;
  summary = none;
  handler_results = [];
  error_code = none;
})

-- A result, and the state that is left even when it is an error.
abbrev pub Outcome : Type 0 → Type 0
Outcome A = Result A × Governance

abbrev pub filed_request : Result ErasureRequest → Refs → Text → Governance → Outcome ErasureRequest
filed_request (err e) refs idempotency_key g = (err e, g)
filed_request (ok request) refs idempotency_key g =
    (ok request, with_request request refs idempotency_key g)

-- The end of `begin_erasure`: the fence stays when the request is refused.
abbrev pub begun :
    ⦃h : Hmac⦄
    → Result (SuppressionFence × Governance)
    → Uuid
    → Scope
    → Reason
    → Governance
    → Outcome ErasureRequest
begun (err e) request_id scope reason g = (err e, g)
begun (ok (fence, suppressed)) request_id scope reason g =
    filed_request (new_request request_id scope reason suppressed) (scope_refs scope g)
      reason.idempotency_key suppressed

abbrev pub erasure_reason : Reason → Reason
erasure_reason reason = record reason {
  idempotency_key = text "erasure:" ++ reason.idempotency_key;
}

abbrev pub existing_erasure : Uuid → Reason → Governance → Result ErasureRequest
existing_erasure existing_id reason g = do
  existing ← fetch existing_id g.erasures
  raise_if
      (existing.reason_code != reason.reason_code
        || existing.policy_version != reason.policy_version)
      (conflict_error "erasure idempotency key was reused with different data")
  ok existing

unfoldable pub begin_erasure :
    ⦃h : Hmac⦄ → Uuid → Uuid → Scope → Reason → Governance → Outcome ErasureRequest
begin_erasure request_id fence_id scope reason g =
    elim (get (scope_refs scope g, reason.idempotency_key) g.erasure_keys) [
      | some existing_id ↦ (existing_erasure existing_id reason g, g)
      | none ↦ begun (suppress fence_id scope (erasure_reason reason) g) request_id scope reason g
    ]

-- `erasure`, of the request that has the id
abbrev pub in_scope : Refs → Option ErasureRequest → Option ErasureRequest
in_scope refs none = none
in_scope refs (some r) = if (r.tenant_ref, r.subject_ref) == refs then some r else none

unfoldable pub erasure : ⦃h : Hmac⦄ → Scope → Uuid → Governance → Option ErasureRequest
erasure scope request_id g = in_scope (scope_refs scope g) (get request_id g.erasures)

-- `_erasure_in_scope`
unfoldable pub erasure_in_scope : ⦃h : Hmac⦄ → Scope → Uuid → Governance → Result ErasureRequest
erasure_in_scope scope request_id g = elim (erasure scope request_id g) [
  | none ↦ err (not_found_error "erasure request not found in scope")
  | some r ↦ ok r
]

abbrev pub with_erasure : Uuid → ErasureRequest → Governance → Governance
with_erasure request_id r g = record g { erasures = insert request_id r g.erasures }

-- A request that is completed stays as it is; any other is replaced.
abbrev pub replaced :
    ErasureRequest → Uuid → ErasureRequest → Governance → Result (ErasureRequest × Governance)
replaced current request_id next g =
    if is_completed current.status
    then ok (current, g)
    else (do r ← make_request next; ok (r, with_erasure request_id r g))

unfoldable pub complete_erasure :
    ⦃h : Hmac⦄
    → Scope
    → Uuid
    → ErasureSummary
    → List (Text × Text)
    → Instant
    → Governance
    → Result (ErasureRequest × Governance)
complete_erasure scope request_id summary handler_results completed_at g = do
  current ← erasure_in_scope scope request_id g
  replaced current request_id
      (record current {
        status = ErasureStatus.completed;
        completed_at = some completed_at;
        summary = some summary;
        handler_results = handler_results;
        error_code = none;
      })
      g

unfoldable pub fail_erasure :
    ⦃h : Hmac⦄ → Scope → Uuid → Text → Governance → Result (ErasureRequest × Governance)
fail_erasure scope request_id error_code g = do
  current ← erasure_in_scope scope request_id g
  replaced current request_id
      (record current { status = ErasureStatus.pending; error_code = some error_code }) g
