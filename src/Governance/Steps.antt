-- ===== src/Governance/Steps.antt =====
-- The governance adapter as a step relation, and what holds for ever once a scope is fenced.
use evolvable_user_memory.Base.{
  ◌≡◌, ◌≢◌, refl, true, none, some, Option-cases, Bool-cases, inl, inr, ap, sym, ◌∙◌, ◌==◌, nat_eq,
  list_eq, pair_eq, option_eq, List, ==_iff,
}
use evolvable_user_memory.Base.Result.{Result, ok, err, >>=-eq-ok, processing_denied_error}
use evolvable_user_memory.Base.Dict.{get, has}
use evolvable_user_memory.Base.Text.{Text}
use evolvable_user_memory.Common.{Uuid, Hmac, Instant, Scope}
use evolvable_user_memory.Store.Erasure.{ErasureSummary}
use evolvable_user_memory.Governance.{
  ProcessingGrant, SuppressionFence, ErasureRequest, make_request, is_completed,
}
use evolvable_user_memory.Governance.State.{
  Governance, GrantTerms, Reason, issue_processing_grant, revoke_processing_grant, suppress,
  new_request, filed_request, begun, erasure_reason, begin_erasure, erasure, erasure_in_scope,
  with_erasure, replaced, complete_erasure, fail_erasure, scope_refs, reference, processing_context,
  projection_context,
}
use evolvable_user_memory.Governance.Kept.{
  Kept, Kept-refl, Kept-trans, issue_processing_grant-Kept, revoke_processing_grant-Kept,
  suppress-Kept, with_request-Kept, with_erasure-Kept, suppress-erasures, suppress-fenced,
}
use evolvable_user_memory.Governance.Requests.{make_request-id}

-- One call of a method that may change the state, with fresh ids, whatever its result.
pub data Step ⦃h : Hmac⦄ : Governance → Governance → Type 0 where
  issues :
      (grant_id : Uuid) (scope : Scope) (terms : GrantTerms) {g g' : Governance}
      {grant : ProcessingGrant}
      → get grant_id g.grants ≡ none
      → issue_processing_grant grant_id scope terms g ≡ ok (grant, g')
      → Step g g'
  revokes :
      (scope : Scope) (grant_id : Uuid) (revoked_by : Text) (revoked_at : Instant)
      {g g' : Governance} {grant : ProcessingGrant}
      → revoke_processing_grant scope grant_id revoked_by revoked_at g ≡ ok (grant, g')
      → Step g g'
  suppresses :
      (fence_id : Uuid) (scope : Scope) (reason : Reason) {g g' : Governance}
      {fence : SuppressionFence}
      → suppress fence_id scope reason g ≡ ok (fence, g')
      → Step g g'
  begins :
      (request_id fence_id : Uuid) (scope : Scope) (reason : Reason) {g : Governance}
      → get request_id g.erasures ≡ none
      → Step g (begin_erasure request_id fence_id scope reason g).1
  completes :
      (scope : Scope) (request_id : Uuid) (summary : ErasureSummary) (results : List (Text × Text))
      (completed_at : Instant) {g g' : Governance} {r : ErasureRequest}
      → complete_erasure scope request_id summary results completed_at g ≡ ok (r, g')
      → Step g g'
  fails :
      (scope : Scope) (request_id : Uuid) (error_code : Text) {g g' : Governance}
      {r : ErasureRequest}
      → fail_erasure scope request_id error_code g ≡ ok (r, g')
      → Step g g'

pub data Steps ⦃h : Hmac⦄ : Governance → Governance → Type 0 where
  stop : {g : Governance} → Steps g g
  then_step : {a b c : Governance} → Step a b → Steps b c → Steps a c

module _ ⦃h : Hmac⦄ where
  pub begin_erasure-Kept :
      (request_id fence_id : Uuid) (scope : Scope) (reason : Reason) (g : Governance)
      → get request_id g.erasures ≡ none
      → Kept g (begin_erasure request_id fence_id scope reason g).1
  unfolding begin_erasure
  begin_erasure-Kept request_id fence_id scope reason g fresh =
      elim (Option-cases (get (scope_refs scope g, reason.idempotency_key) g.erasure_keys)) [
        | inl unseen ↦
            rw (unseen, begin_erasure) (go (suppress fence_id scope (erasure_reason reason) g) refl)
        | inr (i, seen) ↦ rw (seen, begin_erasure) (Kept-refl g)
      ]
    where
      file :
          (g1 : Governance)
          → get request_id g1.erasures ≡ none
          → (made : Result ErasureRequest) → new_request request_id scope reason g1 ≡ made
          → Kept g1 (filed_request made (scope_refs scope g) reason.idempotency_key g1).1
      file g1 absent (err e) k = Kept-refl g1
      file g1 absent (ok request) k =
          with_request-Kept request (scope_refs scope g) reason.idempotency_key g1
            (ap (λ i. get i g1.erasures) (make_request-id _ request k) ∙ absent)

      go :
          (made : Result (SuppressionFence × Governance))
          → suppress fence_id scope (erasure_reason reason) g ≡ made
          → Kept g (begun made request_id scope reason g).1
      go (err e) k = Kept-refl g
      go (ok (fence, g1)) k =
          Kept-trans g g1 _ (suppress-Kept fence_id scope (erasure_reason reason) g g1 fence k) (
            file g1
              (ap (get request_id)
                  (suppress-erasures fence_id scope (erasure_reason reason) g g1 fence k)
                ∙ fresh)
              (new_request request_id scope reason g1) refl)

  pub erasure_in_scope-get :
      (scope : Scope) (request_id : Uuid) (g : Governance) (r : ErasureRequest)
      → erasure_in_scope scope request_id g ≡ ok r
      → (get request_id g.erasures ≡ some r) × ((r.tenant_ref, r.subject_ref) ≡ scope_refs scope g)
  unfolding erasure_in_scope erasure
  erasure_in_scope-get scope request_id g r k = elim (Option-cases (get request_id g.erasures)) [
    | inl absent ↦ cc (rw (absent, erasure_in_scope, erasure) at k)
    | inr (x, there) ↦ elim (Bool-cases ((x.tenant_ref, x.subject_ref) == scope_refs scope g)) [
      | inl own ↦
          let k1 : ok x ≡ ok r = rw (there, own, erasure_in_scope, erasure) at k in
          let same : x ≡ r = cc in
          rw (sym same) (there, (==_iff (x.tenant_ref, x.subject_ref) (scope_refs scope g)).0 own)
      | inr foreign ↦ cc (rw (there, foreign, erasure_in_scope, erasure) at k)
    ]
  ]

  replaced-Kept :
      (current : ErasureRequest) (request_id : Uuid) (next : ErasureRequest) (g g' : Governance)
      (r : ErasureRequest)
      → get request_id g.erasures ≡ some current
      → replaced current request_id next g ≡ ok (r, g')
      → Kept g g'
  replaced-Kept current request_id next g g' r there k =
      elim (Bool-cases (is_completed current.status)) [
        | inl done ↦
            let k1 : ok (current, g) ≡ ok (r, g') = rw done at k in
            let same : g ≡ g' = cc in rw (sym same) (Kept-refl g)
        | inr running ↦
            let (x, e, k1) =
              >>=-eq-ok (make_request next) (λ x. ok (x, with_erasure request_id x g))
                (rw running at k) in
            let same : with_erasure request_id x g ≡ g' = cc k1 in
            rw (sym same) (with_erasure-Kept request_id current x g there running)
      ]

  pub complete_erasure-Kept :
      (scope : Scope) (request_id : Uuid) (summary : ErasureSummary) (results : List (Text × Text))
      (completed_at : Instant) (g g' : Governance) (r : ErasureRequest)
      → complete_erasure scope request_id summary results completed_at g ≡ ok (r, g')
      → Kept g g'
  unfolding complete_erasure
  complete_erasure-Kept scope request_id summary results completed_at g g' r k =
      let (current, e, k1) = >>=-eq-ok (erasure_in_scope scope request_id g) _ k in
      replaced-Kept current request_id _ g g' r
        (erasure_in_scope-get scope request_id g current e).0 k1

  pub fail_erasure-Kept :
      (scope : Scope) (request_id : Uuid) (error_code : Text) (g g' : Governance)
      (r : ErasureRequest)
      → fail_erasure scope request_id error_code g ≡ ok (r, g')
      → Kept g g'
  unfolding fail_erasure
  fail_erasure-Kept scope request_id error_code g g' r k =
      let (current, e, k1) = >>=-eq-ok (erasure_in_scope scope request_id g) _ k in
      replaced-Kept current request_id _ g g' r
        (erasure_in_scope-get scope request_id g current e).0 k1

  pub Step-Kept : {g g' : Governance} → Step g g' → Kept g g'
  Step-Kept (issues i scope terms fresh k) = issue_processing_grant-Kept i scope terms _ _ _ fresh k
  Step-Kept (revokes scope i by at k) = revoke_processing_grant-Kept scope i by at _ _ _ k
  Step-Kept (suppresses i scope reason k) = suppress-Kept i scope reason _ _ _ k
  Step-Kept (begins i j scope reason fresh) = begin_erasure-Kept i j scope reason _ fresh
  Step-Kept (completes scope i summary results at k) =
      complete_erasure-Kept scope i summary results at _ _ _ k
  Step-Kept (fails scope i code k) = fail_erasure-Kept scope i code _ _ _ k

  pub Steps-Kept : {g g' : Governance} → Steps g g' → Kept g g'
  Steps-Kept stop = Kept-refl _
  Steps-Kept (then_step s ss) = Kept-trans _ _ _ (Step-Kept s) (Steps-Kept ss)

  pub scope_refs-same :
      (scope : Scope) (g g' : Governance)
      → g'.hmac_key ≡ g.hmac_key
      → scope_refs scope g' ≡ scope_refs scope g
  unfolding scope_refs reference
  scope_refs-same scope g g' k = rw k refl

  pub fenced-denied :
      (scope : Scope) (g : Governance) (purpose : Text) (at : Instant)
      → has (scope_refs scope g) g.fences ≡ true
      → (processing_context scope purpose at g
          ≡ err (processing_denied_error "processing_suppressed"))
        × (projection_context scope g ≡ err (processing_denied_error "processing_suppressed"))
  unfolding processing_context projection_context
  fenced-denied scope g purpose at k = (rw k refl, rw k refl)

  -- After `suppress` succeeds for a scope, whatever methods are called next, both `processing_context` and
  -- `projection_context` deny the scope, for every purpose and time.
  pub suppress-denied :
      (fence_id : Uuid) (scope : Scope) (reason : Reason) (g g' later : Governance)
      (fence : SuppressionFence) (purpose : Text) (at : Instant)
      → suppress fence_id scope reason g ≡ ok (fence, g')
      → Steps g' later
      → (processing_context scope purpose at later
          ≡ err (processing_denied_error "processing_suppressed"))
        × (projection_context scope later ≡ err (processing_denied_error "processing_suppressed"))
  suppress-denied fence_id scope reason g g' later fence purpose at k steps =
      let kept = Steps-Kept steps in
      let first = suppress-Kept fence_id scope reason g g' fence k in
      let refs = scope_refs-same scope g later (kept.hmac_key ∙ first.hmac_key) in
      fenced-denied scope later purpose at (
        ap (λ r. has r later.fences) refs
        ∙ kept.fences (scope_refs scope g) (suppress-fenced fence_id scope reason g g' fence k))

  -- A completed erasure and a revoked grant are the same after any further calls.
  pub completed-stays :
      (g later : Governance)
      → Steps g later
      → ((i : Uuid) (r : ErasureRequest)
          → get i g.erasures ≡ some r
          → is_completed r.status ≡ true
          → get i later.erasures ≡ some r)
        × ((i : Uuid) (grant : ProcessingGrant)
            → get i g.grants ≡ some grant
            → grant.revoked_at ≢ none
            → get i later.grants ≡ some grant)
  completed-stays g later steps = let kept = Steps-Kept steps in (kept.completed, kept.revoked)
