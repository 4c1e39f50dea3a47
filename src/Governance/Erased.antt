-- ===== src/Governance/Erased.antt =====
-- `PrivacyApplication.erase`: it fails closed, and completes when its handlers do.
use evolvable_user_memory.Base.{
  ◌≡◌, refl, true, false, Bool, Option, none, some, Bool-cases, inl, inr, ap, sym, ◌∙◌, subst,
  ==_iff, ◌==◌, ◌⊎◌, nat_eq, list_eq, pair_eq, option_eq, List, any,
}
use evolvable_user_memory.Base.Result.{
  Result, ok, err, Error, processing_denied_error, governance_unavailable_error,
}
use evolvable_user_memory.Base.Dict.{get, has, get-insert_same}
use evolvable_user_memory.Base.Text.{Text}
use evolvable_user_memory.Common.{Uuid, Hmac, Instant, Scope, require_text}
use evolvable_user_memory.Store.State.{Store}
use evolvable_user_memory.Store.Erasure.{ErasureSummary}
use evolvable_user_memory.Governance.{ErasureStatus, ErasureRequest, is_completed, is_unfinished}
use evolvable_user_memory.Governance.State.{
  Governance, begin_erasure, erasure, erasure_in_scope, with_erasure, complete_erasure,
  fail_erasure, scope_refs, processing_context, projection_context,
}
use evolvable_user_memory.Governance.Erase.{
  EraseSubject, reason_of, Deletion, erase_memory, handler_results, has_projection, class_name,
  Privacy, Erased, left_pending, or_pending, run_handlers, continued, erase,
}
use evolvable_user_memory.Governance.Kept.{Kept, Kept-refl}
use evolvable_user_memory.Governance.Requests.{make_request-IsMade, IsMade-make_request}
use evolvable_user_memory.Governance.Steps.{
  fenced-denied, scope_refs-same, begin_erasure-Kept, complete_erasure-Kept, fail_erasure-Kept,
}
use evolvable_user_memory.Governance.Valid.{
  AreReferences, refs_of, IsGoverned, Begun, begin_erasure-Begun,
}

module _ ⦃h : Hmac⦄ where
  left_pending-Kept :
      (scope : Scope) (i : Uuid) (code : Text) (p : Privacy)
      → Kept p.governance (left_pending (fail_erasure scope i code p.governance) p).1.governance
  left_pending-Kept scope i code p = go (fail_erasure scope i code p.governance) refl
    where
      go :
          (r : Result (ErasureRequest × Governance))
          → fail_erasure scope i code p.governance ≡ r
          → Kept p.governance (left_pending r p).1.governance
      go (err e) k = Kept-refl p.governance
      go (ok (r, g)) k = fail_erasure-Kept scope i code p.governance g r k

  run_handlers-Kept :
      (handled : Result (ErasureSummary × Store)) (results : List (Text × Text)) (scope : Scope)
      (i : Uuid) (at : Instant) (p : Privacy)
      → Kept p.governance (run_handlers handled results scope i at p).1.governance
  run_handlers-Kept (err e) results scope i at p = left_pending-Kept scope i (class_name e) p
  run_handlers-Kept (ok (summary, erased)) results scope i at p =
      go (complete_erasure scope i summary results at p.governance) refl
    where
      go :
          (r : Result (ErasureRequest × Governance))
          → complete_erasure scope i summary results at p.governance ≡ r
          → Kept p.governance (or_pending r scope i (record p { memory = erased })).1.governance
      go (err e) k = left_pending-Kept scope i (class_name e) (record p { memory = erased })
      go (ok (r, g)) k = complete_erasure-Kept scope i summary results at p.governance g r k

  continued-Kept :
      (r : ErasureRequest) (deletion : Deletion) (available : Option Bool) (scope : Scope)
      (at : Instant) (p : Privacy)
      → Kept p.governance (continued (ok r) deletion available scope at p).1.governance
  continued-Kept r deletion available scope at p = elim (Bool-cases (is_completed r.status)) [
    | inl done ↦ rw done (Kept-refl p.governance)
    | inr running ↦ rw running (
        run_handlers-Kept (erase_memory deletion scope p.memory)
          (handler_results (has_projection deletion) available) scope r.id at p)
  ]

module _ ⦃h : Hmac⦄ (printed : AreReferences h) (policy_version : Text) (c : EraseSubject)
    (requested_by : Text) (request_id fence_id : Uuid) (now completed_at : Instant)
    (deletion : Deletion) (available : Option Bool) (p : Privacy)
    (governed : IsGoverned p.governance) (fresh : get request_id p.governance.erasures ≡ none)
    (request : ErasureRequest)
    (accepted : (begin_erasure request_id fence_id c.scope
        (reason_of policy_version c requested_by now)
        p.governance).0
      ≡ ok request) where
  abbrev begun : Governance
  begun =
      (begin_erasure request_id fence_id c.scope (reason_of policy_version c requested_by now)
        p.governance).1

  abbrev left : Erased
  left =
      erase policy_version c requested_by request_id fence_id now completed_at deletion available p

  begun-Begun : Begun request_id c.scope p.governance (ok request, begun)
  begun-Begun =
      let (w, found) =
        begin_erasure-Begun printed request_id fence_id c.scope
          (reason_of policy_version c requested_by now) p.governance governed fresh in
      (w, λ r k. found r (accepted ∙ k))

  begun-Kept : Kept p.governance begun
  begun-Kept =
      begin_erasure-Kept request_id fence_id c.scope (reason_of policy_version c requested_by now)
        p.governance fresh

  begun-refs : scope_refs c.scope begun ≡ scope_refs c.scope p.governance
  begun-refs = scope_refs-same c.scope p.governance begun begun-Kept.hmac_key

  continued-left :
      continued
        (ok request)
        deletion
        available
        c.scope
        completed_at
        (record p { governance = begun })
      ≡ left
  unfolding erase
  continued-left =
      ap
        (λ r. continued r deletion available c.scope completed_at (record p { governance = begun }))
        (sym accepted)

  -- `erase` fails closed: once it has accepted a request for a scope, processing and projection are
  -- denied for the scope, for every purpose and time, whether its handlers succeed or fail.
  pub erase-denied :
      (purpose : Text) (at : Instant)
      → (processing_context c.scope purpose at left.1.governance
          ≡ err (processing_denied_error "processing_suppressed"))
        × (projection_context c.scope left.1.governance
            ≡ err (processing_denied_error "processing_suppressed"))
  erase-denied purpose at =
      let kept =
        subst (λ (x : Erased). Kept begun x.1.governance) continued-left
          (continued-Kept request deletion available c.scope completed_at
            (record p { governance = begun })) in
      let (w, found) = begun-Begun in
      let (there, own) = found request refl in
      let refs = scope_refs-same c.scope begun left.1.governance kept.hmac_key ∙ begun-refs in
      fenced-denied c.scope left.1.governance purpose at (
        ap (λ r. has r left.1.governance.fences) (refs ∙ sym own)
        ∙ kept.fences (refs_of request) (w.requests request.id request there).fenced)

  in_scope-request : erasure_in_scope c.scope request.id begun ≡ ok request
  unfolding erasure_in_scope erasure
  in_scope-request =
      let (w, found) = begun-Begun in
      let (there, own) = found request refl in
      let same : (refs_of request == scope_refs c.scope begun) ≡ true =
        (==_iff (refs_of request) (scope_refs c.scope begun)).1 (own ∙ sym begun-refs) in
      rw (erasure_in_scope, erasure, there, same) refl

  abbrev completed_request : ErasureSummary → ErasureRequest
  completed_request summary = record request {
    status = ErasureStatus.completed;
    completed_at = some completed_at;
    summary = some summary;
    handler_results = handler_results (has_projection deletion) available;
    error_code = none;
  }

  results-finished : any is_unfinished (handler_results (has_projection deletion) available) ≡ false
  results-finished = go (has_projection deletion) available
    where
      go : (b : Bool) → (o : Option Bool) → any is_unfinished (handler_results b o) ≡ false
      go false o = refl
      go true none = refl
      go true (some true) = refl
      go true (some false) = refl

  complete-ok :
      (summary : ErasureSummary)
      → is_completed request.status ≡ false
      → complete_erasure c.scope request.id summary
          (handler_results (has_projection deletion) available)
          completed_at
          begun
        ≡ ok (completed_request summary, with_erasure request.id (completed_request summary) begun)
  unfolding complete_erasure
  complete-ok summary running =
      let (w, found) = begun-Begun in
      let (there, own) = found request refl in
      let (m, _) = make_request-IsMade request request (w.requests request.id request there).made in
      let made = IsMade-make_request (completed_request summary) (record {
        tenant = m.tenant;
        subject = m.subject;
        digest = m.digest;
        reason = m.reason;
        policy = m.policy;
        by = m.by;
        key = m.key;
        evidence = refl;
        finished = results-finished;
        code = refl;
      }) in
      rw (in_scope-request, running, made) refl

  abbrev IsFinished : Store → Erased → Type 0
  IsFinished erased x =
      (r : ErasureRequest) × (x.0 ≡ ok r)
      × (is_completed r.status ≡ true)
      × (get r.id x.1.governance.erasures ≡ some r)
      × ((is_completed request.status ≡ true) ⊎ (x.1.memory ≡ erased))

  -- When the memory and the projection are erased, `erase` returns a completed request, which is stored
  -- under its id; a request that was complete before is returned as it is.
  pub erase-completes :
      (summary : ErasureSummary) (erased : Store)
      → erase_memory deletion c.scope p.memory ≡ ok (summary, erased)
      → IsFinished erased left
  erase-completes summary erased handled =
      let (w, found) = begun-Begun in
      elim (Bool-cases (is_completed request.status)) [
        | inl done ↦
            subst (IsFinished erased) continued-left
              (rw done (request, refl, done, (found request refl).0, inl refl))
        | inr running ↦ subst (IsFinished erased) continued-left (
            rw (running, handled, complete-ok summary running)
              (
                completed_request summary,
                refl,
                refl,
                get-insert_same request.id (completed_request summary) begun.erasures,
                inr refl,
              ))
      ]

  abbrev pending_request : Error → ErasureRequest
  pending_request e = record request {
    status = ErasureStatus.pending;
    error_code = some (class_name e);
  }

  fail-ok :
      (e : Error)
      → is_completed request.status ≡ false
      → require_text (class_name e) ≡ ok (class_name e)
      → fail_erasure c.scope request.id (class_name e) begun
        ≡ ok (pending_request e, with_erasure request.id (pending_request e) begun)
  unfolding fail_erasure
  fail-ok e running named =
      let (w, found) = begun-Begun in
      let (there, own) = found request refl in
      let (m, _) = make_request-IsMade request request (w.requests request.id request there).made in
      let made = IsMade-make_request (pending_request e) (record {
        tenant = m.tenant;
        subject = m.subject;
        digest = m.digest;
        reason = m.reason;
        policy = m.policy;
        by = m.by;
        key = m.key;
        evidence = refl;
        finished = refl;
        code = rw named refl;
      }) in
      rw (in_scope-request, running, made) refl

  -- When erasing the memory or the projection raises, `erase` raises GovernanceUnavailableError, leaves
  -- the memory as it was and the request pending under its id, with the name of the error's class.
  pub erase-pending :
      (e : Error)
      → erase_memory deletion c.scope p.memory ≡ err e
      → is_completed request.status ≡ false
      → require_text (class_name e) ≡ ok (class_name e)
      → (left.0
          ≡ err (
              governance_unavailable_error
                "erasure remains pending because a required handler failed"))
        × (get request.id left.1.governance.erasures ≡ some (pending_request e))
        × (left.1.memory ≡ p.memory)
  erase-pending e handled running named =
      subst
        (λ (x : Erased).
          (x.0
            ≡ err (
                governance_unavailable_error
                  "erasure remains pending because a required handler failed"))
          × (get request.id x.1.governance.erasures ≡ some (pending_request e))
          × (x.1.memory ≡ p.memory))
        continued-left
        (rw (running, handled, fail-ok e running named)
          (refl, get-insert_same request.id (pending_request e) begun.erasures, refl))
