-- ===== src/Governance/Requests.antt =====
-- `ErasureRequest.__post_init__`: what a request that is made has in each field.
use evolvable_user_memory.Base.{
  ◌≡◌, refl, false, ◌&&◌, Option, none, some, any, [], ◌∷◌, sym, ap, ◌∙◌, nat_eq, list_eq,
}
use evolvable_user_memory.Base.Result.{ok, >>=-eq-ok, raise_if->>-eq-ok, ok-injective}
use evolvable_user_memory.Base.Text.{Text, strip, strip-strip}
use evolvable_user_memory.Common.{require_text}
use evolvable_user_memory.Governance.{
  ErasureRequest, make_request, is_completed, lacks_evidence, is_unfinished, require_optional,
}

pub require_text-require_text : (t u : Text) → require_text t ≡ ok u → require_text u ≡ ok u
unfolding require_text
require_text-require_text t u h = go (strip t) refl
  where
    go : (s : Text) → strip t ≡ s → require_text u ≡ ok u
    go [] e = cc (rw (e, require_text) at h)
    go (c ∷ cs) e =
        let found : ok (c ∷ cs) ≡ ok u = rw (e, require_text) at h in
        let same : c ∷ cs ≡ u = cc in
        rw (sym same) (rw (ap strip (sym e) ∙ strip-strip t ∙ e, require_text) refl)

require_optional-twice : (o p : Option Text) → require_optional o ≡ ok p → require_optional p ≡ ok p
require_optional-twice none p h = let same : none ≡ p = cc h in rw (sym same) refl
require_optional-twice (some t) p h =
    let (u, e, k) = >>=-eq-ok (require_text t) (λ v. ok (some v)) h in
    let same : some u ≡ p = cc k in rw (sym same) (rw (require_text-require_text t u e) refl)

pub record IsMade (x r : ErasureRequest) : Type 0 where
  pub tenant : require_text x.tenant_ref ≡ ok r.tenant_ref
  pub subject : require_text x.subject_ref ≡ ok r.subject_ref
  pub digest : require_text x.scope_digest ≡ ok r.scope_digest
  pub reason : require_text x.reason_code ≡ ok r.reason_code
  pub policy : require_text x.policy_version ≡ ok r.policy_version
  pub by : require_text x.requested_by_ref ≡ ok r.requested_by_ref
  pub key : require_text x.idempotency_key ≡ ok r.idempotency_key
  pub evidence : (is_completed x.status && lacks_evidence x.completed_at x.summary) ≡ false
  pub finished : (is_completed x.status && any is_unfinished x.handler_results) ≡ false
  pub code : require_optional x.error_code ≡ ok r.error_code

pub made : ErasureRequest → (t s d a p b k : Text) → Option Text → ErasureRequest
made x t s d a p b k code = record x {
  tenant_ref = t;
  subject_ref = s;
  scope_digest = d;
  reason_code = a;
  policy_version = p;
  requested_by_ref = b;
  idempotency_key = k;
  error_code = code;
}

-- What `make_request` answers: the request with its texts normalised, all else as given.
pub make_request-IsMade :
    (x r : ErasureRequest)
    → make_request x ≡ ok r
    → IsMade x r
      × (made x r.tenant_ref r.subject_ref r.scope_digest r.reason_code r.policy_version
            r.requested_by_ref r.idempotency_key r.error_code
          ≡ r)
unfolding make_request made
make_request-IsMade x r h =
    let (t, ht, h1) = >>=-eq-ok (require_text x.tenant_ref) _ h in
    let (s, hs, h2) = >>=-eq-ok (require_text x.subject_ref) _ h1 in
    let (d, hd, h3) = >>=-eq-ok (require_text x.scope_digest) _ h2 in
    let (a, ha, h4) = >>=-eq-ok (require_text x.reason_code) _ h3 in
    let (p, hp, h5) = >>=-eq-ok (require_text x.policy_version) _ h4 in
    let (b, hb, h6) = >>=-eq-ok (require_text x.requested_by_ref) _ h5 in
    let (k, hk, h7) = >>=-eq-ok (require_text x.idempotency_key) _ h6 in
    let (evidence, h8) =
      raise_if->>-eq-ok (is_completed x.status && lacks_evidence x.completed_at x.summary) _ _ h7 in
    let (finished, h9) =
      raise_if->>-eq-ok (is_completed x.status && any is_unfinished x.handler_results) _ _ h8 in
    let (code, hc, h10) = >>=-eq-ok (require_optional x.error_code) _ h9 in
    let same : made x t s d a p b k code ≡ r = ok-injective h10 in
    rw (sym same) (
      record {
        tenant = ht;
        subject = hs;
        digest = hd;
        reason = ha;
        policy = hp;
        by = hb;
        key = hk;
        evidence = evidence;
        finished = finished;
        code = hc;
      },
      refl,
    )

pub make_request-id : (x r : ErasureRequest) → make_request x ≡ ok r → r.id ≡ x.id
unfolding made
make_request-id x r h = ap (λ (y : ErasureRequest). y.id) (sym (make_request-IsMade x r h).1)

pub make_request-status : (x r : ErasureRequest) → make_request x ≡ ok r → r.status ≡ x.status
unfolding made
make_request-status x r h =
    ap (λ (y : ErasureRequest). y.status) (sym (make_request-IsMade x r h).1)

pub IsMade-make_request : (r : ErasureRequest) → IsMade r r → make_request r ≡ ok r
unfolding make_request
IsMade-make_request r m =
    rw
      (
        m.tenant, m.subject, m.digest, m.reason, m.policy, m.by, m.key, m.evidence, m.finished,
        m.code,
      )
      refl

-- A made request is made again as it is.
pub make_request-twice : (x r : ErasureRequest) → make_request x ≡ ok r → make_request r ≡ ok r
unfolding made
make_request-twice x r h =
    let (m, same) = make_request-IsMade x r h in
    IsMade-make_request r (record {
      tenant = require_text-require_text _ _ m.tenant;
      subject = require_text-require_text _ _ m.subject;
      digest = require_text-require_text _ _ m.digest;
      reason = require_text-require_text _ _ m.reason;
      policy = require_text-require_text _ _ m.policy;
      by = require_text-require_text _ _ m.by;
      key = require_text-require_text _ _ m.key;
      evidence =
          ap
            (λ (y : ErasureRequest).
              is_completed y.status && lacks_evidence y.completed_at y.summary)
            (sym same)
          ∙ m.evidence;
      finished =
          ap (λ (y : ErasureRequest). is_completed y.status && any is_unfinished y.handler_results)
            (sym same)
          ∙ m.finished;
      code = require_optional-twice x.error_code r.error_code m.code;
    })
