-- ===== src/Governance/Kept.antt =====
-- What no method of the governance adapter takes back: fences, completed erasures, revoked grants.
use evolvable_user_memory.Base.{
  ◌≡◌, ◌≢◌, refl, true, false, Option, none, some, Option-cases, Bool-cases, inl, inr, ap, sym, ◌∙◌,
  ◌==◌, ◌!=◌, ◌||◌, nat_eq, list_eq, pair_eq, option_eq, length, !=-false,
}
use evolvable_user_memory.Base.Result.{
  Result, ok, >>=-eq-ok, raise_if->>-eq-ok, ok-injective, ◌>>=◌,
}
use evolvable_user_memory.Base.Dict.{
  get, has, get-insert_keeps, has-insert, has-insert_same, get→has,
}
use evolvable_user_memory.Base.Text.{Text, text}
use evolvable_user_memory.Base.Sort.{sorted, set_of, contains}
use evolvable_user_memory.Memory.{require_texts}
use evolvable_user_memory.Common.{Uuid, Hmac, Instant, Scope, require_text, text_leb}
use evolvable_user_memory.Store.Memories.{fetch}
use evolvable_user_memory.Governance.{
  ProcessingGrant, make_grant, SuppressionFence, make_fence, ErasureRequest, is_completed,
  ends_early, lacks_revoker, require_optional,
}
use evolvable_user_memory.Governance.State.{
  Refs, Governance, GrantTerms, Reason, with_grant, issued, issue_processing_grant, grant_differs,
  with_revoked, revoked, revoke_processing_grant, with_fence, fenced, suppress, with_request,
  with_erasure, scope_refs,
}

pub record Kept (g g' : Governance) : Type 0 where
  pub hmac_key : g'.hmac_key ≡ g.hmac_key
  pub fences : (refs : Refs) → has refs g.fences ≡ true → has refs g'.fences ≡ true
  pub completed :
      (i : Uuid) (r : ErasureRequest)
      → get i g.erasures ≡ some r
      → is_completed r.status ≡ true
      → get i g'.erasures ≡ some r
  pub revoked :
      (i : Uuid) (grant : ProcessingGrant)
      → get i g.grants ≡ some grant
      → grant.revoked_at ≢ none
      → get i g'.grants ≡ some grant

pub Kept-refl : (g : Governance) → Kept g g
Kept-refl g = record {
  hmac_key = refl;
  fences = λ refs h. h;
  completed = λ i r h k. h;
  revoked = λ i grant h k. h;
}

pub Kept-trans : (a b c : Governance) → Kept a b → Kept b c → Kept a c
Kept-trans a b c h k = record {
  hmac_key = k.hmac_key ∙ h.hmac_key;
  fences = λ refs f. k.fences refs (h.fences refs f);
  completed = λ i r f done. k.completed i r (h.completed i r f done) done;
  revoked = λ i grant f done. k.revoked i grant (h.revoked i grant f done) done;
}

with_grant-Kept :
    (grant : ProcessingGrant) (refs : Refs) (g : Governance)
    → get grant.id g.grants ≡ none
    → Kept g (with_grant grant refs g)
with_grant-Kept grant refs g fresh = record {
  hmac_key = refl;
  fences = λ r h. h;
  completed = λ i r h k. h;
  revoked = λ i old h k. get-insert_keeps grant.id i grant old g.grants h (λ p. cc (p, fresh));
}

with_revoked-Kept :
    (grant_id : Uuid) (current grant : ProcessingGrant) (g : Governance)
    → get grant_id g.grants ≡ some current
    → current.revoked_at ≡ none
    → Kept g (with_revoked grant_id grant g)
with_revoked-Kept grant_id current grant g there live = record {
  hmac_key = refl;
  fences = λ r h. h;
  completed = λ i r h k. h;
  revoked = λ i old h k. get-insert_keeps grant_id i grant old g.grants h (λ p.
      let q : current ≡ old = cc in k (ap (λ (x : ProcessingGrant). x.revoked_at) (sym q) ∙ live));
}

with_fence-Kept :
    (refs : Refs) (fence : SuppressionFence) (g : Governance) → Kept g (with_fence refs fence g)
with_fence-Kept refs fence g = record {
  hmac_key = refl;
  fences = λ r h. has-insert refs r fence g.fences h;
  completed = λ i r h k. h;
  revoked = λ i old h k. h;
}

pub with_request-Kept :
    (request : ErasureRequest) (refs : Refs) (key : Text) (g : Governance)
    → get request.id g.erasures ≡ none
    → Kept g (with_request request refs key g)
with_request-Kept request refs key g fresh = record {
  hmac_key = refl;
  fences = λ r h. h;
  completed = λ i r h k. get-insert_keeps request.id i request r g.erasures h (λ p. cc (p, fresh));
  revoked = λ i old h k. h;
}

pub with_erasure-Kept :
    (request_id : Uuid) (current r : ErasureRequest) (g : Governance)
    → get request_id g.erasures ≡ some current
    → is_completed current.status ≡ false
    → Kept g (with_erasure request_id r g)
with_erasure-Kept request_id current r g there running = record {
  hmac_key = refl;
  fences = λ refs h. h;
  completed = λ i old h k. get-insert_keeps request_id i r old g.erasures h (λ p.
      let q : current ≡ old = cc in
      cc (ap (λ (x : ErasureRequest). is_completed x.status) q, k, running));
  revoked = λ i old h k. h;
}

pub make_grant-id : (x made : ProcessingGrant) → make_grant x ≡ ok made → made.id ≡ x.id
unfolding make_grant
make_grant-id x made h =
    let (a, _, h1) = >>=-eq-ok (require_text x.tenant_ref) _ h in
    let (b, _, h2) = >>=-eq-ok (require_text x.subject_ref) _ h1 in
    let (c, _, h3) = >>=-eq-ok (require_text x.lawful_basis) _ h2 in
    let (d, _, h4) = >>=-eq-ok (require_text x.policy_version) _ h3 in
    let (e, _, h5) = >>=-eq-ok (require_text x.issued_by_ref) _ h4 in
    let (f, _, h6) = >>=-eq-ok (require_text x.idempotency_key) _ h5 in
    let (ps, _, h7) = >>=-eq-ok (require_texts x.purposes) _ h6 in
    let (_, h8) =
      raise_if->>-eq-ok
        (length (sorted text_leb (set_of ps)) == 0
          || contains (sorted text_leb (set_of ps)) (text "*"))
        _ _ h7 in
    let (_, h9) = raise_if->>-eq-ok (ends_early x.valid_until x.valid_from) _ _ h8 in
    let (_, h10) = raise_if->>-eq-ok (lacks_revoker x.revoked_at x.revoked_by_ref) _ _ h9 in
    let (by, _, h11) = >>=-eq-ok (require_optional x.revoked_by_ref) _ h10 in
    ap (λ (y : ProcessingGrant). y.id) (sym (ok-injective h11))

pub issue_processing_grant-Kept :
    ⦃h : Hmac⦄ (grant_id : Uuid) (scope : Scope) (terms : GrantTerms) (g g' : Governance)
    (grant : ProcessingGrant)
    → get grant_id g.grants ≡ none
    → issue_processing_grant grant_id scope terms g ≡ ok (grant, g')
    → Kept g g'
unfolding issue_processing_grant
issue_processing_grant-Kept grant_id scope terms g g' grant fresh h =
    let (made, e, h1) = >>=-eq-ok (make_grant _) _ h in
    go made (make_grant-id _ made e) (get (scope_refs scope g, made.idempotency_key) g.grant_keys)
      h1
  where
    go :
        (made : ProcessingGrant)
        → made.id ≡ grant_id
        → (existing : Option Uuid) → issued existing made (scope_refs scope g) g ≡ ok (grant, g')
        → Kept g g'
    go made named none k =
        let e : with_grant made (scope_refs scope g) g ≡ g' = cc k in
        rw (sym e) (with_grant-Kept made (scope_refs scope g) g (rw named fresh))
    go made named (some existing_id) k =
        let (existing, found, k1) = >>=-eq-ok (fetch existing_id g.grants) _ k in
        let (same, k2) = raise_if->>-eq-ok (grant_differs existing made) _ (ok (existing, g)) k1 in
        let e : g ≡ g' = cc k2 in rw (sym e) (Kept-refl g)

pub revoke_processing_grant-Kept :
    ⦃h : Hmac⦄ (scope : Scope) (grant_id : Uuid) (revoked_by : Text) (revoked_at : Instant)
    (g g' : Governance) (grant : ProcessingGrant)
    → revoke_processing_grant scope grant_id revoked_by revoked_at g ≡ ok (grant, g')
    → Kept g g'
unfolding revoke_processing_grant
revoke_processing_grant-Kept scope grant_id revoked_by revoked_at g g' grant h =
    elim (Option-cases (get grant_id g.grants)) [
      | inl absent ↦ cc (rw absent at h)
      | inr (current, there) ↦ go current there (rw there at h)
    ]
  where
    replace :
        (current : ProcessingGrant)
        → get grant_id g.grants ≡ some current
        → current.revoked_at ≡ none
        → (made : Result ProcessingGrant)
        → ◌>>=◌ {B = ProcessingGrant × Governance} made (λ x. ok (x, with_revoked grant_id x g))
          ≡ ok (grant, g')
        → Kept g g'
    replace current there live made k =
        let (x, e, k1) = >>=-eq-ok made _ k in
        let same : with_revoked grant_id x g ≡ g' = cc k1 in
        rw (sym same) (with_revoked-Kept grant_id current x g there live)

    live-cases :
        (current : ProcessingGrant)
        → (current.revoked_at != none) ≡ false
        → current.revoked_at ≡ none
    live-cases current e = !=-false current.revoked_at none e

    go :
        (current : ProcessingGrant)
        → get grant_id g.grants ≡ some current
        → revoked (some current) scope grant_id revoked_by revoked_at g ≡ ok (grant, g')
        → Kept g g'
    go current there k =
        elim (Bool-cases ((current.tenant_ref, current.subject_ref) != scope_refs scope g)) [
          | inl foreign ↦ cc (rw foreign at k)
          | inr own ↦ elim (Bool-cases (current.revoked_at != none)) [
            | inl already ↦
                let k1 : ok (current, g) ≡ ok (grant, g') = rw (own, already) at k in
                let same : g ≡ g' = cc in rw (sym same) (Kept-refl g)
            | inr live ↦
                replace current there (live-cases current live) (make_grant _) (rw (own, live) at k)
          ]
        ]

pub suppress-Kept :
    ⦃h : Hmac⦄ (fence_id : Uuid) (scope : Scope) (reason : Reason) (g g' : Governance)
    (fence : SuppressionFence)
    → suppress fence_id scope reason g ≡ ok (fence, g')
    → Kept g g'
unfolding suppress
suppress-Kept fence_id scope reason g g' fence h =
    let (made, e, h1) = >>=-eq-ok (make_fence _) _ h in
    go made (get (scope_refs scope g) g.fences) h1
  where
    go :
        (made : SuppressionFence)
        → (existing : Option SuppressionFence)
        → ok (fenced existing made (scope_refs scope g) g) ≡ ok (fence, g')
        → Kept g g'
    go made none k =
        let same : with_fence (scope_refs scope g) made g ≡ g' = cc k in
        rw (sym same) (with_fence-Kept (scope_refs scope g) made g)
    go made (some existing) k = let same : g ≡ g' = cc k in rw (sym same) (Kept-refl g)

pub suppress-erasures :
    ⦃h : Hmac⦄ (fence_id : Uuid) (scope : Scope) (reason : Reason) (g g' : Governance)
    (fence : SuppressionFence)
    → suppress fence_id scope reason g ≡ ok (fence, g')
    → g'.erasures ≡ g.erasures
unfolding suppress
suppress-erasures fence_id scope reason g g' fence h =
    let (made, e, h1) = >>=-eq-ok (make_fence _) _ h in
    go made (get (scope_refs scope g) g.fences) h1
  where
    go :
        (made : SuppressionFence)
        → (existing : Option SuppressionFence)
        → ok (fenced existing made (scope_refs scope g) g) ≡ ok (fence, g')
        → g'.erasures ≡ g.erasures
    go made none k =
        let same : with_fence (scope_refs scope g) made g ≡ g' = cc k in rw (sym same) refl
    go made (some existing) k = let same : g ≡ g' = cc k in rw (sym same) refl

pub suppress-fenced :
    ⦃h : Hmac⦄ (fence_id : Uuid) (scope : Scope) (reason : Reason) (g g' : Governance)
    (fence : SuppressionFence)
    → suppress fence_id scope reason g ≡ ok (fence, g')
    → has (scope_refs scope g) g'.fences ≡ true
unfolding suppress
suppress-fenced fence_id scope reason g g' fence h =
    let (made, e, h1) = >>=-eq-ok (make_fence _) _ h in
    go made (get (scope_refs scope g) g.fences) refl h1
  where
    go :
        (made : SuppressionFence)
        → (existing : Option SuppressionFence) → get (scope_refs scope g) g.fences ≡ existing
        → ok (fenced existing made (scope_refs scope g) g) ≡ ok (fence, g')
        → has (scope_refs scope g) g'.fences ≡ true
    go made none there k =
        let same : with_fence (scope_refs scope g) made g ≡ g' = cc k in
        rw (sym same) (has-insert_same (scope_refs scope g) made g.fences)
    go made (some existing) there k =
        let same : g ≡ g' = cc k in
        rw (sym same) (get→has (scope_refs scope g) g.fences existing there)
