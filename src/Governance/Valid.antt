-- ===== src/Governance/Valid.antt =====
-- The invariant of the governance state: requests are filed, made and fenced, and every key finds its
-- request or grant.
use evolvable_user_memory.Base.{
  ◌≡◌, refl, true, Option, none, some, Option-cases, Bool-cases, inl, inr, ap, sym, ◌∙◌, ==_iff,
  ◌==◌, ◌!=◌, ◌||◌, nat_eq, list_eq, pair_eq, option_eq, List, ltb, length, ℕ,
}
use evolvable_user_memory.Base.Result.{
  Result, ok, err, >>=-eq-ok, raise_if->>-eq-ok, ◌>>=◌, ok-injective,
}
use evolvable_user_memory.Base.Dict.{
  get, has, get-insert-cases, get-insert_same, get-insert_at, get-insert_off, get-insert_keeps,
  has-insert, has-insert_same,
}
use evolvable_user_memory.Base.Text.{Text}
use evolvable_user_memory.Common.{Uuid, Hmac, Instant, Scope, require_text}
use evolvable_user_memory.Store.Memories.{fetch}
use evolvable_user_memory.Store.Fetch.{fetch-eq-ok}
use evolvable_user_memory.Store.Erasure.{ErasureSummary}
use evolvable_user_memory.Governance.{
  ProcessingGrant, make_grant, SuppressionFence, make_fence, ErasureRequest, make_request,
  is_completed,
}
use evolvable_user_memory.Governance.State.{
  Refs, Governance, make_governance, GrantTerms, Reason, with_grant, issued, issue_processing_grant,
  grant_differs, with_revoked, revoked, revoke_processing_grant, with_fence, fenced, suppress,
  with_request, new_request, filed_request, begun, existing_erasure, erasure_reason, begin_erasure,
  erasure_in_scope, with_erasure, replaced, complete_erasure, fail_erasure, scope_refs, reference,
}
use evolvable_user_memory.Governance.Kept.{suppress-erasures, suppress-fenced, suppress-Kept}
use evolvable_user_memory.Governance.Requests.{
  make_request-IsMade, make_request-id, make_request-twice,
}
use evolvable_user_memory.Governance.Steps.{
  Step, Steps, issues, revokes, suppresses, begins, completes, fails, stop, then_step,
  erasure_in_scope-get, scope_refs-same,
}

-- A digest is printed in hex digits: it is not blank and has no space around it.
abbrev pub AreReferences : Hmac → Type 0
AreReferences h =
    (key : List ℕ) (t : Text) → require_text (h.hexdigest key t) ≡ ok (h.hexdigest key t)

abbrev pub refs_of : ErasureRequest → Refs
refs_of r = (r.tenant_ref, r.subject_ref)

pub record IsFiled (g : Governance) (i : Uuid) (r : ErasureRequest) : Type 0 where
  pub id : r.id ≡ i
  pub fenced : has (refs_of r) g.fences ≡ true
  pub made : make_request r ≡ ok r

abbrev pub Keyed : Governance → Refs × Text → Uuid → Type 0
Keyed g key i = (r : ErasureRequest) × (get i g.erasures ≡ some r) × (refs_of r ≡ key.0)

pub record IsGoverned (g : Governance) : Type 0 where
  pub requests : (i : Uuid) (r : ErasureRequest) → get i g.erasures ≡ some r → IsFiled g i r
  pub keyed : (key : Refs × Text) (i : Uuid) → get key g.erasure_keys ≡ some i → Keyed g key i
  pub granted :
      (key : Refs × Text) (i : Uuid) → get key g.grant_keys ≡ some i → has i g.grants ≡ true

pub make_governance-IsGoverned :
    (key : List ℕ) (g : Governance) → make_governance key ≡ ok g → IsGoverned g
unfolding make_governance get
make_governance-IsGoverned key g h =
    let (long, h1) = raise_if->>-eq-ok (ltb (length key) 16) _ _ h in
    rw (sym (ok-injective h1))
      (record { requests = λ i r k. cc; keyed = λ i r k. cc; granted = λ i r k. cc })

with_grant-IsGoverned :
    (grant : ProcessingGrant) (refs : Refs) (g : Governance)
    → IsGoverned g
    → IsGoverned (with_grant grant refs g)
with_grant-IsGoverned grant refs g w = record {
  requests =
      λ i r k. let f = w.requests i r k in record { id = f.id; fenced = f.fenced; made = f.made };
  keyed = w.keyed;
  granted = λ key i k.
      elim (get-insert-cases (refs, grant.idempotency_key) key grant.id i g.grant_keys k) [
        | inl (same, named) ↦ rw (sym named) (has-insert_same grant.id grant g.grants)
        | inr old ↦ has-insert grant.id i grant g.grants (w.granted key i old)
      ];
}

with_revoked-IsGoverned :
    (grant_id : Uuid) (grant : ProcessingGrant) (g : Governance)
    → IsGoverned g
    → IsGoverned (with_revoked grant_id grant g)
with_revoked-IsGoverned grant_id grant g w = record {
  requests =
      λ i r k. let f = w.requests i r k in record { id = f.id; fenced = f.fenced; made = f.made };
  keyed = w.keyed;
  granted = λ key i k. has-insert grant_id i grant g.grants (w.granted key i k);
}

with_fence-IsGoverned :
    (refs : Refs) (fence : SuppressionFence) (g : Governance)
    → IsGoverned g
    → IsGoverned (with_fence refs fence g)
with_fence-IsGoverned refs fence g w = record {
  requests = λ i r k.
      let f = w.requests i r k in
      record {
        id = f.id;
        fenced = has-insert refs (refs_of r) fence g.fences f.fenced;
        made = f.made;
      };
  keyed = w.keyed;
  granted = w.granted;
}

with_request-IsGoverned :
    (request : ErasureRequest) (refs : Refs) (idempotency_key : Text) (g : Governance)
    → IsGoverned g
    → get request.id g.erasures ≡ none
    → refs_of request ≡ refs
    → has refs g.fences ≡ true
    → make_request request ≡ ok request
    → IsGoverned (with_request request refs idempotency_key g)
with_request-IsGoverned request refs idempotency_key g w fresh own fenced made = record {
  requests = λ i r k. elim (get-insert-cases request.id i request r g.erasures k) [
    | inl (named, same) ↦
        rw (sym same)
          (record { id = named; fenced = ap (λ x. has x g.fences) own ∙ fenced; made = made })
    | inr old ↦ let f = w.requests i r old in record { id = f.id; fenced = f.fenced; made = f.made }
  ];
  keyed = λ key i k.
      elim (get-insert-cases (refs, idempotency_key) key request.id i g.erasure_keys k) [
        | inl (same, named) ↦ rw (sym named) (
          request,
          get-insert_same request.id request g.erasures,
          own ∙ ap (λ (x : Refs × Text). x.0) same,
        )
        | inr old ↦
            let (r, there, k1) = w.keyed key i old in
            (r, get-insert_keeps request.id i request r g.erasures there (λ p. cc (p, fresh)), k1)
      ];
  granted = w.granted;
}

with_erasure-IsGoverned :
    (i : Uuid) (current r : ErasureRequest) (g : Governance)
    → IsGoverned g
    → get i g.erasures ≡ some current
    → r.id ≡ current.id
    → refs_of r ≡ refs_of current
    → make_request r ≡ ok r
    → IsGoverned (with_erasure i r g)
with_erasure-IsGoverned i current r g w there named own made =
    let f = w.requests i current there in
    record {
      requests = λ j x k. elim (get-insert-cases i j r x g.erasures k) [
        | inl (at, same) ↦ rw (sym same) (record {
          id = named ∙ f.id ∙ at;
          fenced = ap (λ y. has y g.fences) own ∙ f.fenced;
          made = made;
        })
        | inr old ↦
            let f = w.requests j x old in record { id = f.id; fenced = f.fenced; made = f.made }
      ];
      keyed = λ key j k.
          let (x, at, k1) = w.keyed key j k in
          elim (Bool-cases (i == j)) [
            | inl same ↦
                let p : i ≡ j = (==_iff i j).0 same in
                let q : some current ≡ some x = sym there ∙ ap (λ y. get y g.erasures) p ∙ at in
                let e : current ≡ x = cc in
                (r, get-insert_at i j r g.erasures same, own ∙ ap refs_of e ∙ k1)
            | inr other ↦ (x, get-insert_off i j r g.erasures other ∙ at, k1)
          ];
      granted = w.granted;
    }

-- A replaced request keeps the references of the scope.
made-refs :
    (current next r : ErasureRequest)
    → make_request current ≡ ok current
    → refs_of next ≡ refs_of current
    → make_request next ≡ ok r
    → refs_of r ≡ refs_of current
made-refs current next r made own e =
    let (m, _) = make_request-IsMade current current made in
    let (n, _) = make_request-IsMade next r e in
    let p : r.tenant_ref ≡ current.tenant_ref =
      ok-injective (sym n.tenant ∙ ap (λ (x : Refs). require_text x.0) own ∙ m.tenant) in
    let q : r.subject_ref ≡ current.subject_ref =
      ok-injective (sym n.subject ∙ ap (λ (x : Refs). require_text x.1) own ∙ m.subject) in
    rw (p, q) refl

-- What a call of `begin_erasure` leaves: the invariant, and for an accepted request its fence.
abbrev pub Begun :
    ⦃h : Hmac⦄ → Uuid → Scope → Governance → Result ErasureRequest × Governance → Type 0
Begun request_id scope g (result, g') =
    IsGoverned g'
    × ((r : ErasureRequest)
        → result ≡ ok r
        → (get r.id g'.erasures ≡ some r) × (refs_of r ≡ scope_refs scope g))

module _ ⦃h : Hmac⦄ (printed : AreReferences h) where
  issue_processing_grant-IsGoverned :
      (grant_id : Uuid) (scope : Scope) (terms : GrantTerms) (g g' : Governance)
      (grant : ProcessingGrant)
      → IsGoverned g
      → issue_processing_grant grant_id scope terms g ≡ ok (grant, g')
      → IsGoverned g'
  unfolding issue_processing_grant
  issue_processing_grant-IsGoverned grant_id scope terms g g' grant w k =
      let (made, e, k1) = >>=-eq-ok (make_grant _) _ k in
      go made (get (scope_refs scope g, made.idempotency_key) g.grant_keys) k1
    where
      go :
          (made : ProcessingGrant)
          → (existing : Option Uuid) → issued existing made (scope_refs scope g) g ≡ ok (grant, g')
          → IsGoverned g'
      go made none k1 =
          let e : with_grant made (scope_refs scope g) g ≡ g' = cc k1 in
          rw (sym e) (with_grant-IsGoverned made (scope_refs scope g) g w)
      go made (some existing_id) k1 =
          let (existing, found, k2) = >>=-eq-ok (fetch existing_id g.grants) _ k1 in
          let (same, k3) =
            raise_if->>-eq-ok (grant_differs existing made) _ (ok (existing, g)) k2 in
          let e : g ≡ g' = cc k3 in rw (sym e) w

  revoke_processing_grant-IsGoverned :
      (scope : Scope) (grant_id : Uuid) (revoked_by : Text) (revoked_at : Instant)
      (g g' : Governance) (grant : ProcessingGrant)
      → IsGoverned g
      → revoke_processing_grant scope grant_id revoked_by revoked_at g ≡ ok (grant, g')
      → IsGoverned g'
  unfolding revoke_processing_grant
  revoke_processing_grant-IsGoverned scope grant_id revoked_by revoked_at g g' grant w k =
      go (get grant_id g.grants) k
    where
      replace :
          (made : Result ProcessingGrant)
          → ◌>>=◌ {B = ProcessingGrant × Governance} made (λ x. ok (x, with_revoked grant_id x g))
            ≡ ok (grant, g')
          → IsGoverned g'
      replace made k1 =
          let (x, e, k2) = >>=-eq-ok made _ k1 in
          let same : with_revoked grant_id x g ≡ g' = cc k2 in
          rw (sym same) (with_revoked-IsGoverned grant_id x g w)

      go :
          (current : Option ProcessingGrant)
          → revoked current scope grant_id revoked_by revoked_at g ≡ ok (grant, g')
          → IsGoverned g'
      go none k1 = cc
      go (some current) k1 =
          elim (Bool-cases ((current.tenant_ref, current.subject_ref) != scope_refs scope g)) [
            | inl foreign ↦ cc (rw foreign at k1)
            | inr own ↦ elim (Bool-cases (current.revoked_at != none)) [
              | inl already ↦
                  let k2 : ok (current, g) ≡ ok (grant, g') = rw (own, already) at k1 in
                  let same : g ≡ g' = cc in rw (sym same) w
              | inr live ↦ replace (make_grant _) (rw (own, live) at k1)
            ]
          ]

  suppress-IsGoverned :
      (fence_id : Uuid) (scope : Scope) (reason : Reason) (g g' : Governance)
      (fence : SuppressionFence)
      → IsGoverned g
      → suppress fence_id scope reason g ≡ ok (fence, g')
      → IsGoverned g'
  unfolding suppress
  suppress-IsGoverned fence_id scope reason g g' fence w k =
      let (made, e, k1) = >>=-eq-ok (make_fence _) _ k in
      go made (get (scope_refs scope g) g.fences) k1
    where
      go :
          (made : SuppressionFence)
          → (existing : Option SuppressionFence)
          → ok (fenced existing made (scope_refs scope g) g) ≡ ok (fence, g')
          → IsGoverned g'
      go made none k1 =
          let same : with_fence (scope_refs scope g) made g ≡ g' = cc k1 in
          rw (sym same) (with_fence-IsGoverned (scope_refs scope g) made g w)
      go made (some existing) k1 = let same : g ≡ g' = cc k1 in rw (sym same) w

  printed-refs :
      (scope : Scope) (g : Governance)
      → (require_text (scope_refs scope g).0 ≡ ok (scope_refs scope g).0)
        × (require_text (scope_refs scope g).1 ≡ ok (scope_refs scope g).1)
  unfolding scope_refs reference
  printed-refs scope g = (printed _ _, printed _ _)

  new_request-refs :
      (request_id : Uuid) (scope : Scope) (reason : Reason) (g : Governance) (r : ErasureRequest)
      → new_request request_id scope reason g ≡ ok r
      → refs_of r ≡ scope_refs scope g
  new_request-refs request_id scope reason g r k =
      let (m, same) = make_request-IsMade _ r k in
      let (p, q) = printed-refs scope g in
      let e : r.tenant_ref ≡ (scope_refs scope g).0 = ok-injective (sym m.tenant ∙ p) in
      let f : r.subject_ref ≡ (scope_refs scope g).1 = ok-injective (sym m.subject ∙ q) in
      rw (e, f) refl

  pub begin_erasure-Begun :
      (request_id fence_id : Uuid) (scope : Scope) (reason : Reason) (g : Governance)
      → IsGoverned g
      → get request_id g.erasures ≡ none
      → Begun request_id scope g (begin_erasure request_id fence_id scope reason g)
  unfolding begin_erasure
  begin_erasure-Begun request_id fence_id scope reason g w fresh =
      elim (Option-cases (get (scope_refs scope g, reason.idempotency_key) g.erasure_keys)) [
        | inl unseen ↦
            rw (unseen, begin_erasure) (go (suppress fence_id scope (erasure_reason reason) g) refl)
        | inr (i, seen) ↦ rw (seen, begin_erasure) (w, found i (w.keyed _ i seen))
      ]
    where
      found :
          (i : Uuid)
          → Keyed g (scope_refs scope g, reason.idempotency_key) i
          → (r : ErasureRequest) → existing_erasure i reason g ≡ ok r
          → (get r.id g.erasures ≡ some r) × (refs_of r ≡ scope_refs scope g)
      found i (x, there, own) r k =
          let (y, e, k1) = >>=-eq-ok (fetch i g.erasures) _ k in
          let (same, k2) =
            raise_if->>-eq-ok
              (y.reason_code != reason.reason_code || y.policy_version != reason.policy_version) _
              (ok y) k1 in
          let p : y ≡ r = ok-injective k2 in
          let q : some x ≡ some y = sym there ∙ fetch-eq-ok i g.erasures y e in
          let t : x ≡ r = (let u : x ≡ y = cc in u ∙ p) in
          rw (sym t) (ap (λ j. get j g.erasures) (w.requests i x there).id ∙ there, own)

      file :
          (g1 : Governance)
          → IsGoverned g1
          → get request_id g1.erasures ≡ none
          → has (scope_refs scope g) g1.fences ≡ true
          → scope_refs scope g1 ≡ scope_refs scope g
          → (made : Result ErasureRequest) → new_request request_id scope reason g1 ≡ made
          → Begun request_id scope g
              (filed_request made (scope_refs scope g) reason.idempotency_key g1)
      file g1 w1 absent there same (err e) k = (w1, λ r k1. cc)
      file g1 w1 absent there same (ok request) k =
          let own = new_request-refs request_id scope reason g1 request k ∙ same in
          (
            with_request-IsGoverned request (scope_refs scope g) reason.idempotency_key g1 w1
                (ap (λ i. get i g1.erasures) (make_request-id _ request k) ∙ absent) own there
                (make_request-twice _ request k),
            λ r k1.
                let e : request ≡ r = ok-injective k1 in
                rw (sym e) (get-insert_same request.id request g1.erasures, own),
          )

      go :
          (made : Result (SuppressionFence × Governance))
          → suppress fence_id scope (erasure_reason reason) g ≡ made
          → Begun request_id scope g (begun made request_id scope reason g)
      go (err e) k = (w, λ r k1. cc)
      go (ok (fence, g1)) k =
          file g1 (suppress-IsGoverned fence_id scope (erasure_reason reason) g g1 fence w k)
            (ap (get request_id)
                (suppress-erasures fence_id scope (erasure_reason reason) g g1 fence k)
              ∙ fresh)
            (suppress-fenced fence_id scope (erasure_reason reason) g g1 fence k)
            (scope_refs-same scope g g1
              (suppress-Kept fence_id scope (erasure_reason reason) g g1 fence k).hmac_key)
            (new_request request_id scope reason g1) refl

  replaced-IsGoverned :
      (current : ErasureRequest) (request_id : Uuid) (next : ErasureRequest) (g g' : Governance)
      (r : ErasureRequest)
      → IsGoverned g
      → get request_id g.erasures ≡ some current
      → next.id ≡ current.id
      → refs_of next ≡ refs_of current
      → replaced current request_id next g ≡ ok (r, g')
      → IsGoverned g'
  replaced-IsGoverned current request_id next g g' r w there named own k =
      elim (Bool-cases (is_completed current.status)) [
        | inl done ↦
            let k1 : ok (current, g) ≡ ok (r, g') = rw done at k in
            let same : g ≡ g' = cc in rw (sym same) w
        | inr running ↦
            let (x, e, k1) =
              >>=-eq-ok (make_request next) (λ x. ok (x, with_erasure request_id x g))
                (rw running at k) in
            let same : with_erasure request_id x g ≡ g' = cc k1 in
            rw (sym same) (
              with_erasure-IsGoverned request_id current x g w there
                (make_request-id next x e ∙ named)
                (made-refs current next x (w.requests request_id current there).made own e)
                (make_request-twice next x e))
      ]

  pub complete_erasure-IsGoverned :
      (scope : Scope) (request_id : Uuid) (summary : ErasureSummary) (results : List (Text × Text))
      (completed_at : Instant) (g g' : Governance) (r : ErasureRequest)
      → IsGoverned g
      → complete_erasure scope request_id summary results completed_at g ≡ ok (r, g')
      → IsGoverned g'
  unfolding complete_erasure
  complete_erasure-IsGoverned scope request_id summary results completed_at g g' r w k =
      let (current, e, k1) = >>=-eq-ok (erasure_in_scope scope request_id g) _ k in
      replaced-IsGoverned current request_id _ g g' r w
        (erasure_in_scope-get scope request_id g current e).0 refl refl k1

  pub fail_erasure-IsGoverned :
      (scope : Scope) (request_id : Uuid) (error_code : Text) (g g' : Governance)
      (r : ErasureRequest)
      → IsGoverned g
      → fail_erasure scope request_id error_code g ≡ ok (r, g')
      → IsGoverned g'
  unfolding fail_erasure
  fail_erasure-IsGoverned scope request_id error_code g g' r w k =
      let (current, e, k1) = >>=-eq-ok (erasure_in_scope scope request_id g) _ k in
      replaced-IsGoverned current request_id _ g g' r w
        (erasure_in_scope-get scope request_id g current e).0 refl refl k1

  Step-IsGoverned : {g g' : Governance} → Step g g' → IsGoverned g → IsGoverned g'
  Step-IsGoverned (issues i scope terms fresh k) w =
      issue_processing_grant-IsGoverned i scope terms _ _ _ w k
  Step-IsGoverned (revokes scope i by at k) w =
      revoke_processing_grant-IsGoverned scope i by at _ _ _ w k
  Step-IsGoverned (suppresses i scope reason k) w = suppress-IsGoverned i scope reason _ _ _ w k
  Step-IsGoverned (begins i j scope reason fresh) w =
      (begin_erasure-Begun i j scope reason _ w fresh).0
  Step-IsGoverned (completes scope i summary results at k) w =
      complete_erasure-IsGoverned scope i summary results at _ _ _ w k
  Step-IsGoverned (fails scope i code k) w = fail_erasure-IsGoverned scope i code _ _ _ w k

  pub Steps-IsGoverned : {g g' : Governance} → Steps g g' → IsGoverned g → IsGoverned g'
  Steps-IsGoverned stop w = w
  Steps-IsGoverned (then_step s ss) w = Steps-IsGoverned ss (Step-IsGoverned s w)

  -- In every state that calls of the adapter reach from a new one, each request is filed under its id,
  -- normalised, with its scope fenced and, when completed, its evidence; each key finds its request.
  pub reached-IsGoverned :
      (key : List ℕ) (start g : Governance)
      → make_governance key ≡ ok start
      → Steps start g
      → IsGoverned g
  reached-IsGoverned key start g made steps =
      Steps-IsGoverned steps (make_governance-IsGoverned key start made)
