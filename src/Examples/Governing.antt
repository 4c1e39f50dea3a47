-- ===== src/Examples/Governing.antt =====
-- A subject whose processing is granted, suppressed and erased.
use evolvable_user_memory.Base.{
  ◌≡◌, ◌≢◌, ◌⊎◌, refl, true, false, Bool, none, some, [], ◌∷◌, length, leb, nat_eq, list_eq,
  pair_eq,
}
use evolvable_user_memory.Base.Result.{
  ok, err, processing_denied_error, governance_unavailable_error, other_error,
}
use evolvable_user_memory.Base.Dict.{get, insert, remove, keep_keys}
use evolvable_user_memory.Base.Sort.{sorted, set_of}
use evolvable_user_memory.Base.Text.{Text, text, strip}
use evolvable_user_memory.Common.{Uuid, Hmac, require_text}
use evolvable_user_memory.Memory.{require_texts}
use evolvable_user_memory.Store.State.{empty}
use evolvable_user_memory.Store.Erasure.{ErasureSummary, erase_scope, remove_all, total_for}
use evolvable_user_memory.Governance.{
  ErasureStatus, ProcessingGrant, make_grant, SuppressionFence, make_fence, ErasureRequest,
  make_request, is_completed,
}
use evolvable_user_memory.Governance.State.{
  Refs, Governance, make_governance, reference, scope_refs, processing_context, projection_context,
  GrantTerms, issue_processing_grant, revoke_processing_grant, Reason, suppress, with_grant,
  with_fence, begin_erasure, erasure, erasure_in_scope, complete_erasure, fail_erasure,
  with_revoked,
}
use evolvable_user_memory.Governance.Erase.{EraseSubject, reason_of, erase_memory, Privacy, erase}
use evolvable_user_memory.Governance.Steps.{
  issues, begins, stop, then_step, suppress-denied, completed-stays,
}
use evolvable_user_memory.Governance.Valid.{
  AreReferences, IsGoverned, make_governance-IsGoverned, reached-IsGoverned,
}
use evolvable_user_memory.Governance.Erased.{erase-denied, erase-completes, erase-pending}
use evolvable_user_memory.Gate.{zeros}
use evolvable_user_memory.Examples.Storing.{ann, stored}

-- A digest of 64 digits that tells short texts from long ones.
abbrev pub digits_for : Bool → Text
digits_for true = b'a' ∷ zeros 63
digits_for false = b'f' ∷ zeros 63

instance abbrev pub by_length : Hmac
by_length = record { hexdigest = λ key t. digits_for (leb (length t) 12) }

program : Unit {0}
unfolding zeros strip require_text require_texts make_grant make_fence make_request make_governance
    reference scope_refs processing_context projection_context issue_processing_grant
    revoke_processing_grant suppress begin_erasure erasure erasure_in_scope complete_erasure
    fail_erasure erase erase_memory erase_scope remove_all total_for get insert remove keep_keys
    sorted set_of
program = tt

pub by_length-AreReferences : AreReferences by_length
unfolding program
by_length-AreReferences key t = go (leb (length t) 12)
  where
    go : (b : Bool) → require_text (digits_for b) ≡ ok (digits_for b)
    go true = refl
    go false = refl

abbrev start : Governance
start = record {
  hmac_key = zeros 16;
  grants = [];
  grant_keys = [];
  fences = [];
  erasures = [];
  erasure_keys = [];
}

abbrev terms : GrantTerms
terms = record {
  purposes = text "recall" ∷ [];
  lawful_basis = text "consent";
  policy_version = text "v1";
  issued_by = text "admin";
  idempotency_key = text "grant-1";
  valid_from = 1;
  valid_until = none;
  created_at = 1;
}

abbrev reason : Reason
reason = record {
  reason_code = text "request";
  policy_version = text "v1";
  requested_by = text "ann";
  idempotency_key = text "stop-1";
  created_at = 3;
}

abbrev ann_refs : Refs
ann_refs = (digits_for true, digits_for false)

abbrev grant : ProcessingGrant
grant = record {
  id = 1;
  tenant_ref = digits_for true;
  subject_ref = digits_for false;
  purposes = text "recall" ∷ [];
  lawful_basis = text "consent";
  policy_version = text "v1";
  issued_by_ref = digits_for false;
  idempotency_key = text "grant-1";
  valid_from = 1;
  valid_until = none;
  created_at = 1;
  revoked_at = none;
  revoked_by_ref = none;
}

abbrev fence : SuppressionFence
fence = record {
  id = 2;
  tenant_ref = digits_for true;
  subject_ref = digits_for false;
  reason_code = text "request";
  policy_version = text "v1";
  requested_by_ref = digits_for false;
  idempotency_key = text "stop-1";
  created_at = 3;
}

abbrev granted : Governance
granted = with_grant grant ann_refs start

granted_ok : issue_processing_grant 1 ann terms start ≡ ok (grant, granted)
unfolding program
granted_ok = refl

allowed : processing_context ann (text "recall") 5 granted ≡ ok tt
unfolding program
allowed = refl

abbrev pub fenced_start : Governance
fenced_start = with_fence ann_refs fence start

fenced_ok : suppress 2 ann reason start ≡ ok (fence, fenced_start)
unfolding program
fenced_ok = refl

abbrev later : Governance
later = with_grant grant ann_refs fenced_start

later_ok : issue_processing_grant 1 ann terms fenced_start ≡ ok (grant, later)
unfolding program
later_ok = refl

suppress-denied_example :
    (processing_context ann (text "recall") 5 later
      ≡ err (processing_denied_error "processing_suppressed"))
    × (projection_context ann later ≡ err (processing_denied_error "processing_suppressed"))
unfolding program
suppress-denied_example =
    suppress-denied 2 ann reason start fenced_start later fence (text "recall") 5 fenced_ok
      (then_step (issues 1 ann terms refl later_ok) stop)

abbrev begun : Governance
begun = (begin_erasure 7 8 ann reason start).1

reached-IsGoverned_example : IsGoverned begun
unfolding program
reached-IsGoverned_example =
    reached-IsGoverned by_length-AreReferences (zeros 16) start begun refl
      (then_step (begins 7 8 ann reason refl) stop)

abbrev revoked_grant : ProcessingGrant
revoked_grant = record grant { revoked_at = some 4; revoked_by_ref = some (digits_for false) }

abbrev withdrawn : Governance
withdrawn = with_revoked 1 revoked_grant granted

completed-stays_example :
    ((i : Uuid) (r : ErasureRequest)
      → get i withdrawn.erasures ≡ some r
      → is_completed r.status ≡ true
      → get i (begin_erasure 7 8 ann reason withdrawn).1.erasures ≡ some r)
    × ((i : Uuid) (g : ProcessingGrant)
        → get i withdrawn.grants ≡ some g
        → g.revoked_at ≢ none
        → get i (begin_erasure 7 8 ann reason withdrawn).1.grants ≡ some g)
unfolding program
completed-stays_example =
    completed-stays withdrawn (begin_erasure 7 8 ann reason withdrawn).1
      (then_step (begins 7 8 ann reason refl) stop)

abbrev command : EraseSubject
command = record { scope = ann; reason_code = text "request"; idempotency_key = text "erase-1" }

abbrev privacy : Privacy
privacy = record { governance = start; memory = stored }

abbrev request : ErasureRequest
request = record {
  id = 7;
  tenant_ref = digits_for true;
  subject_ref = digits_for false;
  scope_digest = digits_for false;
  reason_code = text "request";
  policy_version = text "v1";
  requested_by_ref = digits_for false;
  idempotency_key = text "erase-1";
  status = ErasureStatus.pending;
  created_at = 3;
  completed_at = none;
  summary = none;
  handler_results = [];
  error_code = none;
}

start-IsGoverned : IsGoverned start
unfolding program
start-IsGoverned = make_governance-IsGoverned (zeros 16) start refl

accepted :
    (begin_erasure 7 8 ann (reason_of (text "v1") command (text "ann") 3) start).0 ≡ ok request
unfolding program
accepted = refl

erase-denied_example :
    (processing_context ann
        (text "recall")
        9
        (erase (text "v1") command (text "ann") 7 8 3 4 none none privacy).1.governance
      ≡ err (processing_denied_error "processing_suppressed"))
    × (projection_context ann
          (erase (text "v1") command (text "ann") 7 8 3 4 none none privacy).1.governance
        ≡ err (processing_denied_error "processing_suppressed"))
unfolding program
erase-denied_example =
    erase-denied by_length-AreReferences (text "v1") command (text "ann") 7 8 3 4 none none privacy
      start-IsGoverned refl request accepted (text "recall") 9

erase-pending_example :
    ((erase
        (text "v1")
        command
        (text "ann")
        7
        8
        3
        4
        (some (err (other_error "Timeout")))
        none
        privacy).0
      ≡ err (
          governance_unavailable_error "erasure remains pending because a required handler failed"))
    × (get 7
          (erase
            (text "v1")
            command
            (text "ann")
            7
            8
            3
            4
            (some (err (other_error "Timeout")))
            none
            privacy).1.governance.erasures
        ≡ some (record request { error_code = some (text "Timeout") }))
    × ((erase
          (text "v1")
          command
          (text "ann")
          7
          8
          3
          4
          (some (err (other_error "Timeout")))
          none
          privacy).1.memory
        ≡ stored)
unfolding program
erase-pending_example =
    erase-pending by_length-AreReferences (text "v1") command (text "ann") 7 8 3 4
      (some (err (other_error "Timeout"))) none privacy start-IsGoverned refl request accepted
      (other_error "Timeout") refl refl refl

abbrev nothing_erased : ErasureSummary
nothing_erased = record {
  observations = 0;
  evidence_spans = 0;
  candidates = 0;
  memory_records = 0;
  memory_revisions = 0;
  revision_transitions = 0;
  recall_traces = 0;
  recall_trace_items = 0;
  memory_usages = 0;
  memory_usage_items = 0;
  outcomes = 0;
  utility_estimates = 0;
  outbox_events = 0;
  projection_jobs = 0;
  projection_documents = 0;
}

abbrev one_erased : ErasureSummary
one_erased = record nothing_erased {
  memory_records = 1;
  memory_revisions = 1;
  revision_transitions = 1;
}

erased_memory : erase_memory none ann stored ≡ ok (one_erased, empty)
unfolding program
erased_memory = refl

erase-completes_example :
    (r : ErasureRequest) × ((erase (text "v1") command (text "ann") 7 8 3 4 none none privacy).0
      ≡ ok r)
    × (is_completed r.status ≡ true)
    × (get r.id
          (erase (text "v1") command (text "ann") 7 8 3 4 none none privacy).1.governance.erasures
        ≡ some r)
    × ((is_completed request.status ≡ true)
        ⊎ ((erase (text "v1") command (text "ann") 7 8 3 4 none none privacy).1.memory ≡ empty))
unfolding program
erase-completes_example =
    erase-completes by_length-AreReferences (text "v1") command (text "ann") 7 8 3 4 none none
      privacy start-IsGoverned refl request accepted one_erased empty erased_memory
