-- ===== src/Gate.antt =====
-- application/gate_receipts.py and adapters/gate_receipts.py: the claims that a gate receipt signs, the signer
-- and the verifier. HMAC, the text of a UUID and of an instant are Python's.
pub mod Verified
use Prim.Native.String.{String}
use evolvable_user_memory.Base.{
  ℕ, zero, suc, Bool, true, false, not, List, [], ◌∷◌, ◌++◌, length, ◌==◌, ◌!=◌, nat_eq, list_eq,
  pair_eq, ltb, leb, Option, none, some,
}
use evolvable_user_memory.Base.Result.{Result, ok, err, domain_error, ◌>>=◌, ◌>>◌, raise_if}
use evolvable_user_memory.Base.Dict.{Dict, get, insert}
use evolvable_user_memory.Base.Text.{Text, text}
use evolvable_user_memory.Base.Sort.{sorted}
use evolvable_user_memory.Common.{Uuid, Instant, Hmac, require_text, text_leb}
use evolvable_user_memory.Compression.{dumps_string}
use evolvable_user_memory.Evolution.Experiment.{
  ExperimentStage, GateDecision, GateReceipt, make_receipt, EvolutionExperiment,
}

-- `str(uuid)` and `datetime.isoformat()`
pub record Formatting : Type 0 where
  pub uuid_text : Uuid → Text
  pub isoformat : Instant → Text

abbrev pub stage_value : ExperimentStage → Text
stage_value ExperimentStage.proposed = text "proposed"
stage_value ExperimentStage.offline_passed = text "offline_passed"
stage_value ExperimentStage.shadow = text "shadow"
stage_value ExperimentStage.canary = text "canary"
stage_value ExperimentStage.promoted = text "promoted"
stage_value ExperimentStage.rejected = text "rejected"
stage_value ExperimentStage.rolled_back = text "rolled_back"

abbrev pub decision_value : GateDecision → Text
decision_value GateDecision.pass = text "pass"
decision_value GateDecision.reject = text "reject"
decision_value GateDecision.rollback = text "rollback"

-- A value of the dict of claims.
pub data Claim : Type 0 where
  words : Text → Claim
  flag : Bool → Claim

unfoldable pub gate_receipt_claims : ⦃f : Formatting⦄ → GateReceipt → List (Text × Claim)
gate_receipt_claims ⦃f⦄ r =
    (text "schema", words (text "evolvable-memory.gate-receipt.v1"))
    ∷ (text "id", words (f.uuid_text r.id))
    ∷ (text "experiment_id", words (f.uuid_text r.experiment_id))
    ∷ (text "baseline_id", words (f.uuid_text r.baseline_id))
    ∷ (text "candidate_id", words (f.uuid_text r.candidate_id))
    ∷ (text "from_stage", words (stage_value r.from_stage))
    ∷ (text "to_stage", words (stage_value r.to_stage))
    ∷ (text "decision", words (decision_value r.decision))
    ∷ (text "artifact_ref", words r.artifact_ref)
    ∷ (text "artifact_sha256", words r.artifact_sha256)
    ∷ (text "issuer", words r.issuer)
    ∷ (text "key_id", words r.key_id)
    ∷ (text "issued_at", words (f.isoformat r.issued_at))
    ∷ (text "expires_at", words (f.isoformat r.expires_at))
    ∷ (text "hard_gates_passed", flag r.hard_gates_passed)
    ∷ (text "reason", words r.reason)
    ∷ []

abbrev pub claim_leb : Text × Claim → Text × Claim → Bool
claim_leb (k, v) (j, w) = text_leb k j

abbrev pub dumps_claim : Claim → Text
dumps_claim (words s) = dumps_string s
dumps_claim (flag true) = text "true"
dumps_claim (flag false) = text "false"

unfoldable pub dumps_claims : List (Text × Claim) → Text
dumps_claims [] = []
dumps_claims ((k, v) ∷ []) = dumps_string k ++ b':' ∷ dumps_claim v
dumps_claims ((k, v) ∷ rest) = (dumps_string k ++ b':' ∷ dumps_claim v) ++ b',' ∷ dumps_claims rest

-- `json.dumps(..., sort_keys=True)` of the claims
unfoldable pub canonical_gate_receipt_payload : ⦃f : Formatting⦄ → GateReceipt → Text
canonical_gate_receipt_payload r =
    b'{' ∷ dumps_claims (sorted claim_leb (gate_receipt_claims r)) ++ b'}' ∷ []

abbrev pub validated_secret : List ℕ → Result (List ℕ)
validated_secret secret = do
  raise_if (ltb (length secret) 32)
      (domain_error "gate receipt HMAC secret must contain at least 32 bytes")
  ok secret

pub record Signer : Type 0 where
  pub issuer : Text
  pub key_id : Text
  pub secret : List ℕ

unfoldable pub make_signer : Text → Text → List ℕ → Result Signer
make_signer issuer key_id secret = do
  issuer_text ← require_text issuer
  key_text ← require_text key_id
  valid ← validated_secret secret
  ok (record { issuer = issuer_text; key_id = key_text; secret = valid })

-- The arguments of `issue`.
pub record Authorization : Type 0 where
  pub receipt_id : Uuid
  pub target : ExperimentStage
  pub decision : GateDecision
  pub artifact_ref : Text
  pub artifact_sha256 : Text
  pub issued_at : Instant
  pub expires_at : Instant
  pub hard_gates_passed : Bool
  pub reason : Text

unfoldable pub zeros : ℕ → Text
zeros zero = []
zeros (suc n) = b'0' ∷ zeros n

-- `_PLACEHOLDER_SIGNATURE`
abbrev pub placeholder_signature : Text
placeholder_signature = zeros 64

abbrev pub unsigned_receipt : Signer → EvolutionExperiment → Authorization → GateReceipt
unsigned_receipt s e a = record {
  id = a.receipt_id;
  experiment_id = e.id;
  baseline_id = e.baseline_id;
  candidate_id = e.candidate_id;
  from_stage = e.stage;
  to_stage = a.target;
  decision = a.decision;
  artifact_ref = a.artifact_ref;
  artifact_sha256 = a.artifact_sha256;
  issuer = s.issuer;
  key_id = s.key_id;
  issued_at = a.issued_at;
  expires_at = a.expires_at;
  hard_gates_passed = a.hard_gates_passed;
  reason = a.reason;
  signature = placeholder_signature;
}

abbrev pub signature_of : ⦃h : Hmac⦄ ⦃f : Formatting⦄ → List ℕ → GateReceipt → Text
signature_of ⦃h⦄ secret r = h.hexdigest secret (canonical_gate_receipt_payload r)

-- `HmacGateReceiptSigner.issue`; `replace` runs the constructor's checks again.
unfoldable pub issue :
    ⦃h : Hmac⦄ ⦃f : Formatting⦄ → Signer → EvolutionExperiment → Authorization → Result GateReceipt
issue s e a = do
  unsigned ← make_receipt (unsigned_receipt s e a)
  make_receipt (record unsigned { signature = signature_of s.secret unsigned })

abbrev pub Keys : Type 0
Keys = Dict (Text × Text) (List ℕ)

-- The dict of `HmacGateReceiptVerifier.__init__`; a later key takes the place of an earlier one.
unfoldable pub trusted_from : List ((Text × Text) × List ℕ) → Keys → Result Keys
trusted_from [] keys = ok keys
trusted_from (((issuer, key_id), secret) ∷ rest) keys = do
  issuer_text ← require_text issuer
  key_text ← require_text key_id
  valid ← validated_secret secret
  trusted_from rest (insert (issuer_text, key_text) valid keys)

unfoldable pub make_verifier : List ((Text × Text) × List ℕ) → Result Keys
make_verifier trusted_keys = do
  raise_if (length trusted_keys == 0)
      (domain_error "at least one gate receipt verification key is required")
  trusted_from trusted_keys []

-- `HmacGateReceiptVerifier.verify`, for the secret of the receipt's key
unfoldable pub verify_with :
    ⦃h : Hmac⦄ ⦃f : Formatting⦄ → Option (List ℕ) → GateReceipt → Instant → Result (Unit {0})
verify_with none r at = err (domain_error "gate receipt signing key is not trusted")
verify_with (some secret) r at = do
  raise_if (signature_of secret r != r.signature) (domain_error "gate receipt signature is invalid")
  raise_if (ltb at r.issued_at) (domain_error "gate receipt is not yet valid")
  raise_if (leb r.expires_at at) (domain_error "gate receipt has expired")

abbrev pub verify : ⦃h : Hmac⦄ ⦃f : Formatting⦄ → Keys → GateReceipt → Instant → Result (Unit {0})
verify keys r at = verify_with (get (r.issuer, r.key_id) keys) r at
