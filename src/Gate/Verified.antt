-- ===== src/Gate/Verified.antt =====
-- What the verifier accepts: a receipt that a trusted signer issued, while it is valid.
use evolvable_user_memory.Base.{
  ℕ, ◌≡◌, ◌≤◌, ◌<◌, ◌↔◌, refl, true, false, not, List, ◌==◌, ◌!=◌, !=-false, ==_refl, nat_eq,
  list_eq, pair_eq, ltb, leb, not-ltb→le, not-leb→lt, some, Option-cases, inl, inr, ap, sym, ◌∙◌,
  arith,
}
use evolvable_user_memory.Base.Result.{
  ok, >>=-eq-ok, raise_if->>-eq-ok, raise_if-eq-ok, ok-injective,
}
use evolvable_user_memory.Base.Dict.{get}
use evolvable_user_memory.Base.Text.{Text}
use evolvable_user_memory.Common.{Instant, Hmac, require_text}
use evolvable_user_memory.Projection.{require_sha256}
use evolvable_user_memory.Compression.Hex.{IsDigest, require_sha256-IsDigest}
use evolvable_user_memory.Governance.Requests.{require_text-require_text}
use evolvable_user_memory.Evolution.Experiment.{
  is_legal, GateReceipt, make_receipt, EvolutionExperiment,
}
use evolvable_user_memory.Gate.{
  Formatting, gate_receipt_claims, canonical_gate_receipt_payload, Signer, Authorization,
  unsigned_receipt, signature_of, issue, Keys, verify_with, verify,
}

-- HMAC with SHA-256 gives 64 hex digits in lower case.
abbrev pub AreSignatures : Hmac → Type 0
AreSignatures h = (key : List ℕ) (t : Text) → IsDigest (h.hexdigest key t)

pub record IsReceipt (x r : GateReceipt) : Type 0 where
  pub differs : (x.baseline_id == x.candidate_id) ≡ false
  pub legal : not (is_legal x.from_stage x.to_stage) ≡ false
  pub artifact : require_text x.artifact_ref ≡ ok r.artifact_ref
  pub digest : require_sha256 x.artifact_sha256 ≡ ok r.artifact_sha256
  pub issuer : require_text x.issuer ≡ ok r.issuer
  pub key : require_text x.key_id ≡ ok r.key_id
  pub lasts : leb x.expires_at x.issued_at ≡ false
  pub reason : require_text x.reason ≡ ok r.reason
  pub signature : require_sha256 x.signature ≡ ok r.signature

made : GateReceipt → (a d i k m s : Text) → GateReceipt
made x a d i k m s = record x {
  artifact_ref = a;
  artifact_sha256 = d;
  issuer = i;
  key_id = k;
  reason = m;
  signature = s;
}

make_receipt-IsReceipt :
    (x r : GateReceipt)
    → make_receipt x ≡ ok r
    → IsReceipt x r
      × (made x r.artifact_ref r.artifact_sha256 r.issuer r.key_id r.reason r.signature ≡ r)
unfolding make_receipt made
make_receipt-IsReceipt x r h =
    let (differs, h1) = raise_if->>-eq-ok (x.baseline_id == x.candidate_id) _ _ h in
    let (legal, h2) = raise_if->>-eq-ok (not (is_legal x.from_stage x.to_stage)) _ _ h1 in
    let (a, ha, h3) = >>=-eq-ok (require_text x.artifact_ref) _ h2 in
    let (d, hd, h4) = >>=-eq-ok (require_sha256 x.artifact_sha256) _ h3 in
    let (i, hi, h5) = >>=-eq-ok (require_text x.issuer) _ h4 in
    let (k, hk, h6) = >>=-eq-ok (require_text x.key_id) _ h5 in
    let (lasts, h7) = raise_if->>-eq-ok (leb x.expires_at x.issued_at) _ _ h6 in
    let (m, hm, h8) = >>=-eq-ok (require_text x.reason) _ h7 in
    let (s, hs, h9) = >>=-eq-ok (require_sha256 x.signature) _ h8 in
    let same : made x a d i k m s ≡ r = ok-injective h9 in
    rw (sym same) (
      record {
        differs = differs;
        legal = legal;
        artifact = ha;
        digest = hd;
        issuer = hi;
        key = hk;
        lasts = lasts;
        reason = hm;
        signature = hs;
      },
      refl,
    )

IsReceipt-make_receipt : (r : GateReceipt) → IsReceipt r r → make_receipt r ≡ ok r
unfolding make_receipt
IsReceipt-make_receipt r m =
    rw (m.differs, m.legal, m.artifact, m.digest, m.issuer, m.key, m.lasts, m.reason, m.signature)
      refl

-- What an accepted receipt is, apart from how the verifier finds out.
pub record IsAuthentic ⦃h : Hmac⦄ ⦃f : Formatting⦄ (keys : Keys) (r : GateReceipt) (at : Instant)
    : Type 0 where
  pub secret : List ℕ
  pub trusted : get (r.issuer, r.key_id) keys ≡ some secret
  pub signed : signature_of secret r ≡ r.signature
  pub begun : r.issued_at ≤ at
  pub unexpired : at < r.expires_at

module _ ⦃h : Hmac⦄ ⦃f : Formatting⦄ where
  -- `verify` returns exactly for the receipts whose key is trusted, whose signature is the HMAC of their
  -- claims under that key's secret, and which are valid at the time.
  pub verify_iff :
      (keys : Keys) (r : GateReceipt) (at : Instant)
      → (verify keys r at ≡ ok tt) ↔ IsAuthentic keys r at
  unfolding verify_with
  verify_iff keys r at = (
    λ k. elim (Option-cases (get (r.issuer, r.key_id) keys)) [
      | inl absent ↦ cc (rw (absent, verify_with) at k)
      | inr (secret, trusted) ↦
          let k0 : verify_with (some secret) r at ≡ ok tt = rw trusted at k in
          let (signed, k1) = raise_if->>-eq-ok (signature_of secret r != r.signature) _ _ k0 in
          let (begun, k2) = raise_if->>-eq-ok (ltb at r.issued_at) _ _ k1 in
          let unexpired = raise_if-eq-ok (leb r.expires_at at) _ k2 in
          record {
            secret = secret;
            trusted = trusted;
            signed = !=-false (signature_of secret r) r.signature signed;
            begun = not-ltb→le at r.issued_at begun;
            unexpired = not-leb→lt r.expires_at at unexpired;
          }
    ],
    λ a.
        let same : (signature_of a.secret r == r.signature) ≡ true =
          rw a.signed (==_refl r.signature) in
        let begun : ltb at r.issued_at ≡ false = ground (arith, a.begun) in
        let unexpired : leb r.expires_at at ≡ false = ground (arith, a.unexpired) in
        rw (a.trusted, verify_with, same, begun, unexpired) refl,
  )

  -- The receipt that `issue` gives is the claims with their signature.
  issue-signed :
      (s : Signer) (e : EvolutionExperiment) (a : Authorization) (r : GateReceipt)
      → AreSignatures h
      → IsDigest a.artifact_sha256
      → issue s e a ≡ ok r
      → (unsigned : GateReceipt) × IsReceipt (unsigned_receipt s e a) unsigned
        × (made
              (unsigned_receipt s e a)
              unsigned.artifact_ref
              unsigned.artifact_sha256
              unsigned.issuer
              unsigned.key_id
              unsigned.reason
              unsigned.signature
            ≡ unsigned)
        × (record unsigned { signature = signature_of s.secret unsigned } ≡ r)
  unfolding issue made
  issue-signed s e a r signs digest k =
      let (u, ku, k1) = >>=-eq-ok (make_receipt (unsigned_receipt s e a)) _ k in
      let (m, shape) = make_receipt-IsReceipt (unsigned_receipt s e a) u ku in
      let signed : GateReceipt = record u { signature = signature_of s.secret u } in
      let plain : u.artifact_sha256 ≡ a.artifact_sha256 =
        ok-injective (sym m.digest ∙ require_sha256-IsDigest a.artifact_sha256 digest) in
      let same = IsReceipt-make_receipt signed (record {
        differs = ap (λ (y : GateReceipt). y.baseline_id == y.candidate_id) (sym shape) ∙ m.differs;
        legal =
            ap (λ (y : GateReceipt). not (is_legal y.from_stage y.to_stage)) (sym shape) ∙ m.legal;
        artifact = require_text-require_text a.artifact_ref u.artifact_ref m.artifact;
        digest =
            ap require_sha256 plain
            ∙ require_sha256-IsDigest a.artifact_sha256 digest
            ∙ ap ok (sym plain);
        issuer = require_text-require_text s.issuer u.issuer m.issuer;
        key = require_text-require_text s.key_id u.key_id m.key;
        lasts = ap (λ (y : GateReceipt). leb y.expires_at y.issued_at) (sym shape) ∙ m.lasts;
        reason = require_text-require_text a.reason u.reason m.reason;
        signature =
            require_sha256-IsDigest (signature_of s.secret u)
              (signs s.secret (canonical_gate_receipt_payload u));
      }) in
      (u, m, shape, ok-injective (sym same ∙ k1))

  -- A receipt that a signer issues for an artifact's digest is accepted by each verifier that trusts the
  -- signer's key with its secret, from its time of issue until it expires, and it names the experiment,
  -- its stage and the target that it was issued for.
  pub issue-verify :
      (s : Signer) (e : EvolutionExperiment) (a : Authorization) (keys : Keys) (at : Instant)
      (r : GateReceipt)
      → AreSignatures h
      → require_text s.issuer ≡ ok s.issuer
      → require_text s.key_id ≡ ok s.key_id
      → IsDigest a.artifact_sha256
      → issue s e a ≡ ok r
      → get (s.issuer, s.key_id) keys ≡ some s.secret
      → a.issued_at ≤ at
      → at < a.expires_at
      → (verify keys r at ≡ ok tt)
        × (r.experiment_id ≡ e.id)
        × (r.baseline_id ≡ e.baseline_id)
        × (r.candidate_id ≡ e.candidate_id)
        × (r.from_stage ≡ e.stage)
        × (r.to_stage ≡ a.target)
        × (r.decision ≡ a.decision)
        × (r.hard_gates_passed ≡ a.hard_gates_passed)
  unfolding canonical_gate_receipt_payload gate_receipt_claims made
  issue-verify s e a keys at r signs issuer key digest issued trusted begun unexpired =
      let (u, m, shape, same) = issue-signed s e a r signs digest issued in
      let i : u.issuer ≡ s.issuer = ok-injective (sym m.issuer ∙ issuer) in
      let j : u.key_id ≡ s.key_id = ok-injective (sym m.key ∙ key) in
      let at_begin : a.issued_at ≡ u.issued_at = ap (λ (y : GateReceipt). y.issued_at) shape in
      let at_end : a.expires_at ≡ u.expires_at = ap (λ (y : GateReceipt). y.expires_at) shape in
      rw (sym same) (
        (verify_iff keys (record u { signature = signature_of s.secret u }) at).1 (record {
          secret = s.secret;
          trusted =
              ap (λ (p : Text × Text). get p keys)
                (let p : (u.issuer, u.key_id) ≡ (s.issuer, s.key_id) = rw (i, j) refl in p)
              ∙ trusted;
          signed = refl;
          begun = omega (arith, begun, at_begin);
          unexpired = omega (arith, unexpired, at_end);
        }),
        ap (λ (y : GateReceipt). y.experiment_id) (sym shape),
        ap (λ (y : GateReceipt). y.baseline_id) (sym shape),
        ap (λ (y : GateReceipt). y.candidate_id) (sym shape),
        ap (λ (y : GateReceipt). y.from_stage) (sym shape),
        ap (λ (y : GateReceipt). y.to_stage) (sym shape),
        ap (λ (y : GateReceipt). y.decision) (sym shape),
        ap (λ (y : GateReceipt). y.hard_gates_passed) (sym shape),
      )
