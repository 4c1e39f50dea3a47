-- ===== src/Lib.antt =====
-- A memory library for agents: it keeps observed memories with their revisions, recalls them by a
-- scoring strategy, compresses a recall into a bounded context, learns utilities from outcomes, and
-- evolves the strategy through gated experiments. Paths are from the repository's root.
--
-- Parts and files:
-- - Base and its children: tests, lists, association lists, sorting, multisets, Python's texts,
--   results that carry one of the program's errors, and fixed-point numbers (Base/Signed has those of
--   either sign).
-- - Common: src/evolvable_memory/domain/common.py (require_text, require_utc, Scope,
--   ContextSignature with from_mapping's normalisation, fingerprint and similarity).
-- - Projection, Experience: domain/projection.py and domain/experience.py; a dataclass is a record,
--   and its __post_init__ a function make_* (check_projection for the largest) into a Result.
-- - Compression: application/compression.py. Json renders the memories; Budget is
--   _select_within_budget, Deduplication the exact_deduplicated algorithm, Total the whole project.
-- - Evolution: domain/evolution.py. Strategy has weights, snapshots and diagnoses, Proposal the
--   method PolicyEvolution.propose, Experiment the state machine of the stages, the gate receipts
--   and the transition evidence, Activation the activations. Children describes a proposal; Shift, Bounds and
--   Stages hold the proofs.
-- - Registry: the strategies, activations and experiments of InMemoryMemoryStore in
--   adapters/in_memory.py. State has one function per method, Valid the invariant, and Saving,
--   Register, Advance and Active what the methods do with it.
-- - Evidence, Memory: domain/evidence.py and domain/memory.py, in the same way as Projection.
-- - Store: the other state of InMemoryMemoryStore. State has the record of its dicts, ingestion and
--   traces, Memories the records with their revisions and bitemporal reads, Feedback the usage
--   receipts, utilities and outcomes, Erasure has erase_scope; Replay, Revisions and Visible hold
--   proofs.
-- - Commands: application/commands.py, the commands and results with their checks.
-- - Service: application/service.py, MemoryApplication as functions on the Store. Lexical is the
--   lexical score, Recall the method recall, Ingestion remember_preference and correct_preference
--   with _accept_candidate, Feedback the outcomes, usages and readings; Expected describes what a
--   recall answers; Entries, Ranking, Keeping,
--   Accepting, Remembering, Attribution and Answering hold proofs. What a call reads from the clock and draws
--   from the id generator is its argument. Recall.recall takes the policy in force and the hits of
--   the projection; Application has the construction, the policy and the search around it.
-- - Governance: domain/governance.py. State is adapters/in_memory_governance.py, Erase
--   application/governance.py with MemoryApplication.erase_scope; Requests, Kept, Steps, Valid and
--   Erased hold proofs, Steps also the adapter as a step relation.
-- - Gate: application/gate_receipts.py and adapters/gate_receipts.py, Gate/Verified its proofs.
-- - Orchestration: application/evolution.py over the Registry and the gate, Orchestration/Guarded
--   its proofs.
-- - Worker: application/projection.py and application/projection_types.py, the projection worker over
--   its ports, whose state survives a raise; Worker/Counts its proofs.
-- - Examples: the definitions on small inputs, and the theorems applied to them.
--
-- Conventions:
-- - A float is a natural number of units of 10 ^ -12 (Base/Fixed). Products and quotients round
--   down. The sums and differences of weights, which the constructor of weights checks against a
--   tolerance, are a parameter (Evolution.Strategy.Rounding), so they may round; the other sums are
--   exact. The similarity of contexts is computed with a sign (Base/Signed). Negative numbers and NaN
--   do not occur elsewhere, so the tests that only they fail are left out.
-- - The range of datetime and timedelta is not modelled. The delay of a retry raises OverflowError
--   where its power of two leaves the range of a float.
-- - A UUID is a natural number whose order is that of the UUID's text; an instant is a number of
--   microseconds in UTC. A datetime that may lack its offset occurs only at require_utc.
-- - A text is the list of its code points. Strip and isspace are Python's; lower is right for the
--   texts that base-16 parsing accepts.
-- - A dict is an association list in the order of insertion, a set a list. A missing key is a
--   key_error. A method that raises writes nothing, so its result is a Result of the new state.
-- - SHA-256, HMAC and the digests of JSON payloads are parameters (Common.Hashing, Common.Hmac,
--   Compression.Digests, Orchestration.Fingerprints); a digest is assumed to be 64 lower-case hex
--   digits, or a text that require_text keeps, where a theorem says so. So are str.casefold
--   (Service.Lexical.Folding), the power of one half (Service.Recall.Decay), str of a UUID and
--   isoformat (Gate.Formatting).
-- - A method of the governance adapter that may write before it raises returns its state beside its
--   result.
-- - No definition needs fuel: every loop runs over a list.
--
-- Not modelled: locks (a method is one step), transactions of the in-memory store, the governance
-- adapter that bypasses grants, the SQL outbox, access control, evaluation, the PostgreSQL and vector
-- stores and the HTTP layer, and whatever isinstance checks reject.
pub mod Base
pub mod Common
pub mod Projection
pub mod Experience
pub mod Compression
pub mod Evolution
pub mod Registry
pub mod Evidence
pub mod Memory
pub mod Store
pub mod Commands
pub mod Service
pub mod Governance
pub mod Gate
pub mod Orchestration
pub mod Worker
pub mod Examples
