-- ===== src/Store.antt =====
-- adapters/in_memory.py: the memories, traces, usages and outcomes of `InMemoryMemoryStore`.
pub mod State
pub mod Memories
pub mod Feedback
pub mod Replay
pub mod Fetch
pub mod Chain
pub mod Revisions
pub mod Snapshots
pub mod Visible
pub mod Reads
pub mod Erasure
