-- ===== src/Service.antt =====
-- application/service.py: `MemoryApplication` over the in-memory store. A method is a function on the
-- store, and returns the new store; a failing transaction restores its snapshot, so a failure has
-- no store. The readings of the clock and the fresh ids are arguments.
pub mod Lexical
pub mod Recall
pub mod Application
pub mod Answering
pub mod Entries
pub mod Expected
pub mod Ranking
pub mod Keeping
pub mod Accepting
pub mod Remembering
pub mod Ingestion
pub mod Feedback
pub mod Attribution
