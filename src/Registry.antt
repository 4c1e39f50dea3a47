-- ===== src/Registry.antt =====
-- adapters/in_memory.py: the strategy registry of `InMemoryMemoryStore` and its proofs.
pub mod State
pub mod Valid
pub mod Saving
pub mod Register
pub mod Advance
pub mod Active
