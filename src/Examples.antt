-- ===== src/Examples.antt =====
-- Small inputs, what the definitions do on them, and the theorems at those inputs.
mod Compressing
mod Evolving
mod Registering
mod Storing
pub mod Governing
pub mod Orchestrating
pub mod Recalling
pub mod Projecting
pub mod Attributing
