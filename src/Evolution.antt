-- ===== src/Evolution.antt =====
-- domain/evolution.py: strategies, experiments and their evidence, and the bounded proposal.
pub mod Strategy
pub mod Activation
pub mod Experiment
pub mod Proposal
pub mod Bounds
pub mod Shift
pub mod Children
pub mod Stages
