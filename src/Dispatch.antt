-- ===== src/Dispatch.antt =====
-- The dispatch of tokens to the ranks that own their experts, in dsv41_train/dispatch.py.
pub mod Pieces
pub mod Counts
pub mod Gather
pub mod State
pub mod Laws
pub mod Exchange
pub mod Preparing
pub mod Experts
pub mod Equivalence
pub mod Model
mod Tests
