-- ===== src/Planner.antt =====
-- The packing of responses into microbatches in dsv41_train/rl/learner_batch_planner.py.
pub mod Plan
pub mod Order
pub mod Best
pub mod Packing
mod Tests
