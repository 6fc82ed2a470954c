-- ===== src/Training.antt =====
-- The training records of rollout_manager/training.py: turns, trajectories and groups, and the
-- passage from rollout groups and back.
pub mod Records
pub mod Groups
pub mod Passage
pub mod Indices
pub mod Order
mod Tests
