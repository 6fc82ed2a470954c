-- ===== src/Budget.antt =====
-- The admission of evaluators by host memory in rollout_manager/host_memory.py (ByteBudget).
pub mod State
pub mod Sublists
pub mod Bounds
pub mod Order
mod Tests
