-- ===== src/Cache.antt =====
-- The bounded CPU-storage cache of rollout_manager/input_cache.py (class InputCache).
pub mod State
pub mod Space
pub mod Requests
pub mod Leases
pub mod Acquire
pub mod Calls
pub mod Private
pub mod Invariant
pub mod Publish
pub mod Leasing
pub mod Consumers
pub mod Releasing
pub mod Eviction
pub mod Ending
pub mod Reserving
pub mod Steps
pub mod Histories
pub mod Replies
pub mod Tests
