-- ===== src/Mailbox.antt =====
-- The mailbox of rollout groups in dsv41_train/rl/manager.py (`_serve`): sampled groups are
-- retained until the learner has committed them.
pub mod Sorting
pub mod State
pub mod Commands
pub mod Rounds
pub mod Shape
pub mod Prefix
pub mod Delivery
pub mod Filling
pub mod Replies
pub mod Restoring
pub mod Runs
mod Tests
pub mod Restart
