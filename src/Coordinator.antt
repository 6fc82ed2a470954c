-- ===== src/Coordinator.antt =====
-- The coordinator of episodes in rollout_manager/coordinator.py: `Coordinator.run` under the policy
-- "native-groups".
pub mod Plans
pub mod Floats
pub mod Ledger
pub mod State
pub mod Admission
pub mod Completion
pub mod Loop
pub mod Amounts
pub mod Accounts
pub mod Invariant
pub mod Admitting
pub mod Places
pub mod Completing
pub mod Progress
pub mod Turns
pub mod Results
mod Tests
