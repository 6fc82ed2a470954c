-- ===== src/Claims.antt =====
-- The jobs of the CPU side of the browser relay in
-- rollout_manager/terminal_bench/browser_relay/relay_server.py (RelayState).
pub mod State
pub mod Jobs
pub mod Changes
pub mod Answers
pub mod Capacity
pub mod Histories
mod Tests
