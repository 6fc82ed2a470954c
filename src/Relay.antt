-- ===== src/Relay.antt =====
-- The browser relay in rollout_manager/terminal_bench/browser_relay/relay_server.py (RelayState).
pub mod State
pub mod Generations
pub mod Threads
pub mod Places
pub mod Invariant
pub mod Changes
pub mod Entering
pub mod Steps
pub mod Serving
pub mod Running
pub mod Safety
pub mod Withdrawal
pub mod Silence
pub mod Cancelling
pub mod Delivery
pub mod Tracing
pub mod Standing
pub mod Lasting
pub mod Publication
mod Tests
