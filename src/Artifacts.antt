-- ===== src/Artifacts.antt =====
-- The durable artifacts of the browser relay in
-- rollout_manager/terminal_bench/browser_relay/artifacts.py (ArtifactQueue).
pub mod State
pub mod Sending
pub mod Receiving
pub mod Chunks
pub mod Passage
pub mod Publishing
pub mod Storage
pub mod Integrity
pub mod Starting
pub mod Writing
pub mod Committing
pub mod Histories
mod Tests
