-- ===== src/Transport.antt =====
-- The TLS transport of requests and its ledger in rollout_manager/transports.py (RequestLedger,
-- RpcTransport).
pub mod State
pub mod Calls
pub mod Evidence
pub mod Runs
mod Tests
