-- ===== src/Tests.antt =====
-- Runs on concrete data, at which the hypotheses of the theorems hold.
pub mod Calls
pub mod Hub
pub mod Monitors
pub mod Pools
pub mod Charges
pub mod Draining
pub mod Fanouts
pub mod Pumps
pub mod Retries
pub mod Routing
pub mod Secrets
pub mod Sharing
