-- ===== src/Account.antt =====
-- src/account: the local copy of the exchange account.
pub mod Types
pub mod Stores
pub mod DivergenceDetector
pub mod HeartbeatWatcher
pub mod ReconcileController
