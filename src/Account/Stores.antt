-- ===== src/Account/Stores.antt =====
-- src/account/stores: what the bot holds of the account.
pub mod FillsLedger
pub mod PositionStore
pub mod BalanceStore
pub mod OrderStore
