-- ===== src/Execution.antt =====
-- src/execution: trade intents and their validation.
pub mod TradeIntent
pub mod IntentValidator
