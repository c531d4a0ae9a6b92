-- ===== src/Runtime.antt =====
-- src/runtime: the pipeline's stateful parts.
pub mod PositionStateMachine
pub mod PaperTradeGate
pub mod NegativeClosePolicy
pub mod RiskManager
pub mod TradePlan
pub mod FundingWindowWorker
pub mod BreakevenProtectionWorker
