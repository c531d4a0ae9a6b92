-- ===== src/Strategy.antt =====
-- src/strategy: strategies, the filter on their signals, and what runs them.
pub mod Types
pub mod Risk
pub mod Registry
pub mod Controller
pub mod Backtest
pub mod Scheduler
