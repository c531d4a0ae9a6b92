-- ===== src/Strategy/Backtest.antt =====
-- src/strategy/backtest: replay of a strategy's signals over past prices.
pub mod Simulator
