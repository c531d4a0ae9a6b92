-- ===== src/Marketdata.antt =====
-- src/marketdata: what the bot knows of the market.
pub mod Book
pub mod RestBudget
pub mod Candles
pub mod TimeSync
