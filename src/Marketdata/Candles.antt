-- ===== src/Marketdata/Candles.antt =====
-- src/marketdata/candles: price bars by pair and timeframe.
pub mod Candle
pub mod MultiTimeframeStore
