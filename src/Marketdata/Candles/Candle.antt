-- ===== src/Marketdata/Candles/Candle.antt =====
-- The Candle of src/ai/state-builder.ts, with its time in whole milliseconds.
use coindcx_bot.Prelude.{ℕ}

pub record Candle {ℓ} (W : Type ℓ) : Type ℓ where
  pub timestamp : ℕ
  pub open_price : W
  pub high : W
  pub low : W
  pub close : W
  pub volume : W
