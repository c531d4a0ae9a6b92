-- ===== src/Strategy/Types.antt =====
-- src/strategy/types.ts, less the market data that a strategy reads. A signal's `meta`, which no
-- part of the framework reads, is left out.
use coindcx_bot.Prelude.{ℕ, String, Option, List}

pub data StrategyMode : Type 0 where
  interval tick bar_close manual : StrategyMode

pub data Side : Type 0 where
  long short wait : Side

pub data TickChannel : Type 0 where
  depth_update new_trade current_prices : TickChannel

pub record StrategyManifest : Type 0 where
  pub id : String
  pub version : String
  pub mode : StrategyMode
  pub interval_ms : Option ℕ
  pub evaluation_timeout_ms : Option ℕ
  pub bar_timeframes : Option (List String)
  pub tick_channels : Option (List TickChannel)
  pub pairs : List String
  pub warmup_candles : Option ℕ
  pub description : String

-- `W` is the type of JavaScript numbers.
pub record StrategySignal {ℓ} (W : Type ℓ) : Type ℓ where
  pub side : Side
  pub confidence : W
  pub entry : Option String
  pub stop_loss : Option String
  pub take_profit : Option String
  pub reason : String
  pub no_trade_condition : Option String
  pub management : Option String
  pub ttl_ms : Option ℕ
