-- ===== src/Execution/TradeIntent.antt =====
-- src/execution/trade-intent.ts. The code tests the side and the entry type of an intent when it
-- runs, so both are texts here. The metadata, which nothing reads, is left out.
use Prim.Native.String.{◌++◌ as concat}
use coindcx_bot.Prelude.{
  String, Bool, Option, none, some, if◌then◌else◌, get_or, ◌==◌, string_key, ◌||◌,
}
use coindcx_bot.Prelude.Num.{Num}
use coindcx_bot.Strategy.Types.{StrategySignal}
use coindcx_bot.Strategy.Risk.{side_text}

pub record TradeIntent {ℓ} (W : Type ℓ) : Type ℓ where
  pub id : String
  pub strategy_id : String
  pub pair : String
  pub side : String
  pub entry_type : String
  pub entry_price : Option String
  pub stop_loss : String
  pub take_profit : String
  pub confidence : W
  pub ttl_ms : W
  pub created_at : String
  pub reason : String

pub record BuildTradeIntentArgs {ℓ} (W : Type ℓ) : Type ℓ where
  pub strategy_id : String
  pub pair : String
  pub signal : StrategySignal W
  pub created_at : String
  pub entry_type : Option String
  pub id : Option String

unfoldable pub is_trade_side : String → Bool
is_trade_side side = side == "LONG" || side == "SHORT"

-- `date_text` is `Date.parse(createdAt) || createdAt` as a text.
module _ {ℓ} {W : Type ℓ} (num : Num W) (date_text : String → String) where
  unfoldable pub build_trade_intent_id : BuildTradeIntentArgs W → String
  build_trade_intent_id args = concat args.strategy_id (
      concat ":" (
        concat args.pair (
          concat ":"
            (concat (side_text args.signal.side) (concat ":" (date_text args.created_at))))))

  unfoldable pub trade_intent_from_signal : BuildTradeIntentArgs W → Option (TradeIntent W)
  trade_intent_from_signal args =
      if is_trade_side (side_text args.signal.side)
      then some (record {
        id = get_or args.id (build_trade_intent_id args);
        strategy_id = args.strategy_id;
        pair = args.pair;
        side = side_text args.signal.side;
        entry_type = get_or args.entry_type "limit";
        entry_price = args.signal.entry;
        stop_loss = get_or args.signal.stop_loss "";
        take_profit = get_or args.signal.take_profit "";
        confidence = args.signal.confidence;
        ttl_ms = num.of_ℕ (get_or args.signal.ttl_ms 0);
        created_at = args.created_at;
        reason = args.signal.reason;
      })
      else none
