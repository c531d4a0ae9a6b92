-- ===== src/Runtime/RiskManager/Tests.antt =====
-- Evaluations of intents that have no levels, over whole numbers.
use coindcx_bot.Prelude.{String, ◌≡◌, refl, none, some, List, [], ◌∷◌, string_key}
use coindcx_bot.Prelude.Int.{pos}
use coindcx_bot.Prelude.Num.{Whole}
use coindcx_bot.Execution.TradeIntent.{TradeIntent}
use coindcx_bot.Execution.IntentValidator.{IntentValidationInput}
use coindcx_bot.Runtime.RiskManager.{route_order}

abbrev intent : String → TradeIntent Whole
intent pair = record {
  id = "t";
  strategy_id = "s";
  pair = pair;
  side = "LONG";
  entry_type = "limit";
  entry_price = some "";
  stop_loss = "";
  take_profit = "";
  confidence = some (pos 1);
  ttl_ms = some (pos 1000);
  created_at = "5000";
  reason = "";
}

routed_to_paper : (route_order "now" (intent "BTC") []).1.entry_price ≡ none
unfolding route_order
routed_to_paper = refl

abbrev input : String → IntentValidationInput Whole
input pair = record {
  intent = intent pair;
  market = record {
    mark_price = none;
    best_bid = none;
    best_ask = none;
    liquidation_price = none;
    leverage = none;
    max_leverage = none;
    market_data_fresh = none;
    account_state_fresh = none;
    account_is_divergent = none;
  };
  options = record {
    now_ms = none;
    min_reward_risk = none;
    min_stop_distance_pct = none;
    max_stop_distance_pct = none;
    max_spread_pct = none;
  };
}

abbrev calls : List (Whole × String × IntentValidationInput Whole)
calls =
    (some (pos 5100), "a", input "BTC")
    ∷ (some (pos 5200), "b", input "ETH")
    ∷ (some (pos 5300), "c", input "BTC")
    ∷ []
