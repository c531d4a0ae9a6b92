-- ===== src/Runtime/TradePlan/Tests.antt =====
-- A LONG intent of a large account, on whole numbers.
use coindcx_bot.Prelude.{ℕ, ◌≡◌, refl, false, none, some, [], ◌∷◌}
use coindcx_bot.Prelude.Num.{Whole, whole_num, Whole-IsOrdered}
use coindcx_bot.Prelude.Int.{pos}
use coindcx_bot.Execution.IntentValidator.{value, finite_price}
use coindcx_bot.Runtime.TradePlan.{
  TradePlanInput, violations_of, js_min, js_max, parse_positive, parse_non_negative, dominant_side,
  estimate_liquidation_price, side_of, entry_of, structural_stop, stop_loss_of, risk_per_unit,
  leverage_cap, quantity_uncapped, capped_quantity, leverage_of, liquidation_distance,
  stop_distance, buffer_satisfied, compute,
}
use coindcx_bot.Runtime.TradePlan.Laws.{compute-leverage}

plan_code : Unit {0}
unfolding finite_price violations_of js_min js_max parse_positive parse_non_negative dominant_side
    estimate_liquidation_price side_of entry_of structural_stop stop_loss_of risk_per_unit
    leverage_cap quantity_uncapped capped_quantity leverage_of liquidation_distance stop_distance
    buffer_satisfied compute
plan_code = tt

abbrev whole : ℕ → Whole
whole n = some (pos n)

abbrev input : TradePlanInput Whole
input = record {
  intent = record {
    id = "i";
    strategy_id = "s";
    pair = "BTC";
    side = "LONG";
    entry_type = "limit";
    entry_price = some "100";
    stop_loss = "95";
    take_profit = "110";
    confidence = whole 1;
    ttl_ms = whole 0;
    created_at = "t";
    reason = "r";
  };
  confluence = record { long_score = whole 90; short_score = whole 10 };
  regime = "trending";
  market = record {
    mark_price = none;
    best_bid = none;
    best_ask = none;
    liquidation_price = some (value (whole 50));
    leverage = none;
    max_leverage = some (value (whole 25));
    market_data_fresh = none;
    account_state_fresh = none;
    account_is_divergent = none;
  };
  account_equity = some (whole 1000);
  risk_capital_fraction = some (whole 50);
  atr_percent = some (whole 1);
  fee_rate = none;
  funding_rate = none;
  max_venue_leverage = none;
}

capped : (compute whole_num input).leverage ≡ whole 10
unfolding plan_code
capped = refl

violated : (compute whole_num input).violations ≡ "quantity_capped_by_hard_leverage_limit" ∷ []
unfolding plan_code
violated = refl

compute-leverage_example : whole_num.lt (whole 10) (compute whole_num input).leverage ≡ false
compute-leverage_example = compute-leverage whole_num Whole-IsOrdered input refl refl
