-- ===== src/Execution/IntentValidator/Tests.antt =====
-- A long intent whose reward is twice its risk, and runs of the validator over whole numbers.
use coindcx_bot.Prelude.{ℕ, ◌≡◌, refl, sym, ap, inl, inr, true, none, some, [], ◌∷◌, get_or}
use coindcx_bot.Prelude.Int.{pos}
use coindcx_bot.Prelude.Num.{Whole, whole_num}
use coindcx_bot.Strategy.Types.{wait, StrategySignal}
use coindcx_bot.Execution.TradeIntent.{
  TradeIntent, is_trade_side, build_trade_intent_id, trade_intent_from_signal,
}
use coindcx_bot.Execution.IntentValidator.{
  IntentMarketContext, IntentValidatorOptions, IntentValidationInput, Approval,
  IntentValidationDecision, approved, refused, rejected, text, value, invalid_side,
  invalid_created_at, missing_stop_loss, finite_price, parse_finite_price, middle,
  resolve_entry_price, spread_pct, level_metrics, validate_levels, validate_trade_intent, approval,
}
use coindcx_bot.Execution.IntentValidator.Checks.{HasFields}
use coindcx_bot.Execution.IntentValidator.Laws.{HasLevels, IsApproval, validate_trade_intent_iff}

intent_code : Unit {0}
unfolding is_trade_side build_trade_intent_id trade_intent_from_signal rejected finite_price
    parse_finite_price middle resolve_entry_price spread_pct level_metrics validate_levels
    validate_trade_intent
intent_code = tt

abbrev whole : ℕ → Whole
whole n = some (pos n)

abbrev good : TradeIntent Whole
good = record {
  id = "t";
  strategy_id = "s";
  pair = "B-BTC_USDT";
  side = "LONG";
  entry_type = "limit";
  entry_price = some "100";
  stop_loss = "90";
  take_profit = "120";
  confidence = whole 1;
  ttl_ms = whole 1000;
  created_at = "5000";
  reason = "";
}

abbrev market : IntentMarketContext Whole
market = record {
  mark_price = none;
  best_bid = some (value (whole 99));
  best_ask = some (text "101");
  liquidation_price = none;
  leverage = none;
  max_leverage = none;
  market_data_fresh = some true;
  account_state_fresh = none;
  account_is_divergent = none;
}

abbrev options : IntentValidatorOptions Whole
options = record {
  now_ms = some (whole 5500);
  min_reward_risk = some (whole 2);
  min_stop_distance_pct = some (whole 0);
  max_stop_distance_pct = some (whole 1);
  max_spread_pct = some (whole 1);
}

abbrev input : TradeIntent Whole → IntentValidationInput Whole
input intent = record { intent = intent; market = market; options = options }

abbrev validate : TradeIntent Whole → IntentValidationDecision Whole
validate intent =
    validate_trade_intent whole_num (λ n. "n") (λ s. s) whole_num.number (whole 0) (input intent)

abbrev good_approval : Approval Whole
good_approval =
    approval whole_num (λ n. "n") "LONG" (whole 100) (whole 90) (whole 120) (some (whole 0))

good_approved : validate good ≡ approved good good_approval
unfolding intent_code
good_approved = refl

bad_refused :
    validate (record good { side = "WAIT"; stop_loss = ""; created_at = "yesterday" })
    ≡ refused (invalid_side ∷ invalid_created_at ∷ missing_stop_loss ∷ [])
unfolding intent_code
bad_refused = refl

from_signal :
    (wait_signal : StrategySignal Whole)
    → wait_signal.side ≡ wait
    → trade_intent_from_signal whole_num
        (λ s. s)
        (record {
          strategy_id = "s";
          pair = "p";
          signal = wait_signal;
          created_at = "";
          entry_type = none;
          id = none;
        })
      ≡ none
unfolding intent_code
from_signal s e = rw e refl

validate_trade_intent_iff_example :
    HasLevels whole_num options "LONG" (whole 100) (whole 90) (whole 120)
validate_trade_intent_iff_example =
    ((validate_trade_intent_iff whole_num (λ n. "n") (λ s. s) whole_num.number (whole 0)
        (input good) good good_approval).0
      good_approved).2.levels_hold

good_fields : HasFields whole_num (λ s. s) whole_num.number (whole 5500) good market
good_fields = record {
  pair_given = λ e. cc;
  type_known = inr refl;
  confidence_finite = refl;
  confidence_from = refl;
  confidence_to = refl;
  ttl_finite = refl;
  ttl_positive = refl;
  created_finite = refl;
  not_expired = refl;
  market_fresh = λ e. cc;
  account_fresh = λ e. cc;
  not_divergent = λ e. cc;
}

good_prices :
    IsApproval whole_num
      (λ n. "n")
      options
      good
      (resolve_entry_price whole_num good market)
      (parse_finite_price whole_num (some (text good.stop_loss)))
      (parse_finite_price whole_num (some (text good.take_profit)))
      (spread_pct whole_num market)
      good_approval
unfolding intent_code
good_prices = record {
  entry_is = refl;
  stop_is = refl;
  take_is = refl;
  spread_is = refl;
  spread_within = λ s e. ap (λ o. whole_num.lt (whole 1) (get_or o (whole 0))) (sym e);
  levels_hold = record {
    in_order = inl (refl, refl, refl);
    reward_enough = λ e. refl;
    stop_not_near = λ e. refl;
    stop_not_far = λ e. refl;
  };
  metrics_are = refl;
  text_is = refl;
}
