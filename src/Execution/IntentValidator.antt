-- ===== src/Execution/IntentValidator.antt =====
-- src/execution/intent-validator.ts. Numbers are those of `Num`; `trim` and `Date.parse`, which gives NaN for a
-- text that is no date, are parameters, and so is `String` of a number. The messages are left out: a
-- rejection is its code.
mod Checks
mod Laws
mod Tests
use coindcx_bot.Prelude.{
  String, Bool, true, false, not, ◌&&◌, ◌||◌, Option, none, some, List, [], ◌∷◌, ◌++◌,
  if◌then◌else◌, get_or, ◌==◌, string_key,
}
use coindcx_bot.Prelude.Num.{Num}
use coindcx_bot.Execution.TradeIntent.{TradeIntent, is_trade_side}

pub data IntentRejectionCode : Type 0 where
  missing_pair invalid_side invalid_entry_type missing_entry_price : IntentRejectionCode
  missing_stop_loss missing_take_profit invalid_price invalid_confidence : IntentRejectionCode
  invalid_ttl invalid_created_at expired_intent invalid_long_levels : IntentRejectionCode
  invalid_short_levels reward_risk_too_low stop_distance_too_small : IntentRejectionCode
  stop_distance_too_large spread_too_wide market_data_stale : IntentRejectionCode
  account_state_stale account_divergent : IntentRejectionCode

-- `string | number`
pub data Value {ℓ} (W : Type ℓ) : Type ℓ where
  text : String → Value W
  value : W → Value W

pub record IntentMarketContext {ℓ} (W : Type ℓ) : Type ℓ where
  pub mark_price : Option (Value W)
  pub best_bid : Option (Value W)
  pub best_ask : Option (Value W)
  pub liquidation_price : Option (Value W)
  pub leverage : Option (Value W)
  pub max_leverage : Option (Value W)
  pub market_data_fresh : Option Bool
  pub account_state_fresh : Option Bool
  pub account_is_divergent : Option Bool

pub record IntentValidatorOptions {ℓ} (W : Type ℓ) : Type ℓ where
  pub now_ms : Option W
  pub min_reward_risk : Option W
  pub min_stop_distance_pct : Option W
  pub max_stop_distance_pct : Option W
  pub max_spread_pct : Option W

-- A missing market or options object is one whose fields are all missing.
pub record IntentValidationInput {ℓ} (W : Type ℓ) : Type ℓ where
  pub intent : TradeIntent W
  pub market : IntentMarketContext W
  pub options : IntentValidatorOptions W

pub record LevelMetrics {ℓ} (W : Type ℓ) : Type ℓ where
  pub risk : W
  pub reward : W
  pub reward_risk : W
  pub stop_distance_pct : W
  pub take_profit_distance_pct : W

-- What an approved intent has beyond the intent.
pub record Approval {ℓ} (W : Type ℓ) : Type ℓ where
  pub resolved_entry_price : String
  pub entry_price : W
  pub stop_loss : W
  pub take_profit : W
  pub levels : LevelMetrics W
  pub spread : Option W

pub data IntentValidationDecision {ℓ} (W : Type ℓ) : Type ℓ where
  approved : TradeIntent W → Approval W → IntentValidationDecision W
  refused : List IntentRejectionCode → IntentValidationDecision W

-- `if (b) rejections.push(code)`, one after the other
unfoldable pub rejected : List (Bool × IntentRejectionCode) → List IntentRejectionCode
rejected [] = []
rejected ((b, code) ∷ cs) = let later = rejected cs in if b then code ∷ later else later

-- `x === false` and `x === true`
abbrev pub is_false : Option Bool → Bool
is_false (some false) = true
is_false _ = false

abbrev pub is_true : Option Bool → Bool
is_true (some true) = true
is_true _ = false

abbrev pub is_none {ℓ} : {A : Type ℓ} → Option A → Bool
is_none none = true
is_none (some x) = false

module _ {ℓ} {W : Type ℓ} (num : Num W) where
  open num use {of_ℕ, number, lt, le, is_finite, add, sub, div}

  unfoldable pub finite_price : W → Option W
  finite_price n = if not (is_finite n) || le n (of_ℕ 0) then none else some n

  unfoldable pub parse_finite_price : Option (Value W) → Option W
  parse_finite_price none = none
  parse_finite_price (some (text s)) = if s == "" then none else finite_price (number s)
  parse_finite_price (some (value n)) = finite_price n

  abbrev pub text_price : Option String → Option (Value W)
  text_price none = none
  text_price (some s) = some (text s)

  -- `bid !== null && ask !== null && ask >= bid`, and then `(bid + ask) / 2`
  unfoldable pub middle : Option W → Option W → Option W
  middle (some bid) (some ask) = if le bid ask then some (div (add bid ask) (of_ℕ 2)) else none
  middle _ _ = none

  abbrev first_of : Option W → Option W → Option W
  first_of (some x) y = some x
  first_of none y = y

  unfoldable pub resolve_entry_price : TradeIntent W → IntentMarketContext W → Option W
  resolve_entry_price intent market =
      first_of (parse_finite_price (text_price intent.entry_price)) (
        first_of (parse_finite_price market.mark_price)
          (middle (parse_finite_price market.best_bid) (parse_finite_price market.best_ask)))

  abbrev relative_spread : Option W → Option W → Option W → Option W
  relative_spread (some mid) (some bid) (some ask) =
      if le mid (of_ℕ 0) then none else some (div (sub ask bid) mid)
  relative_spread _ _ _ = none

  unfoldable pub spread_pct : IntentMarketContext W → Option W
  spread_pct market =
      let bid = parse_finite_price market.best_bid in
      let ask = parse_finite_price market.best_ask in relative_spread (middle bid ask) bid ask

  abbrev pub is_long : String → Bool
  is_long side = side == "LONG"

  unfoldable pub level_metrics : String → W → W → W → LevelMetrics W
  level_metrics side entry stop_loss take_profit =
      let risk = if is_long side then sub entry stop_loss else sub stop_loss entry in
      let reward = if is_long side then sub take_profit entry else sub entry take_profit in
      record {
        risk = risk;
        reward = reward;
        reward_risk = div reward risk;
        stop_distance_pct = div risk entry;
        take_profit_distance_pct = div reward entry;
      }

  module _ (trim : String → String) (date_parse : String → W) where
    -- The checks on the fields of the intent and the flags of the context.
    abbrev pub field_checks :
        W → TradeIntent W → IntentMarketContext W → List (Bool × IntentRejectionCode)
    field_checks now_ms intent market =
        let created = date_parse intent.created_at in
        (trim intent.pair == "", missing_pair)
        ∷ (not (is_trade_side intent.side), invalid_side)
        ∷ (
          not (intent.entry_type == "market") && not (intent.entry_type == "limit"),
          invalid_entry_type,
        )
        ∷ (
          not (is_finite intent.confidence)
              || lt intent.confidence (of_ℕ 0)
              || lt (of_ℕ 1) intent.confidence,
          invalid_confidence,
        )
        ∷ (not (is_finite intent.ttl_ms) || le intent.ttl_ms (of_ℕ 0), invalid_ttl)
        ∷ (not (is_finite created), invalid_created_at)
        ∷ (
          is_finite created && is_finite intent.ttl_ms && lt intent.ttl_ms (sub now_ms created),
          expired_intent,
        )
        ∷ (is_false market.market_data_fresh, market_data_stale)
        ∷ (is_false market.account_state_fresh, account_state_stale)
        ∷ (is_true market.account_is_divergent, account_divergent)
        ∷ []

  abbrev exceeds : Option W → W → Bool
  exceeds none limit = false
  exceeds (some spread) limit = lt limit spread

  -- The checks on the prices that can be missing.
  abbrev pub price_checks :
      (max_spread : W)
      → TradeIntent W
      → (entry stop take spread : Option W) → List (Bool × IntentRejectionCode)
  price_checks max_spread intent entry stop take spread =
      (is_none entry, missing_entry_price)
      ∷ (intent.stop_loss == "", missing_stop_loss)
      ∷ (intent.take_profit == "", missing_take_profit)
      ∷ (not (intent.stop_loss == "") && is_none stop, invalid_price)
      ∷ (not (intent.take_profit == "") && is_none take, invalid_price)
      ∷ (exceeds spread max_spread, spread_too_wide)
      ∷ []

  -- The checks on the levels.
  abbrev pub level_checks :
      IntentValidatorOptions W → String → W → W → W → List (Bool × IntentRejectionCode)
  level_checks options side entry stop take =
      let m = level_metrics side entry stop take in
      (side == "LONG" && not (lt stop entry && lt entry take), invalid_long_levels)
      ∷ (side == "SHORT" && not (lt take entry && lt entry stop), invalid_short_levels)
      ∷ (
        is_finite m.reward_risk && lt m.reward_risk (get_or options.min_reward_risk (number "1.5")),
        reward_risk_too_low,
      )
      ∷ (
        is_finite m.stop_distance_pct
            && lt m.stop_distance_pct (get_or options.min_stop_distance_pct (number "0.0005")),
        stop_distance_too_small,
      )
      ∷ (
        is_finite m.stop_distance_pct
            && lt (get_or options.max_stop_distance_pct (number "0.08")) m.stop_distance_pct,
        stop_distance_too_large,
      )
      ∷ []

  abbrev pub decide :
      List IntentRejectionCode → TradeIntent W → Approval W → IntentValidationDecision W
  decide [] intent approval = approved intent approval
  decide (r ∷ rs) intent approval = refused (r ∷ rs)

  module _ (to_text : W → String) where
    abbrev pub approval : String → W → W → W → Option W → Approval W
    approval side entry stop take spread = record {
      resolved_entry_price = to_text entry;
      entry_price = entry;
      stop_loss = stop;
      take_profit = take;
      levels = level_metrics side entry stop take;
      spread = spread;
    }

    -- From the early return on, with the rejections so far.
    unfoldable pub validate_levels :
        IntentValidatorOptions W
        → TradeIntent W
        → List IntentRejectionCode
        → (entry stop take spread : Option W) → IntentValidationDecision W
    validate_levels options intent early (some entry) (some stop) (some take) spread =
        if not (is_trade_side intent.side)
        then refused early
        else decide (early ++ rejected (level_checks options intent.side entry stop take)) intent
            (approval intent.side entry stop take spread)
    validate_levels options intent early _ _ _ spread = refused early

    -- `clock` is `Date.now()`.
    unfoldable pub validate_trade_intent :
        (trim : String → String) (date_parse : String → W) (clock : W)
        → IntentValidationInput W
        → IntentValidationDecision W
    validate_trade_intent trim date_parse clock input =
        let now_ms = get_or input.options.now_ms clock in
        let entry = resolve_entry_price input.intent input.market in
        let stop = parse_finite_price (some (text input.intent.stop_loss)) in
        let take = parse_finite_price (some (text input.intent.take_profit)) in
        let spread = spread_pct input.market in
        validate_levels input.options input.intent
          (rejected (field_checks trim date_parse now_ms input.intent input.market)
            ++ rejected (
                price_checks (get_or input.options.max_spread_pct (number "0.002")) input.intent
                  entry stop take spread))
          entry stop take spread
