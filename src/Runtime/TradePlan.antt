-- ===== src/Runtime/TradePlan.antt =====
-- src/runtime/trade-plan.ts. A decimal constant is the quotient of whole numbers that rounds to it. Of the
-- score only the two totals are read; the constants of the metadata are left out.
mod Laws
mod Tests
use coindcx_bot.Prelude.{
  ℕ, String, Bool, true, false, not, Option, none, some, List, [], ◌∷◌, if◌then◌else◌, get_or, ◌==◌,
  string_key,
}
use coindcx_bot.Prelude.Num.{Num}
use coindcx_bot.Execution.TradeIntent.{TradeIntent}
use coindcx_bot.Execution.IntentValidator.{Value, text, value, IntentMarketContext, finite_price}

pub record ConfluenceScore {ℓ} (W : Type ℓ) : Type ℓ where
  pub long_score : W
  pub short_score : W

pub record TradePlanTargetLadder {ℓ} (W : Type ℓ) : Type ℓ where
  pub tp1 : W
  pub tp2 : W
  pub tp3_anchor : W
  pub tp3_atr_multiple : W

pub record TradePlan {ℓ} (W : Type ℓ) : Type ℓ where
  pub side : String
  pub entry : W
  pub stop_loss : W
  pub quantity : W
  pub leverage : W
  pub risk_capital : W
  pub targets : TradePlanTargetLadder W
  pub breakeven_plus : W
  pub liquidation_buffer_satisfied : Bool
  pub violations : List String
  pub regime : String
  pub stop_distance_pct : W
  pub liquidation_distance_pct : W

pub record TradePlanInput {ℓ} (W : Type ℓ) : Type ℓ where
  pub intent : TradeIntent W
  pub confluence : ConfluenceScore W
  pub regime : String
  pub market : IntentMarketContext W
  pub account_equity : Option W
  pub risk_capital_fraction : Option W
  pub atr_percent : Option W
  pub fee_rate : Option W
  pub funding_rate : Option W
  pub max_venue_leverage : Option W

-- `if (b) violations.push(text)`, one after the other
unfoldable pub violations_of : List (Bool × String) → List String
violations_of [] = []
violations_of ((b, v) ∷ checks) = let later = violations_of checks in if b then v ∷ later else later

module _ {ℓ} {W : Type ℓ} (num : Num W) where
  open num use {of_ℕ, number, lt, le, is_finite, add, sub, mul, div}

  abbrev pub hard_max_leverage : W
  hard_max_leverage = of_ℕ 10

  -- `Math.min` and `Math.max`: NaN if one of the two is.
  unfoldable pub js_min : W → W → W
  js_min x y = if not (le x x) then x else (if not (le y y) then y else (if lt y x then y else x))

  unfoldable pub js_max : W → W → W
  js_max x y = if not (le x x) then x else (if not (le y y) then y else (if lt x y then y else x))

  abbrev abs : W → W
  abs x = if lt x (of_ℕ 0) then sub (of_ℕ 0) x else x

  unfoldable pub parse_positive : Option (Value W) → Option W
  parse_positive none = none
  parse_positive (some (text s)) = finite_price num (number s)
  parse_positive (some (value n)) = finite_price num n

  abbrev pub positive : Option W → Option W
  positive none = none
  positive (some n) = finite_price num n

  unfoldable pub parse_non_negative : Option W → Option W
  parse_non_negative none = none
  parse_non_negative (some n) =
      if not (is_finite n) then none else (if lt n (of_ℕ 0) then none else some n)

  unfoldable pub dominant_side : ConfluenceScore W → Option String
  dominant_side score =
      if lt score.short_score score.long_score
      then some "LONG"
      else (if lt score.long_score score.short_score then some "SHORT" else none)

  abbrev pub directional_offset : String → (base distance : W) → W
  directional_offset side base distance =
      if side == "LONG" then add base distance else sub base distance

  unfoldable pub estimate_liquidation_price : String → (entry leverage : W) → W
  estimate_liquidation_price side entry leverage =
      let share = div (of_ℕ 1) leverage in
      if side == "LONG" then mul entry (sub (of_ℕ 1) share) else mul entry (add (of_ℕ 1) share)

  abbrev text_value : Option String → Option (Value W)
  text_value none = none
  text_value (some s) = some (text s)

  -- What `compute` finds before it sizes the position.
  unfoldable pub side_of : TradePlanInput W → String
  side_of input = get_or (dominant_side input.confluence) input.intent.side

  unfoldable pub entry_of : TradePlanInput W → W
  entry_of input =
      get_or (parse_positive (text_value input.intent.entry_price))
        (get_or (parse_positive input.market.mark_price) (of_ℕ 0))

  unfoldable pub structural_stop : TradePlanInput W → W
  structural_stop input = get_or (parse_positive (some (text input.intent.stop_loss))) (of_ℕ 0)

  unfoldable pub stop_loss_of : TradePlanInput W → W
  stop_loss_of input =
      let atr =
        mul (entry_of input) (get_or (positive input.atr_percent) (div (of_ℕ 1) (of_ℕ 100))) in
      let buffered =
        (if side_of input == "LONG"
          then sub (structural_stop input) atr
          else add (structural_stop input) atr) in
      if lt (of_ℕ 0) buffered then buffered else structural_stop input

  unfoldable pub risk_per_unit : TradePlanInput W → W
  risk_per_unit input = abs (sub (entry_of input) (stop_loss_of input))

  abbrev pub equity_of : TradePlanInput W → W
  equity_of input = get_or (positive input.account_equity) (of_ℕ 10_000)

  abbrev pub risk_capital_of : TradePlanInput W → W
  risk_capital_of input =
      mul (equity_of input)
        (get_or (positive input.risk_capital_fraction) (div (of_ℕ 1) (of_ℕ 100)))

  unfoldable pub leverage_cap : TradePlanInput W → W
  leverage_cap input = js_min hard_max_leverage (
      get_or (positive input.max_venue_leverage)
        (get_or (parse_positive input.market.max_leverage) (of_ℕ 10)))

  unfoldable pub quantity_uncapped : TradePlanInput W → W
  quantity_uncapped input =
      if lt (of_ℕ 0) (risk_per_unit input)
      then div (risk_capital_of input) (risk_per_unit input)
      else of_ℕ 0

  unfoldable pub capped_quantity : TradePlanInput W → W
  capped_quantity input =
      if lt (of_ℕ 0) (entry_of input)
      then js_min (quantity_uncapped input)
          (div (mul (equity_of input) (leverage_cap input)) (entry_of input))
      else of_ℕ 0

  abbrev pub quantity_of : TradePlanInput W → W
  quantity_of input = js_max (of_ℕ 0) (capped_quantity input)

  unfoldable pub leverage_of : TradePlanInput W → W
  leverage_of input =
      if lt (of_ℕ 0) (equity_of input)
      then js_max (of_ℕ 1) (
          js_min (leverage_cap input)
            (div (mul (quantity_of input) (entry_of input)) (equity_of input)))
      else leverage_cap input

  abbrev over_entry : W → W → W → W
  over_entry entry x other = if lt (of_ℕ 0) entry then div x entry else other

  unfoldable pub liquidation_distance : TradePlanInput W → W
  liquidation_distance input =
      let price =
        get_or (parse_positive input.market.liquidation_price)
          (estimate_liquidation_price (side_of input) (entry_of input) (leverage_of input)) in
      over_entry (entry_of input) (abs (sub (entry_of input) price)) (of_ℕ 0)

  unfoldable pub stop_distance : TradePlanInput W → W
  stop_distance input = over_entry (entry_of input) (risk_per_unit input) (of_ℕ 1)

  unfoldable pub buffer_satisfied : TradePlanInput W → Bool
  buffer_satisfied input = le (mul (stop_distance input) (of_ℕ 2)) (liquidation_distance input)

  abbrev no_dominance : Option String → Bool
  no_dominance none = true
  no_dominance (some side) = false

  abbrev checks : TradePlanInput W → List (Bool × String)
  checks input =
      (no_dominance (dominant_side input.confluence), "direction_from_score_dominance_unavailable")
      ∷ (not (side_of input == input.intent.side), "intent_side_conflicts_with_score_dominance")
      ∷ (le (entry_of input) (of_ℕ 0), "entry_price_unavailable")
      ∷ (le (structural_stop input) (of_ℕ 0), "structural_invalidation_stop_unavailable")
      ∷ (le (risk_per_unit input) (of_ℕ 0), "risk_per_unit_unavailable")
      ∷ (le (quantity_of input) (of_ℕ 0), "risk_capital_based_quantity_unavailable")
      ∷ (
        lt (capped_quantity input) (quantity_uncapped input),
        "quantity_capped_by_hard_leverage_limit",
      )
      ∷ (lt hard_max_leverage (leverage_of input), "hard_leverage_cap_exceeded")
      ∷ (not (buffer_satisfied input), "liquidation_buffer_rule_failed")
      ∷ []

  unfoldable pub compute : TradePlanInput W → TradePlan W
  compute input =
      let side = side_of input in
      let entry = entry_of input in
      let tp2 = directional_offset side entry (mul (risk_per_unit input) (of_ℕ 3)) in
      let fee = get_or (parse_non_negative input.fee_rate) (div (of_ℕ 1) (of_ℕ 1000)) in
      let funding = get_or (parse_non_negative input.funding_rate) (div (of_ℕ 5) (of_ℕ 10_000)) in
      record {
        side = side;
        entry = entry;
        stop_loss = stop_loss_of input;
        quantity = quantity_of input;
        leverage = leverage_of input;
        risk_capital = risk_capital_of input;
        targets = record {
          tp1 = directional_offset side entry (risk_per_unit input);
          tp2 = tp2;
          tp3_anchor = tp2;
          tp3_atr_multiple = of_ℕ 3;
        };
        breakeven_plus = directional_offset side entry (mul entry (add (mul fee (of_ℕ 2)) funding));
        liquidation_buffer_satisfied = buffer_satisfied input;
        violations = violations_of (checks input);
        regime = input.regime;
        stop_distance_pct = stop_distance input;
        liquidation_distance_pct = liquidation_distance input;
      }
