-- ===== src/Runtime/RiskManager.antt =====
-- src/runtime/risk-manager.ts and src/runtime/order-router.ts: what becomes of an intent that a strategy's
-- signal was made into. The clock's reading is a text, as `toISOString` writes it.
mod Laws
mod Tests
use coindcx_bot.Prelude.{
  String, Bool, Option, none, some, List, [], ◌∷◌, ◌++◌, if◌then◌else◌, ◌==◌, string_key,
}
use coindcx_bot.Prelude.Dict.{Dict, get, set}
use coindcx_bot.Prelude.Num.{Num}
use coindcx_bot.Execution.TradeIntent.{TradeIntent}
use coindcx_bot.Execution.IntentValidator.{
  IntentValidationInput, IntentValidationDecision, approved, refused, validate_trade_intent,
}

pub record RiskEvaluation {ℓ} (W : Type ℓ) : Type ℓ where
  pub pair : String
  pub evaluated_at : String
  pub decision : IntentValidationDecision W

abbrev pub RiskManager {ℓ} : Type ℓ → Type ℓ
RiskManager W = Dict String (RiskEvaluation W)

pub data OrderRoute : Type 0 where
  paper blocked : OrderRoute

pub record RoutedOrder {ℓ} (W : Type ℓ) : Type ℓ where
  pub route : OrderRoute
  pub pair : String
  pub side : String
  pub intent_id : String
  pub entry_type : String
  pub entry_price : Option String
  pub stop_loss : String
  pub take_profit : String
  pub confidence : W
  pub strategy_id : String
  pub created_at : String
  pub ttl_ms : W
  pub routed_at : String
  pub reason : String

-- `intent.entryPrice ? { entryPrice: intent.entryPrice } : {}`
abbrev given : Option String → Option String
given none = none
given (some s) = if s == "" then none else some s

module _ {ℓ} {W : Type ℓ} where
  unfoldable pub route_order :
      String → TradeIntent W → List (RoutedOrder W) → List (RoutedOrder W) × RoutedOrder W
  route_order now intent history =
      let routed : RoutedOrder W = record {
        route = paper;
        pair = intent.pair;
        side = intent.side;
        intent_id = intent.id;
        entry_type = intent.entry_type;
        entry_price = given intent.entry_price;
        stop_loss = intent.stop_loss;
        take_profit = intent.take_profit;
        confidence = intent.confidence;
        strategy_id = intent.strategy_id;
        created_at = intent.created_at;
        ttl_ms = intent.ttl_ms;
        routed_at = now;
        reason = "runtime skeleton routes approved intents to paper";
      } in
      (history ++ routed ∷ [], routed)

module _ {ℓ} {W : Type ℓ} (num : Num W) (to_text : W → String) (trim : String → String)
    (date_parse : String → W) where
  -- `current(pair)` is `get pair`. `clock` is the validator's `Date.now()` and `now` the manager's clock.
  unfoldable pub evaluate :
      (clock : W) (now : String)
      → IntentValidationInput W
      → RiskManager W
      → RiskManager W × RiskEvaluation W
  evaluate clock now input m =
      let evaluation : RiskEvaluation W = record {
        pair = input.intent.pair;
        evaluated_at = now;
        decision = validate_trade_intent num to_text trim date_parse clock input;
      } in
      (set input.intent.pair evaluation m, evaluation)
