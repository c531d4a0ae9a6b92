-- ===== src/Runtime/RiskManager/Laws.antt =====
-- The manager's memory, over whole histories of evaluations.
use coindcx_bot.Prelude.{
  String, ◌≡◌, refl, ap, ◌∙◌, Option, some, List, [], ◌∷◌, if◌then◌else◌, ◌==◌, string_key,
}
use coindcx_bot.Prelude.Dict.{get, get-set}
use coindcx_bot.Prelude.Num.{Num}
use coindcx_bot.Execution.IntentValidator.{IntentValidationInput, validate_trade_intent}
use coindcx_bot.Runtime.RiskManager.{RiskEvaluation, RiskManager, evaluate}

module _ {ℓ} {W : Type ℓ} (num : Num W) (to_text : W → String) (trim : String → String)
    (date_parse : String → W) where
  -- The readings of both clocks, and the input.
  abbrev pub Call : Type ℓ
  Call = W × String × IntentValidationInput W

  unfoldable pub run : List Call → RiskManager W → RiskManager W
  run [] m = m
  run (c ∷ cs) m = run cs (evaluate num to_text trim date_parse c.0 c.1 c.2 m).0

  -- The last decision on a pair, found without the manager.
  unfoldable pub last_decision :
      String → List Call → Option (RiskEvaluation W) → Option (RiskEvaluation W)
  last_decision pair [] old = old
  last_decision pair (c ∷ cs) old = last_decision pair cs (
      if c.2.intent.pair == pair
      then some (record {
        pair = c.2.intent.pair;
        evaluated_at = c.1;
        decision = validate_trade_intent num to_text trim date_parse c.0 c.2;
      })
      else old)

  -- After any interleaving of evaluations the current evaluation of a pair is the validator's decision on
  -- the last intent for it, or what it was if there is none.
  pub run-last_decision :
      (pair : String) (cs : List Call) (m : RiskManager W)
      → get pair (run cs m) ≡ last_decision pair cs (get pair m)
  unfolding run last_decision evaluate
  run-last_decision pair [] m = refl
  run-last_decision pair (c ∷ cs) m =
      run-last_decision pair cs (evaluate num to_text trim date_parse c.0 c.1 c.2 m).0
      ∙ ap (last_decision pair cs)
          (get-set c.2.intent.pair pair (evaluate num to_text trim date_parse c.0 c.1 c.2 m).1 m)
