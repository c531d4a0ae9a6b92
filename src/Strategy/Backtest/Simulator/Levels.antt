-- ===== src/Strategy/Backtest/Simulator/Levels.antt =====
-- The levels of the position that a signal without a level opens.
use coindcx_bot.Prelude.{
  ℕ, String, ◌≡◌, refl, ap, ◌∙◌, true, none, some, List, [], ◌∷◌, ◌++◌, map, arith,
}
use mathlib.Core.List.{map-append}
use coindcx_bot.Prelude.Num.{Num}
use coindcx_bot.Strategy.Types.{StrategySignal}
use coindcx_bot.Strategy.Types
use coindcx_bot.Execution.TradeIntent.{TradeIntent, is_trade_side, trade_intent_from_signal}
use coindcx_bot.Strategy.Backtest.Simulator.{
  ExitReason, hits_tp, tp, mark_pending, mark_open, OpenPosition, Simulator, advance_clock,
  trade_of, apply_signal, apply_trade_intent, open_of, track_breakeven_lock, exit_tick,
  mark_to_market,
}

module _ {ℓ} {W : Type ℓ} (num : Num W) (date_text : String → String) where
  open num use {number, is_finite, le}

  abbrev pub exits : Simulator W → List (ExitReason × W)
  exits s = map (λ t. (t.exit_reason, t.exit_price)) s.ledger

  track-keeps :
      (u : ℕ) (x y : W) (p : OpenPosition W)
      → ((track_breakeven_lock num u x y p).side ≡ p.side)
        × ((track_breakeven_lock num u x y p).take_profit ≡ p.take_profit)
  unfolding track_breakeven_lock
  track-keeps u x y p = ground arith

  exit_at_tp :
      (u : ℕ) (next : W) (s : Simulator W) (p : OpenPosition W)
      → hits_tp num p next next ≡ true
      → exits (exit_tick num u next p s) ≡ exits s ++ (tp, p.take_profit) ∷ []
  unfolding exit_tick trade_of
  exit_at_tp u next s p h = rw h (
      map-append (λ t. (t.exit_reason, t.exit_price)) s.ledger
        (trade_of num u p.take_profit tp p ∷ []))

  -- A tick that reaches the take profit of a LONG position.
  leaves_at_tp :
      (u : ℕ) (next : W) (s : Simulator W) (p : OpenPosition W)
      → s.pending ≡ none
      → s.position ≡ some p
      → p.side ≡ "LONG"
      → le p.take_profit next ≡ true
      → exits (mark_to_market num u next s) ≡ exits s ++ (tp, p.take_profit) ∷ []
  unfolding mark_to_market advance_clock
  leaves_at_tp u next s p pn po e h =
      let q = track_breakeven_lock num u next next p in
      let (side, level) = track-keeps u next next p in
      let k : hits_tp num q next next ≡ true = rw (side, level, e) h in
      let later = advance_clock num u s in
      ap (λ o. exits (mark_pending num u next o later)) pn
      ∙ ap (λ o. exits (mark_open num u next o later)) po
      ∙ (exit_at_tp u next later q k ∙ ap (λ x. exits s ++ (tp, x) ∷ []) level)

  open_at :
      (t : ℕ) (price : W) (s : Simulator W) (i : TradeIntent W)
      → s.pending ≡ some i
      → is_finite price ≡ true
      → mark_to_market num t price s
        ≡ record (advance_clock num t s) { position = some (open_of num t price i); pending = none }
  unfolding mark_to_market advance_clock
  open_at t price s i e f = rw (e, f) refl

  abbrev pub unlimited_long : StrategySignal W → StrategySignal W
  unlimited_long signal = record signal { side = Types.long; take_profit = none }

  abbrev pub without_position : Simulator W → Simulator W
  without_position s = record s { position = none }

  -- A LONG signal without a take profit, applied when no position is open, is left as a take-profit
  -- hit at the price `Number('')` on the next tick, if that tick is at least this price and a finite
  -- price has opened the position.
  pub missing_take_profit :
      (s : Simulator W) (signal : StrategySignal W) (created_at : String) (t u : ℕ) (price next : W)
      → is_finite price ≡ true
      → le (number "") next ≡ true
      → exits (
          mark_to_market num u next (
            mark_to_market num t price
              (apply_signal num date_text created_at (unlimited_long signal) (without_position s))))
        ≡ exits s ++ (tp, number "") ∷ []
  unfolding advance_clock apply_signal apply_trade_intent trade_intent_from_signal is_trade_side
      open_of
  missing_take_profit s signal created_at t u price next fin hit =
      let applied =
        apply_signal num date_text created_at (unlimited_long signal) (without_position s) in
      ap (λ x. exits (mark_to_market num u next x)) (open_at t price applied _ refl fin)
      ∙ leaves_at_tp u next _ _ refl refl refl hit
