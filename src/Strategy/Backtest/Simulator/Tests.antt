-- ===== src/Strategy/Backtest/Simulator/Tests.antt =====
-- Trades of the tests of the repository, on whole numbers.
use coindcx_bot.Prelude.{ℕ, String, ◌≡◌, refl, true, none, some, List, [], ◌∷◌, arith}
use coindcx_bot.Prelude.Num.{Whole, whole_num}
use coindcx_bot.Prelude.Int.{pos}
use coindcx_bot.Prelude.Sort.{sort}
use coindcx_bot.Marketdata.Candles.Candle.{Candle}
use coindcx_bot.PredictionOutcomes.Resolve.{
  levels_geometry_valid, relevant, scan, resolve_prediction_on_15m_bars,
}
use coindcx_bot.Strategy.Types.{StrategySignal}
use coindcx_bot.Strategy.Types
use coindcx_bot.Execution.TradeIntent.{
  TradeIntent, is_trade_side, build_trade_intent_id, trade_intent_from_signal,
}
use coindcx_bot.Strategy.Backtest.Simulator.{
  tp, sl, flip, OpenPosition, Simulator, advance_clock, trade_of, apply_signal, apply_trade_intent,
  open_of, track_breakeven_lock, exit_tick, mark_to_market, exit_bar, mark_to_market_bar,
}
use coindcx_bot.Strategy.Backtest.Simulator.Ledger.{
  Call, apply_intent, tick, bar_closed, call, run, new_simulator, run-IsSimulator, IsSimulator,
}
use coindcx_bot.Strategy.Backtest.Simulator.Levels.{
  exits, unlimited_long, without_position, missing_take_profit,
}
use coindcx_bot.Strategy.Backtest.Simulator.Exits.{
  exit_of, reasons, run_bars, holding, run_bars-resolve,
}

simulator_code : Unit {0}
unfolding levels_geometry_valid sort relevant scan resolve_prediction_on_15m_bars is_trade_side
    build_trade_intent_id trade_intent_from_signal advance_clock trade_of apply_signal
    apply_trade_intent open_of track_breakeven_lock exit_tick mark_to_market exit_bar
    mark_to_market_bar call run run_bars
simulator_code = tt

abbrev whole : ℕ → Whole
whole n = some (pos n)

abbrev same_text : String → String
same_text s = s

abbrev intent : (side entry stop_loss take_profit : String) → TradeIntent Whole
intent side entry stop_loss take_profit = record {
  id = "intent-1";
  strategy_id = "s";
  pair = "p";
  side = side;
  entry_type = "limit";
  entry_price = some entry;
  stop_loss = stop_loss;
  take_profit = take_profit;
  confidence = whole 1;
  ttl_ms = whole 0;
  created_at = "t";
  reason = "r";
}

abbrev signal : StrategySignal Whole
signal = record {
  side = Types.long;
  confidence = whole 1;
  entry = some "100";
  stop_loss = some "95";
  take_profit = some "110";
  reason = "r";
  no_trade_condition = none;
  management = none;
  ttl_ms = none;
}

abbrev start : Simulator Whole
start = new_simulator whole_num "p" true

abbrev calls : List (Call Whole)
calls =
    apply_intent (intent "LONG" "100" "95" "110")
    ∷ tick 2000 (whole 100)
    ∷ tick 3000 (whole 105)
    ∷ apply_intent (intent "SHORT" "105" "110" "100")
    ∷ tick 4000 (whole 105)
    ∷ bar_closed 5000 (record { high = whole 115; low = whole 90 })
    ∷ []

flips_then_stops :
    exits whole_num same_text (run whole_num calls start) ≡ (flip, whole 100) ∷ (sl, whole 110) ∷ []
unfolding simulator_code
flips_then_stops = refl

run-IsSimulator_example : IsSimulator whole_num (run whole_num calls start)
run-IsSimulator_example = run-IsSimulator whole_num calls "p" true

missing_take_profit_example :
    exits whole_num same_text (
      mark_to_market whole_num 3000 (whole 96) (
        mark_to_market whole_num 2000 (whole 100) (
          apply_signal whole_num same_text "t"
            (unlimited_long whole_num same_text signal)
            (without_position whole_num same_text start))))
    ≡ (tp, whole 0) ∷ []
missing_take_profit_example =
    missing_take_profit whole_num same_text start signal "t" 2000 3000 (whole 100) (whole 96) refl
      refl

abbrev candle : ℕ → ℕ → ℕ → Candle Whole
candle t high low = record {
  timestamp = t;
  open_price = whole low;
  high = whole high;
  low = whole low;
  close = whole high;
  volume = whole 1;
}

abbrev bars : List (Candle Whole)
bars = candle 0 105 96 ∷ candle 900_000 112 99 ∷ candle 1_800_000 112 90 ∷ []

abbrev held : OpenPosition Whole
held = record {
  side = "LONG";
  entry = whole 100;
  stop_loss = whole 95;
  take_profit = whole 110;
  risk_per_unit = whole 5;
  breakeven_lock_price = whole 105;
  reached_breakeven_lock_at = none;
  opened_at = 0;
  ttl_ms = whole 0;
  reason = "r";
}

takes_profit :
    exit_of
      (resolve_prediction_on_15m_bars whole_num "LONG"
        (whole 100)
        (whole 95)
        (whole 110)
        0
        9_000_000
        9_000_000
        bars).0
    ≡ tp ∷ []
unfolding simulator_code
takes_profit = refl

run_bars-resolve_example :
    reasons whole_num
      (run_bars whole_num (relevant whole_num 0 9_000_000 bars) (holding whole_num 0 [] "p" held))
    ≡ exit_of
        (resolve_prediction_on_15m_bars whole_num "LONG"
          (whole 100)
          (whole 95)
          (whole 110)
          0
          9_000_000
          9_000_000
          bars).0
unfolding simulator_code
run_bars-resolve_example =
    run_bars-resolve whole_num 0 9_000_000 9_000_000 "p" bars held (λ ts. refl) refl
      (omega arith, (omega arith, (omega arith, tt)))
