-- ===== src/Runtime/BreakevenProtectionWorker/Tests.antt =====
-- Two ticks that overlap, and a position that is armed at the second try.
use coindcx_bot.Prelude.{
  ℕ, ◌+◌, String, ◌≡◌, refl, true, false, Option, some, none, List, [], ◌∷◌, map, if◌then◌else◌,
}
use coindcx_bot.Prelude.Num.{Whole, whole_num}
use coindcx_bot.Prelude.Int.{pos}
use coindcx_bot.Account.Types.{Position, long, ws}
use coindcx_bot.Strategy.Scheduler.InFlight.{has_pair, count}
use coindcx_bot.Runtime.BreakevenProtectionWorker.{
  finite_positive, progress_pct, arm_prices, next_callback, begin_tick, end_callback,
}
use coindcx_bot.Runtime.BreakevenProtectionWorker.Laws.{
  Event, tick_started, callback_ended, World, start, running, event, run, armed_once,
}

breakeven_code : Unit {0}
unfolding finite_positive progress_pct arm_prices next_callback begin_tick end_callback event run
breakeven_code = tt

abbrev held : String → Position
held id = record {
  id = id;
  pair = "BTC";
  side = long;
  active_pos = "1";
  avg_price = "10";
  mark_price = none;
  liquidation_price = none;
  leverage = none;
  margin_currency = "INR";
  unrealized_pnl = "0";
  realized_pnl = "0";
  opened_at = none;
  updated_at = "t";
  source = ws;
}

abbrev at_price : ℕ → String → Option Whole
at_price n pair = some (some (pos n))

abbrev tick_at : ℕ → Event Whole
tick_at n = tick_started (at_price n) (held "a" ∷ held "b" ∷ [])

-- The first tick is too early. The second waits for `a` when the third comes to `b`.
abbrev overlapping : List (Event Whole)
overlapping = tick_at 15 ∷ tick_at 25 ∷ tick_at 25 ∷ tick_at 25 ∷ []

-- The callback of `a` fails, and another tick tries it again.
abbrev events : List (Event Whole)
events =
    tick_at 25
    ∷ tick_at 25
    ∷ callback_ended 1 true (at_price 25)
    ∷ callback_ended 0 false (at_price 25)
    ∷ tick_at 30
    ∷ tick_at 30
    ∷ callback_ended 0 false (at_price 30)
    ∷ []

abbrev after : List (Event Whole) → World Whole
after vs = run whole_num (some (pos 1)) vs start

overlap_waits : map (λ t. t.arm.position_id) (after overlapping).worker.ticks ≡ "b" ∷ "a" ∷ []
unfolding breakeven_code
overlap_waits = refl

second_try : (after events).succeeded ≡ "b" ∷ "a" ∷ []
unfolding breakeven_code
second_try = refl

armed_once_example :
    running "a" (after events).worker.ticks + count "a" (after events).succeeded
    ≡ (if has_pair "a" (after events).worker.armed then 1 else 0)
armed_once_example = armed_once whole_num (some (pos 1)) events "a"
