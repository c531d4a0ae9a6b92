-- ===== src/Strategy/Scheduler/IntervalDriver/Tests.antt =====
-- An entry of two pairs that fires twice.
use coindcx_bot.Prelude.{◌≤◌, ◌≡◌, refl, true, [], ◌∷◌, map, ◌↔◌, arith}
use coindcx_bot.Prelude.Dict.{set, delete}
use coindcx_bot.Strategy.Scheduler.InFlight.{has_pair, count}
use coindcx_bot.Strategy.Scheduler.IntervalDriver.{
  Entry, new_entry, add, remove, start, stop, fire_pairs, fire, end_evaluation,
}
use coindcx_bot.Strategy.Scheduler.IntervalDriver.Laws.{
  World, Reachable, fired, ended, started, stepped, single_flight, pairs_of,
}

interval_code : Unit {0}
unfolding set delete add remove start stop fire_pairs fire end_evaluation
interval_code = tt

abbrev entry : Entry
entry = new_entry "s" ("BTC" ∷ "ETH" ∷ "BTC" ∷ []) 1000

abbrev world : World
world = ((end_evaluation "BTC" (fire entry).0), "ETH" ∷ [])

again : pairs_of (fire world.0).1 ≡ "BTC" ∷ []
unfolding interval_code
again = refl

timers : map (λ e. e.1.timer) (start (add "s" ("BTC" ∷ []) 5 (remove "t" []))) ≡ true ∷ []
unfolding interval_code
timers = refl

reached : Reachable world
unfolding interval_code
reached =
    stepped (stepped (started "s" ("BTC" ∷ "ETH" ∷ "BTC" ∷ []) 1000) (fired entry []))
      (ended "BTC" (fire entry).0 ("BTC" ∷ "ETH" ∷ []) (omega arith))

single_flight_example :
    (count "ETH" world.1 ≤ 1)
    × ((has_pair "ETH" world.0.pending ≡ true) ↔ (count "ETH" world.1 ≡ 1))
single_flight_example = single_flight world "ETH" reached
