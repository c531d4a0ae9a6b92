-- ===== src/Strategy/Scheduler/TickDriver/Tests.antt =====
-- Messages that are texts and name their pair.
use coindcx_bot.Prelude.{◌+◌, String, ◌≡◌, refl, some, List, [], ◌∷◌, false}
use coindcx_bot.Prelude.Dict.{get, set}
use coindcx_bot.Strategy.Types.{new_trade}
use coindcx_bot.Strategy.Scheduler.InFlight.{count}
use coindcx_bot.Strategy.Scheduler.TickDriver.{
  Entry, new_entry, add, start, stop, dropped, drops_of, dispatch_pair, dispatch, end_evaluation,
}
use coindcx_bot.Strategy.Scheduler.TickDriver.Laws.{
  Event, message, ended, new_world, event, run, received, conservation,
}

tick_code : Unit {0}
unfolding get set add start stop dropped dispatch_pair dispatch end_evaluation event run
tick_code = tt

abbrev entry : Entry
entry = new_entry "s" ("BTC" ∷ []) (new_trade ∷ [])

abbrev events : List (Event String)
events =
    message new_trade "BTC"
    ∷ message new_trade "BTC"
    ∷ message new_trade "ETH"
    ∷ ended "BTC"
    ∷ message new_trade "BTC"
    ∷ []

started_two : (run some events (new_world entry)).log ≡ "BTC" ∷ "BTC" ∷ []
unfolding tick_code
started_two = refl

drops_one : drops_of "BTC" (run some events (new_world entry)).entry ≡ 1
unfolding tick_code
drops_one = refl

no_drops :
    dropped "s" "BTC"
      (stop (start (add "s" ("BTC" ∷ []) [] (record { entries = []; started = false }))))
    ≡ 0
unfolding tick_code
no_drops = refl

conservation_example :
    count "BTC" (run some events (new_world entry)).log
      + drops_of "BTC" (run some events (new_world entry)).entry
    ≡ received some "BTC" ("BTC" ∷ []) events + (0 + drops_of "BTC" entry)
conservation_example = conservation some "BTC" events (new_world entry)
