-- ===== src/Marketdata/Book/Resync/Tests.antt =====
-- A pair that is asked for twice, fails and is asked for again.
use coindcx_bot.Prelude.{◌+◌, ◌≤◌, ◌≡◌, refl, true, none, List, [], ◌∷◌}
use coindcx_bot.Prelude.Num.{whole_num}
use coindcx_bot.Strategy.Scheduler.InFlight.{count}
use coindcx_bot.Marketdata.Book.BookManager.{new_manager, DepthFrame}
use coindcx_bot.Marketdata.Book.Resync.{
  ws_frame, budget_exhausted, rest_frame, resynced, failed, begin_resync, end_resync,
}
use coindcx_bot.Marketdata.Book.Resync.Laws.{
  Event, requested, ended, snapshot_frame, start, reports, event, run, resyncs_accounted,
}

resync_code : Unit {0}
unfolding begin_resync end_resync event run
resync_code = tt

abbrev frame : DepthFrame
frame = record { asks = ("10", "1") ∷ []; bids = []; ts = 1; seq = none; prev_seq = none }

abbrev events : List Event
events =
    snapshot_frame "SOL" frame
    ∷ requested "SOL"
    ∷ requested "SOL"
    ∷ requested "ETH"
    ∷ ended "SOL" "gap" budget_exhausted
    ∷ ended "SOL" "gap" ws_frame
    ∷ requested "SOL"
    ∷ ended "SOL" "gap" (rest_frame frame)
    ∷ []

reported :
    (run whole_num events (start new_manager)).emitted
    ≡ resynced "SOL" "gap" true ∷ failed "SOL" "gap" "budget_exhausted" ∷ []
unfolding resync_code
reported = refl

resyncs_accounted_example :
    (count "SOL" (run whole_num events (start new_manager)).running ≤ 1)
    × (count "SOL" (run whole_num events (start new_manager)).begun
        ≡ count "SOL" (run whole_num events (start new_manager)).running
          + reports "SOL" (run whole_num events (start new_manager)).emitted)
resyncs_accounted_example = resyncs_accounted whole_num events new_manager "SOL"
