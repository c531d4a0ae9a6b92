-- ===== src/Account/HeartbeatWatcher/Tests.antt =====
-- A watcher whose position channel speaks once.
use coindcx_bot.Prelude.{ℕ, ◌≤◌, ◌≡◌, refl, List, [], ◌∷◌}
use coindcx_bot.Account.Types.{Entity, position}
use coindcx_bot.Account.HeartbeatWatcher.{new_watcher, touch, tick_all, tick}
use coindcx_bot.Account.HeartbeatWatcher.Laws.{Event, touched, ticked, run, count, stale_once}

heartbeat_code : Unit {0}
unfolding new_watcher touch tick_all tick run
heartbeat_code = tt

abbrev floors : Entity → ℕ
floors ch = 1000

abbrev events : List Event
events = touched position 100 ∷ ticked 900 ∷ ticked 1100 ∷ ticked 2000 ∷ []

once : (run events (new_watcher floors 0)).1 ≡ position ∷ []
unfolding heartbeat_code
once = refl

stale_once_example : count position (run events (new_watcher floors 0)).1 ≤ 1
stale_once_example = stale_once position floors 0 events
