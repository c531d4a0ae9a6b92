-- ===== src/Marketdata/Book/Resync.antt =====
-- src/marketdata/book/resync.ts. A resync is begun by a request and ends later, in one of the ways of
-- `ResyncEnd`; the subscription, the timer and the REST budget decide which. Durations are left out.
mod Laws
mod Tests
use coindcx_bot.Prelude.{
  String, Bool, true, false, Option, none, some, List, [], ◌∷◌, ◌++◌, if◌then◌else◌, string_key,
}
use coindcx_bot.Prelude.Dict.{get, set}
use coindcx_bot.Prelude.Num.{Num}
use coindcx_bot.Marketdata.Book.OrderBook.{OrderBook, resyncing, set_state}
use coindcx_bot.Marketdata.Book.BookManager.{BookManager, DepthFrame, on_depth_snapshot}
use coindcx_bot.Strategy.Scheduler.InFlight.{has_pair, delete_pair}

-- A snapshot came over the socket; the timer ran out, the budget was granted and REST answered; the
-- budget was exhausted; or something threw.
pub data ResyncEnd : Type 0 where
  ws_frame budget_exhausted : ResyncEnd
  rest_frame : DepthFrame → ResyncEnd
  thrown : (message : String) → ResyncEnd

pub data ResyncEvent : Type 0 where
  resynced : (pair reason : String) → (via_rest : Bool) → ResyncEvent
  failed : (pair reason error : String) → ResyncEvent

pub record ResyncOrchestrator : Type 0 where
  pub manager : BookManager
  pub in_flight : List String

abbrev mark : Option OrderBook → String → BookManager → BookManager
mark none pair m = m
mark (some b) pair m = record m { books = set pair (set_state b resyncing) m.books }

abbrev pub mark_resyncing : String → BookManager → BookManager
mark_resyncing pair m = mark (get pair m.books) pair m

-- The part of `requestResync` before its first wait, and whether it goes on.
unfoldable pub begin_resync : (pair : String) → ResyncOrchestrator → ResyncOrchestrator × Bool
begin_resync pair o = if has_pair pair o.in_flight then (o, false) else (
  record o { manager = mark_resyncing pair o.manager; in_flight = o.in_flight ++ pair ∷ [] },
  true,
)

abbrev pub resync_event : (pair reason : String) → ResyncEnd → ResyncEvent
resync_event pair reason ws_frame = resynced pair reason false
resync_event pair reason (rest_frame frame) = resynced pair reason true
resync_event pair reason budget_exhausted = failed pair reason "budget_exhausted"
resync_event pair reason (thrown message) = failed pair reason message

module _ {ℓ} {W : Type ℓ} (num : Num W) where
  abbrev pub after_end : (pair : String) → ResyncEnd → BookManager → BookManager
  after_end pair (rest_frame frame) m = (on_depth_snapshot num m pair frame).0
  after_end pair _ m = m

  -- The part of `requestResync` behind its waits.
  unfoldable pub end_resync :
      (pair reason : String) → ResyncEnd → ResyncOrchestrator → ResyncOrchestrator × ResyncEvent
  end_resync pair reason e o = (
    record o { manager = after_end pair e o.manager; in_flight = delete_pair pair o.in_flight },
    resync_event pair reason e,
  )
