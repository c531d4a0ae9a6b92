-- ===== src/Marketdata/Book/BookManager.antt =====
-- src/marketdata/book/book-manager.ts: the books of all pairs, and the last frame of each. A call
-- returns the new manager and the events that it emits, in their order.
pub mod Laws
mod Tests
use coindcx_bot.Prelude.{
  ℕ, String, Bool, true, false, Option, none, some, List, [], ◌∷◌, ◌==◌, string_key, if◌then◌else◌,
  get_or,
}
use coindcx_bot.Prelude.Dict.{Dict, get, set}
use coindcx_bot.Prelude.Num.{Num}
use coindcx_bot.Marketdata.Book.OrderBook.{
  OrderBook, BookState, init, live, resyncing, broken, BookEvent, snapshot, applied, seq_mismatch,
  delete_unknown_ask, delete_unknown_bid, new_book, apply_snapshot, apply_delta,
}

pub record DepthFrame : Type 0 where
  pub asks : List (String × String)
  pub bids : List (String × String)
  pub ts : ℕ
  pub seq : Option ℕ
  pub prev_seq : Option ℕ

pub record BookManager : Type 0 where
  pub books : Dict String OrderBook
  pub recent_frames : Dict String DepthFrame

pub data ManagerEvent : Type 0 where
  gap : String → BookEvent → ManagerEvent
  snapshot_received : String → DepthFrame → ManagerEvent

abbrev pub new_manager : BookManager
new_manager = record { books = []; recent_frames = [] }

-- The listener that `getOrCreate` puts on a book forwards its gaps alone.
pub forwarded : String → BookEvent → List ManagerEvent
forwarded pair snapshot = []
forwarded pair applied = []
forwarded pair e = gap pair e ∷ []

-- `!b || b.state() === 'init' || b.state() === 'resyncing'`, negated
pub takes_deltas : BookState → Bool
takes_deltas init = false
takes_deltas resyncing = false
takes_deltas live = true
takes_deltas broken = true

module _ {ℓ} {W : Type ℓ} (num : Num W) where
  pub on_depth_snapshot : BookManager → String → DepthFrame → BookManager × List ManagerEvent
  on_depth_snapshot m pair frame =
      let b = get_or (get pair m.books) (new_book pair) in
      let (b', e) = apply_snapshot num b frame.asks frame.bids frame.ts frame.seq in
      (
        record { books = set pair b' m.books; recent_frames = set pair frame m.recent_frames },
        snapshot_received pair frame ∷ [],
      )

  abbrev delta_into :
      BookManager → String → DepthFrame → Option OrderBook → BookManager × List ManagerEvent
  delta_into m pair frame none = (m, [])
  delta_into m pair frame (some b) =
      let r = apply_delta num b frame.asks frame.bids frame.ts frame.seq frame.prev_seq in
      if takes_deltas b.state
      then (
        record { books = set pair r.0 m.books; recent_frames = set pair frame m.recent_frames },
        forwarded pair r.1,
      )
      else (m, [])

  pub on_depth_delta : BookManager → String → DepthFrame → BookManager × List ManagerEvent
  on_depth_delta m pair frame = delta_into m pair frame (get pair m.books)
