-- ===== src/Marketdata/Book/BookManager/Tests.antt =====
-- Two pairs, one of which waits for its snapshot.
use coindcx_bot.Prelude.{String, ◌≡◌, refl, none, List, [], ◌∷◌, ◌==◌, string_key, filter}
use coindcx_bot.Prelude.Dict.{get, set}
use coindcx_bot.Prelude.Num.{whole_num, Whole-IsOrdered}
use coindcx_bot.Marketdata.Book.OrderBook.{OrderBook, resyncing, new_book, apply_snapshot}
use coindcx_bot.Marketdata.Book.OrderBook.Quoted.{IsQuoted}
use coindcx_bot.Marketdata.Book.BookManager.{DepthFrame, BookManager, on_depth_snapshot}
use coindcx_bot.Marketdata.Book.BookManager.Laws.{
  Op, depth_snapshot, depth_delta, op_pair, step, run, book_run, run-book_run, run-IsQuoted,
}

abbrev frame : String → DepthFrame
frame qty = record { asks = ("101", qty) ∷ []; bids = []; ts = 5; seq = none; prev_seq = none }

abbrev resyncing_book : OrderBook
resyncing_book = record {
  pair = "SOL";
  asks = ("101", "4") ∷ [];
  bids = [];
  state = resyncing;
  last_seq = 0;
  last_ts = 1;
}

abbrev waiting : BookManager
waiting = record { books = ("SOL", resyncing_book) ∷ []; recent_frames = [] }

abbrev mixed : List Op
mixed =
    depth_delta "SOL" (frame "7")
    ∷ depth_snapshot "BTC" (frame "1")
    ∷ depth_delta "SOL" (frame "0")
    ∷ []

run-book_run_example :
    get "BTC" (run whole_num waiting mixed).books
    ≡ book_run whole_num (get "BTC" waiting.books) (filter (λ o. op_pair o == "BTC") mixed)
run-book_run_example = run-book_run whole_num waiting mixed "BTC"

abbrev first_snapshot : List Op
first_snapshot = depth_snapshot "SOL" (frame "4") ∷ []

run-IsQuoted_example :
    IsQuoted whole_num (apply_snapshot whole_num (new_book "SOL") (("101", "4") ∷ []) [] 5 none).0
unfolding run step on_depth_snapshot get set
run-IsQuoted_example = run-IsQuoted whole_num Whole-IsOrdered first_snapshot "SOL" refl
