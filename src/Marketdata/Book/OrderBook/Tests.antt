-- ===== src/Marketdata/Book/OrderBook/Tests.antt =====
-- A small book, with whole prices and quantities.
use coindcx_bot.Prelude.{String, ◌≡◌, refl, none, some, List, [], ◌∷◌, string_key}
use coindcx_bot.Prelude.Dict.{get, set, delete}
use coindcx_bot.Prelude.Num.{whole_num, Whole-IsOrdered}
use coindcx_bot.Prelude.Sort.{sort, insert_sorted}
use coindcx_bot.Marketdata.Book.OrderBook.{
  OrderBook, live, applied, seq_mismatch, delete_unknown_ask, new_book, is_gap, is_positive,
  is_zero, snapshot_levels, apply_level, apply_levels, apply_snapshot, apply_delta, ask_after,
  bid_after, top_asks, top_bids, best_ask, best_bid,
}
use coindcx_bot.Marketdata.Book.OrderBook.Laws.{DeltaOutcome, apply_delta-DeltaOutcome}
use coindcx_bot.Marketdata.Book.OrderBook.Quoted.{
  IsQuoted, new_book-IsQuoted, apply_delta-IsQuoted, apply_snapshot-IsQuoted,
}
use coindcx_bot.Marketdata.Book.OrderBook.Top.{IsFront, top_asks-IsFront}

book_code : Unit {0}
unfolding get set delete sort insert_sorted new_book is_gap is_positive is_zero snapshot_levels
    apply_level apply_levels apply_snapshot apply_delta top_asks top_bids best_ask best_bid
book_code = tt

abbrev listed : List (String × String)
listed = ("102", "5") ∷ ("101", "3") ∷ ("103", "0") ∷ ("101", "4") ∷ []

abbrev offered : OrderBook
offered = record {
  pair = "SOL";
  asks = ("102", "5") ∷ ("101", "4") ∷ [];
  bids = ("99", "1") ∷ ("100", "2") ∷ [];
  state = live;
  last_seq = 7;
  last_ts = 10;
}

book_runs :
    ((apply_snapshot whole_num
        (new_book "SOL")
        listed
        (("99", "1") ∷ ("100", "2") ∷ [])
        10
        (some 7)).0
      ≡ offered)
    × ((apply_delta whole_num offered [] [] 11 (some 9) (some 8)) ≡ (offered, seq_mismatch 7 8))
    × ((apply_delta whole_num offered (("102", "6") ∷ ("109", "0") ∷ []) [] 11 (some 8) (some 7)).1
        ≡ delete_unknown_ask "109")
    × ((apply_delta whole_num offered (("102", "0") ∷ []) [] 11 (some 8) (some 7)).1 ≡ applied)
    × (best_ask whole_num offered ≡ some ("101", "4"))
    × (best_bid whole_num offered ≡ some ("100", "2"))
unfolding book_code
book_runs = (refl, refl, refl, refl, refl, refl)

abbrev half_known : List (String × String)
half_known = ("102", "6") ∷ ("109", "0") ∷ []

apply_delta-DeltaOutcome_example :
    let r = apply_delta whole_num offered half_known [] 11 (some 8) (some 7) in
    DeltaOutcome whole_num offered half_known [] 11 (some 8) (some 7) r.0 r.1
apply_delta-DeltaOutcome_example =
    apply_delta-DeltaOutcome whole_num offered half_known [] 11 (some 8) (some 7)

apply_delta-IsQuoted_example :
    IsQuoted whole_num
      (apply_delta whole_num (new_book "SOL") (("102", "6") ∷ []) [] 11 none none).0
apply_delta-IsQuoted_example =
    apply_delta-IsQuoted whole_num (new_book "SOL") (("102", "6") ∷ []) [] 11 none none
      (new_book-IsQuoted whole_num "SOL")

apply_snapshot-IsQuoted_example :
    IsQuoted whole_num (apply_snapshot whole_num (new_book "SOL") listed [] 10 (some 7)).0
apply_snapshot-IsQuoted_example =
    apply_snapshot-IsQuoted whole_num Whole-IsOrdered (new_book "SOL") listed [] 10 (some 7)

top_asks-IsFront_example :
    IsFront whole_num Whole-IsOrdered
      (ask_after whole_num)
      1
      (top_asks whole_num offered 1)
      offered.asks
    × IsFront whole_num Whole-IsOrdered
        (bid_after whole_num)
        1
        (top_bids whole_num offered 1)
        offered.bids
top_asks-IsFront_example =
    top_asks-IsFront whole_num Whole-IsOrdered offered 1 (refl, (refl, tt)) (refl, (refl, tt))
