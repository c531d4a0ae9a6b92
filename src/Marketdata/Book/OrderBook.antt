-- ===== src/Marketdata/Book/OrderBook.antt =====
-- src/marketdata/book/orderbook.ts: one pair's order book. A method that changes the book returns
-- the new book and the event that it emits; prices and quantities stay texts, as in the source, and
-- are read by `parse_float` of the number interface. The sequence number and the frame's time are ℕ.
pub mod Levels
pub mod Laws
pub mod Quoted
pub mod Top
mod Tests
use coindcx_bot.Prelude.{
  ℕ, suc, String, ◌≡◌, Bool, true, false, not, Option, none, some, List, [], ◌∷◌, map, arith, ◌==◌,
  nat_key, string_key, if◌then◌else◌, get_or, take,
}
use coindcx_bot.Prelude.Dict.{Dict, get, set, delete, has}
use coindcx_bot.Prelude.Num.{Num}
use coindcx_bot.Prelude.Sort.{sort, head?}

pub data BookState : Type 0 where
  init live resyncing broken : BookState

-- Price text to quantity text, in insertion order.
abbrev pub Levels : Type 0
Levels = Dict String String

pub record OrderBook : Type 0 where
  pub pair : String
  pub asks : Levels
  pub bids : Levels
  pub state : BookState
  pub last_seq : ℕ
  pub last_ts : ℕ

pub data BookEvent : Type 0 where
  snapshot applied : BookEvent
  seq_mismatch : (expected prev_seq : ℕ) → BookEvent
  delete_unknown_ask delete_unknown_bid : String → BookEvent

pub new_book : String → OrderBook
new_book pair = record {
  pair = pair;
  asks = [];
  bids = [];
  state = init;
  last_seq = 0;
  last_ts = 0;
}

pub set_state : OrderBook → BookState → OrderBook
set_state b s = record b { state = s }

-- `seq` and `prevSeq` that are both given, and the latter is not the last one seen
pub is_gap : Option ℕ → Option ℕ → ℕ → Bool
is_gap (some seq) (some prev) last = not (prev == last)
is_gap (some seq) none last = false
is_gap none prev last = false

abbrev finish_delta : OrderBook → ℕ → Option ℕ → Option String → OrderBook × BookEvent
finish_delta b ts seq (some price) = (b, delete_unknown_bid price)
finish_delta b ts seq none = (record b { last_ts = ts; last_seq = get_or seq b.last_seq }, applied)

module _ {ℓ} {W : Type ℓ} (num : Num W) where
  open num use {of_ℕ, parse_float, lt, eq}

  -- `parseFloat(q) > 0` and `parseFloat(q) === 0`
  pub is_positive : String → Bool
  is_positive q = lt (of_ℕ 0) (parse_float q)

  pub is_zero : String → Bool
  is_zero q = eq (parse_float q) (of_ℕ 0)

  -- The loop of `applySnapshot` over one side.
  pub snapshot_levels : Levels → List (String × String) → Levels
  snapshot_levels m [] = m
  snapshot_levels m ((p, q) ∷ rest) = snapshot_levels (if is_positive q then set p q m else m) rest

  pub apply_snapshot :
      OrderBook
      → (asks bids : List (String × String)) (ts : ℕ) (seq : Option ℕ) → OrderBook × BookEvent
  apply_snapshot b asks bids ts seq = (
    record b {
      asks = snapshot_levels [] asks;
      bids = snapshot_levels [] bids;
      last_ts = ts;
      last_seq = get_or seq b.last_seq;
      state = live;
    },
    snapshot,
  )

  -- One level of a delta; `none` is a deletion of a price that the side does not have.
  pub apply_level : Levels → String → String → Option Levels
  apply_level m p q =
      if is_zero q then (if has p m then some (delete p m) else none) else some (set p q m)

  -- The loop of `applyDelta` over one side: the levels as far as it came, and the price at which it
  -- stopped, if it did.
  pub apply_levels : Levels → List (String × String) → Levels × Option String
  apply_levels m [] = (m, none)
  apply_levels m ((p, q) ∷ rest) = elim (apply_level m p q) [
    | none ↦ (m, some p)
    | some m' ↦ apply_levels m' rest
  ]

  abbrev delta_bids :
      OrderBook → List (String × String) → ℕ → Option ℕ → Option String → OrderBook × BookEvent
  delta_bids b bids ts seq (some price) = (b, delete_unknown_ask price)
  delta_bids b bids ts seq none =
      let side = apply_levels b.bids bids in finish_delta (record b { bids = side.0 }) ts seq side.1

  pub apply_delta :
      OrderBook
      → (asks bids : List (String × String)) (ts : ℕ) (seq prev_seq : Option ℕ)
      → OrderBook × BookEvent
  apply_delta b asks bids ts seq prev_seq =
      let side = apply_levels b.asks asks in
      if is_gap seq prev_seq b.last_seq
      then (b, seq_mismatch b.last_seq (get_or prev_seq 0))
      else delta_bids (record b { asks = side.0 }) bids ts seq side.1

  -- `parseFloat(a) - parseFloat(b) > 0`, and the same with the sides exchanged
  abbrev pub ask_after : String × String → String × String → Bool
  ask_after a b = lt (parse_float b.0) (parse_float a.0)

  abbrev pub bid_after : String × String → String × String → Bool
  bid_after a b = lt (parse_float a.0) (parse_float b.0)

  pub top_asks : OrderBook → ℕ → Levels
  top_asks b n = take n (sort ask_after b.asks)

  pub top_bids : OrderBook → ℕ → Levels
  top_bids b n = take n (sort bid_after b.bids)

  pub best_ask : OrderBook → Option (String × String)
  best_ask b = head? (top_asks b 1)

  pub best_bid : OrderBook → Option (String × String)
  best_bid b = head? (top_bids b 1)

  abbrev both_prices {κ} : {A : Type κ} → (W → W → A) → OrderBook → Option A
  both_prices f b = elim (best_ask b) [
    | none ↦ none
    | some a ↦ elim (best_bid b) [
      | none ↦ none
      | some d ↦ some (f (parse_float a.0) (parse_float d.0))
    ]
  ]

  pub spread : OrderBook → Option W
  spread b = both_prices num.sub b

  pub mid_price : OrderBook → Option W
  mid_price b = both_prices (λ a d. num.div (num.add a d) (of_ℕ 2)) b
