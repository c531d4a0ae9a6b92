-- ===== src/Marketdata/Book/OrderBook/Laws.antt =====
-- What the two updates of a book do to it, on every branch, and what holds of a book between them.
use coindcx_bot.Prelude.{
  ℕ, String, ◌≡◌, refl, inl, inr, true, false, Option, none, List, [], string_key, get_or,
  Option-cases, Bool-cases,
}
use coindcx_bot.Prelude.Dict.{get}
use coindcx_bot.Prelude.Num.{Num}
use coindcx_bot.Marketdata.Book.OrderBook.{
  Levels, OrderBook, BookEvent, live, applied, seq_mismatch, delete_unknown_ask, delete_unknown_bid,
  is_gap, apply_levels, apply_snapshot, apply_delta,
}
use coindcx_bot.Marketdata.Book.OrderBook.Levels.{
  snapshot_at, delta_at, StopsAt, get-snapshot_levels, get-apply_levels, apply_levels-StopsAt,
}

module _ {ℓ} {W : Type ℓ} (num : Num W) where
  -- A snapshot makes the book live and replaces both sides: a price holds the last positive quantity
  -- that the frame lists for it, and nothing if there is none, whatever the book held before. The
  -- sequence number is the frame's, or the old one if the frame has none.
  pub get-apply_snapshot :
      (b : OrderBook) (asks bids : List (String × String)) (ts : ℕ) (seq : Option ℕ) (p : String)
      → let b' = (apply_snapshot num b asks bids ts seq).0 in
        (get p b'.asks ≡ snapshot_at num p none asks)
        × (get p b'.bids ≡ snapshot_at num p none bids)
        × (b'.state ≡ live)
        × (b'.last_ts ≡ ts)
        × (b'.last_seq ≡ get_or seq b.last_seq)
        × (b'.pair ≡ b.pair)
  unfolding apply_snapshot get
  get-apply_snapshot b asks bids ts seq p =
      (get-snapshot_levels num p [] asks, get-snapshot_levels num p [] bids, refl, refl, refl, refl)

  -- A side of a book after the whole of a delta's side.
  abbrev pub Applied : Levels → List (String × String) → Levels → Type 0
  Applied m side m' = (p : String) → get p m' ≡ delta_at num p (get p m) side

  module _ (b : OrderBook) (asks bids : List (String × String)) (ts : ℕ)
      (seq prev_seq : Option ℕ) where
    pub data DeltaOutcome (b' : OrderBook) (e : BookEvent) : Type 0 where
      mismatch :
          is_gap seq prev_seq b.last_seq ≡ true
          → b' ≡ b
          → e ≡ seq_mismatch b.last_seq (get_or prev_seq 0)
          → DeltaOutcome b' e
      unknown_ask :
          (p : String)
          → is_gap seq prev_seq b.last_seq ≡ false
          → b' ≡ record b { asks = b'.asks }
          → StopsAt num b.asks asks p b'.asks
          → e ≡ delete_unknown_ask p
          → DeltaOutcome b' e
      unknown_bid :
          (p : String)
          → is_gap seq prev_seq b.last_seq ≡ false
          → b' ≡ record b { asks = b'.asks; bids = b'.bids }
          → Applied b.asks asks b'.asks
          → StopsAt num b.bids bids p b'.bids
          → e ≡ delete_unknown_bid p
          → DeltaOutcome b' e
      whole :
          is_gap seq prev_seq b.last_seq ≡ false
          → b' ≡ record b {
            asks = b'.asks;
            bids = b'.bids;
            last_ts = ts;
            last_seq = get_or seq b.last_seq;
          }
          → Applied b.asks asks b'.asks
          → Applied b.bids bids b'.bids
          → e ≡ applied
          → DeltaOutcome b' e

  -- A delta has one of four outcomes
  pub apply_delta-DeltaOutcome :
      (b : OrderBook) (asks bids : List (String × String)) (ts : ℕ) (seq prev_seq : Option ℕ)
      → let r = apply_delta num b asks bids ts seq prev_seq in
        DeltaOutcome b asks bids ts seq prev_seq r.0 r.1
  unfolding apply_delta
  apply_delta-DeltaOutcome b asks bids ts seq prev_seq =
      elim (Bool-cases (is_gap seq prev_seq b.last_seq)) [
        | inl g ↦ rw g (mismatch g refl refl)
        | inr g ↦ elim (Option-cases (apply_levels num b.asks asks).1) [
          | inr (p, a) ↦
              rw (g, a) (unknown_ask p g refl (apply_levels-StopsAt num b.asks asks a) refl)
          | inl a ↦ elim (Option-cases (apply_levels num b.bids bids).1) [
            | inr (p, d) ↦
                rw (g, a)
                  (rw d (
                    unknown_bid p g refl (λ p. get-apply_levels num p b.asks asks a)
                      (apply_levels-StopsAt num b.bids bids d) refl))
            | inl d ↦
                rw (g, a)
                  (rw d (
                    whole g refl (λ p. get-apply_levels num p b.asks asks a)
                      (λ p. get-apply_levels num p b.bids bids d) refl))
          ]
        ]
      ]
