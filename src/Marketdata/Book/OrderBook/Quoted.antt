-- ===== src/Marketdata/Book/OrderBook/Quoted.antt =====
-- No level of a book has quantity zero, whatever frames arrive.
use coindcx_bot.Prelude.{
  ℕ, String, ◌≡◌, inl, inr, true, false, Option, some, List, [], ◌∷◌, arith, string_key,
  Option-cases, Bool-cases,
}
use coindcx_bot.Prelude.Dict.{get, set, delete, get-set, get-delete}
use coindcx_bot.Prelude.Num.{Num, IsOrdered}
use coindcx_bot.Marketdata.Book.OrderBook.{
  Levels, OrderBook, BookState, is_gap, is_positive, is_zero, snapshot_levels, apply_level,
  apply_levels, apply_snapshot, apply_delta, new_book, set_state,
}

module _ {ℓ} {W : Type ℓ} (num : Num W) where
  abbrev pub NoZero : Levels → Type 0
  NoZero m = (p q : String) → get p m ≡ some q → is_zero num q ≡ false

  pub record IsQuoted (b : OrderBook) : Type 0 where
    pub asks_nonzero : NoZero b.asks
    pub bids_nonzero : NoZero b.bids

  NoZero-nil : NoZero []
  unfolding get
  NoZero-nil p q h = cc

  NoZero-set : (j v : String) (m : Levels) → is_zero num v ≡ false → NoZero m → NoZero (set j v m)
  NoZero-set j v m z h p q e = ground (arith, get-set j p v m, h p q)

  NoZero-delete : (j : String) (m : Levels) → NoZero m → NoZero (delete j m)
  NoZero-delete j m h p q e = ground (arith, get-delete j p m, h p q)

  NoZero-apply_level :
      (j v : String) (m : Levels) {m' : Levels}
      → apply_level num m j v ≡ some m'
      → NoZero m
      → NoZero m'
  unfolding apply_level
  NoZero-apply_level j v m e h p q g = ground (arith, get-set j p v m, get-delete j p m, h p q)

  NoZero-apply_levels :
      (m : Levels) (side : List (String × String)) → NoZero m → NoZero (apply_levels num m side).0
  unfolding apply_levels
  NoZero-apply_levels m [] h = h
  NoZero-apply_levels m ((j, v) ∷ rest) h = elim (Option-cases (apply_level num m j v)) [
    | inl e ↦ rw (e, apply_levels) h
    | inr (m', e) ↦
        rw (e, apply_levels) (NoZero-apply_levels m' rest (NoZero-apply_level j v m e h))
  ]

  -- A delta keeps both sides free of zero quantities on every outcome, also where it stops half way.
  pub apply_delta-IsQuoted :
      (b : OrderBook) (asks bids : List (String × String)) (ts : ℕ) (seq prev_seq : Option ℕ)
      → IsQuoted b
      → IsQuoted (apply_delta num b asks bids ts seq prev_seq).0
  unfolding apply_delta
  apply_delta-IsQuoted b asks bids ts seq prev_seq h =
      let a = NoZero-apply_levels b.asks asks h.asks_nonzero in
      let d = NoZero-apply_levels b.bids bids h.bids_nonzero in
      elim (Bool-cases (is_gap seq prev_seq b.last_seq)) [
        | inl g ↦ rw g h
        | inr g ↦ elim (Option-cases (apply_levels num b.asks asks).1) [
          | inr (p, s) ↦ rw (g, s) (record { asks_nonzero = a; bids_nonzero = h.bids_nonzero })
          | inl s ↦ elim (Option-cases (apply_levels num b.bids bids).1) [
            | inr (p, t) ↦ rw (g, s) (rw t (record { asks_nonzero = a; bids_nonzero = d }))
            | inl t ↦ rw (g, s) (rw t (record { asks_nonzero = a; bids_nonzero = d }))
          ]
        ]
      ]

  pub new_book-IsQuoted : (pair : String) → IsQuoted (new_book pair)
  unfolding new_book
  new_book-IsQuoted pair = record { asks_nonzero = NoZero-nil; bids_nonzero = NoZero-nil }

  pub set_state-IsQuoted : (b : OrderBook) (s : BookState) → IsQuoted b → IsQuoted (set_state b s)
  unfolding set_state
  set_state-IsQuoted b s h = record { asks_nonzero = h.asks_nonzero; bids_nonzero = h.bids_nonzero }

  module _ (laws : IsOrdered num) where
    positive-nonzero : (q : String) → is_positive num q ≡ true → is_zero num q ≡ false
    unfolding is_positive is_zero
    positive-nonzero q h = (laws.le_of_lt (num.of_ℕ 0) (num.parse_float q) h).1

    NoZero-snapshot_levels :
        (m : Levels) (side : List (String × String))
        → NoZero m
        → NoZero (snapshot_levels num m side)
    unfolding snapshot_levels
    NoZero-snapshot_levels m [] h = h
    NoZero-snapshot_levels m ((j, v) ∷ rest) h = elim (Bool-cases (is_positive num v)) [
      | inl e ↦
          rw e (NoZero-snapshot_levels (set j v m) rest (NoZero-set j v m (positive-nonzero v e) h))
      | inr e ↦ rw e (NoZero-snapshot_levels m rest h)
    ]

    pub apply_snapshot-IsQuoted :
        (b : OrderBook) (asks bids : List (String × String)) (ts : ℕ) (seq : Option ℕ)
        → IsQuoted (apply_snapshot num b asks bids ts seq).0
    unfolding apply_snapshot
    apply_snapshot-IsQuoted b asks bids ts seq = record {
      asks_nonzero = NoZero-snapshot_levels [] asks NoZero-nil;
      bids_nonzero = NoZero-snapshot_levels [] bids NoZero-nil;
    }
