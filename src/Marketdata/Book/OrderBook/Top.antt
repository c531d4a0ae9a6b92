-- ===== src/Marketdata/Book/OrderBook/Top.antt =====
-- The top of the book.
use mathlib.Core.List.{Perm}
use Prim.Native.Nat.{min}
use coindcx_bot.Prelude.{
  ℕ, suc, zero, String, ◌≡◌, refl, ap, Bool, true, false, some, List, [], ◌∷◌, ◌++◌, arith, All,
  take, drop, length, length-take, subst,
}
use coindcx_bot.Prelude.Num.{Num, IsOrdered}
use coindcx_bot.Prelude.Sort.{
  sort, head?, IsSorted, sort-perm, sort-IsSorted, sort-Good, length-sort, All-sort→,
}
use coindcx_bot.Marketdata.Book.OrderBook.{
  Levels, OrderBook, ask_after, bid_after, top_asks, top_bids, best_ask,
}

take-append-drop {ℓ} : {A : Type ℓ} (n : ℕ) (xs : List A) → take n xs ++ drop n xs ≡ xs
take-append-drop zero xs = refl
take-append-drop (suc n) [] = refl
take-append-drop (suc n) (x ∷ xs) = ap (◌∷◌ x) (take-append-drop n xs)

module _ {ℓ} {W : Type ℓ} (num : Num W) (laws : IsOrdered num) where
  open num use {lt, le, parse_float}

  -- The price of a level is a number.
  abbrev pub IsPriced : String × String → Type 0
  IsPriced l = le (parse_float l.0) (parse_float l.0) ≡ true

  ask_after-asym : (x y : String × String) → ask_after num x y ≡ true → ask_after num y x ≡ false
  ask_after-asym x y h =
      let below = (laws.le_of_lt _ _ h).0 in
      let (py, px) = laws.refl_of_le _ _ below in
      ground (arith, laws.lt-eq-not-le (parse_float x.0) (parse_float y.0) px py)

  le_of_not_lt : (x y : W) → le x x ≡ true → le y y ≡ true → lt x y ≡ false → le y x ≡ true
  le_of_not_lt x y px py h = ground (arith, laws.lt-eq-not-le x y px py)

  not_lt_of_le : (x y : W) → le x x ≡ true → le y y ≡ true → le y x ≡ true → lt x y ≡ false
  not_lt_of_le x y px py h = ground (arith, laws.lt-eq-not-le x y px py)

  ask_after_trans :
      (x y z : String × String)
      → IsPriced x
      → IsPriced y
      → IsPriced z
      → ask_after num x y ≡ false
      → ask_after num y z ≡ false
      → ask_after num x z ≡ false
  ask_after_trans x y z px py pz h k =
      not_lt_of_le _ _ pz px
        (laws.le_trans _ _ _ (le_of_not_lt _ _ py px h) (le_of_not_lt _ _ pz py k))

  bid_after-asym : (x y : String × String) → bid_after num x y ≡ true → bid_after num y x ≡ false
  bid_after-asym x y h = ask_after-asym y x h

  bid_after_trans :
      (x y z : String × String)
      → IsPriced x
      → IsPriced y
      → IsPriced z
      → bid_after num x y ≡ false
      → bid_after num y z ≡ false
      → bid_after num x z ≡ false
  bid_after_trans x y z px py pz h k =
      not_lt_of_le _ _ px pz
        (laws.le_trans _ _ _ (le_of_not_lt _ _ py pz k) (le_of_not_lt _ _ px py h))

  -- A side in order, cut after the first n.
  abbrev pub IsFront : (String × String → String × String → Bool) → ℕ → Levels → Levels → Type 0
  IsFront after n top side =
      (rest : Levels) × Perm (top ++ rest) side
      × IsSorted after (top ++ rest)
      × (length top ≡ min n (length side))

  take-IsFront :
      (after : String × String → String × String → Bool) (n : ℕ) (side : Levels)
      → IsSorted after (sort after side)
      → IsFront after n (take n (sort after side)) side
  take-IsFront after n side s =
      let whole = take-append-drop n (sort after side) in
      (
        drop n (sort after side),
        rw whole (sort-perm after side),
        rw whole s,
        omega (arith, length-take n (sort after side), length-sort after side),
      )

  -- `topN` of a book whose prices are numbers
  pub top_asks-IsFront :
      (b : OrderBook) (n : ℕ)
      → All IsPriced b.asks
      → All IsPriced b.bids
      → IsFront (ask_after num) n (top_asks num b n) b.asks
        × IsFront (bid_after num) n (top_bids num b n) b.bids
  unfolding top_asks top_bids
  top_asks-IsFront b n pa pb = (
    take-IsFront (ask_after num) n b.asks
        (sort-IsSorted (ask_after num) IsPriced ask_after-asym ask_after_trans b.asks pa),
    take-IsFront (bid_after num) n b.bids
        (sort-IsSorted (bid_after num) IsPriced bid_after-asym bid_after_trans b.bids pb),
  )

  All-le_of_head :
      (x : String × String) (xs : Levels)
      → IsPriced x
      → All IsPriced xs
      → All (λ y. ask_after num x y ≡ false) xs
      → All (λ y. le (parse_float x.0) (parse_float y.0) ≡ true) xs
  All-le_of_head x [] px ps h = tt
  All-le_of_head x (y ∷ ys) px (py, ps) (h, hs) =
      (le_of_not_lt _ _ py px h, All-le_of_head x ys px ps hs)

  head-le :
      (best : String × String) (sorted : Levels)
      → All IsPriced sorted
      → IsSorted (ask_after num) sorted
      → head? (take 1 sorted) ≡ some best
      → All (λ y. le (parse_float best.0) (parse_float y.0) ≡ true) sorted
  head-le best [] ps s e = tt
  head-le best (x ∷ xs) (px, ps) (h, s) e =
      let here : x ≡ best = ground arith in
      subst (λ w. All (λ y. le (parse_float w.0) (parse_float y.0) ≡ true) (x ∷ xs)) here
        (px, All-le_of_head x xs px ps h)

  -- `bestAsk` of a book whose ask prices are numbers is a cheapest one.
  pub best_ask-le :
      (b : OrderBook) {best : String × String}
      → All IsPriced b.asks
      → best_ask num b ≡ some best
      → All (λ y. le (parse_float best.0) (parse_float y.0) ≡ true) b.asks
  unfolding best_ask top_asks
  best_ask-le b {best} p e = All-sort→ (ask_after num) _ b.asks (
      head-le best (sort (ask_after num) b.asks)
        (sort-Good (ask_after num) IsPriced ask_after-asym ask_after_trans b.asks p)
        (sort-IsSorted (ask_after num) IsPriced ask_after-asym ask_after_trans b.asks p) e)
