-- ===== src/Marketdata/Book/BookManager/Laws.antt =====
-- Histories of frames over many pairs.
use coindcx_bot.Prelude.{
  String, ◌≡◌, refl, sym, ap, ◌∙◌, inl, inr, false, Option, none, some, List, [], ◌∷◌, arith, ◌==◌,
  string_key, if◌then◌else◌, get_or, Option-cases, Bool-cases, subst, All, filter,
}
use coindcx_bot.Prelude.Dict.{get, set, get-set, get-set_update}
use coindcx_bot.Prelude.Num.{Num, IsOrdered}
use coindcx_bot.Marketdata.Book.OrderBook.{
  OrderBook, BookState, new_book, set_state, apply_snapshot, apply_delta,
}
use coindcx_bot.Marketdata.Book.OrderBook.Quoted.{
  IsQuoted, apply_delta-IsQuoted, apply_snapshot-IsQuoted, set_state-IsQuoted,
}
use coindcx_bot.Marketdata.Book.BookManager.{
  DepthFrame, BookManager, new_manager, takes_deltas, delta_into, on_depth_snapshot, on_depth_delta,
}

-- What is done to the manager: the two handlers, and `setState` on a book that it handed out.
pub data Op : Type 0 where
  depth_snapshot depth_delta : String → DepthFrame → Op
  mark : String → BookState → Op

unfoldable pub op_pair : Op → String
op_pair (depth_snapshot pair frame) = pair
op_pair (depth_delta pair frame) = pair
op_pair (mark pair s) = pair

-- `manager.get(pair)?.setState(s)`
pub mark_book : BookManager → String → BookState → BookManager
mark_book m pair s = elim (get pair m.books) [
  | none ↦ m
  | some b ↦ record m { books = set pair (set_state b s) m.books }
]

module _ {ℓ} {W : Type ℓ} (num : Num W) where
  unfoldable pub step : BookManager → Op → BookManager
  step m (depth_snapshot pair frame) = (on_depth_snapshot num m pair frame).0
  step m (depth_delta pair frame) = (on_depth_delta num m pair frame).0
  step m (mark pair s) = mark_book m pair s

  unfoldable pub run : BookManager → List Op → BookManager
  run m [] = m
  run m (o ∷ os) = run (step m o) os

  -- One pair's book alone, `none` before its first snapshot.
  abbrev pub delta_book : OrderBook → DepthFrame → OrderBook
  delta_book b frame =
      if takes_deltas b.state
      then (apply_delta num b frame.asks frame.bids frame.ts frame.seq frame.prev_seq).0
      else b

  abbrev pub book_step : Option OrderBook → Op → Option OrderBook
  book_step o (depth_snapshot pair frame) =
      some
        (apply_snapshot num (get_or o (new_book pair)) frame.asks frame.bids frame.ts frame.seq).0
  book_step none (depth_delta pair frame) = none
  book_step (some b) (depth_delta pair frame) = some (delta_book b frame)
  book_step none (mark pair s) = none
  book_step (some b) (mark pair s) = some (set_state b s)

  abbrev pub book_run : Option OrderBook → List Op → Option OrderBook
  book_run o [] = o
  book_run o (op ∷ ops) = book_run (book_step o op) ops

  get-delta_into :
      (m : BookManager) (pair : String) (frame : DepthFrame) (p : String) (o : Option OrderBook)
      → get pair m.books ≡ o
      → get p (delta_into num m pair frame o).0.books
        ≡ (if pair == p then book_step (get p m.books) (depth_delta pair frame) else get p m.books)
  get-delta_into m pair frame p none e = ground (arith, string_key.same_iff pair p)
  get-delta_into m pair frame p (some b) e =
      ground (arith, get-set pair p (delta_book b frame) m.books, string_key.same_iff pair p)

  get-mark_book :
      (m : BookManager) (pair : String) (s : BookState) (p : String)
      → get p (mark_book m pair s).books
        ≡ (if pair == p then book_step (get p m.books) (mark pair s) else get p m.books)
  unfolding mark_book
  get-mark_book m pair s p = elim (Option-cases (get pair m.books)) [
    | inl e ↦ rw (e, mark_book) (ground (arith, string_key.same_iff pair p))
    | inr (b, e) ↦
        rw (e, mark_book)
          (ground (arith, get-set pair p (set_state b s) m.books, string_key.same_iff pair p))
  ]

  get-step :
      (m : BookManager) (o : Op) (p : String)
      → get p (step m o).books
        ≡ (if op_pair o == p then book_step (get p m.books) o else get p m.books)
  unfolding step op_pair on_depth_snapshot on_depth_delta
  get-step m (depth_snapshot pair frame) p =
      get-set_update pair p
        (λ o.
          (apply_snapshot num (get_or o (new_book pair)) frame.asks frame.bids frame.ts
            frame.seq).0)
        m.books
  get-step m (depth_delta pair frame) p = get-delta_into m pair frame p (get pair m.books) refl
  get-step m (mark pair s) p = get-mark_book m pair s p

  -- After any interleaving of frames and marks on many pairs, the book of a pair is the one that its
  -- own operations make, in their order, from the book that it had.
  pub run-book_run :
      (m : BookManager) (ops : List Op) (p : String)
      → get p (run m ops).books ≡ book_run (get p m.books) (filter (λ o. op_pair o == p) ops)
  unfolding run
  run-book_run m [] p = refl
  run-book_run m (o ∷ os) p =
      let own = filter (λ (o : Op). op_pair o == p) os in
      let later = run-book_run (step m o) os p in
      elim (Bool-cases (op_pair o == p)) [
        | inl e ↦ rw e (later ∙ ap (λ b. book_run b own) (rw e at (get-step m o p)))
        | inr e ↦ rw e (later ∙ ap (λ b. book_run b own) (rw e at (get-step m o p)))
      ]

  -- The pair's book waits for a snapshot: it is not there, or it was never filled, or it resyncs.
  abbrev pub Awaits : Option OrderBook → Type 0
  Awaits none = Unit
  Awaits (some b) = takes_deltas b.state ≡ false

  abbrev pub IsDelta : Op → Type 0
  IsDelta (depth_snapshot pair frame) = ⊥
  IsDelta (depth_delta pair frame) = Unit
  IsDelta (mark pair s) = ⊥

  book_run-deltas :
      (o : Option OrderBook) (ops : List Op) → Awaits o → All IsDelta ops → book_run o ops ≡ o
  book_run-deltas o [] w h = refl
  book_run-deltas none (depth_delta pair frame ∷ ops) w (h, hs) = book_run-deltas none ops w hs
  book_run-deltas (some b) (depth_delta pair frame ∷ ops) w (h, hs) =
      rw w (book_run-deltas (some b) ops w hs)
  book_run-deltas o (depth_snapshot pair frame ∷ ops) w (h, hs) = absurd h
  book_run-deltas o (mark pair s ∷ ops) w (h, hs) = absurd h

  -- While a pair waits for a snapshot, no number of deltas for it, mixed with any operations on
  -- other pairs, touches its book.
  pub run-deltas_ignored :
      (m : BookManager) (ops : List Op) (p : String)
      → Awaits (get p m.books)
      → All IsDelta (filter (λ o. op_pair o == p) ops)
      → get p (run m ops).books ≡ get p m.books
  run-deltas_ignored m ops p w h =
      run-book_run m ops p ∙ book_run-deltas (get p m.books) (filter (λ o. op_pair o == p) ops) w h

  module _ (laws : IsOrdered num) where
    abbrev pub IsQuotedAt : Option OrderBook → Type 0
    IsQuotedAt none = Unit
    IsQuotedAt (some b) = IsQuoted num b

    delta_book-IsQuoted :
        (b : OrderBook) (frame : DepthFrame) → IsQuoted num b → IsQuoted num (delta_book b frame)
    delta_book-IsQuoted b frame h = elim (Bool-cases (takes_deltas b.state)) [
      | inl e ↦
          rw e
            (apply_delta-IsQuoted num b frame.asks frame.bids frame.ts frame.seq frame.prev_seq h)
      | inr e ↦ rw e h
    ]

    book_step-IsQuotedAt :
        (o : Option OrderBook) (op : Op) → IsQuotedAt o → IsQuotedAt (book_step o op)
    book_step-IsQuotedAt o (depth_snapshot pair frame) h =
        apply_snapshot-IsQuoted num laws (get_or o (new_book pair)) frame.asks frame.bids frame.ts
          frame.seq
    book_step-IsQuotedAt none (depth_delta pair frame) h = tt
    book_step-IsQuotedAt (some b) (depth_delta pair frame) h = delta_book-IsQuoted b frame h
    book_step-IsQuotedAt none (mark pair s) h = tt
    book_step-IsQuotedAt (some b) (mark pair s) h = set_state-IsQuoted num b s h

    book_run-IsQuotedAt :
        (o : Option OrderBook) (ops : List Op) → IsQuotedAt o → IsQuotedAt (book_run o ops)
    book_run-IsQuotedAt o [] h = h
    book_run-IsQuotedAt o (op ∷ ops) h =
        book_run-IsQuotedAt (book_step o op) ops (book_step-IsQuotedAt o op h)

    -- After any history from an empty manager, no level of any book has quantity zero.
    pub run-IsQuoted :
        (ops : List Op) (p : String) {b : OrderBook}
        → get p (run new_manager ops).books ≡ some b
        → IsQuoted num b
    unfolding get
    run-IsQuoted ops p {b} e =
        subst IsQuotedAt (sym (run-book_run new_manager ops p) ∙ e)
          (book_run-IsQuotedAt none (filter (λ o. op_pair o == p) ops) tt)
