-- ===== src/Strategy/Backtest/Simulator/Ledger.antt =====
-- The trades that the simulator records over any history of calls.
use coindcx_bot.Prelude.{
  ℕ, String, ◌≡◌, refl, Bool, false, ◌&&◌, Option, is_some, none, some, List, [], ◌∷◌, ◌++◌, All,
  All-append, arith,
}
use coindcx_bot.Prelude.Num.{Num}
use coindcx_bot.Execution.TradeIntent.{TradeIntent}
use coindcx_bot.Strategy.Backtest.Simulator.{
  ExitReason, tp, sl, ttl, flip, OpenPosition, ClosedTrade, Simulator, Bar, advance_clock, trade_of,
  close_flip, apply_trade_intent, track_breakeven_lock, exit_tick, mark_open, mark_pending,
  mark_to_market, exit_bar, mark_open_bar, fill_pending, mark_to_market_bar, middle, pnl_of,
}

-- The calls that the backtest makes.
pub data Call {ℓ} (W : Type ℓ) : Type ℓ where
  advance : ℕ → Call W
  apply_intent : TradeIntent W → Call W
  tick : ℕ → W → Call W
  bar_closed : ℕ → Bar W → Call W

module _ {ℓ} {W : Type ℓ} (num : Num W) where
  -- The price at which a reason closes a position.
  abbrev pub Fair : ClosedTrade W → ExitReason → Type ℓ
  Fair t tp = t.exit_price ≡ t.position.take_profit
  Fair t sl = t.exit_price ≡ t.position.stop_loss
  Fair t flip = t.exit_price ≡ t.position.entry
  Fair t ttl = Unit

  abbrev pub IsHonest : ClosedTrade W → Type ℓ
  IsHonest t = Fair t t.exit_reason × (t.pnl ≡ pnl_of num t.position t.exit_price)

  abbrev pub IsSimulator : Simulator W → Type ℓ
  IsSimulator s = ((is_some s.pending && is_some s.position) ≡ false) × All IsHonest s.ledger

  unfoldable pub call : Call W → Simulator W → Simulator W
  call (advance ts) s = advance_clock num ts s
  call (apply_intent i) s = apply_trade_intent num i s
  call (tick ts price) s = mark_to_market num ts price s
  call (bar_closed ts bar) s = mark_to_market_bar num ts bar s

  unfoldable pub run : List (Call W) → Simulator W → Simulator W
  run [] s = s
  run (c ∷ cs) s = run cs (call c s)

  snoc-IsHonest :
      (ts : ℕ) (price : W) (reason : ExitReason) (p : OpenPosition W) (l : List (ClosedTrade W))
      → Fair (trade_of num ts price reason p) reason
      → All IsHonest l
      → All IsHonest (l ++ trade_of num ts price reason p ∷ [])
  unfolding trade_of
  snoc-IsHonest ts price reason p l f h = All-append IsHonest l _ h ((f, refl), tt)

  -- What is left of the state once the position is left, or kept with its lock.
  exit_tick-IsSimulator :
      (ts : ℕ) (price : W) (p : OpenPosition W) (s : Simulator W)
      → s.pending ≡ none
      → All IsHonest s.ledger
      → IsSimulator (exit_tick num ts price p s)
  unfolding exit_tick trade_of
  exit_tick-IsSimulator ts price p s e h =
      let l = s.ledger in
      ground (
        arith,
        snoc-IsHonest ts p.take_profit tp p l refl h,
        snoc-IsHonest ts p.stop_loss sl p l refl h,
        snoc-IsHonest ts price ttl p l tt h,
      )

  exit_bar-IsSimulator :
      (ts : ℕ) (bar : Bar W) (p : OpenPosition W) (s : Simulator W)
      → s.pending ≡ none
      → All IsHonest s.ledger
      → IsSimulator (exit_bar num ts bar p s)
  unfolding exit_bar trade_of
  exit_bar-IsSimulator ts bar p s e h =
      let l = s.ledger in
      ground (
        arith,
        snoc-IsHonest ts p.take_profit tp p l refl h,
        snoc-IsHonest ts p.stop_loss sl p l refl h,
        snoc-IsHonest ts (middle num bar) ttl p l tt h,
      )

  none_pending :
      (s : Simulator W) (p : OpenPosition W)
      → s.position ≡ some p
      → (is_some s.pending && is_some s.position) ≡ false
      → s.pending ≡ none
  none_pending s p e x = ground arith

  mark_open-IsSimulator :
      (ts : ℕ) (price : W) (o : Option (OpenPosition W)) (s : Simulator W)
      → s.position ≡ o
      → IsSimulator s
      → IsSimulator (mark_open num ts price o s)
  mark_open-IsSimulator ts price none s e h = h
  mark_open-IsSimulator ts price (some p) s e (x, h) =
      exit_tick-IsSimulator ts price (track_breakeven_lock num ts price price p) s
        (none_pending s p e x) h

  mark_pending-IsSimulator :
      (ts : ℕ) (price : W) (o : Option (TradeIntent W)) (s : Simulator W)
      → IsSimulator s
      → IsSimulator (mark_pending num ts price o s)
  mark_pending-IsSimulator ts price none s h = mark_open-IsSimulator ts price s.position s refl h
  mark_pending-IsSimulator ts price (some i) s h =
      ground (arith, mark_open-IsSimulator ts price s.position s refl h)

  mark_open_bar-IsSimulator :
      (ts : ℕ) (bar : Bar W) (o : Option (OpenPosition W)) (s : Simulator W)
      → s.position ≡ o
      → IsSimulator s
      → IsSimulator (mark_open_bar num ts bar o s)
  mark_open_bar-IsSimulator ts bar none s e h = h
  mark_open_bar-IsSimulator ts bar (some p) s e (x, h) =
      exit_bar-IsSimulator ts bar (track_breakeven_lock num ts bar.high bar.low p) s
        (none_pending s p e x) h

  mark-IsSimulator :
      (ts : ℕ) (price : W) (s : Simulator W)
      → IsSimulator s
      → IsSimulator (mark_to_market num ts price s)
  unfolding mark_to_market advance_clock
  mark-IsSimulator ts price s h =
      mark_pending-IsSimulator ts price s.pending (advance_clock num ts s) h

  fill_pending-IsSimulator :
      (ts : ℕ) (bar : Bar W) (o : Option (TradeIntent W)) (s : Simulator W)
      → IsSimulator s
      → IsSimulator (fill_pending num ts bar o s)
  fill_pending-IsSimulator ts bar none s h = h
  fill_pending-IsSimulator ts bar (some i) s h = mark-IsSimulator ts (middle num bar) s h

  apply-IsSimulator :
      (i : TradeIntent W) (o : Option (OpenPosition W)) (s : Simulator W)
      → s.position ≡ o
      → IsSimulator s
      → IsSimulator (record (close_flip num o s) { pending = some i })
  unfolding trade_of
  apply-IsSimulator i none s e (x, h) = (rw e refl, h)
  apply-IsSimulator i (some p) s e (x, h) =
      (refl, snoc-IsHonest s.clock p.entry flip p s.ledger refl h)

  call-IsSimulator : (c : Call W) (s : Simulator W) → IsSimulator s → IsSimulator (call c s)
  unfolding call advance_clock apply_trade_intent mark_to_market_bar
  call-IsSimulator (advance ts) s h = h
  call-IsSimulator (apply_intent i) s h = apply-IsSimulator i s.position s refl h
  call-IsSimulator (tick ts price) s h = mark-IsSimulator ts price s h
  call-IsSimulator (bar_closed ts bar) s h =
      mark_open_bar-IsSimulator ts bar _ _ refl
        (fill_pending-IsSimulator ts bar s.pending (advance_clock num ts s) h)

  abbrev pub new_simulator : String → Bool → Simulator W
  new_simulator pair pessimistic = record {
    clock = 0;
    position = none;
    pending = none;
    ledger = [];
    pair = pair;
    pessimistic = pessimistic;
  }

  run_from : (cs : List (Call W)) (s : Simulator W) → IsSimulator s → IsSimulator (run cs s)
  unfolding run
  run_from [] s h = h
  run_from (c ∷ cs) s h = run_from cs (call c s) (call-IsSimulator c s h)

  -- After any sequence of calls, a new simulator never holds a position and a pending intent at once, and
  -- each recorded trade was left at the price of its reason: the take profit, the stop loss or,
  -- for a flip, the entry; and its profit is that of this price.
  pub run-IsSimulator :
      (cs : List (Call W)) (pair : String) (pessimistic : Bool)
      → IsSimulator (run cs (new_simulator pair pessimistic))
  run-IsSimulator cs pair pessimistic = run_from cs _ (refl, tt)
