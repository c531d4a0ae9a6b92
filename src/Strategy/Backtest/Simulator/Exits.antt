-- ===== src/Strategy/Backtest/Simulator/Exits.antt =====
-- The simulator on bars against the resolution of predictions (PredictionOutcomes.Resolve).
use coindcx_bot.Prelude.{
  ℕ, suc, ◌+◌, ◌≤◌, String, ◌≡◌, refl, sym, ap, ◌∙◌, ◌⊎◌, inl, inr, Bool, true, false, not, ◌&&◌,
  none, some, List, [], ◌∷◌, ◌++◌, map, if◌then◌else◌, is_some, ltb, arith, Bool-cases, All,
  All-filter, leb, filter,
}
use mathlib.Core.List.{append-nil, map-append}
use coindcx_bot.Prelude.Sort.{sort-All}
use coindcx_bot.Prelude.Num.{Num}
use coindcx_bot.Marketdata.Candles.Candle.{Candle}
use coindcx_bot.PredictionOutcomes.Resolve.{
  LiveResolution, tp_first, sl_first, bar_ms_15m, scan, relevant, levels_geometry_valid,
  resolve_prediction_on_15m_bars, is_relevant, is_later, pending, ttl_neutral,
}
use coindcx_bot.Strategy.Backtest.Simulator.{
  ExitReason, tp, sl, OpenPosition, ClosedTrade, Simulator, Bar, advance_clock, trade_of, locks,
  track_breakeven_lock, hits_tp, hits_sl, outlived, exit_bar, mark_to_market_bar,
}

-- The exit that a resolution stands for.
abbrev pub exit_of : LiveResolution → List ExitReason
exit_of tp_first = tp ∷ []
exit_of sl_first = sl ∷ []
exit_of _ = []

exit_of-rest : (b : Bool) → exit_of (if b then ttl_neutral else pending) ≡ []
exit_of-rest true = refl
exit_of-rest false = refl

module _ {ℓ} {W : Type ℓ} (num : Num W) where
  -- A pessimistic simulator that holds a position and nothing pending.
  abbrev pub holding :
      (clock : ℕ) → List (ClosedTrade W) → (pair : String) → OpenPosition W → Simulator W
  holding clock ledger pair p = record {
    clock = clock;
    position = some p;
    pending = none;
    ledger = ledger;
    pair = pair;
    pessimistic = true;
  }

  abbrev pub idle : (clock : ℕ) → List (ClosedTrade W) → (pair : String) → Simulator W
  idle clock ledger pair = record {
    clock = clock;
    position = none;
    pending = none;
    ledger = ledger;
    pair = pair;
    pessimistic = true;
  }

  abbrev pub bar_of : Candle W → Bar W
  bar_of c = record { high = c.high; low = c.low }

  unfoldable pub run_bars : List (Candle W) → Simulator W → Simulator W
  run_bars [] s = s
  run_bars (c ∷ cs) s = run_bars cs (mark_to_market_bar num c.timestamp (bar_of c) s)

  abbrev pub reasons : Simulator W → List ExitReason
  reasons s = map (λ t. t.exit_reason) s.ledger

  -- Without a position nothing happens any more.
  run_bars-idle :
      (cs : List (Candle W)) (clock : ℕ) (ledger : List (ClosedTrade W)) (pair : String)
      → reasons (run_bars cs (idle clock ledger pair)) ≡ map (λ t. t.exit_reason) ledger
  unfolding run_bars mark_to_market_bar advance_clock
  run_bars-idle [] clock ledger pair = refl
  run_bars-idle (c ∷ cs) clock ledger pair =
      run_bars-idle cs (if ltb clock c.timestamp then c.timestamp else clock) ledger pair

  -- The position has no time to live.
  abbrev pub LivesOn : OpenPosition W → Type 0
  LivesOn p = (ts : ℕ) → outlived num ts p ≡ false

  -- One bar: the resolver's tests decide how the position is left.
  exit_bar_lem :
      (clock ts : ℕ) (ledger : List (ClosedTrade W)) (pair : String) (bar : Bar W)
      (p q : OpenPosition W)
      → outlived num ts q ≡ false
      → exit_bar num ts bar q (holding clock ledger pair p) ≡ (
          if hits_sl num q bar.high bar.low
          then idle clock (ledger ++ trade_of num ts q.stop_loss sl q ∷ []) pair
          else (if hits_tp num q bar.high bar.low
              then idle clock (ledger ++ trade_of num ts q.take_profit tp q ∷ []) pair
              else holding clock ledger pair q))
  unfolding exit_bar
  exit_bar_lem clock ts ledger pair bar p q o = ground arith

  track_cases :
      (ts : ℕ) (up down : W) (p : OpenPosition W)
      → (track_breakeven_lock num ts up down p ≡ p)
        ⊎ (track_breakeven_lock num ts up down p ≡ record p { reached_breakeven_lock_at = some ts })
  unfolding track_breakeven_lock
  track_cases ts up down p =
      elim (Bool-cases (not (is_some p.reached_breakeven_lock_at) && locks num up down p)) [
        | inl e ↦ inr (rw e refl)
        | inr e ↦ inl (rw e refl)
      ]

  bar_step :
      (now clock n : ℕ) (ledger : List (ClosedTrade W)) (pair : String) (c : Candle W)
      (cs : List (Candle W)) (rest : LiveResolution) (p q : OpenPosition W)
      → outlived num c.timestamp q ≡ false
      → c.timestamp + bar_ms_15m ≤ now
      → reasons (run_bars cs (holding clock ledger pair q))
        ≡ map (λ t. t.exit_reason) ledger
          ++ exit_of (scan num q.side q.stop_loss q.take_profit now rest cs (suc n)).0
      → reasons (run_bars cs (exit_bar num c.timestamp (bar_of c) q (holding clock ledger pair p)))
        ≡ map (λ t. t.exit_reason) ledger
          ++ exit_of (scan num q.side q.stop_loss q.take_profit now rest (c ∷ cs) n).0
  unfolding scan trade_of
  bar_step now clock n ledger pair c cs rest p q o le ih =
      let f : ltb now (c.timestamp + bar_ms_15m) ≡ false = ground arith in
      elim (Bool-cases (hits_sl num q c.high c.low)) [
        | inl e ↦
            rw (exit_bar_lem clock c.timestamp ledger pair (bar_of c) p q o, f, e)
              (run_bars-idle cs clock (ledger ++ trade_of num c.timestamp q.stop_loss sl q ∷ [])
                  pair
                ∙ map-append (λ t. t.exit_reason) ledger
                    (trade_of num c.timestamp q.stop_loss sl q ∷ []))
        | inr e ↦ elim (Bool-cases (hits_tp num q c.high c.low)) [
          | inl h ↦
              rw (exit_bar_lem clock c.timestamp ledger pair (bar_of c) p q o, f, e, h)
                (run_bars-idle cs clock (ledger ++ trade_of num c.timestamp q.take_profit tp q ∷ [])
                    pair
                  ∙ map-append (λ t. t.exit_reason) ledger
                      (trade_of num c.timestamp q.take_profit tp q ∷ []))
          | inr h ↦ rw (exit_bar_lem clock c.timestamp ledger pair (bar_of c) p q o, f, e, h) ih
        ]
      ]

  -- For bars that have ended, the simulator leaves the position at the touch that the scan finds.
  run_bars-scan :
      (now clock n : ℕ) (ledger : List (ClosedTrade W)) (pair : String) (cs : List (Candle W))
      (rest : LiveResolution) (p : OpenPosition W)
      → LivesOn p
      → exit_of rest ≡ []
      → All (λ c. c.timestamp + bar_ms_15m ≤ now) cs
      → reasons (run_bars cs (holding clock ledger pair p))
        ≡ map (λ t. t.exit_reason) ledger
          ++ exit_of (scan num p.side p.stop_loss p.take_profit now rest cs n).0
  unfolding run_bars scan mark_to_market_bar advance_clock
  run_bars-scan now clock n ledger pair [] rest p l h f =
      sym (append-nil _) ∙ ap (λ x. map (λ t. t.exit_reason) ledger ++ x) (sym h)
  run_bars-scan now clock n ledger pair (c ∷ cs) rest p l h f =
      let later : ℕ = if ltb clock c.timestamp then c.timestamp else clock in
      let after : OpenPosition W → List ExitReason = λ q.
        reasons
          (run_bars cs (exit_bar num c.timestamp (bar_of c) q (holding later ledger pair p))) in
      let step : (q : OpenPosition W)
          → LivesOn q
          → after q
            ≡ map (λ t. t.exit_reason) ledger
              ++ exit_of (scan num q.side q.stop_loss q.take_profit now rest (c ∷ cs) n).0 =
        λ q m.
          bar_step now later n ledger pair c cs rest p q (m c.timestamp) f.0
            (run_bars-scan now later (suc n) ledger pair cs rest q m h f.1) in
      elim (track_cases c.timestamp c.high c.low p) [
        | inl e ↦ ap after e ∙ step p l
        | inr e ↦ ap after e ∙ step (record p { reached_breakeven_lock_at = some c.timestamp }) l
      ]

  All-finished :
      (signal now : ℕ) (bars : List (Candle W))
      → All (λ c. c.timestamp + bar_ms_15m ≤ now) bars
      → All (λ c. c.timestamp + bar_ms_15m ≤ now) (relevant num signal now bars)
  unfolding relevant
  All-finished signal now bars f =
      sort-All (is_later num) (λ c. c.timestamp + bar_ms_15m ≤ now)
        (filter (is_relevant num signal now) bars)
        (All-filter (λ c. c.timestamp + bar_ms_15m ≤ now) (is_relevant num signal now) bars f)

  -- The pessimistic simulator and the resolution of predictions agree: a position without a time to
  -- live, whose levels are in order and on whose relevant bars, all ended, it runs, is left exactly when the
  -- prediction with the same side and levels resolves to a first touch, once, and for that level.
  pub run_bars-resolve :
      (signal ttl now : ℕ) (pair : String) (bars : List (Candle W)) (p : OpenPosition W)
      → LivesOn p
      → levels_geometry_valid num p.side p.entry p.stop_loss p.take_profit ≡ true
      → All (λ c. c.timestamp + bar_ms_15m ≤ now) bars
      → reasons (run_bars (relevant num signal now bars) (holding signal [] pair p))
        ≡ exit_of
            (resolve_prediction_on_15m_bars num p.side p.entry p.stop_loss p.take_profit signal ttl
              now bars).0
  unfolding resolve_prediction_on_15m_bars
  run_bars-resolve signal ttl now pair bars p l g f = rw g (
      run_bars-scan now signal 0 [] pair (relevant num signal now bars)
        (if leb (signal + ttl) now then ttl_neutral else pending) p l
        (exit_of-rest (leb (signal + ttl) now)) (All-finished signal now bars f))
