-- ===== src/Strategy/Backtest/Simulator.antt =====
-- src/strategy/backtest/simulator.ts. Prices are the numbers of `Num`, times whole milliseconds. A closed trade
-- holds the position that it closes. The clock's text (`createdAt`) is an argument.
mod Exits
mod Ledger
mod Levels
mod Tests
use coindcx_bot.Prelude.{
  ℕ, String, Bool, true, false, not, ◌&&◌, ◌||◌, Option, none, some, List, [], ◌∷◌, ◌++◌,
  if◌then◌else◌, get_or, is_some, ltb, ◌==◌, string_key,
}
use coindcx_bot.Prelude.Int.{ℤ, sub_ℕ}
use coindcx_bot.Prelude.Num.{Num}
use coindcx_bot.Strategy.Types.{StrategySignal}
use coindcx_bot.Execution.TradeIntent.{TradeIntent, trade_intent_from_signal}

pub data ExitReason : Type 0 where
  tp sl ttl flip : ExitReason

pub record OpenPosition {ℓ} (W : Type ℓ) : Type ℓ where
  pub side : String
  pub entry : W
  pub stop_loss : W
  pub take_profit : W
  pub risk_per_unit : W
  pub breakeven_lock_price : W
  pub reached_breakeven_lock_at : Option ℕ
  pub opened_at : ℕ
  pub ttl_ms : W
  pub reason : String

pub record ClosedTrade {ℓ} (W : Type ℓ) : Type ℓ where
  pub position : OpenPosition W
  pub closed_at : ℕ
  pub exit_price : W
  pub exit_reason : ExitReason
  pub pnl : W
  pub r_multiple : W
  pub reached_breakeven_lock : Bool
  pub time_to_one_r_ms : Option ℤ
  pub closed_in_negative_pnl : Bool

pub record Simulator {ℓ} (W : Type ℓ) : Type ℓ where
  pub clock : ℕ
  pub position : Option (OpenPosition W)
  pub pending : Option (TradeIntent W)
  pub ledger : List (ClosedTrade W)
  pub pair : String
  pub pessimistic : Bool

pub record Bar {ℓ} (W : Type ℓ) : Type ℓ where
  pub high : W
  pub low : W

module _ {ℓ} {W : Type ℓ} (num : Num W) where
  open num use {of_ℕ, number, lt, le, eq, is_finite, add, sub, mul, div}

  abbrev pub is_long_side : OpenPosition W → Bool
  is_long_side p = p.side == "LONG"

  unfoldable pub advance_clock : ℕ → Simulator W → Simulator W
  advance_clock ts s = record s { clock = if ltb s.clock ts then ts else s.clock }

  abbrev pub pnl_of : OpenPosition W → W → W
  pnl_of p exit_price =
      mul (sub exit_price p.entry) (if is_long_side p then of_ℕ 1 else sub (of_ℕ 0) (of_ℕ 1))

  abbrev time_to_lock : OpenPosition W → Option ℕ → Option ℤ
  time_to_lock p none = none
  time_to_lock p (some at) = some (sub_ℕ at p.opened_at)

  -- The trade that `close` pushes.
  unfoldable pub trade_of : ℕ → W → ExitReason → OpenPosition W → ClosedTrade W
  trade_of ts exit_price reason p = record {
    position = p;
    closed_at = ts;
    exit_price = exit_price;
    exit_reason = reason;
    pnl = pnl_of p exit_price;
    r_multiple =
        if lt (of_ℕ 0) p.risk_per_unit then div (pnl_of p exit_price) p.risk_per_unit else of_ℕ 0;
    reached_breakeven_lock = is_some p.reached_breakeven_lock_at;
    time_to_one_r_ms = time_to_lock p p.reached_breakeven_lock_at;
    closed_in_negative_pnl = lt (pnl_of p exit_price) (of_ℕ 0);
  }

  abbrev pub close : ℕ → W → ExitReason → OpenPosition W → Simulator W → Simulator W
  close ts exit_price reason p s = record s {
    position = none;
    ledger = s.ledger ++ trade_of ts exit_price reason p ∷ [];
  }

  abbrev pub close_flip : Option (OpenPosition W) → Simulator W → Simulator W
  close_flip none s = s
  close_flip (some p) s = close s.clock p.entry flip p s

  unfoldable pub apply_trade_intent : TradeIntent W → Simulator W → Simulator W
  apply_trade_intent intent s = record (close_flip s.position s) { pending = some intent }

  abbrev apply_made : Option (TradeIntent W) → Simulator W → Simulator W
  apply_made none s = s
  apply_made (some intent) s = apply_trade_intent intent s

  unfoldable pub apply_signal :
      (String → String) → (created_at : String) → StrategySignal W → Simulator W → Simulator W
  apply_signal date_text created_at signal s =
      apply_made
        (trade_intent_from_signal num date_text (record {
          strategy_id = "backtest.strategy";
          pair = s.pair;
          signal = signal;
          created_at = created_at;
          entry_type = none;
          id = none;
        }))
        s

  abbrev entry_of : Option String → W → W
  entry_of none price = price
  entry_of (some text) price = number text

  abbrev absolute : W → W
  absolute x = if lt x (of_ℕ 0) then sub (of_ℕ 0) x else x

  -- The position that a pending intent opens. The defaults of its levels are for a level that is null,
  -- which an intent's never is.
  unfoldable pub open_of : ℕ → W → TradeIntent W → OpenPosition W
  open_of ts price p =
      let entry = entry_of p.entry_price price in
      let stop_loss = number p.stop_loss in
      let risk = absolute (sub entry stop_loss) in
      record {
        side = p.side;
        entry = entry;
        stop_loss = stop_loss;
        take_profit = number p.take_profit;
        risk_per_unit = risk;
        breakeven_lock_price = if p.side == "LONG" then add entry risk else sub entry risk;
        reached_breakeven_lock_at = none;
        opened_at = ts;
        ttl_ms = p.ttl_ms;
        reason = p.reason;
      }

  -- `trackBreakevenLockAtTick` and `trackBreakevenLockAtBar`: `up` is the price that a LONG position
  -- looks at, `down` that of a SHORT one.
  abbrev pub locks : W → W → OpenPosition W → Bool
  locks up down p =
      (is_long_side p && le p.breakeven_lock_price up)
      || (p.side == "SHORT" && le down p.breakeven_lock_price)

  unfoldable pub track_breakeven_lock : ℕ → (up down : W) → OpenPosition W → OpenPosition W
  track_breakeven_lock ts up down p =
      if not (is_some p.reached_breakeven_lock_at) && locks up down p
      then record p { reached_breakeven_lock_at = some ts }
      else p

  abbrev pub hits_tp : OpenPosition W → (up down : W) → Bool
  hits_tp p up down = if is_long_side p then le p.take_profit up else le down p.take_profit

  abbrev pub hits_sl : OpenPosition W → (up down : W) → Bool
  hits_sl p up down = if is_long_side p then le down p.stop_loss else le p.stop_loss up

  -- `ttlMs && ts - openedAt > ttlMs`
  abbrev pub outlived : ℕ → OpenPosition W → Bool
  outlived ts p =
      le p.ttl_ms p.ttl_ms
      && not (eq p.ttl_ms (of_ℕ 0))
      && lt p.ttl_ms (sub (of_ℕ ts) (of_ℕ p.opened_at))

  -- What a price does to a position, once the breakeven lock is tracked.
  unfoldable pub exit_tick : ℕ → W → OpenPosition W → Simulator W → Simulator W
  exit_tick ts price p s =
      if hits_tp p price price
      then close ts p.take_profit tp p s
      else (if hits_sl p price price
          then close ts p.stop_loss sl p s
          else (if outlived ts p then close ts price ttl p s else record s { position = some p }))

  abbrev pub mark_open : ℕ → W → Option (OpenPosition W) → Simulator W → Simulator W
  mark_open ts price none s = s
  mark_open ts price (some p) s = exit_tick ts price (track_breakeven_lock ts price price p) s

  abbrev pub mark_pending : ℕ → W → Option (TradeIntent W) → Simulator W → Simulator W
  mark_pending ts price none s = mark_open ts price s.position s
  mark_pending ts price (some intent) s =
      if is_finite price
      then record s { position = some (open_of ts price intent); pending = none }
      else mark_open ts price s.position s

  unfoldable pub mark_to_market : ℕ → W → Simulator W → Simulator W
  mark_to_market ts price s = mark_pending ts price s.pending (advance_clock ts s)

  abbrev pub middle : Bar W → W
  middle bar = div (add bar.high bar.low) (of_ℕ 2)

  -- What a bar does to a position, once the breakeven lock is tracked.
  unfoldable pub exit_bar : ℕ → Bar W → OpenPosition W → Simulator W → Simulator W
  exit_bar ts bar p s =
      let sl_hit = hits_sl p bar.high bar.low in
      let tp_hit = hits_tp p bar.high bar.low in
      if sl_hit && tp_hit
      then (if s.pessimistic then close ts p.stop_loss sl p s else close ts p.take_profit tp p s)
      else (if sl_hit
          then close ts p.stop_loss sl p s
          else (if tp_hit
              then close ts p.take_profit tp p s
              else (if outlived ts p
                  then close ts (middle bar) ttl p s
                  else record s { position = some p })))

  abbrev pub mark_open_bar : ℕ → Bar W → Option (OpenPosition W) → Simulator W → Simulator W
  mark_open_bar ts bar none s = s
  mark_open_bar ts bar (some p) s = exit_bar ts bar (track_breakeven_lock ts bar.high bar.low p) s

  abbrev pub fill_pending : ℕ → Bar W → Option (TradeIntent W) → Simulator W → Simulator W
  fill_pending ts bar none s = s
  fill_pending ts bar (some intent) s = mark_to_market ts (middle bar) s

  unfoldable pub mark_to_market_bar : ℕ → Bar W → Simulator W → Simulator W
  mark_to_market_bar ts bar s =
      let filled = fill_pending ts bar s.pending (advance_clock ts s) in
      mark_open_bar ts bar filled.position filled
