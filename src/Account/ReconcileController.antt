-- ===== src/Account/ReconcileController.antt =====
-- src/account/reconcile-controller.ts. An event or a sweep brings rows that are normalized already, and a
-- sweep that throws brings `none`. A handler answers with the new state and the signals that it emits, of
-- which the payload is the id or entity that it is about; what it writes to the database is left out.
pub mod Signals
pub mod Sweeps
mod Throttle
mod Alarms
mod Tests
use Prim.Native.String.{◌++◌ as concat}
use coindcx_bot.Prelude.{
  ℕ, ◌+◌, ◌*◌, String, Bool, true, false, not, ◌&&◌, ◌||◌, Option, none, some, List, [], ◌∷◌, ◌++◌,
  map, filter, any, if◌then◌else◌, get_or, is_some, ltb, length, ◌==◌, string_key, nat_key,
}
use coindcx_bot.Prelude.Dict.{Dict, get, set}
use coindcx_bot.Prelude.Num.{Num}
use coindcx_bot.Account.Types.{
  Position, Balance, Order, OrderStatus, Fill, AccountTotals, AccountSnapshot, Entity, position,
  balance, order, fill, Lifecycle, opened, closed, flipped, open_status, partially_filled,
  cancelled,
}
use coindcx_bot.Account.Stores.PositionStore.{PositionStore, apply_ws, replace_from_rest, values}
use coindcx_bot.Account.Stores.BalanceStore.{BalanceStore, apply_balance, replace_balances}
use coindcx_bot.Account.Stores.OrderStore.{
  OrderStore, OrderStoreOptions, apply_order_ws, replace_orders, order_values, evict_expired,
}
use coindcx_bot.Account.Stores.FillsLedger.{FillsLedger, append}
use coindcx_bot.Account.DivergenceDetector.{
  Diff, DivergenceConfig, diff_severity, is_alarm, diff_positions, diff_balances, diff_orders,
}
use coindcx_bot.Account.HeartbeatWatcher.{HeartbeatWatcher, touch}
use coindcx_bot.Account.ReconcileController.Signals.{
  Severity, info_signal, warn_signal, critical_signal, AccountSignal, ReconcileConfig, entity_text,
  is_open, emit_throttled, suppressed_by_storm, divergence_signals,
  handle_order_derived_transitions, handle_unfilled_timeout_cancellations,
}

pub record Reconciler {ℓ} (W : Type ℓ) : Type ℓ where
  pub config : ReconcileConfig W
  pub positions : PositionStore
  pub balances : BalanceStore
  pub orders : OrderStore
  pub fills : FillsLedger
  pub heartbeat : HeartbeatWatcher
  pub cooldown_at : Dict String ℕ
  pub storm_times : List ℕ
  pub fills_rest_disabled : Bool

-- A row that `ingest` has normalized.
pub data Event : Type 0 where
  position_event : Position → Event
  balance_event : Balance → Event
  -- An order, and whether the dedup table has its event already.
  order_event : Order → (is_duplicate : Bool) → Event
  fill_event : Fill → Event

abbrev pub entity_of : Event → Entity
entity_of (position_event p) = position
entity_of (balance_event b) = balance
entity_of (order_event o is_duplicate) = order
entity_of (fill_event f) = fill

abbrev lifecycle_text : Lifecycle → String
lifecycle_text opened = "position.opened"
lifecycle_text closed = "position.closed"
lifecycle_text flipped = "position.flipped"

abbrev lifecycle_signals : Position → Option Lifecycle → List AccountSignal
lifecycle_signals p none = []
lifecycle_signals p (some lifecycle) =
    record {
      type = lifecycle_text lifecycle;
      severity = info_signal;
      pair = some p.pair;
      about = p.id;
    }
    ∷ []

-- `gt` is `>` on texts.
module _ {ℓ} {W : Type ℓ} (num : Num W) (gt : String → String → Bool) where
  open num use {of_ℕ, number, lt, le, add, sub, mul, div}

  abbrev pub throttled :
      (now : ℕ) → String → AccountSignal → Reconciler W → Reconciler W × List AccountSignal
  throttled now key signal s =
      let r = emit_throttled s.config.signal_cooldown_ms now key signal s.cooldown_at in
      (record s { cooldown_at = r.0 }, r.1)

  abbrev abs : W → W
  abs x = if lt x (of_ℕ 0) then sub (of_ℕ 0) x else x

  unfoldable pub maybe_emit_threshold :
      (now : ℕ) → Position → Reconciler W → Reconciler W × List AccountSignal
  maybe_emit_threshold now p s =
      let margin = mul (number p.avg_price) (abs (number p.active_pos)) in
      if le margin (of_ℕ 0)
      then (s, [])
      else (if le s.config.pnl_alarm_pct (div (number p.unrealized_pnl) margin)
          then (s, [])
          else throttled now (concat "position.pnl_threshold:" p.id)
              (record {
                type = "position.pnl_threshold";
                severity = warn_signal;
                pair = some p.pair;
                about = p.id;
              })
              s)

  abbrev total_locked : List Balance → W → W
  total_locked [] sum = sum
  total_locked (b ∷ bs) sum = total_locked bs (add sum (number b.locked))

  abbrev total_wallet : List Balance → W → W
  total_wallet [] sum = sum
  total_wallet (b ∷ bs) sum = total_wallet bs (add sum (add (number b.available) (number b.locked)))

  abbrev pub balance_rows : Reconciler W → List Balance
  balance_rows s = map (λ e. e.1) s.balances.by_currency

  unfoldable pub maybe_emit_util_threshold :
      (now : ℕ) → Reconciler W → Reconciler W × List AccountSignal
  maybe_emit_util_threshold now s =
      let locked = total_locked (balance_rows s) (of_ℕ 0) in
      let wallet = total_wallet (balance_rows s) (of_ℕ 0) in
      if le wallet (of_ℕ 0)
      then (s, [])
      else (if lt (div locked wallet) s.config.util_alarm_pct
          then (s, [])
          else throttled now "account.margin_util_high"
              (record {
                type = "account.margin_util_high";
                severity = warn_signal;
                pair = none;
                about = "account";
              })
              s)

  abbrev order_position : Option String → OrderStore → Option String
  order_position none orders = none
  order_position (some id) orders = if id == "" then none else position_of (get id orders)
    where
      position_of : Option Order → Option String
      position_of none = none
      position_of (some o) = o.position_id

  abbrev linked : Option String → Option String → Option String
  linked none other = other
  linked (some p) other = some p

  unfoldable pub link_fill : Fill → OrderStore → Fill
  link_fill f orders = record f {
    position_id = linked f.position_id (order_position f.order_id orders);
  }

  abbrev fill_signal : Fill → AccountSignal
  fill_signal f = record {
    type = "fill.executed";
    severity = info_signal;
    pair = some f.pair;
    about = f.id;
  }

  unfoldable pub ingest_row : (now : ℕ) → Event → Reconciler W → Reconciler W × List AccountSignal
  ingest_row now (position_event p) s =
      let applied = apply_ws num p s.positions in
      let r = maybe_emit_threshold now p (record s { positions = applied.0 }) in
      (r.0, lifecycle_signals p applied.1.lifecycle ++ r.1)
  ingest_row now (balance_event b) s =
      maybe_emit_util_threshold now (record s { balances = (apply_balance num b s.balances).0 })
  ingest_row now (order_event o is_duplicate) s =
      let applied = apply_order_ws o s.orders in
      if is_duplicate
      then (s, [])
      else (record s { orders = applied.0 }, handle_order_derived_transitions num applied.1.prev o)
  ingest_row now (fill_event f) s =
      let linked_fill = link_fill f s.orders in
      let r = append gt linked_fill s.fills in
      if r.1 then (record s { fills = r.0 }, fill_signal linked_fill ∷ []) else (s, [])

  unfoldable pub ingest : (now : ℕ) → Event → Reconciler W → Reconciler W × List AccountSignal
  ingest now e s = ingest_row now e (record s { heartbeat = touch (entity_of e) now s.heartbeat })
