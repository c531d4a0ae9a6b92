-- ===== src/Account/ReconcileController/Sweeps.antt =====
-- src/account/reconcile-controller.ts: the sweeps and the totals. `time_of`, `is_later` and `gt` are what the
-- stores need of dates and texts. The writes to the persistence are left out, as if none threw.
use coindcx_bot.Prelude.{
  ℕ, String, Bool, true, Option, none, some, List, [], ◌∷◌, ◌++◌, filter, if◌then◌else◌, length,
  ◌==◌, string_key, nat_key,
}
use coindcx_bot.Prelude.Dict.{get}
use coindcx_bot.Prelude.Num.{Num}
use coindcx_bot.Account.Types.{
  Position, Balance, Order, Fill, AccountTotals, AccountSnapshot, Entity, position, balance, order,
  fill,
}
use coindcx_bot.Account.Stores.PositionStore.{PositionStore, replace_from_rest, open_positions}
use coindcx_bot.Account.Stores.BalanceStore.{replace_balances}
use coindcx_bot.Account.Stores.OrderStore.{
  OrderStoreOptions, replace_orders, order_values, evict_expired,
}
use coindcx_bot.Account.Stores.FillsLedger.{FillsLedger, append}
use coindcx_bot.Account.DivergenceDetector.{
  Diff, DivergenceConfig, diff_severity, is_alarm, diff_positions, diff_balances, diff_orders,
}
use coindcx_bot.Account.ReconcileController.Signals.{
  info_signal, warn_signal, AccountSignal, entity_text, is_open, divergence_signals,
  handle_unfilled_timeout_cancellations,
}
use coindcx_bot.Account.ReconcileController.{Reconciler, throttled, balance_rows}

-- How the request for the fills ends.
pub data FillsAnswer : Type 0 where
  rows : List Fill → FillsAnswer
  not_found failed : FillsAnswer

abbrev pub sweep_failed : Entity → AccountSignal
sweep_failed entity = record {
  type = "reconcile.sweep_failed";
  severity = warn_signal;
  pair = none;
  about = entity_text entity;
}

abbrev pair_of : Option Position → Option String
pair_of none = none
pair_of (some p) = some p.pair

abbrev pub synthesized : PositionStore → List String → List AccountSignal
synthesized store [] = []
synthesized store (id ∷ ids) =
    record {
      type = "position.closed";
      severity = warn_signal;
      pair = pair_of (get id store);
      about = id;
    }
    ∷ synthesized store ids

abbrev rest_disabled : AccountSignal
rest_disabled = record {
  type = "reconcile.fills_rest_disabled";
  severity = info_signal;
  pair = none;
  about = "fill";
}

abbrev alarms {ℓ} : {T : Type ℓ} → Diff T → Bool
alarms d = is_alarm (diff_severity d)

abbrev pub alarm_count {ℓ} : {T : Type ℓ} → List (Diff T) → ℕ
alarm_count diffs = length (filter alarms diffs)

module _ {ℓ} {W : Type ℓ} (num : Num W) (time_of : String → Option ℕ)
    (is_later gt : String → String → Bool) where
  open num use {of_ℕ, number, lt, le, add, sub, mul, div}

  abbrev order_opts : OrderStoreOptions
  order_opts = record { closed_ttl_ms = 86_400_000; closed_max = 500 }

  abbrev pub detector : Reconciler W → DivergenceConfig W
  detector s = record {
    pnl_abs_alarm = s.config.divergence_pnl_abs_alarm;
    pnl_pct_alarm = s.config.divergence_pnl_pct_alarm;
  }

  abbrev handled : (now : ℕ) → Entity → ℕ → Reconciler W → Reconciler W × List AccountSignal
  handled now entity alarm_count s =
      let r =
        divergence_signals s.config.storm_threshold s.config.storm_window_ms now entity alarm_count
          s.storm_times in
      (record s { storm_times = r.0 }, r.1)

  -- `handleDiffs`
  unfoldable pub handle_diffs {κ} :
      {T : Type κ}
      → (now : ℕ) → Entity
      → List (Diff T)
      → Reconciler W
      → Reconciler W × List AccountSignal
  handle_diffs now entity diffs s = handled now entity (alarm_count diffs) s

  unfoldable pub sweep_positions :
      (now : ℕ) → Option (List Position) → Reconciler W → Reconciler W × List AccountSignal
  sweep_positions now none s = (s, sweep_failed position ∷ [])
  sweep_positions now (some rest) s =
      let diffs = diff_positions num (detector s) (open_positions num s.positions) rest in
      let replaced = replace_from_rest num rest s.positions in
      let r = handle_diffs now position diffs (record s { positions = replaced.0 }) in
      (r.0, synthesized replaced.0 replaced.1 ++ r.1)

  unfoldable pub sweep_balances :
      (now : ℕ) → Option (List Balance) → Reconciler W → Reconciler W × List AccountSignal
  sweep_balances now none s = (s, sweep_failed balance ∷ [])
  sweep_balances now (some rest) s =
      handle_diffs now balance (diff_balances num (detector s) (balance_rows num gt s) rest)
        (record s { balances = replace_balances num rest s.balances })

  abbrev open_before : Reconciler W → List Order
  open_before s = filter (λ o. is_open o.status) (order_values s.orders)

  unfoldable pub sweep_orders :
      (now : ℕ) → Option (List Order) → Reconciler W → Reconciler W × List AccountSignal
  sweep_orders now none s = (s, sweep_failed order ∷ [])
  sweep_orders now (some rest) s =
      let diffs = diff_orders num (detector s) (open_before s) rest in
      let evicted = evict_expired order_opts time_of is_later now (replace_orders rest s.orders) in
      let r = handle_diffs now order diffs (record s { orders = evicted.0 }) in
      (r.0, handle_unfilled_timeout_cancellations num (open_before s) rest ++ r.1)

  unfoldable pub append_all : List Fill → FillsLedger → FillsLedger
  append_all [] ledger = ledger
  append_all (f ∷ fs) ledger = append_all fs (append gt f ledger).0

  abbrev pub fills_answered :
      (now : ℕ) → FillsAnswer → Reconciler W → Reconciler W × List AccountSignal
  fills_answered now (rows fs) s = (record s { fills = append_all fs s.fills }, [])
  fills_answered now not_found s =
      throttled num gt now "reconcile.fills_rest_disabled" rest_disabled
        (record s { fills_rest_disabled = true })
  fills_answered now failed s = (s, sweep_failed fill ∷ [])

  unfoldable pub sweep_fills :
      (now : ℕ) → FillsAnswer → Reconciler W → Reconciler W × List AccountSignal
  sweep_fills now answer s = if s.fills_rest_disabled then (s, []) else fills_answered now answer s

  abbrev total_unrealized : List Position → W → W
  total_unrealized [] sum = sum
  total_unrealized (p ∷ ps) sum =
      total_unrealized ps
        (if p.margin_currency == "INR" then add sum (number p.unrealized_pnl) else sum)

  abbrev total_inr : List Balance → W → W
  total_inr [] sum = sum
  total_inr (b ∷ bs) sum =
      total_inr bs
        (if b.currency == "INR" then add sum (add (number b.available) (number b.locked)) else sum)

  -- `number_text` is `toString()` of a number.
  unfoldable pub compute_totals : (number_text : W → String) → Reconciler W → AccountTotals
  compute_totals number_text s =
      let wallet = total_inr (balance_rows num gt s) (of_ℕ 0) in
      let unrealized = total_unrealized (open_positions num s.positions) (of_ℕ 0) in
      record {
        equity_inr = number_text (add wallet unrealized);
        wallet_inr = number_text wallet;
        unrealized_inr = number_text unrealized;
        realized_day = "0";
        realized_lifetime = "0";
      }

  unfoldable pub account_snapshot : (number_text : W → String) → Reconciler W → AccountSnapshot
  account_snapshot number_text s = record {
    positions = open_positions num s.positions;
    balances = balance_rows num gt s;
    orders = order_values s.orders;
    totals = compute_totals number_text s;
  }
