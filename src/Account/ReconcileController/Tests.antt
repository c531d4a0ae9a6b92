-- ===== src/Account/ReconcileController/Tests.antt =====
-- A reconciler with a position whose quantity the exchange has otherwise.
use coindcx_bot.Prelude.{
  ℕ, String, ◌≡◌, refl, Bool, true, false, Option, none, some, List, [], ◌∷◌, map, string_key,
}
use coindcx_bot.Prelude.Dict.{get, set, delete}
use coindcx_bot.Prelude.Num.{Whole, whole_num}
use coindcx_bot.Prelude.Int.{pos, negsuc}
use coindcx_bot.Prelude.Sort.{sort, insert_sorted}
use coindcx_bot.Account.Types.{
  Position, Order, OrderStatus, long, buy, ws, open_status, partially_filled,
}
use coindcx_bot.Account.Stores.PositionStore.{
  set_all, classify_lifecycle, apply_ws, flatten_missing, synthesized_flat, replace_from_rest,
  open_positions,
}
use coindcx_bot.Account.Stores.BalanceStore.{new_store}
use coindcx_bot.Account.Stores.OrderStore.{
  apply_order_ws, set_orders, replace_orders, delete_orders, evict_expired,
}
use coindcx_bot.Account.Stores.FillsLedger.{new_ledger}
use coindcx_bot.Account.DivergenceDetector.{
  by_id, classify, diff_rest, diff_local, diff_maps, diff_positions, diff_orders,
}
use coindcx_bot.Account.HeartbeatWatcher.{new_watcher, touch}
use coindcx_bot.Account.ReconcileController.Signals.{
  AccountSignal, info_signal, emit_throttled, suppressed_by_storm, divergence_signals,
  handle_order_derived_transitions, handle_unfilled_timeout_cancellations,
}
use coindcx_bot.Account.ReconcileController.{
  Reconciler, position_event, order_event, maybe_emit_threshold, ingest_row, ingest,
}
use coindcx_bot.Account.ReconcileController.Sweeps.{
  rows, not_found, failed, handle_diffs, sweep_positions, sweep_orders, append_all, sweep_fills,
}
use coindcx_bot.Account.ReconcileController.Throttle.{emitted, IsSpaced, emitted-IsSpaced, storms}
use coindcx_bot.Account.ReconcileController.Alarms.{
  has_critical, sweep_positions_critical, sweep_all_fills, not_found_for_good,
}

reconcile_code : Unit {0}
unfolding get set delete sort insert_sorted set_all classify_lifecycle apply_ws flatten_missing
    synthesized_flat replace_from_rest open_positions apply_order_ws set_orders replace_orders
    delete_orders evict_expired by_id classify diff_rest diff_local diff_maps diff_positions
    diff_orders new_watcher touch emit_throttled suppressed_by_storm divergence_signals
    handle_order_derived_transitions handle_unfilled_timeout_cancellations maybe_emit_threshold
    ingest_row ingest handle_diffs sweep_positions sweep_orders append_all sweep_fills emitted
    storms sweep_all_fills
reconcile_code = tt

abbrev no_date : String → Option ℕ
no_date s = none

abbrev never : String → String → Bool
never s t = false

abbrev held : String → Position
held active_pos = record {
  id = "a";
  pair = "BTC";
  side = long;
  active_pos = active_pos;
  avg_price = "10";
  mark_price = none;
  liquidation_price = none;
  leverage = none;
  margin_currency = "INR";
  unrealized_pnl = "5";
  realized_pnl = "0";
  opened_at = none;
  updated_at = "t";
  source = ws;
}

abbrev start : Reconciler Whole
start = record {
  config = record {
    pnl_alarm_pct = some (negsuc 0);
    util_alarm_pct = some (pos 1);
    divergence_pnl_abs_alarm = some (pos 100);
    divergence_pnl_pct_alarm = some (pos 1);
    backfill_hours = 24;
    signal_cooldown_ms = 1000;
    storm_threshold = 2;
    storm_window_ms = 60_000;
  };
  positions = [];
  balances = new_store;
  orders = [];
  fills = new_ledger 10;
  heartbeat = new_watcher (λ ch. 1000) 0;
  cooldown_at = [];
  storm_times = [];
  fills_rest_disabled = false;
}

abbrev holding : Reconciler Whole
holding = (ingest whole_num never 5 (position_event (held "1")) start).0

opens :
    map (λ s. s.type) (ingest whole_num never 5 (position_event (held "1")) start).1
    ≡ "position.opened" ∷ []
unfolding reconcile_code
opens = refl

abbrev order : OrderStatus → String → Order
order status remaining = record {
  id = "o";
  pair = "BTC";
  side = buy;
  type = "limit";
  status = status;
  price = none;
  total_qty = "2";
  remaining_qty = remaining;
  avg_fill_price = none;
  position_id = none;
  created_at = "t";
  updated_at = "t";
  source = ws;
}

abbrev ordered : Reconciler Whole
ordered = (ingest whole_num never 5 (order_event (order open_status "2") false) start).0

fills_partly :
    map
      (λ s. s.type)
      (ingest whole_num never 6 (order_event (order partially_filled "1") false) ordered).1
    ≡ "reconcile.partial_fill" ∷ []
unfolding reconcile_code
fills_partly = refl

times_out :
    map (λ s. s.type) (sweep_orders whole_num no_date never never 6 (some []) ordered).1
    ≡ "reconcile.unfilled_timeout_cancelled" ∷ []
unfolding reconcile_code
times_out = refl

-- A position that is flat in the local store counts as missing there.
flat_silent :
    has_critical
      (sweep_positions whole_num no_date never never 9
        (some (held "5" ∷ []))
        (ingest whole_num never 5 (position_event (held "0")) start).0).1
    ≡ false
unfolding reconcile_code
flat_silent = refl

sweep_positions_critical_example :
    has_critical (sweep_positions whole_num no_date never never 9 (some (held "2" ∷ [])) holding).1
    ≡ true
unfolding reconcile_code
sweep_positions_critical_example =
    sweep_positions_critical whole_num no_date never never 9 "a" (held "2" ∷ []) holding (held "1")
      (held "2") refl refl refl

not_found_for_good_example :
    sweep_all_fills whole_num no_date never never
      ((20, failed) ∷ (30, rows []) ∷ [])
      (sweep_fills whole_num no_date never never 10 not_found start).0
    ≡ ((sweep_fills whole_num no_date never never 10 not_found start).0, [])
not_found_for_good_example =
    not_found_for_good whole_num no_date never never 10 ((20, failed) ∷ (30, rows []) ∷ []) start
      refl

abbrev signal : AccountSignal
signal = record { type = "t"; severity = info_signal; pair = none; about = "a" }

abbrev requests : List (ℕ × String × AccountSignal)
requests =
    (5000, "k", signal)
    ∷ (5500, "k", signal)
    ∷ (5600, "j", signal)
    ∷ (6000, "k", signal)
    ∷ (10, "k", signal)
    ∷ []

two_emitted : emitted 1000 "k" requests [] ≡ 5000 ∷ 6000 ∷ []
unfolding reconcile_code
two_emitted = refl

emitted-IsSpaced_example : IsSpaced 1000 0 (emitted 1000 "k" requests [])
unfolding reconcile_code
emitted-IsSpaced_example = emitted-IsSpaced 1000 "k" requests []
