-- ===== src/Account/ReconcileController/Signals.antt =====
-- src/account/reconcile-controller.ts: the signals, their cooldown and the storm of alarms.
use Prim.Native.String.{◌++◌ as concat}
use coindcx_bot.Prelude.{
  ℕ, zero, suc, ◌+◌, String, Bool, true, false, not, ◌&&◌, Option, none, some, List, [], ◌∷◌, ◌++◌,
  filter, any, if◌then◌else◌, get_or, ltb, length, ◌==◌, string_key, nat_key,
}
use coindcx_bot.Prelude.Dict.{Dict, get, set}
use coindcx_bot.Prelude.Num.{Num}
use coindcx_bot.Account.Types.{
  Order, OrderStatus, Entity, position, balance, order, fill, open_status, partially_filled,
  cancelled,
}
use coindcx_bot.Account.DivergenceDetector.{status_text}

pub data Severity : Type 0 where
  info_signal warn_signal critical_signal : Severity

pub record AccountSignal : Type 0 where
  pub type : String
  pub severity : Severity
  pub pair : Option String
  pub about : String

pub record ReconcileConfig {ℓ} (W : Type ℓ) : Type ℓ where
  pub pnl_alarm_pct : W
  pub util_alarm_pct : W
  pub divergence_pnl_abs_alarm : W
  pub divergence_pnl_pct_alarm : W
  pub backfill_hours : ℕ
  pub signal_cooldown_ms : ℕ
  pub storm_threshold : ℕ
  pub storm_window_ms : ℕ

abbrev pub entity_text : Entity → String
entity_text position = "position"
entity_text balance = "balance"
entity_text order = "order"
entity_text fill = "fill"

-- `now - last < cooldown`, with 0 for a key that was never emitted.
unfoldable pub emit_throttled :
    (cooldown_ms now : ℕ)
    → (key : String) → AccountSignal
    → Dict String ℕ
    → Dict String ℕ × List AccountSignal
emit_throttled cooldown_ms now key signal at =
    if ltb now (get_or (get key at) 0 + cooldown_ms)
    then (at, [])
    else (set key now at, signal ∷ [])

abbrev pub repeat : ℕ → ℕ → List ℕ
repeat zero now = []
repeat (suc n) now = now ∷ repeat n now

-- `now - t < stormWindowMs`
abbrev pub in_window : (window_ms now : ℕ) → ℕ → Bool
in_window window_ms now t = ltb now (t + window_ms)

abbrev pub storm_signal : AccountSignal
storm_signal = record {
  type = "reconcile.storm";
  severity = critical_signal;
  pair = none;
  about = "storm";
}

pub record StormCheck : Type 0 where
  pub times : List ℕ
  pub signals : List AccountSignal
  pub suppressed : Bool

unfoldable pub suppressed_by_storm :
    (threshold window_ms now : ℕ) → (alarm_count : ℕ) → List ℕ → StormCheck
suppressed_by_storm threshold window_ms now alarm_count times =
    let recent = filter (in_window window_ms now) times ++ repeat alarm_count now in
    if ltb threshold (length recent)
    then record { times = []; signals = storm_signal ∷ []; suppressed = true }
    else record { times = recent; signals = []; suppressed = false }

abbrev pub divergence_signal : Entity → AccountSignal
divergence_signal entity = record {
  type = "reconcile.divergence";
  severity = critical_signal;
  pair = none;
  about = entity_text entity;
}

abbrev pub alarm_signals : Entity → ℕ → StormCheck → List AccountSignal
alarm_signals entity alarm_count check =
    if check.suppressed then check.signals else check.signals ++ divergence_signal entity ∷ []

-- What `handleDiffs` emits, from the number of alarms.
unfoldable pub divergence_signals :
    (threshold window_ms now : ℕ)
    → Entity
    → (alarm_count : ℕ) → List ℕ
    → List ℕ × List AccountSignal
divergence_signals threshold window_ms now entity alarm_count times =
    let check = suppressed_by_storm threshold window_ms now alarm_count times in
    if alarm_count == 0 then (times, []) else (check.times, alarm_signals entity alarm_count check)

abbrev pub is_open : OrderStatus → Bool
is_open open_status = true
is_open partially_filled = true
is_open _ = false

abbrev is_partial : OrderStatus → Bool
is_partial partially_filled = true
is_partial _ = false

abbrev is_cancelled : OrderStatus → Bool
is_cancelled cancelled = true
is_cancelled _ = false

abbrev partial_fill : Order → AccountSignal
partial_fill o = record {
  type = "reconcile.partial_fill";
  severity = info_signal;
  pair = some o.pair;
  about = o.id;
}

abbrev pub timeout_cancelled : Order → AccountSignal
timeout_cancelled o = record {
  type = "reconcile.unfilled_timeout_cancelled";
  severity = warn_signal;
  pair = some o.pair;
  about = o.id;
}

-- `[id, status, updatedAt, remainingQty].join(':')`
unfoldable pub build_event_id : Order → String
build_event_id o = concat o.id (
    concat ":" (
      concat (status_text o.status)
        (concat ":" (concat o.updated_at (concat ":" o.remaining_qty)))))

module _ {ℓ} {W : Type ℓ} (num : Num W) where
  open num use {of_ℕ, number, lt, is_finite}

  abbrev fills_partly : Order → Order → Bool
  fills_partly prev next =
      is_open prev.status
      && is_partial next.status
      && is_finite (number next.total_qty)
      && lt (of_ℕ 0) (number next.total_qty)
      && is_finite (number prev.remaining_qty)
      && is_finite (number next.remaining_qty)
      && lt (number next.remaining_qty) (number prev.remaining_qty)

  abbrev transitions : Option Order → Order → List AccountSignal
  transitions none next = []
  transitions (some prev) next =
      (if fills_partly prev next then partial_fill next ∷ [] else [])
      ++ (if is_open prev.status && is_cancelled next.status
          then timeout_cancelled next ∷ []
          else [])

  unfoldable pub handle_order_derived_transitions : Option Order → Order → List AccountSignal
  handle_order_derived_transitions prev next = if next.pair == "" then [] else transitions prev next

  unfoldable pub handle_unfilled_timeout_cancellations :
      (previous_open rest_open : List Order) → List AccountSignal
  handle_unfilled_timeout_cancellations [] rest_open = []
  handle_unfilled_timeout_cancellations (o ∷ os) rest_open =
      let rest = handle_unfilled_timeout_cancellations os rest_open in
      if not (any (λ r. r.id == o.id) rest_open) && lt (of_ℕ 0) (number o.remaining_qty)
      then timeout_cancelled o ∷ rest
      else rest
