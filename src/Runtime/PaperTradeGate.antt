-- ===== src/Runtime/PaperTradeGate.antt =====
-- src/runtime/paper-trade-gate.ts. Dates are milliseconds and the days of a snapshot are kept in
-- milliseconds too, so `daysElapsed` is `elapsed_ms / day_ms`, and its floor is the quotient. The
-- rows are what the two queries return. `to_fixed` is `Number(x.toFixed(6))`, and `text_of_ℕ` and
-- `to_text` are `String` of a count and of a number. A signal is its own data and the snapshot
-- that its payload repeats.
mod Laws
mod Reports
mod Tests
use Prim.Native.String.{◌++◌ as concat}
use coindcx_bot.Prelude.{
  ℕ, zero, suc, ◌+◌, ◌-◌, ◌*◌, String, Bool, true, false, not, ◌&&◌, ◌||◌, Option, none, some, List,
  [], ◌∷◌, ◌++◌, if◌then◌else◌, get_or, leb, ltb, ◌==◌, string_key, nat_key,
}
use Prim.Native.Nat.{◌/◌}
use coindcx_bot.Prelude.Num.{Num}

abbrev pub day_ms : ℕ
day_ms = 86_400_000

pub record PaperTradeStatsRow : Type 0 where
  pub trade_count : ℕ
  pub first_trade_ts : Option ℕ
  pub latest_trade_ts : Option ℕ

pub record PaperTradeGoLiveEvidenceRow {ℓ} (W : Type ℓ) : Type ℓ where
  pub expectancy_sample_size : ℕ
  pub expectancy_r : Option W
  pub stop_exit_count : ℕ
  pub stop_exit_with_breakeven_count : ℕ
  pub drawdown_sample_size : ℕ
  pub max_drawdown_pct : Option W

pub record PaperGoLiveCriteria {ℓ} (W : Type ℓ) : Type ℓ where
  pub min_breakeven_lock_before_stop_rate : W
  pub min_expectancy_r : W
  pub max_drawdown_pct : W

pub record PaperGoLiveMetrics {ℓ} (W : Type ℓ) : Type ℓ where
  pub expectancy_r : Option W
  pub expectancy_sample_size : ℕ
  pub breakeven_lock_before_stop_rate : Option W
  pub stop_exit_count : ℕ
  pub stop_exit_with_breakeven_count : ℕ
  pub max_drawdown_pct : Option W
  pub drawdown_sample_size : ℕ

pub record PaperGoLiveEvaluation {ℓ} (W : Type ℓ) : Type ℓ where
  pub eligible : Bool
  pub failed_checks : List String
  pub metrics : PaperGoLiveMetrics W
  pub criteria : PaperGoLiveCriteria W

pub record PaperTradeGateSnapshot {ℓ} (W : Type ℓ) : Type ℓ where
  pub min_days : ℕ
  pub trade_count : ℕ
  pub first_trade_at : Option ℕ
  pub latest_trade_at : Option ℕ
  pub window_ends_at : Option ℕ
  pub elapsed_ms : ℕ
  pub remaining_ms : ℕ
  pub completed : Bool
  pub evaluated_at : ℕ
  pub go_live : PaperGoLiveEvaluation W

-- `last_reported_day` is none for -1.
pub record PaperTradeGate {ℓ} (W : Type ℓ) : Type ℓ where
  pub last_reported_day : Option ℕ
  pub completion_reported : Bool
  pub last_go_live_digest : String
  pub min_days : ℕ
  pub criteria : PaperGoLiveCriteria W

pub data Severity : Type 0 where
  info warn critical : Severity

pub record GateSignal {ℓ} (W : Type ℓ) : Type ℓ where
  pub type : String
  pub severity : Severity
  pub day : ℕ
  pub about : PaperTradeGateSnapshot W

abbrev or_else {ℓ} : {A : Type ℓ} → Option A → Option A → Option A
or_else (some x) y = some x
or_else none y = y

abbrev bit : Bool → String
bit b = if b then "1" else "0"

abbrev join : String → List String → String
join sep [] = ""
join sep (s ∷ []) = s
join sep (s ∷ t ∷ ss) = concat s (concat sep (join sep (t ∷ ss)))

-- `elapsedDayBucket`, and whether it is after the last reported day
abbrev pub day_bucket {ℓ} : {W : Type ℓ} → PaperTradeGateSnapshot W → ℕ
day_bucket snapshot = snapshot.elapsed_ms / day_ms

abbrev pub after_day : ℕ → Option ℕ → Bool
after_day day none = true
after_day day (some last) = ltb last day

module _ {ℓ} {W : Type ℓ} (num : Num W) where
  open num use {of_ℕ, number, lt, le, div}

  pub default_go_live_criteria : PaperGoLiveCriteria W
  default_go_live_criteria = record {
    min_breakeven_lock_before_stop_rate = number "0.99";
    min_expectancy_r = number "0.4";
    max_drawdown_pct = number "0.08";
  }

  abbrev pub breakeven_rate : ℕ → ℕ → Option W
  breakeven_rate stops locked = if ltb 0 stops then some (div (of_ℕ locked) (of_ℕ stops)) else none

  -- `xs.push(missing)` without evidence, `xs.push(failed)` if it is not good enough
  unfoldable pub check_evidence : Option W → (W → Bool) → String → String → List String
  check_evidence none bad missing failed = missing ∷ []
  check_evidence (some x) bad missing failed = if bad x then failed ∷ [] else []

  abbrev pub is_empty : List String → Bool
  is_empty [] = true
  is_empty (s ∷ ss) = false

  abbrev pub failed_checks : PaperGoLiveCriteria W → Bool → PaperGoLiveMetrics W → List String
  failed_checks criteria min_days_completed m =
      (if not min_days_completed then "minimum_days_not_met" ∷ [] else [])
      ++ (check_evidence m.breakeven_lock_before_stop_rate
            (λ x. lt x criteria.min_breakeven_lock_before_stop_rate)
            "breakeven_lock_before_stop_evidence_missing"
            "breakeven_lock_before_stop_below_threshold"
          ++ (check_evidence m.expectancy_r (λ x. lt x criteria.min_expectancy_r)
                "expectancy_evidence_missing" "expectancy_below_threshold"
              ++ check_evidence m.max_drawdown_pct (λ x. le criteria.max_drawdown_pct x)
                  "max_drawdown_evidence_missing" "max_drawdown_above_threshold"))

  unfoldable pub metrics_of : Option (PaperTradeGoLiveEvidenceRow W) → PaperGoLiveMetrics W
  metrics_of none = record {
    expectancy_r = none;
    expectancy_sample_size = 0;
    breakeven_lock_before_stop_rate = none;
    stop_exit_count = 0;
    stop_exit_with_breakeven_count = 0;
    max_drawdown_pct = none;
    drawdown_sample_size = 0;
  }
  metrics_of (some e) = record {
    expectancy_r = e.expectancy_r;
    expectancy_sample_size = e.expectancy_sample_size;
    breakeven_lock_before_stop_rate =
        breakeven_rate e.stop_exit_count e.stop_exit_with_breakeven_count;
    stop_exit_count = e.stop_exit_count;
    stop_exit_with_breakeven_count = e.stop_exit_with_breakeven_count;
    max_drawdown_pct = e.max_drawdown_pct;
    drawdown_sample_size = e.drawdown_sample_size;
  }

  unfoldable pub evaluate_go_live :
      PaperGoLiveCriteria W
      → Bool
      → Option (PaperTradeGoLiveEvidenceRow W)
      → PaperGoLiveEvaluation W
  evaluate_go_live criteria min_days_completed evidence =
      let metrics = metrics_of evidence in
      let failed = failed_checks criteria min_days_completed metrics in
      record {
        eligible = is_empty failed;
        failed_checks = failed;
        metrics = metrics;
        criteria = criteria;
      }

  abbrev trades_of : Option PaperTradeStatsRow → ℕ
  trades_of none = 0
  trades_of (some row) = row.trade_count

  abbrev first_of : Option PaperTradeStatsRow → Option ℕ
  first_of none = none
  first_of (some row) = row.first_trade_ts

  abbrev latest_of : Option PaperTradeStatsRow → Option ℕ
  latest_of none = none
  latest_of (some row) = or_else row.latest_trade_ts row.first_trade_ts

  -- `snapshot`, with the first rows that the queries return
  unfoldable pub snapshot :
      PaperTradeGate W
      → (now : ℕ) → Option PaperTradeStatsRow
      → Option (PaperTradeGoLiveEvidenceRow W)
      → PaperTradeGateSnapshot W
  snapshot gate now row evidence = elim (first_of row) [
    | none ↦ record {
      min_days = gate.min_days;
      trade_count = trades_of row;
      first_trade_at = none;
      latest_trade_at = none;
      window_ends_at = none;
      elapsed_ms = 0;
      remaining_ms = gate.min_days * day_ms;
      completed = false;
      evaluated_at = now;
      go_live = evaluate_go_live gate.criteria false none;
    }
    | some first ↦
        let elapsed = now - first in
        let completed = leb (gate.min_days * day_ms) elapsed in
        record {
          min_days = gate.min_days;
          trade_count = trades_of row;
          first_trade_at = some first;
          latest_trade_at = latest_of row;
          window_ends_at = some (first + gate.min_days * day_ms);
          elapsed_ms = elapsed;
          remaining_ms = if completed then 0 else gate.min_days * day_ms - elapsed;
          completed = completed;
          evaluated_at = now;
          go_live = evaluate_go_live gate.criteria completed evidence;
        }
  ]

  -- `dayChanged || completionChanged`
  abbrev pub is_due : PaperTradeGate W → PaperTradeGateSnapshot W → Bool
  is_due gate s =
      after_day (day_bucket s) gate.last_reported_day || s.completed && not gate.completion_reported

  abbrev pub reported : PaperTradeGate W → PaperTradeGateSnapshot W → PaperTradeGate W
  reported gate s = record gate {
    last_reported_day = some (day_bucket s);
    completion_reported = s.completed || gate.completion_reported;
  }

  abbrev pub report : PaperTradeGateSnapshot W → GateSignal W
  report s = record {
    type = "risk.paper_run_progress";
    severity = if s.completed then info else warn;
    day = day_bucket s;
    about = s;
  }

  unfoldable pub progress_signal_from_snapshot :
      PaperTradeGate W → PaperTradeGateSnapshot W → PaperTradeGate W × Option (GateSignal W)
  progress_signal_from_snapshot gate s =
      if s.trade_count == 0 || not (is_due gate s)
      then (gate, none)
      else (reported gate s, some (report s))

  module _ (text_of_ℕ : ℕ → String) (to_fixed : W → W) (to_text : W → String) where
    abbrev rounded_text : Option W → String
    rounded_text none = "na"
    rounded_text (some x) = to_text (to_fixed x)

    unfoldable pub metric_digest : PaperTradeGateSnapshot W → String
    metric_digest s =
        let m = s.go_live.metrics in
        join ":" (
          bit s.completed
          ∷ bit s.go_live.eligible
          ∷ join "|" s.go_live.failed_checks
          ∷ text_of_ℕ (day_bucket s)
          ∷ text_of_ℕ m.expectancy_sample_size
          ∷ text_of_ℕ m.stop_exit_count
          ∷ text_of_ℕ m.drawdown_sample_size
          ∷ rounded_text m.expectancy_r
          ∷ rounded_text m.breakeven_lock_before_stop_rate
          ∷ rounded_text m.max_drawdown_pct
          ∷ [])

    unfoldable pub go_live_signal_from_snapshot :
        PaperTradeGate W → PaperTradeGateSnapshot W → PaperTradeGate W × Option (GateSignal W)
    go_live_signal_from_snapshot gate s =
        if s.trade_count == 0 || metric_digest s == gate.last_go_live_digest
        then (gate, none)
        else (
          record gate { last_go_live_digest = metric_digest s },
          some (record {
            type = "risk.paper_go_live_gate";
            severity = if s.go_live.eligible then info else warn;
            day = day_bucket s;
            about = s;
          }),
        )

    abbrev option_list : Option (GateSignal W) → List (GateSignal W)
    option_list none = []
    option_list (some x) = x ∷ []

    unfoldable pub signals_if_changed :
        PaperTradeGate W → PaperTradeGateSnapshot W → PaperTradeGate W × List (GateSignal W)
    signals_if_changed gate s =
        let progress = progress_signal_from_snapshot gate s in
        let go_live = go_live_signal_from_snapshot progress.0 s in
        (go_live.0, option_list progress.1 ++ option_list go_live.1)
