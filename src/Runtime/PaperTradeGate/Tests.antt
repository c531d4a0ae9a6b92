-- ===== src/Runtime/PaperTradeGate/Tests.antt =====
-- A gate of two days over whole numbers.
use coindcx_bot.Prelude.{
  ℕ, ◌+◌, ◌*◌, ◌≡◌, refl, true, false, Option, none, some, List, [], ◌∷◌, map, arith,
}
use coindcx_bot.Prelude.Int.{pos}
use coindcx_bot.Prelude.Num.{Whole, whole_num}
use coindcx_bot.Runtime.PaperTradeGate.{
  day_ms, PaperTradeStatsRow, PaperTradeGoLiveEvidenceRow, PaperTradeGateSnapshot, PaperTradeGate,
  check_evidence, metrics_of, evaluate_go_live, snapshot, progress_signal_from_snapshot,
  metric_digest, go_live_signal_from_snapshot, signals_if_changed,
}
use coindcx_bot.Runtime.PaperTradeGate.Laws.{IsEligible, snapshot_iff}
use coindcx_bot.Runtime.PaperTradeGate.Reports.{run_progress, with_report}

gate_code : Unit {0}
unfolding check_evidence metrics_of evaluate_go_live snapshot progress_signal_from_snapshot
    metric_digest go_live_signal_from_snapshot signals_if_changed run_progress with_report
gate_code = tt

abbrev whole : ℕ → Whole
whole n = some (pos n)

abbrev gate : PaperTradeGate Whole
gate = record {
  last_reported_day = none;
  completion_reported = false;
  last_go_live_digest = "";
  min_days = 2;
  criteria = record {
    min_breakeven_lock_before_stop_rate = whole 1;
    min_expectancy_r = whole 1;
    max_drawdown_pct = whole 8;
  };
}

abbrev row : Option PaperTradeStatsRow
row = some (record { trade_count = 3; first_trade_ts = some 1000; latest_trade_ts = none })

abbrev evidence : PaperTradeGoLiveEvidenceRow Whole
evidence = record {
  expectancy_sample_size = 3;
  expectancy_r = some (whole 2);
  stop_exit_count = 1;
  stop_exit_with_breakeven_count = 1;
  drawdown_sample_size = 3;
  max_drawdown_pct = some (whole 7);
}

abbrev shot : ℕ → PaperTradeGateSnapshot Whole
shot now = snapshot whole_num gate now row (some evidence)

opened : (shot (1000 + 2 * day_ms)).go_live.eligible ≡ true
unfolding gate_code
opened = refl

closed : (shot (999 + 2 * day_ms)).go_live.failed_checks ≡ "minimum_days_not_met" ∷ []
unfolding gate_code
closed = refl

abbrev shots : List (PaperTradeGateSnapshot Whole)
shots =
    shot 1000
    ∷ shot 2000
    ∷ shot (999 + 2 * day_ms)
    ∷ shot (1000 + 2 * day_ms)
    ∷ shot (2000 + 2 * day_ms)
    ∷ []

reports : map (λ s. s.day) (run_progress whole_num gate shots).1 ≡ 0 ∷ 1 ∷ 2 ∷ []
unfolding gate_code
reports = refl

evidence-IsEligible : IsEligible whole_num gate (1000 + 2 * day_ms) row (some evidence)
evidence-IsEligible = record {
  stats = record { trade_count = 3; first_trade_ts = some 1000; latest_trade_ts = none };
  stats_is = refl;
  first = 1000;
  first_is = refl;
  days_passed = omega arith;
  shown = evidence;
  shown_is = refl;
  stops_seen = omega arith;
  locked_enough = refl;
  expectancy = whole 2;
  expectancy_is = refl;
  expectancy_enough = refl;
  drawdown = whole 7;
  drawdown_is = refl;
  drawdown_below = refl;
}

snapshot_iff_example : IsEligible whole_num gate (1000 + 2 * day_ms) row (some evidence)
snapshot_iff_example =
    (snapshot_iff whole_num gate (1000 + 2 * day_ms) row (some evidence)).0 opened
