-- ===== src/Runtime/PaperTradeGate/Reports.antt =====
-- How often the gate reports.
use coindcx_bot.Prelude.{
  ℕ, suc, ◌+◌, ◌*◌, ◌≤◌, ◌<◌, ◌≡◌, refl, ap, sym, ◌∙◌, ◌⊎◌, inl, inr, Bool, true, false, not, ◌||◌,
  Option, none, some, List, [], ◌∷◌, if◌then◌else◌, subst, arith, ◌==◌, string_key, nat_key,
  Bool-cases, Option-cases,
}
use coindcx_bot.Prelude.Num.{Num}
use coindcx_bot.Runtime.PaperTradeGate.{
  PaperTradeGateSnapshot, PaperTradeGate, GateSignal, day_bucket, progress_signal_from_snapshot,
  is_due, reported, report,
}

module _ {ℓ} {W : Type ℓ} (num : Num W) where
  -- The day of the last report, from 1, or 0, and whether it said that the days are over.
  abbrev pub rank_of : Option ℕ → Bool → ℕ
  rank_of none done = if done then 1 else 0
  rank_of (some day) done = 2 * suc day + (if done then 1 else 0)

  abbrev pub signal_rank : GateSignal W → ℕ
  signal_rank s = rank_of (some s.day) s.about.completed

  -- Every report has a higher rank than the one before it.
  abbrev pub Rising : ℕ → List (GateSignal W) → Type 0
  Rising n [] = Unit
  Rising n (s ∷ ss) = (n < signal_rank s) × Rising (signal_rank s) ss

  -- The days and the completion of the snapshots do not step back.
  abbrev pub InTime : ℕ → Bool → List (PaperTradeGateSnapshot W) → Type 0
  InTime day done [] = Unit
  InTime day done (s ∷ ss) =
      (day ≤ day_bucket s)
      × (done ≡ true → s.completed ≡ true)
      × InTime (day_bucket s) s.completed ss

  unfoldable pub with_report : Option (GateSignal W) → List (GateSignal W) → List (GateSignal W)
  with_report none later = later
  with_report (some x) later = x ∷ later

  unfoldable pub run_progress :
      PaperTradeGate W → List (PaperTradeGateSnapshot W) → PaperTradeGate W × List (GateSignal W)
  run_progress gate [] = (gate, [])
  run_progress gate (s ∷ ss) =
      let one = progress_signal_from_snapshot num gate s in
      let later = run_progress one.0 ss in (later.0, with_report one.1 later.1)

  -- What the gate remembers is not ahead of the snapshots seen.
  pub record IsBehind (gate : PaperTradeGate W) (day : ℕ) (done : Bool) : Type 0 where
    pub reported_day : rank_of gate.last_reported_day false ≤ 2 * suc day
    pub reported_done : gate.completion_reported ≡ true → done ≡ true

  abbrev pub gate_rank : PaperTradeGate W → ℕ
  gate_rank gate = rank_of gate.last_reported_day gate.completion_reported

  IsBehind-later :
      (gate : PaperTradeGate W) (day later : ℕ) (done is_done : Bool)
      → IsBehind gate day done
      → day ≤ later
      → (done ≡ true → is_done ≡ true)
      → IsBehind gate later is_done
  IsBehind-later gate day later done is_done b h c = record {
    reported_day = omega (arith, b.reported_day);
    reported_done = λ k. c (b.reported_done k);
  }

  or_same : (a b : Bool) → (b ≡ true → a ≡ true) → (a || b) ≡ a
  or_same true b h = refl
  or_same false b h = ground (arith, h)

  -- A due report is of a higher rank, and is the new rank.
  report-rank :
      (gate : PaperTradeGate W) (s : PaperTradeGateSnapshot W)
      → IsBehind gate (day_bucket s) s.completed
      → is_due num gate s ≡ true
      → gate_rank gate < signal_rank (report num s)
  report-rank gate s b d = elim (Option-cases gate.last_reported_day) [
    | inl n ↦ ground (arith, b.reported_done)
    | inr (last, l) ↦ ground (arith, b.reported_day, b.reported_done)
  ]

  reported-IsBehind :
      (gate : PaperTradeGate W) (s : PaperTradeGateSnapshot W)
      → IsBehind gate (day_bucket s) s.completed
      → IsBehind (reported num gate s) (day_bucket s) s.completed
  reported-IsBehind gate s b = record {
    reported_day = omega arith;
    reported_done = λ k. sym (or_same _ _ b.reported_done) ∙ k;
  }

  progress_cases :
      (gate : PaperTradeGate W) (s : PaperTradeGateSnapshot W)
      → (progress_signal_from_snapshot num gate s ≡ (gate, none))
        ⊎ ((is_due num gate s ≡ true)
            × (progress_signal_from_snapshot num gate s
                ≡ (reported num gate s, some (report num s))))
  unfolding progress_signal_from_snapshot
  progress_cases gate s = elim (Bool-cases (s.trade_count == 0 || not (is_due num gate s))) [
    | inl e ↦ inl (rw e refl)
    | inr e ↦ inr (ground arith, rw e refl)
  ]

  -- Over snapshots whose days and completion do not step back, no progress report repeats another
  -- one or falls behind it: each has a later day or, with that day, the completion for the first time.
  pub run_progress-Rising :
      (gate : PaperTradeGate W) (ss : List (PaperTradeGateSnapshot W)) (day : ℕ) (done : Bool)
      → IsBehind gate day done
      → InTime day done ss
      → Rising (gate_rank gate) (run_progress gate ss).1
  unfolding run_progress with_report
  run_progress-Rising gate [] day done b t = tt
  run_progress-Rising gate (s ∷ ss) day done b (h, c, t) =
      let b' = IsBehind-later gate day (day_bucket s) done s.completed b h c in
      elim (progress_cases gate s) [
        | inl e ↦ rw e (run_progress-Rising gate ss (day_bucket s) s.completed b' t)
        | inr (d, e) ↦
            let later =
              run_progress-Rising (reported num gate s) ss (day_bucket s) s.completed
                (reported-IsBehind gate s b') t in
            rw e (
              report-rank gate s b' d,
              subst (λ n. Rising n (run_progress (reported num gate s) ss).1)
                  (ap (rank_of (some (day_bucket s))) (or_same _ _ b'.reported_done)) later,
            )
      ]
