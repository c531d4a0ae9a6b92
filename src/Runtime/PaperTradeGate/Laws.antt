-- ===== src/Runtime/PaperTradeGate/Laws.antt =====
-- When the gate opens.
use coindcx_bot.Prelude.{
  ℕ, ◌-◌, ◌*◌, ◌≤◌, ◌<◌, String, ◌≡◌, ◌≢◌, refl, ap, sym, ◌∙◌, ◌↔◌, inl, inr, Bool, true, false,
  Option, none, some, List, [], ◌∷◌, ◌++◌, arith, leb, ltb, string_key, nat_key, Bool-cases,
  Option-cases,
}
use coindcx_bot.Prelude.Num.{Num}
use coindcx_bot.Runtime.PaperTradeGate.{
  day_ms, PaperTradeStatsRow, PaperTradeGoLiveEvidenceRow, PaperGoLiveCriteria, PaperGoLiveMetrics,
  PaperTradeGate, breakeven_rate, check_evidence, is_empty, failed_checks, metrics_of,
  evaluate_go_live, snapshot,
}

module _ {ℓ} {W : Type ℓ} (num : Num W) where
  open num use {of_ℕ, number, lt, le, div}

  -- The evidence that opens the gate.
  pub record IsEligible (gate : PaperTradeGate W) (now : ℕ) (row : Option PaperTradeStatsRow)
      (evidence : Option (PaperTradeGoLiveEvidenceRow W)) : Type ℓ where
    pub stats : PaperTradeStatsRow
    pub stats_is : row ≡ some stats
    pub first : ℕ
    pub first_is : stats.first_trade_ts ≡ some first
    pub days_passed : gate.min_days * day_ms ≤ now - first
    pub shown : PaperTradeGoLiveEvidenceRow W
    pub shown_is : evidence ≡ some shown
    pub stops_seen : 0 < shown.stop_exit_count
    pub locked_enough :
        lt
          (div (of_ℕ shown.stop_exit_with_breakeven_count) (of_ℕ shown.stop_exit_count))
          gate.criteria.min_breakeven_lock_before_stop_rate
        ≡ false
    pub expectancy : W
    pub expectancy_is : shown.expectancy_r ≡ some expectancy
    pub expectancy_enough : lt expectancy gate.criteria.min_expectancy_r ≡ false
    pub drawdown : W
    pub drawdown_is : shown.max_drawdown_pct ≡ some drawdown
    pub drawdown_below : le gate.criteria.max_drawdown_pct drawdown ≡ false

  -- Evidence that is there and good enough.
  pub record Shows (x : Option W) (bad : W → Bool) : Type ℓ where
    pub shows : W
    pub shows_is : x ≡ some shows
    pub shows_enough : bad shows ≡ false

  nil≢cons : (s : String) (ss : List String) → s ∷ ss ≢ []
  nil≢cons s ss e = cc

  check_evidence-nil :
      (x : Option W) (bad : W → Bool) (missing failed : String) (rest : List String)
      → check_evidence num x bad missing failed ++ rest ≡ []
      → Shows x bad × (rest ≡ [])
  unfolding check_evidence
  check_evidence-nil none bad missing failed rest e = cc
  check_evidence-nil (some x) bad missing failed rest e = elim (Bool-cases (bad x)) [
    | inl b ↦ absurd (nil≢cons failed rest (rw b at e))
    | inr b ↦ (record { shows = x; shows_is = refl; shows_enough = b }, rw b at e)
  ]

  check_evidence-Shows :
      (x : Option W) (bad : W → Bool) (missing failed : String)
      → Shows x bad
      → check_evidence num x bad missing failed ≡ []
  unfolding check_evidence
  check_evidence-Shows x bad missing failed h = rw (h.shows_is, h.shows_enough) refl

  -- The checks on the metrics of a snapshot.
  pub record AllShown (criteria : PaperGoLiveCriteria W) (m : PaperGoLiveMetrics W) : Type ℓ where
    pub rate :
        Shows m.breakeven_lock_before_stop_rate
          (λ x. lt x criteria.min_breakeven_lock_before_stop_rate)
    pub expectancy : Shows m.expectancy_r (λ x. lt x criteria.min_expectancy_r)
    pub drawdown : Shows m.max_drawdown_pct (λ x. le criteria.max_drawdown_pct x)

  append-nil : (xs : List String) → xs ++ [] ≡ xs
  append-nil [] = refl
  append-nil (x ∷ xs) = ap (◌∷◌ x) (append-nil xs)

  failed_checks-nil :
      (criteria : PaperGoLiveCriteria W) (done : Bool) (m : PaperGoLiveMetrics W)
      → failed_checks num criteria done m ≡ []
      → (done ≡ true) × AllShown criteria m
  failed_checks-nil criteria false m e = absurd (nil≢cons _ _ e)
  failed_checks-nil criteria true m e =
      let p = check_evidence-nil _ _ _ _ _ e in
      let q = check_evidence-nil _ _ _ _ _ p.1 in
      let r = check_evidence-nil _ _ _ _ [] (append-nil _ ∙ q.1) in
      (refl, record { rate = p.0; expectancy = q.0; drawdown = r.0 })

  failed_checks-AllShown :
      (criteria : PaperGoLiveCriteria W) (m : PaperGoLiveMetrics W)
      → AllShown criteria m
      → failed_checks num criteria true m ≡ []
  failed_checks-AllShown criteria m h =
      rw
        (
          check_evidence-Shows _ _ _ _ h.rate,
          check_evidence-Shows _ _ _ _ h.expectancy,
          check_evidence-Shows _ _ _ _ h.drawdown,
        )
        refl

  true≢false : true ≢ false
  true≢false e = cc

  none≢some : (x : W) → none ≢ some x
  none≢some x e = cc

  some-inj : (x y : W) → some x ≡ some y → x ≡ y
  some-inj x y e = cc

  is_empty-nil : (xs : List String) → is_empty num xs ≡ true → xs ≡ []
  is_empty-nil [] h = refl
  is_empty-nil (x ∷ xs) h = cc

  leb-le : (a b : ℕ) → a ≤ b → leb a b ≡ true
  leb-le a b h = ground arith

  eligible-AllShown :
      (criteria : PaperGoLiveCriteria W) (done : Bool)
      (evidence : Option (PaperTradeGoLiveEvidenceRow W))
      → (evaluate_go_live num criteria done evidence).eligible ≡ true
      → (done ≡ true) × AllShown criteria (metrics_of num evidence)
  unfolding evaluate_go_live
  eligible-AllShown criteria done evidence h =
      failed_checks-nil criteria done (metrics_of num evidence) (is_empty-nil _ h)

  AllShown-eligible :
      (criteria : PaperGoLiveCriteria W) (evidence : Option (PaperTradeGoLiveEvidenceRow W))
      → AllShown criteria (metrics_of num evidence)
      → (evaluate_go_live num criteria true evidence).eligible ≡ true
  unfolding evaluate_go_live
  AllShown-eligible criteria evidence h =
      rw (failed_checks-AllShown criteria (metrics_of num evidence) h) refl

  unfinished :
      (criteria : PaperGoLiveCriteria W) (evidence : Option (PaperTradeGoLiveEvidenceRow W))
      → (evaluate_go_live num criteria false evidence).eligible ≢ true
  unfinished criteria evidence h = true≢false (sym (eligible-AllShown criteria false evidence h).0)

  unshown :
      (criteria : PaperGoLiveCriteria W) (done : Bool)
      → (evaluate_go_live num criteria done none).eligible ≢ true
  unfolding metrics_of
  unshown criteria done h =
      none≢some _ (eligible-AllShown criteria done none h).1.expectancy.shows_is

  Shows-rate :
      (stops locked : ℕ) (bad : W → Bool)
      → Shows (breakeven_rate num stops locked) bad
      → (0 < stops) × (bad (div (of_ℕ locked) (of_ℕ stops)) ≡ false)
  Shows-rate stops locked bad h = elim (Bool-cases (ltb 0 stops)) [
    | inl e ↦ (
      ground arith,
      rw (some-inj (div (of_ℕ locked) (of_ℕ stops)) h.shows (rw e at h.shows_is)) h.shows_enough,
    )
    | inr e ↦ absurd (none≢some h.shows (rw e at h.shows_is))
  ]

  rate-Shows :
      (stops locked : ℕ) (bad : W → Bool)
      → 0 < stops
      → bad (div (of_ℕ locked) (of_ℕ stops)) ≡ false
      → Shows (breakeven_rate num stops locked) bad
  rate-Shows stops locked bad p h = record {
    shows = div (of_ℕ locked) (of_ℕ stops);
    shows_is = ground arith;
    shows_enough = h;
  }

  pub snapshot-IsEligible :
      (gate : PaperTradeGate W) (now : ℕ) (row : Option PaperTradeStatsRow)
      (evidence : Option (PaperTradeGoLiveEvidenceRow W))
      → (snapshot num gate now row evidence).go_live.eligible ≡ true
      → IsEligible gate now row evidence
  unfolding snapshot metrics_of
  snapshot-IsEligible gate now none evidence h = absurd (unfinished gate.criteria none h)
  snapshot-IsEligible gate now (some r) none h = elim (Option-cases r.first_trade_ts) [
    | inl n ↦ absurd (unfinished gate.criteria none (rw n at h))
    | inr (t, f) ↦ absurd (unshown gate.criteria _ (rw f at h))
  ]
  snapshot-IsEligible gate now (some r) (some e) h = elim (Option-cases r.first_trade_ts) [
    | inl n ↦ absurd (unfinished gate.criteria none (rw n at h))
    | inr (t, f) ↦
        let p = eligible-AllShown gate.criteria _ (some e) (rw f at h) in
        let q = Shows-rate _ _ _ p.1.rate in
        record {
          stats = r;
          stats_is = refl;
          first = t;
          first_is = f;
          days_passed = ground (arith, p.0);
          shown = e;
          shown_is = refl;
          stops_seen = q.0;
          locked_enough = q.1;
          expectancy = p.1.expectancy.shows;
          expectancy_is = p.1.expectancy.shows_is;
          expectancy_enough = p.1.expectancy.shows_enough;
          drawdown = p.1.drawdown.shows;
          drawdown_is = p.1.drawdown.shows_is;
          drawdown_below = p.1.drawdown.shows_enough;
        }
  ]

  pub IsEligible-snapshot :
      (gate : PaperTradeGate W) (now : ℕ) (row : Option PaperTradeStatsRow)
      (evidence : Option (PaperTradeGoLiveEvidenceRow W))
      → IsEligible gate now row evidence
      → (snapshot num gate now row evidence).go_live.eligible ≡ true
  unfolding snapshot metrics_of
  IsEligible-snapshot gate now row evidence h =
      rw (h.stats_is, h.first_is, h.shown_is, leb-le _ _ h.days_passed)
        (AllShown-eligible gate.criteria (some h.shown) (record {
          rate = rate-Shows _ _ _ h.stops_seen h.locked_enough;
          expectancy = record {
            shows = h.expectancy;
            shows_is = h.expectancy_is;
            shows_enough = h.expectancy_enough;
          };
          drawdown = record {
            shows = h.drawdown;
            shows_is = h.drawdown_is;
            shows_enough = h.drawdown_below;
          };
        }))

  -- The gate opens exactly on the evidence of `IsEligible`: an old enough first trade, stops seen and
  -- often enough after the breakeven lock, an expectancy that is high enough and a drawdown below
  -- the limit.
  pub snapshot_iff :
      (gate : PaperTradeGate W) (now : ℕ) (row : Option PaperTradeStatsRow)
      (evidence : Option (PaperTradeGoLiveEvidenceRow W))
      → ((snapshot num gate now row evidence).go_live.eligible ≡ true)
        ↔ IsEligible gate now row evidence
  snapshot_iff gate now row evidence =
      (snapshot-IsEligible gate now row evidence, IsEligible-snapshot gate now row evidence)
