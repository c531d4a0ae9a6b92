-- ===== src/Strategy/Risk/Outcome.antt =====
-- What the filter answers, by the decisions of its rules.
use coindcx_bot.Prelude.{
  ℕ, String, ◌≡◌, ◌≢◌, refl, ap, ◌⊎◌, inl, inr, true, not, Option, none, some, List, [], ◌∷◌, map,
  if◌then◌else◌, get_or, filter, arith, Bool-cases,
}
use coindcx_bot.Prelude.Num.{Num}
use coindcx_bot.Account.Types.{AccountSnapshot}
use coindcx_bot.Strategy.Types.{wait, StrategyManifest, StrategySignal}
use coindcx_bot.Strategy.Risk.{
  RuleDecision, RiskRuleContext, RiskRule, apply, apply_rules, CompositeRiskFilter, BlockedAlert,
  resolve_pair, expire, context, conclude, filter_signal,
}

module _ {ℓ} {W : Type ℓ} (num : Num W) where
  -- The decisions of all the rules that do not pass, in the order of the rules.
  pub blocks_of : List (RiskRule W) → RiskRuleContext W → List RuleDecision
  blocks_of rules ctx = filter (λ d. not d.pass) (map (λ r. (apply num r ctx).1) rules)

  apply_rules-blocks_of :
      (rules : List (RiskRule W)) (ctx : RiskRuleContext W)
      → (apply_rules num rules ctx).1 ≡ blocks_of rules ctx
  unfolding apply_rules blocks_of
  apply_rules-blocks_of [] ctx = refl
  apply_rules-blocks_of (r ∷ rs) ctx = elim (Bool-cases (apply num r ctx).1.pass) [
    | inl e ↦ rw e (apply_rules-blocks_of rs ctx)
    | inr e ↦ rw e (ap (◌∷◌ (apply num r ctx).1) (apply_rules-blocks_of rs ctx))
  ]

  -- If nothing blocks, no rule does.
  pub apply_rules_passed :
      (r : RiskRule W) (rs : List (RiskRule W)) (ctx : RiskRuleContext W)
      → (apply_rules num (r ∷ rs) ctx).1 ≡ []
      → ((apply num r ctx).1.pass ≡ true) × ((apply_rules num rs ctx).1 ≡ [])
  unfolding apply_rules
  apply_rules_passed r rs ctx e = ground arith

  -- What `filter` answers, given the decisions that do not pass.
  abbrev pub Answers :
      CompositeRiskFilter W
      → RiskRuleContext W
      → List RuleDecision
      → CompositeRiskFilter W × Option (StrategySignal W) × List BlockedAlert
      → Type ℓ
  Answers f ctx blocks r =
      ((blocks ≡ []) × (r.1 ≡ some ctx.signal) × (r.2 ≡ []))
      ⊎ ((blocks ≢ [])
          × (r.1 ≡ none)
          × (r.0.live_signals ≡ ctx.live_signals)
          × (r.2 ≡ (
              if f.emit_alerts
              then record {
                strategy = ctx.manifest.id;
                pair = ctx.pair;
                side = ctx.signal.side;
                rules = blocks;
              }
                ∷ []
              else [])))

  conclude-Answers :
      (f : CompositeRiskFilter W) (ctx : RiskRuleContext W) (rules : List (RiskRule W))
      (blocks : List RuleDecision)
      → Answers f ctx blocks (conclude num f ctx rules blocks)
  unfolding conclude
  conclude-Answers f ctx rules [] = inl (refl, refl, refl)
  conclude-Answers f ctx rules (b ∷ bs) = inr ((λ e. cc), refl, refl, refl)

  -- A signal goes through unchanged, with no alert, exactly if no rule blocks it. Else it is
  -- dropped, nothing is added to the live signals that have not expired, and if alerts are on one
  -- alert names every rule that blocked, not just the first.
  pub filter_signal-Answers :
      (f : CompositeRiskFilter W) (now : ℕ) (signal : StrategySignal W)
      (manifest : StrategyManifest) (account : AccountSnapshot) (pair : Option String)
      → let ctx =
          context num f now signal manifest account
            (get_or pair (resolve_pair f.pair_resolver signal manifest)) in
        Answers f ctx (blocks_of f.rules ctx) (filter_signal num f now signal manifest account pair)
  unfolding filter_signal
  filter_signal-Answers f now signal manifest account pair =
      let ctx =
        context num f now signal manifest account
          (get_or pair (resolve_pair f.pair_resolver signal manifest)) in
      rw (apply_rules-blocks_of f.rules ctx)
        (conclude-Answers f ctx (apply_rules num f.rules ctx).0 (blocks_of f.rules ctx))

  apply_rules_wait :
      (rules : List (RiskRule W)) (ctx : RiskRuleContext W)
      → ctx.signal.side ≡ wait
      → apply_rules num rules ctx ≡ (rules, [])
  unfolding apply_rules apply
  apply_rules_wait [] ctx h = refl
  apply_rules_wait (r ∷ rs) ctx h = ground (arith, apply_rules_wait rs ctx h)

  -- A WAIT signal is never blocked, and changes nothing but that expired live signals go.
  pub filter_signal_wait :
      (f : CompositeRiskFilter W) (now : ℕ) (signal : StrategySignal W)
      (manifest : StrategyManifest) (account : AccountSnapshot) (pair : Option String)
      → signal.side ≡ wait
      → filter_signal num f now signal manifest account pair
        ≡ (record f { live_signals = expire now f.live_signals }, some signal, [])
  unfolding filter_signal conclude
  filter_signal_wait f now signal manifest account pair h =
      let ctx =
        context num f now signal manifest account
          (get_or pair (resolve_pair f.pair_resolver signal manifest)) in
      rw (apply_rules_wait f.rules ctx h) (rw h refl)
