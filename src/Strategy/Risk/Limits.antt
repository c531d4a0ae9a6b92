-- ===== src/Strategy/Risk/Limits.antt =====
-- The limit on concurrent signals, over whole histories of calls.
use coindcx_bot.Prelude.{
  ℕ, suc, ◌<◌, ◌≤◌, String, ◌≡◌, refl, ap, sym, ◌∙◌, inl, inr, true, false, Option, List, [], ◌∷◌,
  ◌++◌, map, get_or, filter, arith, length, length-append, filter-append, ltb→lt, Bool-cases,
}
use mathlib.Core.List.{Memᴰ}
use coindcx_bot.Prelude.Num.{Num}
use coindcx_bot.Account.Types.{AccountSnapshot}
use coindcx_bot.Strategy.Types.{Side, StrategyManifest, StrategySignal}
use coindcx_bot.Strategy.Risk.Outcome.{apply_rules_passed}
use coindcx_bot.Strategy.Risk.{
  LiveSignalRecord, RuleDecision, RiskRuleContext, RiskRule, max_concurrent_signals, is_wait,
  is_recent, apply, apply_active, apply_rules, record_emit, CompositeRiskFilter, resolve_pair,
  expire, context, conclude, filter_signal,
}

-- A call of `filter`.
pub record Call {ℓ} (W : Type ℓ) : Type ℓ where
  pub now : ℕ
  pub signal : StrategySignal W
  pub manifest : StrategyManifest
  pub account : AccountSnapshot
  pub pair : Option String

-- How many live signals are of the last `window` milliseconds.
abbrev pub recent_count : ℕ → ℕ → List LiveSignalRecord → ℕ
recent_count window now live = length (filter (is_recent window now) live)

recent_count-le :
    (window now later : ℕ) (live : List LiveSignalRecord)
    → now ≤ later
    → recent_count window later live ≤ recent_count window now live
recent_count-le window now later [] h = omega arith
recent_count-le window now later (s ∷ live) h =
    ground (arith, recent_count-le window now later live h)

recent_count-expire :
    (window now t : ℕ) (live : List LiveSignalRecord)
    → recent_count window now (expire t live) ≤ recent_count window now live
unfolding expire
recent_count-expire window now t [] = omega arith
recent_count-expire window now t (s ∷ live) = ground (arith, recent_count-expire window now t live)

recent_count-append :
    (window now : ℕ) (live : List LiveSignalRecord) (s : LiveSignalRecord)
    → recent_count window now (live ++ s ∷ []) ≤ suc (recent_count window now live)
recent_count-append window now live s = ground (
  arith,
  filter-append (is_recent window now) live (s ∷ []),
  length-append (filter (is_recent window now) live) (filter (is_recent window now) (s ∷ [])),
)

module _ {ℓ} {W : Type ℓ} (num : Num W) where
  unfoldable pub run : CompositeRiskFilter W → List (Call W) → CompositeRiskFilter W
  run f [] = f
  run f (c ∷ cs) = run (filter_signal num f c.now c.signal c.manifest c.account c.pair).0 cs

  -- The clock does not step back.
  abbrev pub Monotone : ℕ → List (Call W) → Type 0
  Monotone t [] = Unit
  Monotone t (c ∷ cs) = (t ≤ c.now) × Monotone c.now cs

  abbrev pub last_time : ℕ → List (Call W) → ℕ
  last_time t [] = t
  last_time t (c ∷ cs) = last_time c.now cs

module _ {ℓ} {W : Type ℓ} (num : Num W) (cap window : ℕ) where
  abbrev limit : RiskRule W
  limit = max_concurrent_signals cap window

  -- The rule has no state: it is itself after every call.
  apply-limit : (ctx : RiskRuleContext W) → (apply num limit ctx).0 ≡ limit
  unfolding apply apply_active
  apply-limit ctx = ground arith

  apply_rules-mem :
      (rules : List (RiskRule W)) (ctx : RiskRuleContext W)
      → Memᴰ limit rules
      → Memᴰ limit (apply_rules num rules ctx).0
  unfolding apply_rules
  apply_rules-mem [] ctx m = elim m [ ]
  apply_rules-mem (r ∷ rs) ctx (Memᴰ.head p) =
      Memᴰ.head (sym (apply-limit ctx) ∙ ap (λ r. (apply num r ctx).0) p)
  apply_rules-mem (r ∷ rs) ctx (Memᴰ.tail m) = Memᴰ.tail (apply_rules-mem rs ctx m)

  record_emit-mem :
      (id pair : String) (side : Side) (ts : ℕ) (rules : List (RiskRule W))
      → Memᴰ limit rules
      → Memᴰ limit (map (record_emit num id pair side ts) rules)
  unfolding record_emit
  record_emit-mem id pair side ts [] m = elim m [ ]
  record_emit-mem id pair side ts (r ∷ rs) (Memᴰ.head p) =
      Memᴰ.head (ap (record_emit num id pair side ts) p)
  record_emit-mem id pair side ts (r ∷ rs) (Memᴰ.tail m) =
      Memᴰ.tail (record_emit-mem id pair side ts rs m)

  limit_passed :
      (ctx : RiskRuleContext W)
      → is_wait ctx.signal.side ≡ false
      → (apply num limit ctx).1.pass ≡ true
      → recent_count window ctx.now ctx.live_signals < cap
  unfolding apply apply_active
  limit_passed ctx w e = ltb→lt _ _ (rw w at e)

  -- If nothing blocks an active signal, the limit is not reached.
  apply_rules_below :
      (rules : List (RiskRule W)) (ctx : RiskRuleContext W)
      → Memᴰ limit rules
      → is_wait ctx.signal.side ≡ false
      → (apply_rules num rules ctx).1 ≡ []
      → recent_count window ctx.now ctx.live_signals < cap
  apply_rules_below [] ctx m w e = elim m [ ]
  apply_rules_below (r ∷ rs) ctx (Memᴰ.head p) w e =
      limit_passed ctx w
        (ap (λ r. (apply num r ctx).1.pass) p ∙ (apply_rules_passed num r rs ctx e).0)
  apply_rules_below (r ∷ rs) ctx (Memᴰ.tail m) w e =
      apply_rules_below rs ctx m w (apply_rules_passed num r rs ctx e).1

  -- The filter has the rule, and keeps to it.
  pub record IsLimited (now : ℕ) (f : CompositeRiskFilter W) : Type ℓ where
    pub has_limit : Memᴰ limit f.rules
    pub below : recent_count window now f.live_signals ≤ cap

  conclude-IsLimited :
      (f : CompositeRiskFilter W) (ctx : RiskRuleContext W) (rules : List (RiskRule W))
      (blocks : List RuleDecision)
      → Memᴰ limit rules
      → recent_count window ctx.now ctx.live_signals ≤ cap
      → (is_wait ctx.signal.side ≡ false
          → blocks ≡ []
          → recent_count window ctx.now ctx.live_signals < cap)
      → IsLimited ctx.now (conclude num f ctx rules blocks).0
  unfolding conclude
  conclude-IsLimited f ctx rules (b ∷ bs) m le lt = record { has_limit = m; below = le }
  conclude-IsLimited f ctx rules [] m le lt = elim (Bool-cases (is_wait ctx.signal.side)) [
    | inl w ↦ rw w (record { has_limit = m; below = le })
    | inr w ↦ rw w (record {
      has_limit = record_emit-mem ctx.manifest.id ctx.pair ctx.signal.side ctx.now rules m;
      below = omega (
        arith,
        recent_count-append window ctx.now ctx.live_signals (record {
          strategy_id = ctx.manifest.id;
          pair = ctx.pair;
          side = ctx.signal.side;
          ts = ctx.now;
          ttl_ms = get_or ctx.signal.ttl_ms f.live_ttl_default_ms;
        }),
        lt w refl,
      );
    })
  ]

  filter_signal-IsLimited :
      (f : CompositeRiskFilter W) (c : Call W) (t : ℕ)
      → t ≤ c.now
      → IsLimited t f
      → IsLimited c.now (filter_signal num f c.now c.signal c.manifest c.account c.pair).0
  unfolding filter_signal
  filter_signal-IsLimited f c t h v =
      let ctx =
        context num f c.now c.signal c.manifest c.account
          (get_or c.pair (resolve_pair f.pair_resolver c.signal c.manifest)) in
      conclude-IsLimited f ctx (apply_rules num f.rules ctx).0 (apply_rules num f.rules ctx).1
        (apply_rules-mem f.rules ctx v.has_limit)
        (omega (
          arith,
          v.below,
          recent_count-le window t c.now f.live_signals h,
          recent_count-expire window c.now c.now f.live_signals,
        ))
        (λ w e. apply_rules_below f.rules ctx v.has_limit w e)

  -- If MaxConcurrentSignalsRule is among the rules and its limit is kept at the start, then after any
  -- history of calls on a clock that does not step back at most `cap` signals of the last
  -- `window` milliseconds are live, whatever the other rules are.
  pub run-IsLimited :
      (f : CompositeRiskFilter W) (calls : List (Call W)) (t : ℕ)
      → Monotone num t calls
      → IsLimited t f
      → recent_count window (last_time num t calls) (run num f calls).live_signals ≤ cap
  unfolding run
  run-IsLimited f [] t m v = v.below
  run-IsLimited f (c ∷ cs) t (h, m) v =
      run-IsLimited (filter_signal num f c.now c.signal c.manifest c.account c.pair).0 cs c.now m
        (filter_signal-IsLimited f c t h v)
