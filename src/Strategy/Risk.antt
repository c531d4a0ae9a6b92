-- ===== src/Strategy/Risk.antt =====
-- src/strategy/risk: the rules on a signal, and the filter that applies them. A rule is one
-- constructor for each class, with the fields of the object. Times are whole milliseconds:
-- `a - b < c` is written `a < b + c`, and `t >= now - w` is `now <= t + w`. The texts of the reasons
-- are left out; a decision that does not pass names its rule.
pub mod Outcome
pub mod Limits
pub mod Cooldown
mod Tests
use Prim.Native.String.{◌++◌ as concat}
use coindcx_bot.Prelude.{
  ℕ, zero, suc, ◌+◌, String, ◌≡◌, Bool, true, false, not, ◌&&◌, ◌||◌, Option, none, some, List, [],
  ◌∷◌, ◌++◌, map, ◌==◌, string_key, nat_key, if◌then◌else◌, get_or, ltb, leb, length, filter, any,
}
use coindcx_bot.Prelude.Dict.{Dict, get, set}
use coindcx_bot.Prelude.Num.{Num}
use coindcx_bot.Account.Types.{AccountSnapshot}
use coindcx_bot.Strategy.Types.{Side, long, short, wait, StrategyManifest, StrategySignal}

pub record LiveSignalRecord : Type 0 where
  pub strategy_id : String
  pub pair : String
  pub side : Side
  pub ts : ℕ
  pub ttl_ms : ℕ

pub data RuleId : Type 0 where
  min_confidence_id max_concurrent_signals_id per_strategy_max_positions_id : RuleId
  drawdown_gate_id opposing_pair_correlation_id per_pair_cooldown_id : RuleId

pub record RuleDecision : Type 0 where
  pub pass : Bool
  pub rule_id : RuleId

pub record RiskRuleContext {ℓ} (W : Type ℓ) : Type ℓ where
  pub signal : StrategySignal W
  pub manifest : StrategyManifest
  pub pair : String
  pub account : AccountSnapshot
  pub live_signals : List LiveSignalRecord
  pub now : ℕ

pub data RiskRule {ℓ} (W : Type ℓ) : Type ℓ where
  min_confidence : (threshold : W) → RiskRule W
  max_concurrent_signals : (cap window_ms : ℕ) → RiskRule W
  per_strategy_max_positions : (cap window_ms : ℕ) → RiskRule W
  drawdown_gate : (max_drawdown_pct peak : W) → RiskRule W
  opposing_pair_correlation : (window_ms : ℕ) → RiskRule W
  per_pair_cooldown : (cooldown_ms : ℕ) (last_emit : Dict String ℕ) → RiskRule W

abbrev pub side_text : Side → String
side_text long = "LONG"
side_text short = "SHORT"
side_text wait = "WAIT"

-- `===` on sides
abbrev pub is_side : Side → Side → Bool
is_side long long = true
is_side short short = true
is_side wait wait = true
is_side _ _ = false

abbrev pub is_wait : Side → Bool
is_wait wait = true
is_wait _ = false

-- `${strategyId}|${side}|${pair}`
pub cooldown_key : String → Side → String → String
cooldown_key id side pair = concat id (concat "|" (concat (side_text side) (concat "|" pair)))

-- `s.ts >= now - windowMs`
abbrev pub is_recent : ℕ → ℕ → LiveSignalRecord → Bool
is_recent window now s = leb now (s.ts + window)

abbrev pub opposing : Side → Side
opposing long = short
opposing _ = long

module _ {ℓ} {W : Type ℓ} (num : Num W) where
  open num use {of_ℕ, number, lt, le, is_finite, sub, div}

  abbrev decide : RuleId → Bool → RuleDecision
  decide id pass = record { pass = pass; rule_id = id }

  -- `drawdown_gate`: the new peak, and whether the signal passes
  abbrev gate_open : W → W → W → Bool
  gate_open limit peak equity = le peak (of_ℕ 0) || not (le limit (div (sub peak equity) peak))

  abbrev higher : W → W → W
  higher equity peak = if lt peak equity then equity else peak

  pub apply_drawdown : W → W → W → RiskRule W × RuleDecision
  apply_drawdown limit peak equity =
      if not (is_finite equity) || le equity (of_ℕ 0)
      then (drawdown_gate limit peak, decide drawdown_gate_id true)
      else (
        drawdown_gate limit (higher equity peak),
        decide drawdown_gate_id (gate_open limit (higher equity peak) equity),
      )

  -- Whether a signal that is not WAIT passes, for each rule without state.
  abbrev pub confident : W → RiskRuleContext W → Bool
  confident threshold ctx = not (lt ctx.signal.confidence threshold)

  abbrev pub below_cap : ℕ → ℕ → RiskRuleContext W → Bool
  below_cap cap window ctx = ltb (length (filter (is_recent window ctx.now) ctx.live_signals)) cap

  abbrev pub below_strategy_cap : ℕ → ℕ → RiskRuleContext W → Bool
  below_strategy_cap cap window ctx =
      ltb
        (length (
          filter (λ s. is_recent window ctx.now s && s.strategy_id == ctx.manifest.id)
            ctx.live_signals))
        cap

  abbrev pub unopposed : ℕ → RiskRuleContext W → Bool
  unopposed window ctx = not (
      any
        (λ s.
          s.pair == ctx.pair
          && is_side s.side (opposing ctx.signal.side)
          && is_recent window ctx.now s)
        ctx.live_signals)

  abbrev pub cooled_down : ℕ → Dict String ℕ → RiskRuleContext W → Bool
  cooled_down cooldown last_emit ctx =
      let last = get_or (get (cooldown_key ctx.manifest.id ctx.signal.side ctx.pair) last_emit) 0 in
      leb (last + cooldown) ctx.now

  -- `apply` for a signal that is not WAIT
  pub apply_active : RiskRule W → RiskRuleContext W → RiskRule W × RuleDecision
  apply_active (min_confidence threshold) ctx =
      (min_confidence threshold, decide min_confidence_id (confident threshold ctx))
  apply_active (max_concurrent_signals cap window) ctx = (
    max_concurrent_signals cap window,
    decide max_concurrent_signals_id (below_cap cap window ctx),
  )
  apply_active (per_strategy_max_positions cap window) ctx = (
    per_strategy_max_positions cap window,
    decide per_strategy_max_positions_id (below_strategy_cap cap window ctx),
  )
  apply_active (drawdown_gate limit peak) ctx =
      apply_drawdown limit peak (number ctx.account.totals.equity_inr)
  apply_active (opposing_pair_correlation window) ctx =
      (opposing_pair_correlation window, decide opposing_pair_correlation_id (unopposed window ctx))
  apply_active (per_pair_cooldown cooldown last_emit) ctx = (
    per_pair_cooldown cooldown last_emit,
    decide per_pair_cooldown_id (cooled_down cooldown last_emit ctx),
  )

  abbrev pub rule_id_of : RiskRule W → RuleId
  rule_id_of (min_confidence threshold) = min_confidence_id
  rule_id_of (max_concurrent_signals cap window) = max_concurrent_signals_id
  rule_id_of (per_strategy_max_positions cap window) = per_strategy_max_positions_id
  rule_id_of (drawdown_gate limit peak) = drawdown_gate_id
  rule_id_of (opposing_pair_correlation window) = opposing_pair_correlation_id
  rule_id_of (per_pair_cooldown cooldown last_emit) = per_pair_cooldown_id

  -- Every class's `apply` lets WAIT pass first.
  pub apply : RiskRule W → RiskRuleContext W → RiskRule W × RuleDecision
  apply rule ctx =
      if is_wait ctx.signal.side
      then (rule, decide (rule_id_of rule) true)
      else apply_active rule ctx

  -- `recordEmit`, which only the cooldown rule has
  pub record_emit : String → String → Side → ℕ → RiskRule W → RiskRule W
  record_emit id pair side ts (per_pair_cooldown cooldown last_emit) =
      per_pair_cooldown cooldown (set (cooldown_key id side pair) ts last_emit)
  record_emit id pair side ts rule = rule

  -- The loop of `filter` over the rules: all of them are applied, also after one that blocks.
  pub apply_rules : List (RiskRule W) → RiskRuleContext W → List (RiskRule W) × List RuleDecision
  apply_rules [] ctx = ([], [])
  apply_rules (r ∷ rs) ctx =
      let d = apply r ctx in
      let later = apply_rules rs ctx in
      (d.0 ∷ later.0, (if d.1.pass then later.1 else d.1 ∷ later.1))

pub record CompositeRiskFilter {ℓ} (W : Type ℓ) : Type ℓ where
  pub rules : List (RiskRule W)
  pub live_signals : List LiveSignalRecord
  pub live_ttl_default_ms : ℕ
  pub emit_alerts : Bool
  pub pair_resolver : Option (StrategySignal W → StrategyManifest → String)

-- `risk.blocked`, with the rules that blocked; emitted if alerts are on and there is a bus.
pub record BlockedAlert : Type 0 where
  pub strategy : String
  pub pair : String
  pub side : Side
  pub rules : List RuleDecision

abbrev head_or_star : List String → String
head_or_star [] = "*"
head_or_star (p ∷ ps) = p

-- `this.opts.pairResolver?.(signal, manifest) ?? manifest.pairs[0] ?? '*'`
pub resolve_pair {ℓ} :
    {W : Type ℓ}
    → Option (StrategySignal W → StrategyManifest → String)
    → StrategySignal W
    → StrategyManifest
    → String
resolve_pair (some resolver) signal manifest = resolver signal manifest
resolve_pair none signal manifest = head_or_star manifest.pairs

pub expire : ℕ → List LiveSignalRecord → List LiveSignalRecord
expire now live = filter (λ s. ltb now (s.ts + s.ttl_ms)) live

module _ {ℓ} {W : Type ℓ} (num : Num W) where
  abbrev pub context :
      CompositeRiskFilter W
      → ℕ
      → StrategySignal W
      → StrategyManifest
      → AccountSnapshot
      → String
      → RiskRuleContext W
  context f now signal manifest account pair = record {
    signal = signal;
    manifest = manifest;
    pair = pair;
    account = account;
    live_signals = expire now f.live_signals;
    now = now;
  }

  -- What `filter` does once the rules have been applied.
  pub conclude :
      CompositeRiskFilter W
      → RiskRuleContext W
      → List (RiskRule W)
      → List RuleDecision
      → CompositeRiskFilter W × Option (StrategySignal W) × List BlockedAlert
  conclude f ctx rules (b ∷ bs) = (
    record f { rules = rules; live_signals = ctx.live_signals },
    none,
    (if f.emit_alerts
        then record {
          strategy = ctx.manifest.id;
          pair = ctx.pair;
          side = ctx.signal.side;
          rules = b ∷ bs;
        }
          ∷ []
        else []),
  )
  conclude f ctx rules [] = (
    (if is_wait ctx.signal.side
        then record f { rules = rules; live_signals = ctx.live_signals }
        else record f {
          rules = map (record_emit num ctx.manifest.id ctx.pair ctx.signal.side ctx.now) rules;
          live_signals =
              ctx.live_signals
              ++ record {
                strategy_id = ctx.manifest.id;
                pair = ctx.pair;
                side = ctx.signal.side;
                ts = ctx.now;
                ttl_ms = get_or ctx.signal.ttl_ms f.live_ttl_default_ms;
              }
                ∷ [];
        }),
    some ctx.signal,
    [],
  )

  pub filter_signal :
      CompositeRiskFilter W
      → (now : ℕ) → StrategySignal W
      → StrategyManifest
      → AccountSnapshot
      → Option String
      → CompositeRiskFilter W × Option (StrategySignal W) × List BlockedAlert
  filter_signal f now signal manifest account pair =
      let ctx =
        context f now signal manifest account
          (get_or pair (resolve_pair f.pair_resolver signal manifest)) in
      let applied = apply_rules num f.rules ctx in conclude f ctx applied.0 applied.1
