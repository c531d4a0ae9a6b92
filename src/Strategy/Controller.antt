-- ===== src/Strategy/Controller.antt =====
-- src/strategy/controller.ts, less the drivers. What `beforeEvaluate`, the context builder and the strategy
-- do is an argument of a run, as the event that it ends in; the risk filter and its state are
-- parameters. `ts` is the clock and `now` is `Date.now()` at the end of the run.
mod Streaks
mod Runs
mod Tests
use coindcx_bot.Prelude.{
  ℕ, String, Bool, true, false, not, ◌&&◌, ◌||◌, Option, none, some, List, [], ◌∷◌, if◌then◌else◌,
  get_or, leb, any, ◌==◌, string_key,
}
use coindcx_bot.Prelude.Dict.{Dict, get}
use coindcx_bot.Prelude.Num.{Num}
use coindcx_bot.Account.Types.{AccountSnapshot}
use coindcx_bot.Strategy.Types.{Side, long, short, wait, StrategyManifest, StrategySignal}
use coindcx_bot.Strategy.Risk.{is_wait}
use coindcx_bot.Strategy.Registry.{
  Strategy, Registered, RegistryEntry, register, update, instance_of, disable, is_enabled,
  record_emit, record_error, reset_error_streak,
}

pub data Severity : Type 0 where
  info warn critical : Severity

pub record ControllerConfig : Type 0 where
  pub error_threshold : ℕ
  pub emit_wait : Bool

-- How the evaluation of a run ends: `beforeEvaluate` says no, there is no context, something throws
-- or times out, the strategy has no signal, its signal has a side that is none, or it has a
-- signal, in an account.
pub data Evaluation {ℓ} (W : Type ℓ) : Type ℓ where
  vetoed no_context no_signal : Evaluation W
  threw : String → Evaluation W
  invalid_side : String → Evaluation W
  answered : StrategySignal W → AccountSnapshot → Evaluation W

pub data ControllerEvent {ℓ} (W : Type ℓ) : Type ℓ where
  strategy_error : (id pair : String) (ts : ℕ) (error : String) (streak : ℕ) → ControllerEvent W
  strategy_disabled : (id pair : String) (ts streak : ℕ) → ControllerEvent W
  strategy_signal :
      (id pair version : String) (ts : ℕ) → Severity → StrategySignal W → ControllerEvent W

pub record StrategyController {ℓ κ} (I : Type ℓ) (F : Type κ) : Type (ℓ ⊔ κ) where
  pub registry : Dict String (RegistryEntry I)
  pub risk_filter : F
  pub config : ControllerConfig

abbrev pub pairs_of : (StrategyManifest → List String) → StrategyManifest → List String
pairs_of expand_star m = if any (λ p. p == "*") m.pairs then expand_star m else m.pairs

module _ {ℓ κ} {I : Type ℓ} {F : Type κ} where
  -- `register`, less the registration with a driver. `expand_star` is `expandStarPairs`, which
  -- index.ts replaces by the configured pairs.
  unfoldable pub register_strategy :
      (StrategyManifest → List String) → Strategy I → StrategyController I F → Registered I
  register_strategy expand_star s c = register s (some (pairs_of expand_star s.manifest)) c.registry

  module _ {W : Type κ} where
    unfoldable pub handle_error :
        (id pair : String)
        → (error : String) → (ts : ℕ) → StrategyController I F
        → StrategyController I F × List (ControllerEvent W)
    handle_error id pair error ts c =
        let counted = record_error id pair c.registry in
        if leb c.config.error_threshold counted.1
        then (
          record c { registry = disable id counted.0 },
          strategy_error id pair ts error counted.1 ∷ strategy_disabled id pair ts counted.1 ∷ [],
        )
        else (record c { registry = counted.0 }, strategy_error id pair ts error counted.1 ∷ [])

module _ {ℓ} {W : Type ℓ} (num : Num W) where
  open num use {of_ℕ, number, lt, le}

  abbrev pub is_nan : W → Bool
  is_nan x = not (le x x)

  -- `Math.max(0, Math.min(1, x))`, which is NaN for NaN
  unfoldable pub clamp : W → W
  clamp x =
      if is_nan x
      then x
      else (let low = if le x (of_ℕ 1) then x else of_ℕ 1 in
          if le (of_ℕ 0) low then low else of_ℕ 0)

  unfoldable pub severity_of : StrategySignal W → Severity
  severity_of s =
      if is_wait s.side then info else (if lt (number "0.7") s.confidence then critical else warn)

  module _ {κ} {I : Type κ} {F : Type ℓ}
      (filter : F
        → StrategySignal W
        → StrategyManifest
        → AccountSnapshot
        → String
        → F × Option (StrategySignal W)) where
    -- What a run does with what the filter lets pass.
    unfoldable pub emit_filtered :
        StrategyManifest
        → String
        → (ts now : ℕ) → Option (StrategySignal W)
        → StrategyController I F
        → StrategyController I F × List (ControllerEvent W)
    emit_filtered manifest pair ts now none c = (c, [])
    emit_filtered manifest pair ts now (some s) c =
        if is_wait s.side && not c.config.emit_wait then (c, []) else (
          record c { registry = record_emit manifest.id now c.registry },
          strategy_signal manifest.id pair manifest.version ts (severity_of s) s ∷ [],
        )

    unfoldable pub answer :
        (id pair : String)
        → StrategyManifest
        → (ts now : ℕ) → StrategySignal W
        → AccountSnapshot
        → StrategyController I F
        → StrategyController I F × List (ControllerEvent W)
    answer id pair manifest ts now raw account c =
        let clamped = record raw { confidence = clamp raw.confidence } in
        let filtered = filter c.risk_filter clamped manifest account pair in
        if is_nan clamped.confidence
        then handle_error id pair "confidence NaN" ts c
        else emit_filtered manifest pair ts now filtered.1 (record c {
          registry = reset_error_streak id pair c.registry;
          risk_filter = filtered.0;
        })

    unfoldable pub finish :
        (id pair : String)
        → StrategyManifest
        → (ts now : ℕ) → Evaluation W
        → StrategyController I F
        → StrategyController I F × List (ControllerEvent W)
    finish id pair manifest ts now vetoed c = (c, [])
    finish id pair manifest ts now no_context c = (c, [])
    finish id pair manifest ts now (threw error) c = handle_error id pair error ts c
    finish id pair manifest ts now no_signal c =
        (record c { registry = reset_error_streak id pair c.registry }, [])
    finish id pair manifest ts now (invalid_side error) c = handle_error id pair error ts c
    finish id pair manifest ts now (answered raw account) c =
        answer id pair manifest ts now raw account c

    abbrev pub with_entry :
        (id pair : String)
        → (ts now : ℕ) → Evaluation W
        → Option (RegistryEntry I)
        → Option I
        → StrategyController I F
        → StrategyController I F × List (ControllerEvent W)
    with_entry id pair ts now evaluation (some e) (some s) c =
        finish id pair e.manifest ts now evaluation c
    with_entry id pair ts now evaluation _ _ c = (c, [])

    unfoldable pub run_once :
        (id pair : String)
        → (ts now : ℕ) → Evaluation W
        → StrategyController I F
        → StrategyController I F × List (ControllerEvent W)
    run_once id pair ts now evaluation c =
        if not (is_enabled id c.registry)
        then (c, [])
        else with_entry id pair ts now evaluation (get id c.registry)
            (instance_of id pair c.registry) c
