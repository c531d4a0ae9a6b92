-- ===== src/Strategy/Controller/Runs.antt =====
-- Runs of the controller: who stays enabled.
use coindcx_bot.Prelude.{
  ℕ, suc, ◌+◌, ◌<◌, String, ◌≡◌, refl, ◌∙◌, inl, inr, true, false, not, ◌&&◌, Option, none, some,
  List, [], ◌∷◌, if◌then◌else◌, arith, leb, ltb, Bool-cases, ◌==◌, string_key, length,
}
use coindcx_bot.Prelude.Dict.{Dict, get, set, get-set_self}
use coindcx_bot.Prelude.Num.{Num}
use coindcx_bot.Account.Types.{AccountSnapshot}
use coindcx_bot.Strategy.Types.{StrategyManifest, StrategySignal}
use coindcx_bot.Strategy.Risk.{is_wait}
use coindcx_bot.Strategy.Registry.{
  RegistryEntry, update, instance_of, disable, is_enabled, record_emit, with_error, record_error,
  streak_of, reset_error_streak,
}
use coindcx_bot.Strategy.Controller.{
  StrategyController, Evaluation, vetoed, no_context, no_signal, threw, invalid_side, answered,
  strategy_error, strategy_disabled, handle_error, is_nan, clamp, emit_filtered, answer, finish,
  with_entry, run_once,
}
use coindcx_bot.Strategy.Controller.Streaks.{
  AllTolerate, update-AllTolerate, reset-Tolerates, record_error-AllTolerate, record_error_other,
  disable-AllTolerate,
}

-- The call of `runOnce` by a driver.
pub record Run {ℓ} (W : Type ℓ) : Type ℓ where
  pub id : String
  pub pair : String
  pub ts : ℕ
  pub now : ℕ
  pub evaluation : Evaluation W

-- Runs of one strategy and pair, each of which throws.
abbrev pub failures {ℓ} : {W : Type ℓ} → String → String → List (ℕ × ℕ × String) → List (Run W)
failures id pair [] = []
failures id pair (t ∷ ts) =
    record { id = id; pair = pair; ts = t.0; now = t.1; evaluation = threw t.2 }
    ∷ failures id pair ts

module _ {ℓ κ} {I : Type κ} {F : Type ℓ} where
  -- No enabled strategy has a streak that reaches the threshold.
  abbrev pub IsTolerant : StrategyController I F → Type 0
  IsTolerant c = AllTolerate c.config.error_threshold c.registry

module _ {ℓ κ} {I : Type κ} {F : Type ℓ} {W : Type ℓ} (num : Num W)
    (filter : F
      → StrategySignal W
      → StrategyManifest
      → AccountSnapshot
      → String
      → F × Option (StrategySignal W)) where
  handle_error-IsTolerant :
      (id pair error : String) (ts : ℕ) (c : StrategyController I F)
      → IsTolerant c
      → IsTolerant (handle_error {W = W} id pair error ts c).0
  unfolding handle_error
  handle_error-IsTolerant id pair error ts c a =
      let n = c.config.error_threshold in
      let counted = record_error id pair c.registry in
      elim (Bool-cases (leb n counted.1)) [
        | inl k ↦ rw k (
            disable-AllTolerate n id counted.0
              (λ j o. record_error_other n id j pair c.registry o (a j)))
        | inr k ↦ rw k (record_error-AllTolerate n id pair c.registry (ground (arith, k)) a)
      ]

  record_emit-AllTolerate :
      (n : ℕ) (id : String) (now : ℕ) (m : Dict String (RegistryEntry I))
      → AllTolerate n m
      → AllTolerate n (record_emit id now m)
  unfolding streak_of
  record_emit-AllTolerate n id now m a = update-AllTolerate n id _ m (λ e g t. t) a

  emit_filtered-IsTolerant :
      (manifest : StrategyManifest) (pair : String) (ts now : ℕ) (s : Option (StrategySignal W))
      (c : StrategyController I F)
      → IsTolerant c
      → IsTolerant (emit_filtered num filter manifest pair ts now s c).0
  unfolding emit_filtered
  emit_filtered-IsTolerant manifest pair ts now none c a = a
  emit_filtered-IsTolerant manifest pair ts now (some s) c a =
      elim (Bool-cases (is_wait s.side && not c.config.emit_wait)) [
        | inl k ↦ rw k a
        | inr k ↦
            rw k (record_emit-AllTolerate c.config.error_threshold manifest.id now c.registry a)
      ]

  answer-IsTolerant :
      (id pair : String) (manifest : StrategyManifest) (ts now : ℕ) (raw : StrategySignal W)
      (account : AccountSnapshot) (c : StrategyController I F)
      → IsTolerant c
      → IsTolerant (answer num filter id pair manifest ts now raw account c).0
  unfolding answer
  answer-IsTolerant id pair manifest ts now raw account c a =
      let clamped = record raw { confidence = clamp num raw.confidence } in
      let filtered = filter c.risk_filter clamped manifest account pair in
      let n = c.config.error_threshold in
      elim (Bool-cases (is_nan num clamped.confidence)) [
        | inl k ↦ rw k (handle_error-IsTolerant id pair "confidence NaN" ts c a)
        | inr k ↦ rw k (
            emit_filtered-IsTolerant manifest pair ts now filtered.1
              (record c {
                registry = reset_error_streak id pair c.registry;
                risk_filter = filtered.0;
              })
              (update-AllTolerate n id _ c.registry (λ e g t. reset-Tolerates n pair e t) a))
      ]

  finish-IsTolerant :
      (id pair : String) (manifest : StrategyManifest) (ts now : ℕ) (evaluation : Evaluation W)
      (c : StrategyController I F)
      → IsTolerant c
      → IsTolerant (finish num filter id pair manifest ts now evaluation c).0
  unfolding finish
  finish-IsTolerant id pair manifest ts now vetoed c a = a
  finish-IsTolerant id pair manifest ts now no_context c a = a
  finish-IsTolerant id pair manifest ts now no_signal c a =
      update-AllTolerate c.config.error_threshold id _ c.registry
        (λ e g t. reset-Tolerates c.config.error_threshold pair e t) a
  finish-IsTolerant id pair manifest ts now (threw error) c a =
      handle_error-IsTolerant id pair error ts c a
  finish-IsTolerant id pair manifest ts now (invalid_side error) c a =
      handle_error-IsTolerant id pair error ts c a
  finish-IsTolerant id pair manifest ts now (answered raw account) c a =
      answer-IsTolerant id pair manifest ts now raw account c a

  with_entry-IsTolerant :
      (id pair : String) (ts now : ℕ) (evaluation : Evaluation W) (e : Option (RegistryEntry I))
      (s : Option I) (c : StrategyController I F)
      → IsTolerant c
      → IsTolerant (with_entry num filter id pair ts now evaluation e s c).0
  with_entry-IsTolerant id pair ts now evaluation (some e) (some s) c a =
      finish-IsTolerant id pair e.manifest ts now evaluation c a
  with_entry-IsTolerant id pair ts now evaluation none s c a = a
  with_entry-IsTolerant id pair ts now evaluation (some e) none c a = a

  run_once-IsTolerant :
      (id pair : String) (ts now : ℕ) (evaluation : Evaluation W) (c : StrategyController I F)
      → IsTolerant c
      → IsTolerant (run_once num filter id pair ts now evaluation c).0
  unfolding run_once
  run_once-IsTolerant id pair ts now evaluation c a = elim (Bool-cases (is_enabled id c.registry)) [
    | inl k ↦ rw k (
        with_entry-IsTolerant id pair ts now evaluation (get id c.registry)
          (instance_of id pair c.registry) c a)
    | inr k ↦ rw k a
  ]

  unfoldable pub run_all : List (Run W) → StrategyController I F → StrategyController I F
  run_all [] c = c
  run_all (r ∷ rs) c = run_all rs (run_once num filter r.id r.pair r.ts r.now r.evaluation c).0

  -- If every enabled strategy has fewer consecutive errors for each pair than the threshold, then so it
  -- is after whatever the drivers run, however the evaluations end.
  pub run_all-IsTolerant :
      (runs : List (Run W)) (c : StrategyController I F)
      → IsTolerant c
      → IsTolerant (run_all runs c)
  unfolding run_all
  run_all-IsTolerant [] c a = a
  run_all-IsTolerant (r ∷ rs) c a =
      run_all-IsTolerant rs _ (run_once-IsTolerant r.id r.pair r.ts r.now r.evaluation c a)

  -- A disabled strategy is not run at all.
  run_once_disabled :
      (id pair : String) (ts now : ℕ) (evaluation : Evaluation W) (c : StrategyController I F)
      → is_enabled id c.registry ≡ false
      → run_once num filter id pair ts now evaluation c ≡ (c, [])
  unfolding run_once
  run_once_disabled id pair ts now evaluation c k = rw k refl

  failures_disabled :
      (id pair : String) (ts : List (ℕ × ℕ × String)) (c : StrategyController I F)
      → is_enabled id c.registry ≡ false
      → is_enabled id (run_all (failures id pair ts) c).registry ≡ false
  unfolding run_all
  failures_disabled id pair [] c k = k
  failures_disabled id pair (t ∷ ts) c k =
      rw (run_once_disabled id pair t.0 t.1 (threw t.2) c k, run_all)
        (failures_disabled id pair ts c k)

  run_once_threw :
      (id pair error : String) (ts now : ℕ) (c : StrategyController I F) (e : RegistryEntry I)
      (s : I)
      → get id c.registry ≡ some e
      → e.enabled ≡ true
      → get pair e.per_instance ≡ some s
      → run_once num filter id pair ts now (threw error) c ≡ handle_error id pair error ts c
  unfolding run_once finish is_enabled instance_of
  run_once_threw id pair error ts now c e s g on o = rw (g, on, o) refl

  failing :
      (id pair error : String) (ts : ℕ) (c : StrategyController I F) (e : RegistryEntry I)
      → get id c.registry ≡ some e
      → (pair == "") ≡ false
      → handle_error {W = W} id pair error ts c ≡ (
          if leb c.config.error_threshold (suc (streak_of pair e))
          then (
            record c { registry = disable id (set id (with_error pair e) c.registry) },
            strategy_error id pair ts error (suc (streak_of pair e))
                ∷ strategy_disabled id pair ts (suc (streak_of pair e))
                ∷ [],
          )
          else (
            record c { registry = set id (with_error pair e) c.registry },
            strategy_error id pair ts error (suc (streak_of pair e)) ∷ [],
          ))
  unfolding handle_error record_error update
  failing id pair error ts c e g p = rw (g, p) refl

  with_error-streak :
      (pair : String) (e : RegistryEntry I)
      → (pair == "") ≡ false
      → streak_of pair (with_error pair e) ≡ suc (streak_of pair e)
  unfolding streak_of
  with_error-streak pair e p =
      rw (p, get-set_self pair (suc (streak_of pair e)) e.error_streak) refl

  disabled_now :
      (id : String) (e : RegistryEntry I) (m : Dict String (RegistryEntry I))
      → is_enabled id (disable id (set id e m)) ≡ false
  unfolding is_enabled update
  disabled_now id e m =
      rw (get-set_self id e m, get-set_self id (record e { enabled = false }) (set id e m)) refl

  enabled_now :
      (id : String) (m : Dict String (RegistryEntry I)) (e : RegistryEntry I)
      → get id m ≡ some e
      → e.enabled ≡ true
      → is_enabled id m ≡ true
  unfolding is_enabled
  enabled_now id m e g on = rw (g, on) refl

  -- An enabled strategy whose runs for a pair throw one after the other stays enabled until its streak of
  -- errors reaches the threshold, and is disabled from then on.
  pub failures_enabled :
      (id pair : String) (ts : List (ℕ × ℕ × String)) (c : StrategyController I F)
      (e : RegistryEntry I) (s : I)
      → get id c.registry ≡ some e
      → e.enabled ≡ true
      → get pair e.per_instance ≡ some s
      → (pair == "") ≡ false
      → streak_of pair e < c.config.error_threshold
      → is_enabled id (run_all (failures id pair ts) c).registry
        ≡ ltb (streak_of pair e + length ts) c.config.error_threshold
  unfolding run_all
  failures_enabled id pair [] c e s g on o p lt =
      rw (enabled_now id c.registry e g on) (ground (arith, lt))
  failures_enabled id pair (t ∷ ts) c e s g on o p lt =
      let e' = with_error pair e in
      let n = c.config.error_threshold in
      elim (Bool-cases (leb n (suc (streak_of pair e)))) [
        | inl h ↦
            rw
              (
                run_once_threw id pair t.2 t.0 t.1 c e s g on o,
                failing id pair t.2 t.0 c e g p,
                run_all,
                h,
              )
              (failures_disabled id pair ts
                  (record c { registry = disable id (set id e' c.registry) })
                  (disabled_now id e' c.registry)
                ∙ ground (arith, h))
        | inr h ↦
            rw
              (
                run_once_threw id pair t.2 t.0 t.1 c e s g on o,
                failing id pair t.2 t.0 c e g p,
                run_all,
                h,
              )
              (failures_enabled id pair ts (record c { registry = set id e' c.registry }) e' s
                  (get-set_self id e' c.registry) on o p
                  (rw (with_error-streak pair e p) (ground (arith, h)))
                ∙ rw (with_error-streak pair e p) (ground arith))
      ]
