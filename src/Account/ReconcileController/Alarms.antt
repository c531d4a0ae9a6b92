-- ===== src/Account/ReconcileController/Alarms.antt =====
-- The sweeps: what a difference raises, and what a missing endpoint leaves.
use coindcx_bot.Prelude.{
  ℕ, ◌≤◌, String, ◌≡◌, refl, ap, ◌∙◌, Bool, true, false, Option, some, List, [], ◌∷◌, ◌++◌,
  if◌then◌else◌, any, ◌==◌, string_key, nat_key, arith,
}
use coindcx_bot.Prelude.Dict.{get}
use coindcx_bot.Prelude.Num.{Num}
use coindcx_bot.Account.Types.{Position, Entity, position}
use coindcx_bot.Account.Stores.PositionStore.{open_positions, replace_from_rest}
use coindcx_bot.Account.DivergenceDetector.{Diff, diff_positions}
use coindcx_bot.Account.DivergenceDetector.Laws.{
  raises, positions_by_id, diff_positions_alarm, any-append,
}
use coindcx_bot.Account.ReconcileController.Signals.{
  Severity, critical_signal, AccountSignal, suppressed_by_storm, divergence_signals,
}
use coindcx_bot.Account.ReconcileController.{Reconciler}
use coindcx_bot.Account.ReconcileController.Sweeps.{
  FillsAnswer, not_found, alarm_count, detector, handle_diffs, synthesized, sweep_positions,
  sweep_fills, fills_answered,
}

abbrev is_critical : Severity → Bool
is_critical critical_signal = true
is_critical _ = false

abbrev pub has_critical : List AccountSignal → Bool
has_critical signals = any (λ s. is_critical s.severity) signals

divergence_critical :
    (threshold window_ms now : ℕ) (entity : Entity) (alarms : ℕ) (times : List ℕ)
    → 1 ≤ alarms
    → has_critical (divergence_signals threshold window_ms now entity alarms times).1 ≡ true
unfolding divergence_signals suppressed_by_storm
divergence_critical threshold window_ms now entity alarms times h = ground arith

raises-alarm_count {ℓ} : {T : Type ℓ} (ds : List (Diff T)) → raises ds ≡ true → 1 ≤ alarm_count ds
raises-alarm_count [] r = ground arith
raises-alarm_count (d ∷ ds) r = ground (arith, raises-alarm_count ds)

module _ {ℓ} {W : Type ℓ} (num : Num W) (time_of : String → Option ℕ)
    (is_later gt : String → String → Bool) where
  -- A sweep that finds another quantity, as text, of a position at the exchange than that of the position
  -- open in the local store, whose quantity is not 0, emits a critical signal: the divergence, or the
  -- storm that stands for it.
  pub sweep_positions_critical :
      (now : ℕ) (id : String) (rest : List Position) (s : Reconciler W) (l r : Position)
      → get id (positions_by_id (open_positions num s.positions)) ≡ some l
      → get id (positions_by_id rest) ≡ some r
      → (l.active_pos == r.active_pos) ≡ false
      → has_critical (sweep_positions num time_of is_later gt now (some rest) s).1 ≡ true
  unfolding sweep_positions handle_diffs
  sweep_positions_critical now id rest s l r gl gr d =
      let diffs =
        diff_positions num (detector num time_of is_later gt s) (open_positions num s.positions)
          rest in
      let alarmed = raises-alarm_count diffs (
        diff_positions_alarm num (detector num time_of is_later gt s) id
          (open_positions num s.positions) rest l r gl gr d) in
      let replaced = replace_from_rest num rest s.positions in
      let closed = synthesized replaced.0 replaced.1 in
      let signals =
        (divergence_signals s.config.storm_threshold s.config.storm_window_ms now position
          (alarm_count diffs) s.storm_times).1 in
      let critical =
        divergence_critical s.config.storm_threshold s.config.storm_window_ms now position
          (alarm_count diffs) s.storm_times alarmed in
      any-append (λ x. is_critical x.severity) closed signals ∙ ground (arith, critical)

  -- The answers of the exchange to the sweeps of the fills, each with its time.
  unfoldable pub sweep_all_fills :
      List (ℕ × FillsAnswer) → Reconciler W → Reconciler W × List AccountSignal
  sweep_all_fills [] s = (s, [])
  sweep_all_fills ((now, answer) ∷ answers) s =
      let first = sweep_fills num time_of is_later gt now answer s in
      let rest = sweep_all_fills answers first.0 in (rest.0, first.1 ++ rest.1)

  disabled_lem :
      (answers : List (ℕ × FillsAnswer)) (s : Reconciler W)
      → s.fills_rest_disabled ≡ true
      → sweep_all_fills answers s ≡ (s, [])
  unfolding sweep_all_fills sweep_fills
  disabled_lem [] s e = refl
  disabled_lem ((now, answer) ∷ answers) s e =
      let skip : sweep_fills num time_of is_later gt now answer s ≡ (s, []) =
        ap (λ b. if b then (s, []) else fills_answered num time_of is_later gt now answer s) e in
      ap
        (λ first.
          ((sweep_all_fills answers first.0).0, first.1 ++ (sweep_all_fills answers first.0).1))
        skip
      ∙ disabled_lem answers s e

  -- Once the exchange has answered that it has no history of fills, further sweeps of the fills change
  -- nothing and emit nothing, whatever they would bring.
  pub not_found_for_good :
      (now : ℕ) (answers : List (ℕ × FillsAnswer)) (s : Reconciler W)
      → s.fills_rest_disabled ≡ false
      → sweep_all_fills answers (sweep_fills num time_of is_later gt now not_found s).0
        ≡ ((sweep_fills num time_of is_later gt now not_found s).0, [])
  unfolding sweep_fills
  not_found_for_good now answers s e = disabled_lem answers _ (
      ap
        (λ b.
          (if b
            then (s, [])
            else fills_answered num time_of is_later gt now not_found s).0.fills_rest_disabled)
        e)
