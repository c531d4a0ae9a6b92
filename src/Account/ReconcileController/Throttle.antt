-- ===== src/Account/ReconcileController/Throttle.antt =====
-- Signals with a cooldown and storms of alarms, over histories.
use coindcx_bot.Prelude.{
  ℕ, ◌+◌, ◌≤◌, String, ◌≡◌, refl, ap, subst, ◌∙◌, inl, inr, List, [], ◌∷◌, ◌++◌, if◌then◌else◌,
  get_or, ltb, length, ◌==◌, string_key, Bool-cases, arith,
}
use coindcx_bot.Prelude.Dict.{Dict, get, set, get-set}
use coindcx_bot.Account.Types.{Entity}
use coindcx_bot.Account.ReconcileController.Signals.{
  AccountSignal, emit_throttled, suppressed_by_storm, divergence_signals,
}

-- A request to emit a signal under a key at a time.
abbrev pub Request : Type 0
Request = ℕ × String × AccountSignal

abbrev stamp : ℕ → List AccountSignal → List ℕ
stamp now [] = []
stamp now (s ∷ ss) = now ∷ stamp now ss

-- The times at which the requests of a key are emitted.
unfoldable pub emitted : (cooldown_ms : ℕ) → String → List Request → Dict String ℕ → List ℕ
emitted cooldown_ms k [] at = []
emitted cooldown_ms k ((now, key, signal) ∷ rs) at =
    let r = emit_throttled cooldown_ms now key signal at in
    (if key == k then stamp now r.1 else []) ++ emitted cooldown_ms k rs r.0

-- Each time is at least the cooldown after the one before, the first after `last`.
abbrev pub IsSpaced : (cooldown_ms last : ℕ) → List ℕ → Type 0
IsSpaced cooldown_ms last [] = Unit
IsSpaced cooldown_ms last (t ∷ ts) = (last + cooldown_ms ≤ t) × IsSpaced cooldown_ms t ts

-- Whatever the clock and the other signals do, two emissions of the same key are at least the cooldown apart.
pub emitted-IsSpaced :
    (cooldown_ms : ℕ) (k : String) (rs : List Request) (at : Dict String ℕ)
    → IsSpaced cooldown_ms (get_or (get k at) 0) (emitted cooldown_ms k rs at)
unfolding emitted emit_throttled
emitted-IsSpaced cooldown_ms k [] at = tt
emitted-IsSpaced cooldown_ms k ((now, key, signal) ∷ rs) at =
    let wait = ltb now (get_or (get key at) 0 + cooldown_ms) in
    elim (Bool-cases wait) [
      | inl w ↦ elim (Bool-cases (key == k)) [
        | inl e ↦ rw (w, e) (emitted-IsSpaced cooldown_ms k rs at)
        | inr e ↦ rw (w, e) (emitted-IsSpaced cooldown_ms k rs at)
      ]
      | inr w ↦
          let rest = emitted-IsSpaced cooldown_ms k rs (set key now at) in
          elim (Bool-cases (key == k)) [
            | inl e ↦
                let later : get_or (get key at) 0 + cooldown_ms ≤ now = ground arith in
                let here : get_or (get k at) 0 + cooldown_ms ≤ now =
                  subst (λ x. get_or (get x at) 0 + cooldown_ms ≤ now)
                    ((string_key.same_iff key k).0 e) later in
                let now_last : get_or (get k (set key now at)) 0 ≡ now =
                  ap (λ o. get_or o 0) (get-set key k now at) ∙ rw e refl in
                rw (w, e)
                  (
                    here,
                    subst (λ t. IsSpaced cooldown_ms t (emitted cooldown_ms k rs (set key now at)))
                        now_last rest,
                  )
            | inr e ↦
                let same_last : get_or (get k (set key now at)) 0 ≡ get_or (get k at) 0 =
                  ap (λ o. get_or o 0) (get-set key k now at) ∙ rw e refl in
                rw (w, e)
                  (subst (λ t. IsSpaced cooldown_ms t (emitted cooldown_ms k rs (set key now at)))
                    same_last rest)
          ]
    ]

-- The batches of alarms, each with its time.
unfoldable pub storms : (threshold window_ms : ℕ) → Entity → List (ℕ × ℕ) → List ℕ → List ℕ
storms threshold window_ms entity [] times = times
storms threshold window_ms entity ((now, alarms) ∷ bs) times =
    storms threshold window_ms entity bs
      (divergence_signals threshold window_ms now entity alarms times).0

-- However many alarms arrive, the controller never remembers more of them than the storm's threshold.
pub length-storms :
    (threshold window_ms : ℕ) (entity : Entity) (bs : List (ℕ × ℕ)) (times : List ℕ)
    → length times ≤ threshold
    → length (storms threshold window_ms entity bs times) ≤ threshold
unfolding storms divergence_signals suppressed_by_storm
length-storms threshold window_ms entity [] times h = h
length-storms threshold window_ms entity ((now, alarms) ∷ bs) times h =
    length-storms threshold window_ms entity bs
      (divergence_signals threshold window_ms now entity alarms times).0 (ground (arith, h))
