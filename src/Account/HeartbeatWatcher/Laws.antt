-- ===== src/Account/HeartbeatWatcher/Laws.antt =====
-- The notices of silent channels over a history.
use coindcx_bot.Prelude.{
  ℕ, ◌+◌, ◌≤◌, ◌≡◌, refl, ap, sym, ◌∙◌, inl, inr, true, false, List, [], ◌∷◌, ◌++◌, if◌then◌else◌,
  Bool-cases, arith,
}
use coindcx_bot.Account.Types.{Entity, position, balance, order, fill}
use coindcx_bot.Account.HeartbeatWatcher.{
  HeartbeatWatcher, same_entity, new_watcher, touch, is_stale, tick_one, tick_all, tick, channels,
}

pub data Event : Type 0 where
  touched : Entity → (now : ℕ) → Event
  ticked : (now : ℕ) → Event

unfoldable pub run : List Event → HeartbeatWatcher → HeartbeatWatcher × List Entity
run [] w = (w, [])
run (touched ch now ∷ es) w = run es (touch ch now w)
run (ticked now ∷ es) w =
    let first = tick now w in let rest = run es first.0 in (rest.0, first.1 ++ rest.1)

abbrev pub count : Entity → List Entity → ℕ
count ch [] = 0
count ch (c ∷ cs) = (if same_entity c ch then 1 else 0) + count ch cs

abbrev pub touches : Entity → List Event → ℕ
touches ch [] = 0
touches ch (touched c now ∷ es) = (if same_entity c ch then 1 else 0) + touches ch es
touches ch (ticked now ∷ es) = touches ch es

-- One for a channel that may still be noticed.
abbrev pub armed : Entity → HeartbeatWatcher → ℕ
armed ch w = if w.stale_notified ch then 0 else 1

same_entity_refl : (ch : Entity) → same_entity ch ch ≡ true
same_entity_refl position = refl
same_entity_refl balance = refl
same_entity_refl order = refl
same_entity_refl fill = refl

same_entity_eq : (c d : Entity) → same_entity c d ≡ true → c ≡ d
same_entity_eq position position e = refl
same_entity_eq balance balance e = refl
same_entity_eq order order e = refl
same_entity_eq fill fill e = refl
same_entity_eq _ _ e = ground arith

count-append : (ch : Entity) (xs ys : List Entity) → count ch (xs ++ ys) ≡ count ch xs + count ch ys
count-append ch [] ys = omega arith
count-append ch (x ∷ xs) ys = omega (arith, count-append ch xs ys)

tick_one_le :
    (ch c : Entity) (now : ℕ) (w : HeartbeatWatcher)
    → count ch (tick_one now c w).1 + armed ch (tick_one now c w).0 ≤ armed ch w
tick_one_le ch c now w = elim (Bool-cases (is_stale now c w)) [
  | inl s ↦
      let quiet : w.stale_notified c ≡ false = ground arith in
      elim (Bool-cases (same_entity c ch)) [
        | inl e ↦
            let same : w.stale_notified ch ≡ false =
              ap w.stale_notified (sym (same_entity_eq c ch e)) ∙ quiet in
            rw (s, e, same) (omega arith)
        | inr e ↦ rw (s, e) (omega arith)
      ]
  | inr s ↦ rw s (omega arith)
]

tick_all_le :
    (ch : Entity) (now : ℕ) (chs : List Entity) (w : HeartbeatWatcher)
    → count ch (tick_all now chs w).1 + armed ch (tick_all now chs w).0 ≤ armed ch w
unfolding tick_all
tick_all_le ch now [] w = omega arith
tick_all_le ch now (c ∷ chs) w =
    let first = tick_one now c w in
    omega (
      arith,
      tick_one_le ch c now w,
      tick_all_le ch now chs first.0,
      count-append ch first.1 (tick_all now chs first.0).1,
    )

touch_le :
    (ch c : Entity) (now : ℕ) (w : HeartbeatWatcher)
    → armed ch (touch c now w) ≤ (if same_entity c ch then 1 else 0) + armed ch w
unfolding touch
touch_le ch c now w = ground arith

run_le :
    (ch : Entity) (es : List Event) (w : HeartbeatWatcher)
    → count ch (run es w).1 + armed ch (run es w).0 ≤ touches ch es + armed ch w
unfolding run tick
run_le ch [] w = omega arith
run_le ch (touched c now ∷ es) w = omega (arith, touch_le ch c now w, run_le ch es (touch c now w))
run_le ch (ticked now ∷ es) w =
    let first = tick_all now channels w in
    omega (
      arith,
      tick_all_le ch now channels w,
      run_le ch es first.0,
      count-append ch first.1 (run es first.0).1,
    )

-- Over any history of a new watcher, a channel is reported stale at most as often as it is
-- touched, so that one that never spoke is not reported.
pub stale_once :
    (ch : Entity) (floors : Entity → ℕ) (start : ℕ) (es : List Event)
    → count ch (run es (new_watcher floors start)).1 ≤ touches ch es
unfolding new_watcher
stale_once ch floors start es = omega (arith, run_le ch es (new_watcher floors start))

tick_one_other :
    (ch c : Entity) (now : ℕ) (w : HeartbeatWatcher)
    → same_entity c ch ≡ false
    → is_stale now ch (tick_one now c w).0 ≡ is_stale now ch w
tick_one_other ch c now w e = ground (arith, e)

tick_all_reports :
    (ch : Entity) (now : ℕ) (chs : List Entity) (w : HeartbeatWatcher)
    → is_stale now ch w ≡ true
    → 1 ≤ count ch chs
    → 1 ≤ count ch (tick_all now chs w).1
unfolding tick_all
tick_all_reports ch now [] w s m = m
tick_all_reports ch now (c ∷ chs) w s m =
    let first = tick_one now c w in
    let split = count-append ch first.1 (tick_all now chs first.0).1 in
    elim (Bool-cases (same_entity c ch)) [
      | inl e ↦
          let here : is_stale now c w ≡ true =
            ap (λ x. is_stale now x w) (same_entity_eq c ch e) ∙ s in
          let one : count ch first.1 ≡ 1 = rw (here, e) refl in omega (arith, split, one)
      | inr e ↦
          let later : 1 ≤ 0 + count ch chs = rw e at m in
          let rest : 1 ≤ count ch chs = omega (arith, later) in
          omega (
            arith,
            split,
            tick_all_reports ch now chs first.0 (tick_one_other ch c now w e ∙ s) rest,
          )
    ]

-- A channel that is not reported yet and was last touched at least its floor ago is reported by a tick.
pub tick_reports :
    (ch : Entity) (now : ℕ) (w : HeartbeatWatcher)
    → w.stale_notified ch ≡ false
    → w.last ch + w.floors ch ≤ now
    → 1 ≤ count ch (tick now w).1
unfolding tick
tick_reports ch now w n l = tick_all_reports ch now channels w (ground arith) (listed ch)
  where
    listed : (ch : Entity) → 1 ≤ count ch channels
    listed position = omega arith
    listed balance = omega arith
    listed order = omega arith
    listed fill = omega arith
