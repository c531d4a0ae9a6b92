-- ===== src/Runtime/BreakevenProtectionWorker/Laws.antt =====
-- Ticks and ends of callbacks, in any order: the ticks of the worker overlap.
use coindcx_bot.Prelude.{
  ℕ, zero, suc, ◌+◌, String, ◌≡◌, refl, inl, inr, Bool, true, false, Option, none, some, List, [],
  ◌∷◌, ◌++◌, if◌then◌else◌, ◌==◌, string_key, Bool-cases, arith,
}
use coindcx_bot.Prelude.Num.{Num}
use coindcx_bot.Account.Types.{Position}
use coindcx_bot.Strategy.Scheduler.InFlight.{
  has_pair, delete_pair, count, count-snoc, has_pair-snoc, has_pair-delete_pair,
}
use coindcx_bot.Runtime.BreakevenProtectionWorker.{
  WaitingTick, BreakevenWorker, new_worker, arm_prices, call_or_skip, next_callback, with_waiting,
  begin_tick, end_callback,
}

-- The timer starts a tick, or the callback that the `k`-th waiting tick waits for ends; each with the mark
-- prices of the moment.
pub data Event {ℓ} (W : Type ℓ) : Type ℓ where
  tick_started : (mark_price : String → Option W) → List Position → Event W
  callback_ended : (k : ℕ) (failed : Bool) (mark_price : String → Option W) → Event W

-- The worker with the positions of the callbacks that succeeded.
pub record World {ℓ} (W : Type ℓ) : Type ℓ where
  pub worker : BreakevenWorker W
  pub succeeded : List String

abbrev pub start {ℓ} : {W : Type ℓ} → World W
start = record { worker = new_worker; succeeded = [] }

-- How many callbacks of a position run.
abbrev pub running {ℓ} : {W : Type ℓ} → String → List (WaitingTick W) → ℕ
running id [] = 0
running id (t ∷ ts) = (if t.arm.position_id == id then 1 else 0) + running id ts

abbrev prepend {ℓ} : {A : Type ℓ} → A → Option (A × List A) → Option (A × List A)
prepend x none = none
prepend x (some (y, ys)) = some (y, x ∷ ys)

-- One element of a list, with the others.
abbrev take_out {ℓ} : {A : Type ℓ} → ℕ → List A → Option (A × List A)
take_out k [] = none
take_out zero (x ∷ xs) = some (x, xs)
take_out (suc k) (x ∷ xs) = prepend x (take_out k xs)

abbrev Taken {ℓ} :
    {W : Type ℓ}
    → String
    → List (WaitingTick W)
    → Option (WaitingTick W × List (WaitingTick W))
    → Type 0
Taken id ts none = Unit
Taken id ts (some (t, others)) =
    running id ts ≡ (if t.arm.position_id == id then 1 else 0) + running id others

prepend-Taken {ℓ} :
    {W : Type ℓ} (id : String) (t : WaitingTick W) (ts : List (WaitingTick W))
    (r : Option (WaitingTick W × List (WaitingTick W)))
    → Taken id ts r
    → Taken id (t ∷ ts) (prepend t r)
prepend-Taken id t ts none h = tt
prepend-Taken id t ts (some (u, others)) h = omega (arith, h)

take_out-Taken {ℓ} :
    {W : Type ℓ} (id : String) (k : ℕ) (ts : List (WaitingTick W)) → Taken id ts (take_out k ts)
take_out-Taken id k [] = tt
take_out-Taken id zero (t ∷ ts) = refl
take_out-Taken id (suc k) (t ∷ ts) = prepend-Taken id t ts (take_out k ts) (take_out-Taken id k ts)

abbrev pub flag : String → List String → ℕ
flag id armed = if has_pair id armed then 1 else 0

abbrev called {ℓ} : {W : Type ℓ} → String → Option (WaitingTick W) → ℕ
called id none = 0
called id (some t) = if t.arm.position_id == id then 1 else 0

module _ {ℓ} {W : Type ℓ} (num : Num W) (arm_pct : W) where
  abbrev ended :
      (mark_price : String → Option W)
      → (failed : Bool) → World W
      → Option (WaitingTick W × List (WaitingTick W))
      → World W
  ended mark_price failed w none = w
  ended mark_price failed w (some (t, others)) = record {
    worker =
        end_callback num arm_pct mark_price failed t
          (record { armed = w.worker.armed; ticks = others });
    succeeded = if failed then w.succeeded else w.succeeded ++ t.arm.position_id ∷ [];
  }

  unfoldable pub event : Event W → World W → World W
  event (tick_started mark_price positions) w = record w {
    worker = begin_tick num arm_pct mark_price positions w.worker;
  }
  event (callback_ended k failed mark_price) w =
      ended mark_price failed w (take_out k w.worker.ticks)

  unfoldable pub run : List (Event W) → World W → World W
  run [] w = w
  run (v ∷ vs) w = run vs (event v w)

  -- `armed` holds the positions of the callbacks that run or succeeded, each of one callback.
  abbrev IsArmed : World W → Type 0
  IsArmed w =
      (id : String) → running id w.worker.ticks + count id w.succeeded ≡ flag id w.worker.armed

  call_or_skip-called :
      (id : String) (p : Position) (ps : List Position) (armed : List String)
      (skipped : List String × Option (WaitingTick W)) (prices : Option (W × W))
      → has_pair p.id armed ≡ false
      → called id skipped.1 + flag id armed ≡ flag id skipped.0
      → called id (call_or_skip p ps armed skipped prices).1 + flag id armed
        ≡ flag id (call_or_skip p ps armed skipped prices).0
  call_or_skip-called id p ps armed skipped none h e = e
  call_or_skip-called id p ps armed skipped (some prices) h e =
      ground (arith, h, has_pair-snoc id p.id armed, string_key.same_iff p.id id)

  next_callback-called :
      (id : String) (mark_price : String → Option W) (ps : List Position) (armed : List String)
      → called id (next_callback num arm_pct mark_price ps armed).1 + flag id armed
        ≡ flag id (next_callback num arm_pct mark_price ps armed).0
  unfolding next_callback
  next_callback-called id mark_price [] armed = omega arith
  next_callback-called id mark_price (p ∷ ps) armed =
      let e = next_callback-called id mark_price ps armed in
      elim (Bool-cases (has_pair p.id armed)) [
        | inl h ↦ rw h e
        | inr h ↦ rw h (
            call_or_skip-called id p ps armed (next_callback num arm_pct mark_price ps armed)
              (arm_prices num arm_pct (mark_price p.pair) p) h e)
      ]

  running-with_waiting :
      (id : String) (r : List String × Option (WaitingTick W)) (ticks : List (WaitingTick W))
      → (running id (with_waiting r ticks).ticks ≡ called id r.1 + running id ticks)
        × ((with_waiting r ticks).armed ≡ r.0)
  running-with_waiting id (armed, none) ticks = (omega arith, refl)
  running-with_waiting id (armed, some t) ticks = (refl, refl)

  -- The loop goes on from a state that accounts for the callbacks.
  resumed-IsArmed :
      (mark_price : String → Option W) (ps : List Position) (armed succeeded : List String)
      (ticks : List (WaitingTick W))
      → IsArmed (record { worker = record { armed = armed; ticks = ticks }; succeeded = succeeded })
      → IsArmed (record {
        worker = with_waiting (next_callback num arm_pct mark_price ps armed) ticks;
        succeeded = succeeded;
      })
  resumed-IsArmed mark_price ps armed succeeded ticks a id =
      let r = next_callback num arm_pct mark_price ps armed in
      let (e, f) = running-with_waiting id r ticks in
      rw f (omega (arith, e, a id, next_callback-called id mark_price ps armed))

  failed-IsArmed :
      (t : WaitingTick W) (others : List (WaitingTick W)) (w : World W)
      → ((id : String) → Taken id w.worker.ticks (some (t, others)))
      → IsArmed w
      → IsArmed (record {
        worker = record { armed = delete_pair t.arm.position_id w.worker.armed; ticks = others };
        succeeded = w.succeeded;
      })
  failed-IsArmed t others w h a id =
      ground (arith, h id, a id, has_pair-delete_pair id t.arm.position_id w.worker.armed)

  ended-IsArmed :
      (mark_price : String → Option W) (failed : Bool) (w : World W)
      (r : Option (WaitingTick W × List (WaitingTick W)))
      → ((id : String) → Taken id w.worker.ticks r)
      → IsArmed w
      → IsArmed (ended mark_price failed w r)
  unfolding end_callback
  ended-IsArmed mark_price failed w none h a = a
  ended-IsArmed mark_price true w (some (t, others)) h a =
      resumed-IsArmed mark_price t.rest (delete_pair t.arm.position_id w.worker.armed) w.succeeded
        others (failed-IsArmed t others w h a)
  ended-IsArmed mark_price false w (some (t, others)) h a =
      resumed-IsArmed mark_price t.rest w.worker.armed (w.succeeded ++ t.arm.position_id ∷ [])
        others (λ id. omega (arith, h id, a id, count-snoc id t.arm.position_id w.succeeded))

  run-IsArmed : (vs : List (Event W)) (w : World W) → IsArmed w → IsArmed (run vs w)
  unfolding run event begin_tick
  run-IsArmed [] w a = a
  run-IsArmed (tick_started mark_price positions ∷ vs) w a =
      run-IsArmed vs _
        (resumed-IsArmed mark_price positions w.worker.armed w.succeeded w.worker.ticks a)
  run-IsArmed (callback_ended k failed mark_price ∷ vs) w a = run-IsArmed vs _ (
      ended-IsArmed mark_price failed w (take_out k w.worker.ticks)
        (λ id. take_out-Taken id k w.worker.ticks) a)

  -- However the ticks of a new worker and the ends of their callbacks interleave, whatever the positions,
  -- the prices and the failures: of the callbacks of a position, those that run and those that
  -- succeeded are one together if the position is in `armed`, and none if it is not.
  pub armed_once :
      (vs : List (Event W)) (id : String)
      → running id (run vs start).worker.ticks + count id (run vs start).succeeded
        ≡ (if has_pair id (run vs start).worker.armed then 1 else 0)
  armed_once vs id = run-IsArmed vs start (λ q. refl) id
