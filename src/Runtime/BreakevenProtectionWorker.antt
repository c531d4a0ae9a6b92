-- ===== src/Runtime/BreakevenProtectionWorker.antt =====
-- src/runtime/workers/breakeven-protection-worker.ts. A tick waits for each callback, and the timer starts the
-- next tick in the meantime: a tick runs up to its next callback in one step, the end of the callback, with
-- whether it failed, is another, and the worker holds the ticks that wait. The timer is left out.
mod Laws
mod Tests
use coindcx_bot.Prelude.{
  String, Bool, true, false, not, ◌||◌, Option, none, some, List, [], ◌∷◌, ◌++◌, if◌then◌else◌,
  string_key,
}
use coindcx_bot.Prelude.Num.{Num}
use coindcx_bot.Account.Types.{Position, Side, long, short, flat}
use coindcx_bot.Strategy.Scheduler.InFlight.{has_pair, delete_pair}

pub record BreakevenArm {ℓ} (W : Type ℓ) : Type ℓ where
  pub pair : String
  pub position_id : String
  pub mark_price : W
  pub avg_price : W
  pub side : Side

-- A tick that waits for its callback, with the positions that it has left.
pub record WaitingTick {ℓ} (W : Type ℓ) : Type ℓ where
  pub arm : BreakevenArm W
  pub rest : List Position

pub record BreakevenWorker {ℓ} (W : Type ℓ) : Type ℓ where
  pub armed : List String
  pub ticks : List (WaitingTick W)

abbrev pub new_worker {ℓ} : {W : Type ℓ} → BreakevenWorker W
new_worker = record { armed = []; ticks = [] }

abbrev is_flat : Side → Bool
is_flat flat = true
is_flat _ = false

abbrev with_mark {ℓ} : {W : Type ℓ} → W → Option W → Option (W × W)
with_mark mark none = none
with_mark mark (some avg) = some (mark, avg)

abbrev pub arm_of {ℓ} : {W : Type ℓ} → Position → W × W → BreakevenArm W
arm_of p prices = record {
  pair = p.pair;
  position_id = p.id;
  mark_price = prices.0;
  avg_price = prices.1;
  side = p.side;
}

-- `armed.add` and the call of the callback, or on with the loop.
abbrev pub call_or_skip {ℓ} :
    {W : Type ℓ}
    → Position
    → List Position
    → (armed : List String) → (skipped : List String × Option (WaitingTick W)) → Option (W × W)
    → List String × Option (WaitingTick W)
call_or_skip p ps armed skipped none = skipped
call_or_skip p ps armed skipped (some prices) =
    (armed ++ p.id ∷ [], some (record { arm = arm_of p prices; rest = ps }))

abbrev pub with_waiting {ℓ} :
    {W : Type ℓ} → List String × Option (WaitingTick W) → List (WaitingTick W) → BreakevenWorker W
with_waiting (armed, none) ticks = record { armed = armed; ticks = ticks }
with_waiting (armed, some t) ticks = record { armed = armed; ticks = t ∷ ticks }

module _ {ℓ} {W : Type ℓ} (num : Num W) (arm_pct : W) where
  open num use {of_ℕ, number, lt, le, is_finite, sub, div}

  unfoldable pub finite_positive : String → Option W
  finite_positive text =
      if not (is_finite (number text)) || le (number text) (of_ℕ 0)
      then none
      else some (number text)

  abbrev progress_of : Side → (avg mark : W) → Option W
  progress_of long avg mark = some (div (sub mark avg) avg)
  progress_of short avg mark = some (div (sub avg mark) avg)
  progress_of flat avg mark = none

  abbrev progress_from : Side → (mark : W) → Option W → Option W
  progress_from side mark none = none
  progress_from side mark (some avg) = progress_of side avg mark

  unfoldable pub progress_pct : Position → (mark_price : W) → Option W
  progress_pct p mark_price = progress_from p.side mark_price (finite_positive p.avg_price)

  -- `pct === undefined || pct < armPct`
  abbrev too_early : Option W → Bool
  too_early none = true
  too_early (some pct) = lt pct arm_pct

  abbrev prices_at : Position → Option W → Option (W × W)
  prices_at p none = none
  prices_at p (some mark) =
      if too_early (progress_pct p mark) then none else with_mark mark (finite_positive p.avg_price)

  -- The mark price and the average price of a position that the loop does not skip, whether it is armed
  -- apart.
  unfoldable pub arm_prices : (mark : Option W) → Position → Option (W × W)
  arm_prices mark p = if is_flat p.side then none else prices_at p mark

  -- The loop up to its next callback, or to its end.
  unfoldable pub next_callback :
      (mark_price : String → Option W)
      → List Position
      → (armed : List String) → List String × Option (WaitingTick W)
  next_callback mark_price [] armed = (armed, none)
  next_callback mark_price (p ∷ ps) armed =
      let skipped = next_callback mark_price ps armed in
      if has_pair p.id armed
      then skipped
      else call_or_skip p ps armed skipped (arm_prices (mark_price p.pair) p)

  -- A tick up to its first callback.
  unfoldable pub begin_tick :
      (mark_price : String → Option W) → List Position → BreakevenWorker W → BreakevenWorker W
  begin_tick mark_price positions w =
      with_waiting (next_callback mark_price positions w.armed) w.ticks

  -- A tick from the end of the callback that it waits for up to its next one. The worker's ticks are
  -- the others.
  unfoldable pub end_callback :
      (mark_price : String → Option W)
      → (failed : Bool) → WaitingTick W
      → BreakevenWorker W
      → BreakevenWorker W
  end_callback mark_price failed t w =
      let armed = if failed then delete_pair t.arm.position_id w.armed else w.armed in
      with_waiting (next_callback mark_price t.rest armed) w.ticks
