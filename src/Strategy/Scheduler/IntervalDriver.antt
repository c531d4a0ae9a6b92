-- ===== src/Strategy/Scheduler/IntervalDriver.antt =====
-- src/strategy/scheduler/interval-driver.ts. A timer is a Boolean: whether the entry has one. An entry that
-- is added again under its id takes the place of the old one in the map.
mod Laws
mod Tests
use coindcx_bot.Prelude.{
  ℕ, String, Bool, true, false, Option, List, [], ◌∷◌, ◌++◌, map, if◌then◌else◌, ◌==◌, string_key,
}
use coindcx_bot.Prelude.Dict.{Dict, set, delete}
use coindcx_bot.Strategy.Scheduler.InFlight.{
  StrategyTrigger, interval_trigger, Evaluation, has_pair, delete_pair,
}

pub record Entry : Type 0 where
  pub id : String
  pub pairs : List String
  pub interval_ms : ℕ
  pub pending : List String
  pub timer : Bool

abbrev pub IntervalDriver : Type 0
IntervalDriver = Dict String Entry

abbrev pub new_entry : (id : String) → (pairs : List String) → (interval_ms : ℕ) → Entry
new_entry id pairs interval_ms = record {
  id = id;
  pairs = pairs;
  interval_ms = interval_ms;
  pending = [];
  timer = false;
}

unfoldable pub add :
    (id : String) → (pairs : List String) → (interval_ms : ℕ) → IntervalDriver → IntervalDriver
add id pairs interval_ms d = set id (new_entry id pairs interval_ms) d

unfoldable pub remove : (id : String) → IntervalDriver → IntervalDriver
remove id d = delete id d

abbrev with_timer : Bool → String × Entry → String × Entry
with_timer timer e = (e.0, record e.1 { timer = timer })

unfoldable pub start : IntervalDriver → IntervalDriver
start d = map (with_timer true) d

unfoldable pub stop : IntervalDriver → IntervalDriver
stop d = map (with_timer false) d

-- No raw message comes with an interval.
abbrev pub IntervalEvaluation : Type 0
IntervalEvaluation = Evaluation (Unit {0})

abbrev pub evaluation_of : Entry → String → IntervalEvaluation
evaluation_of e pair = record { id = e.id; pair = pair; trigger = interval_trigger }

-- One round of the loop of `fire`: the entry, and the evaluations that it starts.
abbrev pub fire_pair : String → Entry → Entry × List IntervalEvaluation
fire_pair pair e =
    if has_pair pair e.pending
    then (e, [])
    else (record e { pending = e.pending ++ pair ∷ [] }, evaluation_of e pair ∷ [])

unfoldable pub fire_pairs : List String → Entry → Entry × List IntervalEvaluation
fire_pairs [] e = (e, [])
fire_pairs (pair ∷ pairs) e =
    let first = fire_pair pair e in
    let rest = fire_pairs pairs first.0 in (rest.0, first.1 ++ rest.1)

unfoldable pub fire : Entry → Entry × List IntervalEvaluation
fire e = fire_pairs e.pairs e

-- An evaluation ends, with a result or an error.
unfoldable pub end_evaluation : String → Entry → Entry
end_evaluation pair e = record e { pending = delete_pair pair e.pending }
