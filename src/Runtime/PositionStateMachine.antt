-- ===== src/Runtime/PositionStateMachine.antt =====
-- src/runtime/position-state-machine.ts: the lifecycle of a position, kept for each pair.
-- The clock's reading is an argument in milliseconds; the source stores its ISO text.
pub mod Diagram
pub mod Histories
mod Tests
use coindcx_bot.Prelude.{
  ℕ, String, ◌≡◌, ◌↔◌, Bool, true, false, not, ◌||◌, Option, none, some, List, [], ◌∷◌, arith,
  KeyEq, ◌==◌, nat_key, string_key, if◌then◌else◌, get_or, Option-cases,
}
use coindcx_bot.Prelude.Dict.{Dict, get, set}

pub data LifecycleState : Type 0 where
  idle scanning signal_detected entry_validated order_placed position_open : LifecycleState
  breakeven_protected partial_tp_hit trailing time_stop_kill position_closed : LifecycleState

-- The union's `type` tags; every event has a reason besides.
pub data EventType : Type 0 where
  scan_started signal_detected entry_validated order_placed entry_filled : EventType
  breakeven_protected partial_tp_hit trailing_started time_stop_kill position_closed : EventType

pub record PositionEvent : Type 0 where
  pub type : EventType
  pub reason : String

pub record PositionStateSnapshot : Type 0 where
  pub pair : String
  pub state : LifecycleState
  pub transition_at : ℕ
  pub reason : String
  pub previous_state : Option LifecycleState
  pub ignored_event : Bool

pub record TransitionResult : Type 0 where
  pub state : LifecycleState
  pub ignored_event : Bool

abbrev pub ordinal : LifecycleState → ℕ
ordinal LifecycleState.idle = 0
ordinal LifecycleState.scanning = 1
ordinal LifecycleState.signal_detected = 2
ordinal LifecycleState.entry_validated = 3
ordinal LifecycleState.order_placed = 4
ordinal LifecycleState.position_open = 5
ordinal LifecycleState.breakeven_protected = 6
ordinal LifecycleState.partial_tp_hit = 7
ordinal LifecycleState.trailing = 8
ordinal LifecycleState.time_stop_kill = 9
ordinal LifecycleState.position_closed = 10

-- `===` on the states
infix 50 ◌===◌
abbrev pub ◌===◌ : LifecycleState → LifecycleState → Bool
s === t = ordinal s == ordinal t

-- One `case` of the switch: `allowed ? target : current`, and `ignoredEvent: !allowed`.
abbrev pub transition_if : Bool → LifecycleState → LifecycleState → TransitionResult
transition_if allowed target current = record {
  state = if allowed then target else current;
  ignored_event = not allowed;
}

pub next_state : LifecycleState → EventType → TransitionResult
next_state current EventType.scan_started =
    transition_if (current === LifecycleState.idle || current === LifecycleState.position_closed)
      LifecycleState.scanning current
next_state current EventType.signal_detected =
    transition_if (current === LifecycleState.scanning) LifecycleState.signal_detected current
next_state current EventType.entry_validated =
    transition_if (current === LifecycleState.signal_detected) LifecycleState.entry_validated
      current
next_state current EventType.order_placed =
    transition_if (current === LifecycleState.entry_validated) LifecycleState.order_placed current
next_state current EventType.entry_filled =
    transition_if (current === LifecycleState.order_placed) LifecycleState.position_open current
next_state current EventType.breakeven_protected =
    transition_if (current === LifecycleState.position_open) LifecycleState.breakeven_protected
      current
next_state current EventType.partial_tp_hit =
    transition_if (current === LifecycleState.breakeven_protected) LifecycleState.partial_tp_hit
      current
next_state current EventType.trailing_started =
    transition_if (current === LifecycleState.partial_tp_hit) LifecycleState.trailing current
next_state current EventType.time_stop_kill =
    transition_if
      (current === LifecycleState.position_open
        || current === LifecycleState.breakeven_protected
        || current === LifecycleState.partial_tp_hit
        || current === LifecycleState.trailing)
      LifecycleState.time_stop_kill current
next_state current EventType.position_closed =
    transition_if
      (current === LifecycleState.time_stop_kill
        || current === LifecycleState.trailing
        || current === LifecycleState.partial_tp_hit
        || current === LifecycleState.breakeven_protected
        || current === LifecycleState.position_open)
      LifecycleState.position_closed current

-- The field `byPair`.
abbrev pub Machine : Type 0
Machine = Dict String PositionStateSnapshot

abbrev pub state_of : Option PositionStateSnapshot → LifecycleState
state_of none = LifecycleState.idle
state_of (some s) = s.state

pub current : Machine → String → Option PositionStateSnapshot
current m pair = get pair m

pub transition :
    Machine → (now : ℕ) (pair : String) → PositionEvent → Machine × PositionStateSnapshot
transition m now pair event =
    let current_state = state_of (get pair m) in
    let next = next_state current_state event.type in
    let snapshot : PositionStateSnapshot = record {
      pair = pair;
      state = next.state;
      transition_at = now;
      reason = event.reason;
      previous_state = if current_state === next.state then none else some current_state;
      ignored_event = next.ignored_event;
    } in
    (set pair snapshot m, snapshot)
