-- ===== src/Runtime/PositionStateMachine/Diagram.antt =====
-- The lifecycle as a diagram, and the transitions as its edges.
use coindcx_bot.Prelude.{
  ℕ, String, ◌≡◌, refl, ◌⊎◌, Bool, true, false, Option, none, some, arith, string_key,
  if◌then◌else◌,
}
use coindcx_bot.Prelude.Dict.{get, get-set_self}
use coindcx_bot.Runtime.PositionStateMachine.{
  LifecycleState, EventType, PositionEvent, ◌===◌, next_state, Machine, state_of, current,
  transition,
}

-- States in which the position is held on the exchange.
pub data IsHeld : LifecycleState → Type 0 where
  open_held : IsHeld LifecycleState.position_open
  breakeven_held : IsHeld LifecycleState.breakeven_protected
  partial_held : IsHeld LifecycleState.partial_tp_hit
  trailing_held : IsHeld LifecycleState.trailing

infix 40 ◌⟶◌
pub data ◌⟶◌ : LifecycleState → LifecycleState → Type 0 where
  begin : LifecycleState.idle ⟶ LifecycleState.scanning
  again : LifecycleState.position_closed ⟶ LifecycleState.scanning
  detect : LifecycleState.scanning ⟶ LifecycleState.signal_detected
  validate : LifecycleState.signal_detected ⟶ LifecycleState.entry_validated
  place : LifecycleState.entry_validated ⟶ LifecycleState.order_placed
  fill : LifecycleState.order_placed ⟶ LifecycleState.position_open
  protect : LifecycleState.position_open ⟶ LifecycleState.breakeven_protected
  take_profit : LifecycleState.breakeven_protected ⟶ LifecycleState.partial_tp_hit
  trail : LifecycleState.partial_tp_hit ⟶ LifecycleState.trailing
  kill : {s : LifecycleState} → IsHeld s → s ⟶ LifecycleState.time_stop_kill
  close : {s : LifecycleState} → IsHeld s → s ⟶ LifecycleState.position_closed
  close_killed : LifecycleState.time_stop_kill ⟶ LifecycleState.position_closed

ruleset edges = (
  begin, again, detect, validate, place, fill, protect, take_profit, trail, kill, close,
  close_killed,
)

ruleset held = (open_held, breakeven_held, partial_held, trailing_held)

-- What `transition` records of one step from `s`: the flag, the previous state, the new state.
abbrev Records : LifecycleState → Bool → Option LifecycleState → LifecycleState → Type 0
Records s ignored previous t =
    ((ignored ≡ true) × (previous ≡ none) × (t ≡ s))
    ⊎ ((ignored ≡ false) × (previous ≡ some s) × (s ⟶ t))

next_state-Records :
    (s : LifecycleState) (e : EventType)
    → Records s
        (next_state s e).ignored_event
        (if s === (next_state s e).state then none else some s)
        (next_state s e).state
unfolding next_state
next_state-Records s e = grind (arith, edges, held)

-- Whatever the event, a transition either moves the pair along one edge of the lifecycle diagram,
-- and then records the old state and does not set the ignored flag, or it leaves the state as it
-- was, sets the flag and records no previous state.
pub transition-Lifecycle :
    (m : Machine) (now : ℕ) (pair : String) (e : PositionEvent)
    → let old = state_of (current m pair) in
      let snap = (transition m now pair e).1 in
      ((snap.ignored_event ≡ true) × (snap.previous_state ≡ none) × (snap.state ≡ old))
      ⊎ ((snap.ignored_event ≡ false) × (snap.previous_state ≡ some old) × (old ⟶ snap.state))
unfolding transition current
transition-Lifecycle m now pair e = next_state-Records (state_of (get pair m)) e.type

pub edge_event : {s t : LifecycleState} → s ⟶ t → EventType
edge_event begin = EventType.scan_started
edge_event again = EventType.scan_started
edge_event detect = EventType.signal_detected
edge_event validate = EventType.entry_validated
edge_event place = EventType.order_placed
edge_event fill = EventType.entry_filled
edge_event protect = EventType.breakeven_protected
edge_event take_profit = EventType.partial_tp_hit
edge_event trail = EventType.trailing_started
edge_event (kill h) = EventType.time_stop_kill
edge_event (close h) = EventType.position_closed
edge_event close_killed = EventType.position_closed

edge_taken :
    {s t : LifecycleState} (d : s ⟶ t)
    → ((next_state s (edge_event d)).state ≡ t)
      × ((next_state s (edge_event d)).ignored_event ≡ false)
unfolding next_state edge_event
edge_taken begin = (refl, refl)
edge_taken (kill open_held) = (refl, refl)
edge_taken (kill breakeven_held) = (refl, refl)
edge_taken (kill partial_held) = (refl, refl)
edge_taken (kill trailing_held) = (refl, refl)
edge_taken (close open_held) = (refl, refl)
edge_taken (close breakeven_held) = (refl, refl)
edge_taken (close partial_held) = (refl, refl)
edge_taken (close trailing_held) = (refl, refl)
edge_taken _ = (refl, refl)

-- Every edge of the diagram that leaves a pair's state is taken by the event that names it: the new
-- snapshot, which is also the one stored, has the edge's target and is not flagged as ignored.
pub transition-edge :
    (m : Machine) (now : ℕ) (pair reason : String) {t : LifecycleState}
    (d : state_of (current m pair) ⟶ t)
    → let (m', snap) = transition m now pair (record { type = edge_event d; reason = reason }) in
      (snap.state ≡ t) × (snap.ignored_event ≡ false) × (current m' pair ≡ some snap)
unfolding transition current
transition-edge m now pair reason d = ((edge_taken d).0, (edge_taken d).1, get-set_self pair _ m)
