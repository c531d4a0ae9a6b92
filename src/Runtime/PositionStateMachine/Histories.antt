-- ===== src/Runtime/PositionStateMachine/Histories.antt =====
-- Whole histories of events: each pair is a machine of its own, and a position is opened only after
-- the entry steps in their order.
use coindcx_bot.Prelude.{
  ℕ, String, ◌≡◌, refl, ◌∙◌, ◌⊎◌, inl, inr, List, [], ◌∷◌, arith, ◌==◌, string_key, if◌then◌else◌,
  filter,
}
use coindcx_bot.Prelude.Dict.{get, get-set}
use coindcx_bot.Runtime.PositionStateMachine.{
  LifecycleState, EventType, PositionEvent, next_state, Machine, state_of, current, transition,
}

-- A call of `transition`: when, for which pair, with what event.
pub record Call : Type 0 where
  pub now : ℕ
  pub pair : String
  pub event : PositionEvent

unfoldable pub run : Machine → List Call → Machine
run m [] = m
run m (c ∷ cs) = run (transition m c.now c.pair c.event).0 cs

-- The states alone, for one pair.
unfoldable pub fold_events : LifecycleState → List Call → LifecycleState
fold_events s [] = s
fold_events s (c ∷ cs) = fold_events (next_state s c.event.type).state cs

state_of-transition :
    (m : Machine) (c : Call) (p : String)
    → state_of (current (transition m c.now c.pair c.event).0 p) ≡ (
        if c.pair == p
        then (next_state (state_of (current m p)) c.event.type).state
        else state_of (current m p))
unfolding transition current
state_of-transition m c p =
    ground (
      arith,
      get-set c.pair p (transition m c.now c.pair c.event).1 m,
      string_key.same_iff c.pair p,
    )

-- After any interleaving of calls the state of a pair is the one that its own events, in their
-- order, lead to from the state it had: calls for other pairs do not matter.
pub run-fold_events :
    (m : Machine) (cs : List Call) (p : String)
    → state_of (current (run m cs) p)
      ≡ fold_events (state_of (current m p)) (filter (λ c. c.pair == p) cs)
unfolding run fold_events
run-fold_events m [] p = refl
run-fold_events m (c ∷ cs) p =
    ground
      (arith, run-fold_events (transition m c.now c.pair c.event).0 cs p, state_of-transition m c p)

-- The state that a fresh pair is in after a history, newest event first.
unfoldable pub state_after : List EventType → LifecycleState
state_after [] = LifecycleState.idle
state_after (e ∷ h) = (next_state (state_after h) e).state

-- `Subsequence ks h`: the history `h` has the events `ks` among its own, in this order.
abbrev pub Subsequence : List EventType → List EventType → Type 0
Subsequence [] h = Unit
Subsequence (k ∷ ks) [] = ⊥
Subsequence (k ∷ ks) (e ∷ h) = ((e ≡ k) × Subsequence ks h) ⊎ Subsequence (k ∷ ks) h

Subsequence-skip :
    (e : EventType) (ks h : List EventType) → Subsequence ks h → Subsequence ks (e ∷ h)
Subsequence-skip e [] h s = tt
Subsequence-skip e (k ∷ ks) h s = inr s

Subsequence-tail :
    (k : EventType) (ks h : List EventType) → Subsequence (k ∷ ks) h → Subsequence ks h
Subsequence-tail k ks [] s = absurd s
Subsequence-tail k ks (e ∷ h) (inl (p, s)) = Subsequence-skip e ks h s
Subsequence-tail k ks (e ∷ h) (inr s) = Subsequence-skip e ks h (Subsequence-tail k ks h s)

abbrev pub scanned : List EventType
scanned = EventType.scan_started ∷ []

abbrev pub detected : List EventType
detected = EventType.signal_detected ∷ scanned

abbrev pub validated : List EventType
validated = EventType.entry_validated ∷ detected

abbrev pub placed : List EventType
placed = EventType.order_placed ∷ validated

-- The entry sequence, newest first: filled, placed, validated, detected, scanned.
abbrev pub opened : List EventType
opened = EventType.entry_filled ∷ placed

-- What a history must hold for the pair to be in a state.
abbrev pub required : LifecycleState → List EventType
required LifecycleState.idle = []
required LifecycleState.scanning = scanned
required LifecycleState.signal_detected = detected
required LifecycleState.entry_validated = validated
required LifecycleState.order_placed = placed
required LifecycleState.position_open = opened
required LifecycleState.breakeven_protected = EventType.breakeven_protected ∷ opened
required LifecycleState.partial_tp_hit =
    EventType.partial_tp_hit ∷ EventType.breakeven_protected ∷ opened
required LifecycleState.trailing =
    EventType.trailing_started ∷ EventType.partial_tp_hit ∷ EventType.breakeven_protected ∷ opened
required LifecycleState.time_stop_kill = EventType.time_stop_kill ∷ opened
required LifecycleState.position_closed = EventType.position_closed ∷ opened

opened_of_partial :
    (h : List EventType)
    → Subsequence (required LifecycleState.partial_tp_hit) h
    → Subsequence opened h
opened_of_partial h r =
    Subsequence-tail EventType.breakeven_protected opened h
      (Subsequence-tail EventType.partial_tp_hit (EventType.breakeven_protected ∷ opened) h r)

opened_of_trailing :
    (h : List EventType) → Subsequence (required LifecycleState.trailing) h → Subsequence opened h
opened_of_trailing h r =
    opened_of_partial h
      (Subsequence-tail EventType.trailing_started (required LifecycleState.partial_tp_hit) h r)

required-next_state :
    (s : LifecycleState) (e : EventType) (h : List EventType)
    → Subsequence (required s) h
    → Subsequence (required (next_state s e).state) (e ∷ h)
unfolding next_state
required-next_state LifecycleState.idle EventType.scan_started h r = inl (refl, tt)
required-next_state LifecycleState.position_closed EventType.scan_started h r = inl (refl, tt)
required-next_state LifecycleState.scanning EventType.signal_detected h r = inl (refl, r)
required-next_state LifecycleState.signal_detected EventType.entry_validated h r = inl (refl, r)
required-next_state LifecycleState.entry_validated EventType.order_placed h r = inl (refl, r)
required-next_state LifecycleState.order_placed EventType.entry_filled h r = inl (refl, r)
required-next_state LifecycleState.position_open EventType.breakeven_protected h r = inl (refl, r)
required-next_state LifecycleState.breakeven_protected EventType.partial_tp_hit h r = inl (refl, r)
required-next_state LifecycleState.partial_tp_hit EventType.trailing_started h r = inl (refl, r)
required-next_state LifecycleState.position_open EventType.time_stop_kill h r = inl (refl, r)
required-next_state LifecycleState.breakeven_protected EventType.time_stop_kill h r =
    inl (refl, Subsequence-tail EventType.breakeven_protected opened h r)
required-next_state LifecycleState.partial_tp_hit EventType.time_stop_kill h r =
    inl (refl, opened_of_partial h r)
required-next_state LifecycleState.trailing EventType.time_stop_kill h r =
    inl (refl, opened_of_trailing h r)
required-next_state LifecycleState.position_open EventType.position_closed h r = inl (refl, r)
required-next_state LifecycleState.breakeven_protected EventType.position_closed h r =
    inl (refl, Subsequence-tail EventType.breakeven_protected opened h r)
required-next_state LifecycleState.partial_tp_hit EventType.position_closed h r =
    inl (refl, opened_of_partial h r)
required-next_state LifecycleState.trailing EventType.position_closed h r =
    inl (refl, opened_of_trailing h r)
required-next_state LifecycleState.time_stop_kill EventType.position_closed h r =
    inl (refl, Subsequence-tail EventType.time_stop_kill opened h r)
required-next_state s e h r = Subsequence-skip e (required s) h r

state_after-required : (h : List EventType) → Subsequence (required (state_after h)) h
unfolding state_after
state_after-required [] = tt
state_after-required (e ∷ h) = required-next_state (state_after h) e h (state_after-required h)

-- The event types of some calls, put in front of a history one after the other.
abbrev pub push_types : List EventType → List Call → List EventType
push_types h [] = h
push_types h (c ∷ cs) = push_types (c.event.type ∷ h) cs

fold_events-state_after :
    (h : List EventType) (cs : List Call)
    → fold_events (state_after h) cs ≡ state_after (push_types h cs)
unfolding fold_events state_after
fold_events-state_after h [] = refl
fold_events-state_after h (c ∷ cs) = fold_events-state_after (c.event.type ∷ h) cs

-- In a machine that starts empty, after any interleaving of calls, the pair's own events (newest
-- first) hold those that its state requires, in their order: an open position was scanned,
-- signalled, validated, placed and filled, each later stage adds its own event after these, and a
-- killed or closed one was opened before.
pub run-required :
    (cs : List Call) (p : String)
    → Subsequence
        (required (state_of (current (run [] cs) p)))
        (push_types [] (filter (λ c. c.pair == p) cs))
unfolding current get state_after
run-required cs p =
    let own = filter (λ (c : Call). c.pair == p) cs in
    rw (run-fold_events [] cs p ∙ fold_events-state_after [] own)
      (state_after-required (push_types [] own))
