-- ===== src/Runtime/PositionStateMachine/Tests.antt =====
-- Lives of positions on concrete inputs.
use coindcx_bot.Prelude.{
  ℕ, String, ◌≡◌, refl, ◌⊎◌, true, false, none, some, List, [], ◌∷◌, ◌==◌, string_key, filter,
}
use coindcx_bot.Prelude.Dict.{get, set}
use coindcx_bot.Runtime.PositionStateMachine.{
  LifecycleState, EventType, Machine, state_of, current, transition, next_state,
}
use coindcx_bot.Runtime.PositionStateMachine.Diagram.{◌⟶◌, transition-Lifecycle}
use coindcx_bot.Runtime.PositionStateMachine.Histories.{
  Call, run, opened, push_types, Subsequence, run-required,
}

abbrev call : ℕ → String → EventType → Call
call now pair type = record {
  now = now;
  pair = pair;
  event = record { type = type; reason = "test" };
}

abbrev entry : List Call
entry =
    call 1 "SOL" EventType.scan_started
    ∷ call 2 "BTC" EventType.scan_started
    ∷ call 3 "SOL" EventType.signal_detected
    ∷ call 4 "SOL" EventType.entry_filled
    ∷ call 5 "SOL" EventType.entry_validated
    ∷ call 6 "SOL" EventType.order_placed
    ∷ call 7 "BTC" EventType.signal_detected
    ∷ call 8 "SOL" EventType.entry_filled
    ∷ []

entry_opens : state_of (current (run [] entry) "SOL") ≡ LifecycleState.position_open
unfolding run transition next_state current get set
entry_opens = refl

abbrev scanning : Machine
scanning =
    (
      "SOL",
      record {
        pair = "SOL";
        state = LifecycleState.scanning;
        transition_at = 1;
        reason = "test";
        previous_state = some LifecycleState.idle;
        ignored_event = false;
      },
    )
    ∷ []

transition-Lifecycle_example :
    let snap =
      (transition scanning 9 "SOL"
        (record { type = EventType.entry_filled; reason = "early" })).1 in
    ((snap.ignored_event ≡ true)
      × (snap.previous_state ≡ none)
      × (snap.state ≡ state_of (current scanning "SOL")))
    ⊎ ((snap.ignored_event ≡ false)
        × (snap.previous_state ≡ some (state_of (current scanning "SOL")))
        × (state_of (current scanning "SOL") ⟶ snap.state))
transition-Lifecycle_example =
    transition-Lifecycle scanning 9 "SOL"
      (record { type = EventType.entry_filled; reason = "early" })

run-required_example : Subsequence opened (push_types [] (filter (λ c. c.pair == "SOL") entry))
unfolding run transition next_state current get set
run-required_example = run-required entry "SOL"
