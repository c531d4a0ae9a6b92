-- ===== src/Strategy/Scheduler/TickDriver/Laws.antt =====
-- Messages arrive at an entry and evaluations end, in any order.
use coindcx_bot.Prelude.{
  ℕ, ◌+◌, ◌≤◌, String, ◌≡◌, refl, ap, inl, inr, Bool, false, not, ◌&&◌, ◌||◌, Option, none, some,
  List, [], ◌∷◌, ◌++◌, map, ◌==◌, string_key, if◌then◌else◌, Bool-cases, arith,
}
use mathlib.Core.List.{append-nil}
use coindcx_bot.Prelude.Dict.{get-set}
use coindcx_bot.Strategy.Types.{TickChannel}
use coindcx_bot.Strategy.Scheduler.InFlight.{
  count-snoc, Evaluation, has_pair, count, remove_one, Matches, begin-Matches,
  end_evaluation-Matches, Matches-single,
}
use coindcx_bot.Strategy.Scheduler.TickDriver.{
  Entry, new_entry, drops_of, dispatch_pair, dispatch_to, dispatch, end_evaluation,
}

pub data Event {ℓ} (M : Type ℓ) : Type ℓ where
  message : TickChannel → M → Event M
  ended : (pair : String) → Event M

-- An entry with its running evaluations and the pairs of all that it has started.
pub record World : Type 0 where
  pub entry : Entry
  pub running : List String
  pub log : List String

abbrev pub new_world : Entry → World
new_world e = record { entry = e; running = []; log = [] }

-- What the messages of a pair come to: each is evaluated or counted.
abbrev pub accepts : String → Option String → List String → Bool
accepts p none pairs = false
accepts p (some pair) pairs = pair == p && not (pair == "" || not (has_pair pair pairs))

module _ {ℓ} {M : Type ℓ} (extract_pair : M → Option String) where
  abbrev after : Entry × List (Evaluation M) → World → World
  after r w =
      let pairs = map (λ e. e.pair) r.1 in
      record { entry = r.0; running = w.running ++ pairs; log = w.log ++ pairs }

  unfoldable pub event : Event M → World → World
  event (message ch raw) w = after (dispatch extract_pair ch raw w.entry) w
  event (ended p) w = record w {
    entry = end_evaluation p w.entry;
    running = remove_one p w.running;
  }

  unfoldable pub run : List (Event M) → World → World
  run [] w = w
  run (v ∷ vs) w = run vs (event v w)

  -- How many of the messages are of the pair, which the entry must list.
  abbrev pub received : String → List String → List (Event M) → ℕ
  received p pairs [] = 0
  received p pairs (message ch raw ∷ vs) =
      (if accepts p (extract_pair raw) pairs then 1 else 0) + received p pairs vs
  received p pairs (ended q ∷ vs) = received p pairs vs

  message_counted :
      (p : String) (ch : TickChannel) (raw : M) (o : Option String) (w : World)
      → count p (after (dispatch_to ch raw o w.entry) w).log
          + drops_of p (after (dispatch_to ch raw o w.entry) w).entry
        ≡ (if accepts p o w.entry.pairs then 1 else 0) + (count p w.log + drops_of p w.entry)
  unfolding dispatch_pair
  message_counted p ch raw none w = rw (append-nil w.log) (omega arith)
  message_counted p ch raw (some pair) w =
      elim (Bool-cases (pair == "" || not (has_pair pair w.entry.pairs))) [
        | inl e ↦ rw (e, append-nil w.log) (ground arith)
        | inr e ↦ elim (Bool-cases (has_pair pair w.entry.pending)) [
          | inl h ↦
              rw (e, h, append-nil w.log, get-set pair p (drops_of pair w.entry + 1) w.entry.drops)
                (ground (arith, string_key.same_iff pair p))
          | inr h ↦ rw (e, h, count-snoc p pair w.log) (ground arith)
        ]
      ]

  -- The pairs and the drops of an entry, which an end leaves alone.
  event_pairs : (v : Event M) (w : World) → (event v w).entry.pairs ≡ w.entry.pairs
  unfolding event dispatch dispatch_pair end_evaluation
  event_pairs (message ch raw) w = go (extract_pair raw)
    where
      go : (o : Option String) → (dispatch_to ch raw o w.entry).0.pairs ≡ w.entry.pairs
      go none = refl
      go (some pair) = ground arith
  event_pairs (ended q) w = refl

  -- Every message is accounted for: over any messages and ends, the evaluations of a pair that are started
  -- and the drops that are counted for it together grow by the messages of the pair, if the entry
  -- lists it.
  pub conservation :
      (p : String) (vs : List (Event M)) (w : World)
      → count p (run vs w).log + drops_of p (run vs w).entry
        ≡ received p w.entry.pairs vs + (count p w.log + drops_of p w.entry)
  unfolding run event dispatch end_evaluation
  conservation p [] w = omega arith
  conservation p (message ch raw ∷ vs) w =
      let v : Event M = message ch raw in
      omega (
        arith,
        conservation p vs (event v w),
        message_counted p ch raw (extract_pair raw) w,
        ap (λ x. received p x vs) (event_pairs v w),
      )
  conservation p (ended q ∷ vs) w = omega (arith, conservation p vs (event (ended q) w))

  dispatch-Matches :
      (ch : TickChannel) (raw : M) (o : Option String) (w : World)
      → Matches w.entry.pending w.running
      → Matches
          (after (dispatch_to ch raw o w.entry) w).entry.pending
          (after (dispatch_to ch raw o w.entry) w).running
  unfolding dispatch_pair
  dispatch-Matches ch raw none w m = rw (append-nil w.running) m
  dispatch-Matches ch raw (some pair) w m =
      elim (Bool-cases (pair == "" || not (has_pair pair w.entry.pairs))) [
        | inl e ↦ rw (e, append-nil w.running) m
        | inr e ↦ elim (Bool-cases (has_pair pair w.entry.pending)) [
          | inl h ↦ rw (e, h, append-nil w.running) m
          | inr h ↦ rw (e, h) (begin-Matches pair w.entry.pending w.running h m)
        ]
      ]

  run-Matches :
      (vs : List (Event M)) (w : World)
      → Matches w.entry.pending w.running
      → Matches (run vs w).entry.pending (run vs w).running
  unfolding run event dispatch end_evaluation
  run-Matches [] w m = m
  run-Matches (message ch raw ∷ vs) w m =
      run-Matches vs _ (dispatch-Matches ch raw (extract_pair raw) w m)
  run-Matches (ended q ∷ vs) w m =
      run-Matches vs _ (end_evaluation-Matches q w.entry.pending w.running m)

  -- Over any messages and ends, no pair of a new entry ever has two evaluations running.
  pub one_running :
      (id : String) (pairs : List String) (channels : List TickChannel) (vs : List (Event M))
      (p : String)
      → count p (run vs (new_world (new_entry id pairs channels))).running ≤ 1
  one_running id pairs channels vs p =
      Matches-single _ _ (run-Matches vs (new_world (new_entry id pairs channels)) (λ q. refl)) p
