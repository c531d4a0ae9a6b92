-- ===== src/Marketdata/Book/Resync/Laws.antt =====
-- Requests and ends of resyncs, in any order.
use coindcx_bot.Prelude.{
  ℕ, ◌+◌, ◌≤◌, String, ◌≡◌, refl, subst, leb→le, inl, inr, true, List, [], ◌∷◌, ◌++◌, if◌then◌else◌,
  leb, ◌==◌, string_key, Bool-cases, arith,
}
use coindcx_bot.Prelude.Num.{Num}
use coindcx_bot.Strategy.Scheduler.InFlight.{
  has_pair, count, count-snoc, count-remove_one, remove_one, Matches, begin-Matches,
  end_evaluation-Matches, Matches-single,
}
use coindcx_bot.Marketdata.Book.BookManager.{
  BookManager, DepthFrame, on_depth_snapshot, on_depth_delta,
}
use coindcx_bot.Marketdata.Book.Resync.{
  ResyncEnd, ws_frame, rest_frame, budget_exhausted, thrown, ResyncEvent, resynced, failed,
  ResyncOrchestrator, resync_event, begin_resync, end_resync,
}

pub data Event : Type 0 where
  requested : (pair : String) → Event
  ended : (pair reason : String) → ResyncEnd → Event
  snapshot_frame delta_frame : (pair : String) → DepthFrame → Event

-- The orchestrator with the pairs of the resyncs that run, of all that were begun, and the events emitted.
pub record World : Type 0 where
  pub orchestrator : ResyncOrchestrator
  pub running : List String
  pub begun : List String
  pub emitted : List ResyncEvent

abbrev pub start : BookManager → World
start m = record {
  orchestrator = record { manager = m; in_flight = [] };
  running = [];
  begun = [];
  emitted = [];
}

abbrev pair_of : ResyncEvent → String
pair_of (resynced pair reason via_rest) = pair
pair_of (failed pair reason error) = pair

abbrev pub reports : String → List ResyncEvent → ℕ
reports p [] = 0
reports p (e ∷ es) = (if pair_of e == p then 1 else 0) + reports p es

reports-resync_event :
    (p pair reason : String) (e : ResyncEnd) (es : List ResyncEvent)
    → reports p (resync_event pair reason e ∷ es) ≡ (if pair == p then 1 else 0) + reports p es
reports-resync_event p pair reason ws_frame es = refl
reports-resync_event p pair reason (rest_frame frame) es = refl
reports-resync_event p pair reason budget_exhausted es = refl
reports-resync_event p pair reason (thrown message) es = refl

runs :
    (p pair : String) (running : List String)
    → leb 1 (count pair running) ≡ true
    → (if pair == p then 1 else 0) ≤ count p running
runs p pair running h = elim (Bool-cases (pair == p)) [
  | inl e ↦
      rw e (subst (λ x. 1 ≤ count x running) ((string_key.same_iff pair p).0 e) (leb→le _ _ h))
  | inr e ↦ rw e (omega arith)
]

module _ {ℓ} {W : Type ℓ} (num : Num W) where
  abbrev begun_with : String → World → World
  begun_with pair w =
      let r = begin_resync pair w.orchestrator in
      if r.1
      then record w {
        orchestrator = r.0;
        running = w.running ++ pair ∷ [];
        begun = w.begun ++ pair ∷ [];
      }
      else w

  abbrev ended_with : (pair reason : String) → ResyncEnd → World → World
  ended_with pair reason e w =
      let r = end_resync num pair reason e w.orchestrator in
      if leb 1 (count pair w.running)
      then record w {
        orchestrator = r.0;
        running = remove_one pair w.running;
        emitted = r.1 ∷ w.emitted;
      }
      else w

  abbrev with_manager : World → BookManager → World
  with_manager w m = record w { orchestrator = record w.orchestrator { manager = m } }

  unfoldable pub event : Event → World → World
  event (requested pair) w = begun_with pair w
  event (ended pair reason e) w = ended_with pair reason e w
  event (snapshot_frame pair frame) w =
      with_manager w (on_depth_snapshot num w.orchestrator.manager pair frame).0
  event (delta_frame pair frame) w =
      with_manager w (on_depth_delta num w.orchestrator.manager pair frame).0

  unfoldable pub run : List Event → World → World
  run [] w = w
  run (v ∷ vs) w = run vs (event v w)

  -- The resyncs that were begun are those that run and those that were reported.
  abbrev IsAccounted : World → Type 0
  IsAccounted w =
      Matches w.orchestrator.in_flight w.running
      × ((p : String) → count p w.begun ≡ count p w.running + reports p w.emitted)

  begun-IsAccounted : (pair : String) (w : World) → IsAccounted w → IsAccounted (begun_with pair w)
  unfolding begin_resync
  begun-IsAccounted pair w (m, a) = elim (Bool-cases (has_pair pair w.orchestrator.in_flight)) [
    | inl h ↦ rw h (m, a)
    | inr h ↦ rw h (
      begin-Matches pair w.orchestrator.in_flight w.running h m,
      λ p. omega (arith, a p, count-snoc p pair w.running, count-snoc p pair w.begun),
    )
  ]

  ended-IsAccounted :
      (pair reason : String) (e : ResyncEnd) (w : World)
      → IsAccounted w
      → IsAccounted (ended_with pair reason e w)
  unfolding end_resync
  ended-IsAccounted pair reason e w (m, a) = elim (Bool-cases (leb 1 (count pair w.running))) [
    | inl h ↦ rw h (
      end_evaluation-Matches pair w.orchestrator.in_flight w.running m,
      λ p. omega (
        arith,
        a p,
        count-remove_one p pair w.running,
        reports-resync_event p pair reason e w.emitted,
        runs p pair w.running h,
      ),
    )
    | inr h ↦ rw h (m, a)
  ]

  run-IsAccounted : (vs : List Event) (w : World) → IsAccounted w → IsAccounted (run vs w)
  unfolding run event
  run-IsAccounted [] w a = a
  run-IsAccounted (requested pair ∷ vs) w a = run-IsAccounted vs _ (begun-IsAccounted pair w a)
  run-IsAccounted (ended pair reason e ∷ vs) w a =
      run-IsAccounted vs _ (ended-IsAccounted pair reason e w a)
  run-IsAccounted (snapshot_frame pair frame ∷ vs) w a = run-IsAccounted vs _ a
  run-IsAccounted (delta_frame pair frame ∷ vs) w a = run-IsAccounted vs _ a

  -- However requests, ends and frames interleave, no pair has two resyncs running, and the resyncs of a
  -- pair that were begun are the one that runs, if any, and those that were reported, by one event
  -- each, a failure or an exhausted budget included.
  pub resyncs_accounted :
      (vs : List Event) (m : BookManager) (p : String)
      → (count p (run vs (start m)).running ≤ 1)
        × (count p (run vs (start m)).begun
            ≡ count p (run vs (start m)).running + reports p (run vs (start m)).emitted)
  resyncs_accounted vs m p =
      let a = run-IsAccounted vs (start m) ((λ q. refl), (λ q. refl)) in
      (Matches-single _ _ a.0 p, a.1 p)
