-- ===== src/Strategy/Scheduler/IntervalDriver/Laws.antt =====
-- An entry fires and evaluations end, in any order.
use coindcx_bot.Prelude.{
  ℕ, ◌≤◌, String, ◌≡◌, refl, subst, inl, inr, true, List, [], ◌∷◌, ◌++◌, map, string_key,
  Bool-cases, arith, ◌↔◌,
}
use mathlib.Core.List.{append-nil, append_assoc}
use coindcx_bot.Strategy.Scheduler.InFlight.{
  has_pair, count, remove_one, Matches, begin-Matches, end_evaluation-Matches,
}
use coindcx_bot.Strategy.Scheduler.IntervalDriver.{
  Entry, IntervalEvaluation, new_entry, fire_pairs, fire, end_evaluation,
}

abbrev pub pairs_of : List IntervalEvaluation → List String
pairs_of es = map (λ e. e.pair) es

fire_pairs-Matches :
    (pairs : List String) (e : Entry) (running : List String)
    → Matches e.pending running
    → Matches (fire_pairs pairs e).0.pending (running ++ pairs_of (fire_pairs pairs e).1)
unfolding fire_pairs
fire_pairs-Matches [] e running m = rw (append-nil running) m
fire_pairs-Matches (pair ∷ pairs) e running m = elim (Bool-cases (has_pair pair e.pending)) [
  | inl h ↦ rw h (fire_pairs-Matches pairs e running m)
  | inr h ↦
      let next : Entry = record e { pending = e.pending ++ pair ∷ [] } in
      rw h (
        subst (λ x. Matches (fire_pairs pairs next).0.pending x)
          (append_assoc running (pair ∷ []) (pairs_of (fire_pairs pairs next).1))
          (fire_pairs-Matches pairs next (running ++ pair ∷ [])
            (begin-Matches pair e.pending running h m)))
]

-- An entry, and the pairs of its evaluations that are running.
abbrev pub World : Type 0
World = Entry × List String

-- The timer fires, or an evaluation that is running ends.
pub data Step : World → World → Type 0 where
  fired :
      (e : Entry) (running : List String)
      → Step (e, running) ((fire e).0, running ++ pairs_of (fire e).1)
  ended :
      (p : String) (e : Entry) (running : List String)
      → 1 ≤ count p running
      → Step (e, running) (end_evaluation p e, remove_one p running)

pub data Reachable : World → Type 0 where
  started :
      (id : String) (pairs : List String) (interval_ms : ℕ)
      → Reachable (new_entry id pairs interval_ms, [])
  stepped : {v w : World} → Reachable v → Step v w → Reachable w

Step-Matches : (v w : World) → Step v w → Matches v.0.pending v.1 → Matches w.0.pending w.1
unfolding fire end_evaluation
Step-Matches v w (fired e running) m = fire_pairs-Matches e.pairs e running m
Step-Matches v w (ended p e running h) m = end_evaluation-Matches p e.pending running m

Reachable-Matches : (w : World) → Reachable w → Matches w.0.pending w.1
Reachable-Matches w (started id pairs interval_ms) = λ p. refl
Reachable-Matches w (stepped {v} r s) = Step-Matches v w s (Reachable-Matches v r)

-- However the firings of an entry's timer and the ends of its evaluations interleave, at most one
-- evaluation of each pair is running, and the pending set holds the pairs that run.
pub single_flight :
    (w : World) (p : String)
    → Reachable w
    → (count p w.1 ≤ 1) × ((has_pair p w.0.pending ≡ true) ↔ (count p w.1 ≡ 1))
single_flight w p r = ground (arith, Reachable-Matches w r p)
