-- ===== src/Strategy/Scheduler/BarDriver/Laws.antt =====
-- Buckets of time and the closes of bars.
use coindcx_bot.Prelude.{
  ℕ, ◌+◌, ◌/◌, ◌≤◌, String, ◌≡◌, refl, ap, ◌∙◌, inl, inr, true, Option, some, List, [], ◌∷◌, ◌++◌,
  ltb, string_key, length, length-append, Bool-cases, arith,
}
use mathlib.Core.List.{append-nil}
use coindcx_bot.Prelude.Dict.{get, get-set_self}
use coindcx_bot.Strategy.Scheduler.BarDriver.{
  Entry, BarEvaluation, tf_ms, key_of, trade_tf, trade_read, trade_tfs,
}

-- The last bucket of a pair and a time frame.
abbrev pub bucket_of : (pair tf : String) → Entry → Option ℕ
bucket_of pair tf e = get (key_of pair tf) e.last_bucket

-- The trades of a pair, over the entry's time frames.
unfoldable pub run : (pair : String) → List ℕ → Entry → Entry × List BarEvaluation
run pair [] e = (e, [])
run pair (ts ∷ times) e =
    let first = trade_tfs pair ts e.timeframes e in
    let rest = run pair times first.0 in (rest.0, first.1 ++ rest.1)

-- The bucket is the newest seen, and its first sight starts one evaluation.
trade_tf_lem :
    (pair tf : String) (bucket last : ℕ) (e : Entry)
    → bucket_of pair tf e ≡ some last
    → ((b : ℕ) × (bucket_of pair tf (trade_tf pair tf bucket e).0 ≡ some b)
        × (length (trade_tf pair tf bucket e).1 + last ≤ b)
        × ((trade_tf pair tf bucket e).0.timeframes ≡ e.timeframes))
unfolding trade_tf
trade_tf_lem pair tf bucket last e h = elim (Bool-cases (ltb last bucket)) [
  | inl k ↦
      rw (h, k) (bucket, get-set_self (key_of pair tf) bucket e.last_bucket, ground arith, refl)
  | inr k ↦ rw (h, k) (last, h, omega arith, refl)
]

one_frame :
    (pair tf : String) (ts ms : ℕ) (e : Entry)
    → tf_ms tf ≡ some ms
    → e.timeframes ≡ tf ∷ []
    → trade_tfs pair ts e.timeframes e
      ≡ ((trade_tf pair tf (ts / ms) e).0, (trade_tf pair tf (ts / ms) e).1, true)
unfolding trade_tfs
one_frame pair tf ts ms e m f =
    ap (λ fs. trade_tfs pair ts fs e) f
    ∙ ap (λ o. trade_read pair tf ts o (λ x. (x, [], true)) e) m
    ∙ ap (λ es. ((trade_tf pair tf (ts / ms) e).0, es, true)) (append-nil _)

-- Once a bucket has been seen, an entry whose only time frame can be read announces, over any
-- trades at any times, at most as many closes of bars as its bucket has advanced.
pub one_close_per_bar :
    (pair tf : String) (ms last : ℕ) (times : List ℕ) (e : Entry)
    → tf_ms tf ≡ some ms
    → e.timeframes ≡ tf ∷ []
    → bucket_of pair tf e ≡ some last
    → (b : ℕ) × (bucket_of pair tf (run pair times e).0 ≡ some b)
      × (length (run pair times e).1 + last ≤ b)
unfolding run
one_close_per_bar pair tf ms last [] e m f h = (last, h, omega arith)
one_close_per_bar pair tf ms last (ts ∷ times) e m f h =
    let first = trade_tf pair tf (ts / ms) e in
    let (b, seen, started, frames) = trade_tf_lem pair tf (ts / ms) last e h in
    let (c, newest, later) = one_close_per_bar pair tf ms b times first.0 m (frames ∙ f) seen in
    rw (one_frame pair tf ts ms e m f)
      (c, newest, omega (arith, length-append first.1 (run pair times first.0).1, started, later))
