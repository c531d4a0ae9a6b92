-- ===== src/Strategy/Scheduler/BarDriver/Tests.antt =====
-- Trades around the quarter hours.
use coindcx_bot.Prelude.{ℕ, ◌+◌, ◌≤◌, ◌≡◌, refl, some, none, false, List, [], ◌∷◌, length}
use coindcx_bot.Prelude.Dict.{get, set}
use coindcx_bot.Strategy.Scheduler.BarDriver.{
  Entry, BarDriver, tf_ms, add, trade_tf, trade_tfs, trade_at,
}
use coindcx_bot.Strategy.Scheduler.BarDriver.Laws.{bucket_of, run, one_close_per_bar}

bar_code : Unit {0}
unfolding get set tf_ms add trade_tf trade_tfs trade_at run
bar_code = tt

fifteen : tf_ms "15m" ≡ some 900_000
unfolding bar_code
fifteen = refl

four_hours : tf_ms "4h" ≡ some 14_400_000
unfolding bar_code
four_hours = refl

a_day : tf_ms "1d" ≡ none
unfolding bar_code
a_day = refl

abbrev driver : BarDriver
driver = add "b" ("BTC" ∷ []) ("1d" ∷ []) (add "a" ("BTC" ∷ []) ("15m" ∷ []) [])

throws : (trade_at "BTC" 5 driver).2 ≡ false
unfolding bar_code
throws = refl

abbrev entry : Entry
entry = record {
  id = "s";
  pairs = "BTC" ∷ [];
  timeframes = "15m" ∷ [];
  last_bucket = ("BTC|15m", 1) ∷ [];
}

abbrev times : List ℕ
times = 950_000 ∷ 1_800_000 ∷ 1_900_000 ∷ 900_000 ∷ 5_400_000 ∷ []

closes : length (run "BTC" times entry).1 ≡ 2
unfolding bar_code
closes = refl

one_close_per_bar_example :
    (b : ℕ) × (bucket_of "BTC" "15m" (run "BTC" times entry).0 ≡ some b)
    × (length (run "BTC" times entry).1 + 1 ≤ b)
unfolding bar_code
one_close_per_bar_example = one_close_per_bar "BTC" "15m" 900_000 1 times entry refl refl refl
