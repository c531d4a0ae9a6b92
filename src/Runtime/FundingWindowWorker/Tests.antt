-- ===== src/Runtime/FundingWindowWorker/Tests.antt =====
-- The three funding windows of a day.
use coindcx_bot.Prelude.{ℕ, ◌+◌, ◌≤◌, ◌≡◌, refl, false, true, none, some, List, [], ◌∷◌}
use coindcx_bot.Runtime.FundingWindowWorker.{
  FundingWindowWorker, parse_utc_window_to_minutes, to_window_timestamp, nearer, nearest_of_day,
  nearest_upcoming_window, begin_tick, end_callback,
}
use coindcx_bot.Runtime.FundingWindowWorker.Laws.{NoneBefore, nearest_upcoming_window_lem}

funding_code : Unit {0}
unfolding parse_utc_window_to_minutes to_window_timestamp nearer nearest_of_day
    nearest_upcoming_window begin_tick end_callback
funding_code = tt

half_past_eight : parse_utc_window_to_minutes "8:30" ≡ some 510
unfolding funding_code
half_past_eight = refl

no_such_hour : parse_utc_window_to_minutes "24:00" ≡ none
unfolding funding_code
no_such_hour = refl

abbrev windows : List ℕ
windows = 0 ∷ 480 ∷ 960 ∷ []

-- 17:00 on the first day.
abbrev evening : ℕ
evening = 61_200_000

next_midnight : nearest_upcoming_window evening windows ≡ some 86_400_000
unfolding funding_code
next_midnight = refl

abbrev worker : FundingWindowWorker
worker = record { lead_ms = 30_000_000; windows_minute_of_day = windows; last_triggered = none }

abbrev waiting : FundingWindowWorker
waiting = (begin_tick evening worker).0

fires : (begin_tick evening worker).1 ≡ some 86_400_000
unfolding funding_code
fires = refl

overlaps : (begin_tick (evening + 5) waiting).1 ≡ none
unfolding funding_code
overlaps = refl

fires_once : (begin_tick (evening + 5) (end_callback false waiting)).1 ≡ none
unfolding funding_code
fires_once = refl

tries_again : (begin_tick (evening + 5) (end_callback true waiting)).1 ≡ some 86_400_000
unfolding funding_code
tries_again = refl

nearest_upcoming_window_lem_example :
    (w : ℕ) × (nearest_upcoming_window evening windows ≡ some w)
    × (evening ≤ w)
    × NoneBefore evening w 0 windows
    × NoneBefore evening w 1 windows
nearest_upcoming_window_lem_example = nearest_upcoming_window_lem evening 0 (480 ∷ 960 ∷ [])
