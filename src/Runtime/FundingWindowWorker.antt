-- ===== src/Runtime/FundingWindowWorker.antt =====
-- src/runtime/workers/funding-window-worker.ts. Times are whole milliseconds since the epoch, in which each UTC
-- day has 86,400,000; a window text is trimmed already. The timer is left out. A tick up to
-- its callback and the end of the callback are two steps, between which another tick may begin.
mod Laws
mod Tests
use Prim.Native.Char.{code}
use coindcx_bot.Prelude.{
  ℕ, ◌+◌, ◌-◌, ◌*◌, ◌/◌, String, Bool, true, false, not, ◌&&◌, ◌||◌, Option, none, some, List, [],
  ◌∷◌, if◌then◌else◌, ltb, leb, ◌==◌, nat_key,
}

abbrev pub day_ms : ℕ
day_ms = 86_400_000

abbrev digit : ℕ → Option ℕ
digit c = if leb 48 c && leb c 57 then some (c - 48) else none

abbrev codes : String → List ℕ
codes String.[] = []
codes (String.◌∷◌ c s) = code c ∷ codes s

abbrev two_digits : Option ℕ → Option ℕ → Option ℕ
two_digits (some a) (some b) = some (a * 10 + b)
two_digits _ _ = none

abbrev in_day : Option ℕ → Option ℕ → Option ℕ
in_day (some hours) (some minutes) =
    if ltb 23 hours || ltb 59 minutes then none else some (hours * 60 + minutes)
in_day _ _ = none

-- `/^(\d{1,2}):(\d{2})$/`, with 58 for the colon
abbrev window_of_codes : List ℕ → Option ℕ
window_of_codes (h ∷ c ∷ m ∷ n ∷ []) =
    if c == 58 then in_day (digit h) (two_digits (digit m) (digit n)) else none
window_of_codes (g ∷ h ∷ c ∷ m ∷ n ∷ []) =
    if c == 58
    then in_day (two_digits (digit g) (digit h)) (two_digits (digit m) (digit n))
    else none
window_of_codes _ = none

-- `none` where the code throws.
unfoldable pub parse_utc_window_to_minutes : String → Option ℕ
parse_utc_window_to_minutes window = window_of_codes (codes window)

unfoldable pub to_window_timestamp : (base_ms minute_of_day day_offset : ℕ) → ℕ
to_window_timestamp base_ms minute_of_day day_offset =
    (base_ms / day_ms + day_offset) * day_ms + minute_of_day * 60_000

abbrev is_nearer : ℕ → Option ℕ → Bool
is_nearer candidate none = true
is_nearer candidate (some nearest) = ltb candidate nearest

unfoldable pub nearer : (now_ms candidate : ℕ) → Option ℕ → Option ℕ
nearer now_ms candidate nearest =
    if leb now_ms candidate && is_nearer candidate nearest then some candidate else nearest

unfoldable pub nearest_of_day : (now_ms day_offset : ℕ) → (windows : List ℕ) → Option ℕ → Option ℕ
nearest_of_day now_ms day_offset [] nearest = nearest
nearest_of_day now_ms day_offset (m ∷ windows) nearest =
    nearest_of_day now_ms day_offset windows
      (nearer now_ms (to_window_timestamp now_ms m day_offset) nearest)

-- `none` where the code throws.
unfoldable pub nearest_upcoming_window : (now_ms : ℕ) → (windows : List ℕ) → Option ℕ
nearest_upcoming_window now_ms windows =
    nearest_of_day now_ms 1 windows (nearest_of_day now_ms 0 windows none)

pub record FundingWindowWorker : Type 0 where
  pub lead_ms : ℕ
  pub windows_minute_of_day : List ℕ
  pub last_triggered : Option ℕ

abbrev same_window : Option ℕ → ℕ → Bool
same_window none window = false
same_window (some last) window = last == window

-- The window that the callback is called with, if it is.
abbrev fire_window : (now_ms : ℕ) → Option ℕ → FundingWindowWorker → FundingWindowWorker × Option ℕ
fire_window now_ms none w = (w, none)
fire_window now_ms (some window) w =
    if ltb (now_ms + w.lead_ms) window || same_window w.last_triggered window
    then (w, none)
    else (record w { last_triggered = some window }, some window)

-- A tick up to its callback.
unfoldable pub begin_tick : (now_ms : ℕ) → FundingWindowWorker → FundingWindowWorker × Option ℕ
begin_tick now_ms w = fire_window now_ms (nearest_upcoming_window now_ms w.windows_minute_of_day) w

-- The end of a callback.
unfoldable pub end_callback : (failed : Bool) → FundingWindowWorker → FundingWindowWorker
end_callback failed w = if failed then record w { last_triggered = none } else w
