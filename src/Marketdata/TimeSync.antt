-- ===== src/Marketdata/TimeSync.antt =====
-- src/marketdata/health/time-sync.ts. Clock readings are whole milliseconds, `none` for a request that
-- fails; the answer is the event that `onSkew` gets, if any.
mod Laws
mod Tests
use coindcx_bot.Prelude.{
  ℕ, ◌+◌, ◌-◌, String, Bool, true, false, Option, none, some, if◌then◌else◌, ltb,
}
use coindcx_bot.Prelude.Int.{ℤ, sub_ℕ}

pub data SkewSeverity : Type 0 where
  warn critical : SkewSeverity

pub record SkewEvent : Type 0 where
  pub severity : SkewSeverity
  pub local_vs_exchange : Option ℤ
  pub local_vs_ntp : Option ℤ
  pub exchange_vs_ntp : Option ℤ
  pub reason : String

-- `Math.abs(a - b)`
abbrev pub offset : ℕ → ℕ → ℕ
offset a b = (a - b) + (b - a)

abbrev difference : Option ℕ → Option ℕ → Option ℤ
difference (some a) (some b) = some (sub_ℕ a b)
difference _ _ = none

abbrev pub skew_event :
    SkewSeverity → (reason : String) → (local : ℕ) → (exchange ntp : Option ℕ) → SkewEvent
skew_event severity reason local exchange ntp = record {
  severity = severity;
  local_vs_exchange = difference (some local) exchange;
  local_vs_ntp = difference (some local) ntp;
  exchange_vs_ntp = difference exchange ntp;
  reason = reason;
}

-- `Math.min` of the two offsets of the host
abbrev pub worst_local : (local ex ntp : ℕ) → ℕ
worst_local local ex ntp =
    if ltb (offset local ntp) (offset local ex) then offset local ntp else offset local ex

unfoldable pub check_once :
    (threshold_ms : ℕ) → (local : ℕ) → (exchange ntp : Option ℕ) → Option SkewEvent
check_once threshold_ms local none ntp =
    some (skew_event warn "exchange_unavailable" local none ntp)
check_once threshold_ms local (some ex) none =
    if ltb threshold_ms (offset local ex)
    then some (skew_event critical "skew_exceeded" local (some ex) none)
    else some (skew_event warn "ntp_unavailable" local (some ex) none)
check_once threshold_ms local (some ex) (some ntp) =
    if ltb threshold_ms (worst_local local ex ntp)
    then some (skew_event critical "skew_exceeded" local (some ex) (some ntp))
    else none
