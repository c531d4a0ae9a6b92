-- ===== src/Marketdata/TimeSync/Laws.antt =====
-- When a skew is critical.
use coindcx_bot.Prelude.{ℕ, ◌<◌, ◌≡◌, ◌↔◌, Bool, true, false, Option, none, some, arith}
use coindcx_bot.Marketdata.TimeSync.{SkewSeverity, warn, critical, SkewEvent, offset, check_once}

abbrev is_critical : SkewSeverity → Bool
is_critical critical = true
is_critical warn = false

abbrev pub raises_critical : Option SkewEvent → Bool
raises_critical none = false
raises_critical (some e) = is_critical e.severity

-- The host is off by more than the threshold from a clock, or the clock did not answer.
abbrev pub IsOff : ℕ → ℕ → Option ℕ → Type 0
IsOff threshold_ms local none = Unit
IsOff threshold_ms local (some t) = threshold_ms < offset local t

-- When the exchange answers, a critical skew is reported exactly if the host is off from it by
-- more than the threshold and, if NTP answers too, off from NTP by more than the threshold as
-- well.
pub check_once-IsOff :
    (threshold_ms local ex : ℕ) (ntp : Option ℕ)
    → (raises_critical (check_once threshold_ms local (some ex) ntp) ≡ true)
      ↔ (IsOff threshold_ms local (some ex) × IsOff threshold_ms local ntp)
unfolding check_once
check_once-IsOff threshold_ms local ex none = ground arith
check_once-IsOff threshold_ms local ex (some t) = ground arith
