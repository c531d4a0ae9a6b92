-- ===== src/Marketdata/TimeSync/Tests.antt =====
-- A host that is two seconds from the exchange.
use coindcx_bot.Prelude.{◌≡◌, ◌↔◌, refl, true, none, some}
use coindcx_bot.Marketdata.TimeSync.{check_once}
use coindcx_bot.Marketdata.TimeSync.Laws.{raises_critical, IsOff, check_once-IsOff}

sync_code : Unit {0}
unfolding check_once
sync_code = tt

near_ntp : check_once 500 10_000 (some 8_000) (some 10_001) ≡ none
unfolding sync_code
near_ntp = refl

alone : raises_critical (check_once 500 10_000 (some 8_000) none) ≡ true
unfolding sync_code
alone = refl

check_once-IsOff_example :
    (raises_critical (check_once 500 10_000 (some 8_000) (some 10_001)) ≡ true)
    ↔ (IsOff 500 10_000 (some 8_000) × IsOff 500 10_000 (some 10_001))
check_once-IsOff_example = check_once-IsOff 500 10_000 8_000 (some 10_001)
