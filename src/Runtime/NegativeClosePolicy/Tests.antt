-- ===== src/Runtime/NegativeClosePolicy/Tests.antt =====
-- A losing position with a time stop of a minute, over whole numbers.
use coindcx_bot.Prelude.{ℕ, ◌≡◌, refl, true, false, some}
use coindcx_bot.Prelude.Int.{pos, sub_ℕ}
use coindcx_bot.Prelude.Num.{Whole, whole_num}
use coindcx_bot.Runtime.NegativeClosePolicy.{
  NegativeCloseContext, time_stop_not_reached, time_stop_kill, decided, parse_ts_ms, time_stop,
  should_allow_negative_close,
}
use coindcx_bot.Runtime.NegativeClosePolicy.Laws.{
  IsTimedOut, should_allow_negative_close-IsTimedOut,
}

close_code : Unit {0}
unfolding parse_ts_ms time_stop should_allow_negative_close
close_code = tt

abbrev whole : ℕ → Whole
whole n = some (pos n)

abbrev losing : ℕ → NegativeCloseContext Whole
losing now = record {
  unrealized_pnl = some (sub_ℕ 0 5);
  max_confluence_score = whole 60;
  breakeven_armed = false;
  opened_at = some "1000";
  now_ms = whole now;
  time_stop_ms = whole 60_000;
  high_confluence_threshold = whole 85;
}

killed :
    should_allow_negative_close whole_num whole_num.number (losing 61_000)
    ≡ decided true time_stop_kill
unfolding close_code
killed = refl

kept :
    should_allow_negative_close whole_num whole_num.number (losing 60_999)
    ≡ decided false time_stop_not_reached
unfolding close_code
kept = refl

should_allow_negative_close-IsTimedOut_example :
    IsTimedOut whole_num whole_num.number (losing 61_000)
unfolding close_code
should_allow_negative_close-IsTimedOut_example =
    should_allow_negative_close-IsTimedOut whole_num whole_num.number (losing 61_000) refl refl
