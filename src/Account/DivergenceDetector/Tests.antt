-- ===== src/Account/DivergenceDetector/Tests.antt =====
-- Two positions that differ in their quantity.
use coindcx_bot.Prelude.{String, ◌≡◌, refl, none, some, List, [], ◌∷◌, map, string_key}
use coindcx_bot.Prelude.Dict.{get, set}
use coindcx_bot.Prelude.Num.{Whole, whole_num}
use coindcx_bot.Prelude.Int.{pos}
use coindcx_bot.Account.Types.{Position, long, ws}
use coindcx_bot.Account.DivergenceDetector.{
  DivergenceConfig, diff_severity, alarm, warn, compare_position, position_field, by_id, classify,
  diff_rest, diff_local, diff_maps, diff_positions, diff_balances, diff_orders,
}
use coindcx_bot.Account.DivergenceDetector.Laws.{view, positions_by_id, diff_positions_silent}

divergence_code : Unit {0}
unfolding get set by_id classify diff_rest diff_local diff_maps diff_positions diff_balances
    diff_orders
divergence_code = tt

abbrev config : DivergenceConfig Whole
config = record { pnl_abs_alarm = some (pos 100); pnl_pct_alarm = some (pos 1) }

abbrev position : String → String → String → Position
position id active_pos pnl = record {
  id = id;
  pair = "BTC";
  side = long;
  active_pos = active_pos;
  avg_price = "10";
  mark_price = none;
  liquidation_price = none;
  leverage = none;
  margin_currency = "INR";
  unrealized_pnl = pnl;
  realized_pnl = "0";
  opened_at = none;
  updated_at = "t";
  source = ws;
}

abbrev local : List Position
local = position "a" "1" "5" ∷ position "b" "1" "0" ∷ []

abbrev rest : List Position
rest = position "a" "2" "50" ∷ position "c" "1" "0" ∷ []

abbrev elsewhere : List Position
elsewhere = position "b" "1" "0" ∷ record (position "a" "1" "5") { pair = "ETH" } ∷ []

severities :
    map diff_severity (diff_positions whole_num config local rest) ≡ alarm ∷ warn ∷ warn ∷ warn ∷ []
unfolding divergence_code
severities = refl

diff_positions_silent_example :
    view position_field compare_position (get "b" (positions_by_id local))
    ≡ view position_field compare_position (get "b" (positions_by_id elsewhere))
unfolding divergence_code
diff_positions_silent_example = diff_positions_silent whole_num config "b" local elsewhere refl
