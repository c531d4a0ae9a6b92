-- ===== src/Account/Stores/PositionStore/Tests.antt =====
-- Two positions, of which the exchange lists one, over whole numbers.
use coindcx_bot.Prelude.{String, ◌≡◌, refl, true, none, some, List, [], ◌∷◌, string_key}
use coindcx_bot.Prelude.Dict.{get, set}
use coindcx_bot.Prelude.Num.{whole_num}
use coindcx_bot.Account.Types.{Position, long, flipped, opened, rest}
use coindcx_bot.Account.Stores.PositionStore.{
  PositionStore, flatten, is_listed, set_all, classify_lifecycle, apply_ws, flatten_missing,
  synthesized_flat, replace_from_rest, open_positions, evict_flat,
}
use coindcx_bot.Account.Stores.PositionStore.Laws.{last_row, replace_from_rest_listed}

store_code : Unit {0}
unfolding get set set_all classify_lifecycle apply_ws flatten_missing synthesized_flat
    replace_from_rest open_positions evict_flat last_row
store_code = tt

abbrev position : String → String → Position
position id quantity = record {
  id = id;
  pair = "BTC";
  side = long;
  active_pos = quantity;
  avg_price = "1";
  mark_price = none;
  liquidation_price = none;
  leverage = none;
  margin_currency = "USDT";
  unrealized_pnl = "0";
  realized_pnl = "0";
  opened_at = none;
  updated_at = "t";
  source = rest;
}

abbrev store : PositionStore
store = ("a", position "a" "2") ∷ ("b", position "b" "3") ∷ []

abbrev rows : List Position
rows = position "b" "4" ∷ []

sweep :
    replace_from_rest whole_num rows store
    ≡ (("a", flatten (position "a" "2")) ∷ ("b", position "b" "4") ∷ [], "a" ∷ [])
unfolding store_code
sweep = refl

lifecycles :
    ((apply_ws whole_num (position "a" "-1") store).1.lifecycle ≡ some flipped)
    × ((apply_ws whole_num (position "c" "1") store).1.lifecycle ≡ some opened)
unfolding store_code
lifecycles = (refl, refl)

replace_from_rest_listed_example : is_listed "b" rows ≡ true
unfolding store_code
replace_from_rest_listed_example =
    replace_from_rest_listed whole_num "b" (position "b" "4") rows store refl refl refl
