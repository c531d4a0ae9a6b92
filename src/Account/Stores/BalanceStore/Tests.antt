-- ===== src/Account/Stores/BalanceStore/Tests.antt =====
-- A store that gets a negative balance, over whole numbers.
use coindcx_bot.Prelude.{String, ◌≡◌, refl, false, List, [], ◌∷◌}
use coindcx_bot.Prelude.Dict.{get, set}
use coindcx_bot.Prelude.Num.{whole_num}
use coindcx_bot.Account.Types.{Balance, ws}
use coindcx_bot.Account.Stores.BalanceStore.{
  new_store, set_rows, recompute_violation, apply_balance, replace_balances,
}
use coindcx_bot.Account.Stores.BalanceStore.Laws.{Op, update, sweep, run}

balance_code : Unit {0}
unfolding get set set_rows recompute_violation apply_balance replace_balances run
balance_code = tt

abbrev balance : String → String → Balance
balance currency locked = record {
  currency = currency;
  available = "5";
  locked = locked;
  updated_at = "t";
  source = ws;
}

abbrev ops : List Op
ops = sweep (balance "INR" "0" ∷ balance "USDT" "1" ∷ []) ∷ update (balance "INR" "-2") ∷ []

cleared :
    (run whole_num (sweep (balance "INR" "0" ∷ []) ∷ []) (run whole_num ops new_store)).violation
    ≡ false
unfolding balance_code
cleared = refl
