-- ===== src/Account/Stores/BalanceStore.antt =====
-- src/account/stores/balance-store.ts. `Number` of a text is `num.number`. The changed fields of an update,
-- which only say what to log, are left out.
mod Laws
mod Tests
use coindcx_bot.Prelude.{
  String, Bool, true, false, ◌||◌, Option, none, some, List, [], ◌∷◌, map, any, string_key,
}
use coindcx_bot.Prelude.Dict.{Dict, get, set}
use coindcx_bot.Prelude.Num.{Num}
use coindcx_bot.Account.Types.{Balance}

pub record BalanceStore : Type 0 where
  pub by_currency : Dict String Balance
  pub violation : Bool

abbrev pub new_store : BalanceStore
new_store = record { by_currency = []; violation = false }

-- `for (const r of rows) this.map.set(r.currency, r)`
unfoldable pub set_rows : List Balance → Dict String Balance → Dict String Balance
set_rows [] m = m
set_rows (r ∷ rs) m = set_rows rs (set r.currency r m)

module _ {ℓ} {W : Type ℓ} (num : Num W) where
  open num use {of_ℕ, number, lt}

  abbrev pub is_negative : Balance → Bool
  is_negative b = lt (number b.available) (of_ℕ 0) || lt (number b.locked) (of_ℕ 0)

  -- The loop stops at the first negative balance.
  abbrev pub has_negative : Dict String Balance → Bool
  has_negative m = any (λ entry. is_negative entry.1) m

  unfoldable pub recompute_violation : BalanceStore → BalanceStore
  recompute_violation s = record s { violation = has_negative s.by_currency }

  unfoldable pub apply_balance : Balance → BalanceStore → BalanceStore × Option Balance
  apply_balance next s = (
    recompute_violation (record s { by_currency = set next.currency next s.by_currency }),
    get next.currency s.by_currency,
  )

  unfoldable pub replace_balances : List Balance → BalanceStore → BalanceStore
  replace_balances rows s = recompute_violation (record s { by_currency = set_rows rows [] })
