-- ===== src/Account/Stores/BalanceStore/Laws.antt =====
-- The violation flag, over whole histories.
use coindcx_bot.Prelude.{
  String, ◌≡◌, refl, ◌∙◌, inl, inr, true, some, List, [], ◌∷◌, ◌==◌, string_key, arith, Bool-cases,
}
use coindcx_bot.Prelude.Dict.{Dict, get}
use coindcx_bot.Prelude.Num.{Num}
use coindcx_bot.Account.Types.{Balance}
use coindcx_bot.Account.Stores.BalanceStore.{
  BalanceStore, new_store, is_negative, has_negative, recompute_violation, apply_balance,
  replace_balances,
}

pub data Op : Type 0 where
  update : Balance → Op
  sweep : List Balance → Op

some-inj : (x y : Balance) → some x ≡ some y → x ≡ y
some-inj x y e = cc

module _ {ℓ} {W : Type ℓ} (num : Num W) where
  unfoldable pub run : List Op → BalanceStore → BalanceStore
  run [] s = s
  run (update b ∷ ops) s = run ops (apply_balance num b s).0
  run (sweep rows ∷ ops) s = run ops (replace_balances num rows s)

  -- A balance that is held under its currency and is negative is seen by the scan.
  has_negative-get :
      (currency : String) (b : Balance) (m : Dict String Balance)
      → get currency m ≡ some b
      → is_negative num b ≡ true
      → has_negative num m ≡ true
  unfolding get
  has_negative-get currency b [] g h = cc
  has_negative-get currency b ((j, c) ∷ m) g h = elim (Bool-cases (j == currency)) [
    | inl e ↦ let k : c ≡ b = some-inj c b (rw e at g) in rw (k, h) refl
    | inr e ↦ ground (arith, has_negative-get currency b m (rw e at g) h)
  ]

  flag_scanned :
      (ops : List Op) (s : BalanceStore)
      → s.violation ≡ has_negative num s.by_currency
      → (run ops s).violation ≡ has_negative num (run ops s).by_currency
  unfolding run apply_balance replace_balances recompute_violation
  flag_scanned [] s h = h
  flag_scanned (update b ∷ ops) s h = flag_scanned ops (apply_balance num b s).0 refl
  flag_scanned (sweep rows ∷ ops) s h = flag_scanned ops (replace_balances num rows s) refl

  -- After any updates and sweeps of a new store the violation flag is up if the store holds a balance of
  -- which the available or the locked amount is negative.
  pub run_violation :
      (ops : List Op) (currency : String) (b : Balance)
      → get currency (run ops new_store).by_currency ≡ some b
      → is_negative num b ≡ true
      → (run ops new_store).violation ≡ true
  run_violation ops currency b g h =
      flag_scanned ops new_store refl
      ∙ has_negative-get currency b (run ops new_store).by_currency g h
