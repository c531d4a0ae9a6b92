-- ===== src/Runtime/TradePlan/Laws.antt =====
-- The bounds of the leverage and the side of a plan.
use coindcx_bot.Prelude.{◌≡◌, ap, ◌∙◌, true, false, not, inl, inr, Bool-cases, arith}
use coindcx_bot.Prelude.Num.{Num, IsOrdered}
use coindcx_bot.Runtime.TradePlan.{
  TradePlanInput, hard_max_leverage, js_min, js_max, leverage_cap, leverage_of, equity_of, compute,
}

module _ {ℓ} {W : Type ℓ} (num : Num W) (laws : IsOrdered num) where
  open num use {of_ℕ, lt, le}

  -- A number that is not above a bound, NaN included.
  abbrev Under : W → W → Type 0
  Under bound x = lt bound x ≡ false

  nan-Under : (bound y : W) → le y y ≡ false → Under bound y
  nan-Under bound y n = elim (Bool-cases (lt bound y)) [
    | inl l ↦ ground (arith, n, (laws.refl_of_le bound y (laws.le_of_lt bound y l).0).1)
    | inr l ↦ l
  ]

  below-Under :
      (bound x y : W)
      → le bound bound ≡ true
      → le x x ≡ true
      → le y y ≡ true
      → Under bound x
      → le y x ≡ true
      → Under bound y
  below-Under bound x y b n m u l =
      let under : le x bound ≡ true = ground (arith, u, laws.lt-eq-not-le bound x b n) in
      laws.lt-eq-not-le bound y b m ∙ ap not (laws.le_trans y x bound l under)

  js_min-Under :
      (bound x y : W) → le bound bound ≡ true → Under bound x → Under bound (js_min num x y)
  unfolding js_min
  js_min-Under bound x y b u = elim (Bool-cases (le x x)) [
    | inr n ↦ rw n u
    | inl n ↦ elim (Bool-cases (le y y)) [
      | inr m ↦ rw (n, m) (nan-Under bound y m)
      | inl m ↦ elim (Bool-cases (lt y x)) [
        | inl l ↦ rw (n, m, l) (below-Under bound x y b n m u (laws.le_of_lt y x l).0)
        | inr l ↦ rw (n, m, l) u
      ]
    ]
  ]

  js_max-Under : (bound x y : W) → Under bound x → Under bound y → Under bound (js_max num x y)
  unfolding js_max
  js_max-Under bound x y u v = ground (arith, u, v)

  leverage_cap-Under :
      (input : TradePlanInput W)
      → le (hard_max_leverage num) (hard_max_leverage num) ≡ true
      → Under (hard_max_leverage num) (leverage_cap num input)
  unfolding leverage_cap
  leverage_cap-Under input b =
      js_min-Under (of_ℕ 10) (of_ℕ 10) _ b (laws.lt-eq-not-le (of_ℕ 10) (of_ℕ 10) b b ∙ ap not b)

  -- For numbers with the laws of IsOrdered, the leverage of a plan is never above 10, whatever the
  -- intent, the score, the limit of the venue and the account say, if 1 is not above 10 and 10 is
  -- not NaN.
  pub compute-leverage :
      (input : TradePlanInput W)
      → le (hard_max_leverage num) (hard_max_leverage num) ≡ true
      → lt (hard_max_leverage num) (of_ℕ 1) ≡ false
      → lt (hard_max_leverage num) (compute num input).leverage ≡ false
  unfolding compute leverage_of
  compute-leverage input b o =
      let cap = leverage_cap-Under input b in
      elim (Bool-cases (lt (of_ℕ 0) (equity_of num input))) [
        | inl e ↦ rw e (
            js_max-Under (of_ℕ 10) (of_ℕ 1) _ o
              (js_min-Under (of_ℕ 10) (leverage_cap num input) _ b cap))
        | inr e ↦ rw e cap
      ]
