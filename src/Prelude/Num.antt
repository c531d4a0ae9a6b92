-- ===== src/Prelude/Num.antt =====
-- The JavaScript number, as far as the code computes with it: comparisons, arithmetic and the two ways
-- to read one from a text. The modules that use prices, quantities and ratios take it as an
-- interface; what a theorem relies on is a law of `IsOrdered` among its hypotheses. Counters and
-- times in milliseconds are whole numbers, and are native ℕ in the modules.
use coindcx_bot.Prelude.Tests.{leb, ltb, ◌==◌, nat_key, if◌then◌else◌}
use coindcx_bot.Prelude.Int.{ℤ, pos, pos_part, neg_part, sub_ℕ, leb_ℤ, ltb_ℤ}
use Prim.Native.Nat.{ℕ, ◌+◌, ◌-◌, ◌*◌, ◌/◌}
use Prim.Native.Char.{code}
use Prim.Native.String.{String}
use mathlib.Core.Path.{◌≡◌}
use mathlib.Core.Logic.{◌⊎◌}
use mathlib.Core.Bool.{Bool, true, false, not, ◌&&◌}
use mathlib.Core.Option.{Option, none, some}
use native.Mathlib.Omega.{arith}

pub record Num {ℓ} (W : Type ℓ) : Type ℓ where
  pub of_ℕ : ℕ → W
  -- `parseFloat(s)` and `Number(s)`
  pub parse_float : String → W
  pub number : String → W
  -- `<`, `<=` and `===`
  pub lt : W → W → Bool
  pub le : W → W → Bool
  pub eq : W → W → Bool
  pub is_finite : W → Bool
  pub add : W → W → W
  pub sub : W → W → W
  pub mul : W → W → W
  pub div : W → W → W

-- IEEE 754's comparisons. NaN is the value that is not `<=` itself.
pub record IsOrdered {ℓ} {W : Type ℓ} (num : Num W) : Type ℓ where
  pub refl_of_le : (x y : W) → num.le x y ≡ true → (num.le x x ≡ true) × (num.le y y ≡ true)
  pub le_trans : (x y z : W) → num.le x y ≡ true → num.le y z ≡ true → num.le x z ≡ true
  pub le_total :
      (x y : W) → num.le x x ≡ true → num.le y y ≡ true → (num.le x y ≡ true) ⊎ (num.le y x ≡ true)
  pub lt-eq-not-le :
      (x y : W) → num.le x x ≡ true → num.le y y ≡ true → num.lt x y ≡ not (num.le y x)
  pub le_of_lt : (x y : W) → num.lt x y ≡ true → (num.le x y ≡ true) × (num.eq y x ≡ false)

-- The laws can be met: whole numbers, with `none` for NaN.
abbrev pub Whole : Type 0
Whole = Option ℤ

abbrev pub on_numbers {ℓ} : {A : Type ℓ} → A → (ℤ → ℤ → A) → Whole → Whole → A
on_numbers d f (some a) (some b) = f a b
on_numbers d f _ _ = d

abbrev digits_value : ℕ → String → Option ℕ
digits_value acc String.[] = some acc
digits_value acc (String.◌∷◌ c s) =
    let rest = digits_value (acc * 10 + (code c - 48)) s in
    if leb 48 (code c) && leb (code c) 57 then rest else none

abbrev signed : Bool → Option ℕ → Whole
signed minus none = none
signed true (some n) = some (sub_ℕ 0 n)
signed false (some n) = some (pos n)

abbrev pub read_whole : String → Whole
read_whole String.[] = some (pos 0)
read_whole (String.◌∷◌ c s) =
    if code c == 45
    then signed true (digits_value 0 s)
    else signed false (digits_value 0 (String.◌∷◌ c s))

-- Division of whole numbers towards zero, NaN by zero.
abbrev div_whole : ℤ → ℤ → Whole
div_whole a b =
    let q = (pos_part a + neg_part a) / (pos_part b + neg_part b) in
    if (pos_part b + neg_part b) == 0
    then none
    else (if ltb 0 (neg_part a)
        then (if ltb 0 (neg_part b) then some (pos q) else some (sub_ℕ 0 q))
        else (if ltb 0 (neg_part b) then some (sub_ℕ 0 q) else some (pos q)))

abbrev whole_add : ℤ → ℤ → Whole
whole_add a b = some (sub_ℕ (pos_part a + pos_part b) (neg_part a + neg_part b))

abbrev whole_sub : ℤ → ℤ → Whole
whole_sub a b = some (sub_ℕ (pos_part a + neg_part b) (neg_part a + pos_part b))

abbrev whole_mul : ℤ → ℤ → Whole
whole_mul a b = some (
    sub_ℕ (pos_part a * pos_part b + neg_part a * neg_part b)
      (pos_part a * neg_part b + neg_part a * pos_part b))

abbrev is_number : Whole → Bool
is_number none = false
is_number (some a) = true

abbrev pub whole_num : Num Whole
whole_num = record {
  of_ℕ = λ n. some (pos n);
  parse_float = read_whole;
  number = read_whole;
  lt = on_numbers false ltb_ℤ;
  le = on_numbers false leb_ℤ;
  eq = on_numbers false (λ a b. leb_ℤ a b && leb_ℤ b a);
  is_finite = is_number;
  add = on_numbers none whole_add;
  sub = on_numbers none whole_sub;
  mul = on_numbers none whole_mul;
  div = on_numbers none div_whole;
}

pub Whole-IsOrdered : IsOrdered whole_num
Whole-IsOrdered = record {
  refl_of_le = λ x y h. ground arith;
  le_trans = λ x y z h k. ground arith;
  le_total = λ x y h k. ground arith;
  lt-eq-not-le = λ x y h k. ground arith;
  le_of_lt = λ x y h. ground arith;
}
