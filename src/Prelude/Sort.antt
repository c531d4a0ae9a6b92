-- ===== src/Prelude/Sort.antt =====
-- `Array.prototype.sort`, which is stable: a comparator is given by when its first argument is to
-- stand after its second.
use coindcx_bot.Prelude.Tests.{if◌then◌else◌, Bool-cases}
use coindcx_bot.Prelude.Lists.{All, length}
use Prim.Native.Nat.{suc}
use mathlib.Core.Path.{◌≡◌, refl, ap, ◌∙◌}
use mathlib.Core.Logic.{inl, inr}
use mathlib.Core.Bool.{Bool, true, false}
use mathlib.Core.Option.{Option, none, some}
use mathlib.Core.List.{List, [], ◌∷◌, Perm}
use mathlib.Core.List.Perm
use native.Mathlib.Omega.{arith}

module _ {ℓ} {A : Type ℓ} where
  abbrev pub head? : List A → Option A
  head? [] = none
  head? (x ∷ xs) = some x

module _ {ℓ} {A : Type ℓ} (after : A → A → Bool) where
  unfoldable pub insert_sorted : A → List A → List A
  insert_sorted x [] = x ∷ []
  insert_sorted x (y ∷ ys) = if after x y then y ∷ insert_sorted x ys else x ∷ y ∷ ys

  unfoldable pub sort : List A → List A
  unfolding insert_sorted
  sort [] = []
  sort (x ∷ xs) = insert_sorted x (sort xs)

  insert_sorted-perm : (x : A) (xs : List A) → Perm (insert_sorted x xs) (x ∷ xs)
  unfolding insert_sorted
  insert_sorted-perm x [] = Perm.rfl
  insert_sorted-perm x (y ∷ ys) = elim (Bool-cases (after x y)) [
    | inl e ↦ rw e (Perm.trans (Perm.cons y (insert_sorted-perm x ys)) (Perm.swap x y ys))
    | inr e ↦ rw e Perm.rfl
  ]

  pub sort-perm : (xs : List A) → Perm (sort xs) xs
  unfolding sort
  sort-perm [] = Perm.nil
  sort-perm (x ∷ xs) = Perm.trans (insert_sorted-perm x (sort xs)) (Perm.cons x (sort-perm xs))

  -- Nothing stands before an item that it is to stand after.
  abbrev pub IsSorted : List A → Type 0
  IsSorted [] = Unit
  IsSorted (x ∷ xs) = All (λ y. after x y ≡ false) xs × IsSorted xs

module _ {ℓ κ} {A : Type ℓ} (after : A → A → Bool) (Good : A → Type κ)
    (asym : (x y : A) → after x y ≡ true → after y x ≡ false)
    (trans : (x y z : A)
      → Good x
      → Good y
      → Good z
      → after x y ≡ false
      → after y z ≡ false
      → after x z ≡ false) where
  All-insert_sorted :
      (w x : A) (ys : List A)
      → after w x ≡ false
      → All (λ y. after w y ≡ false) ys
      → All (λ y. after w y ≡ false) (insert_sorted after x ys)
  unfolding insert_sorted
  All-insert_sorted w x [] h k = (h, tt)
  All-insert_sorted w x (y ∷ ys) h (k, ks) = elim (Bool-cases (after x y)) [
    | inl e ↦ rw e (k, All-insert_sorted w x ys h ks)
    | inr e ↦ rw e (h, (k, ks))
  ]

  All-trans :
      (x y : A) (ys : List A)
      → Good x
      → Good y
      → All Good ys
      → after x y ≡ false
      → All (λ z. after y z ≡ false) ys
      → All (λ z. after x z ≡ false) ys
  All-trans x y [] gx gy gs h k = tt
  All-trans x y (z ∷ zs) gx gy (gz, gs) h (k, ks) =
      (trans x y z gx gy gz h k, All-trans x y zs gx gy gs h ks)

  insert_sorted-Good :
      (x : A) (ys : List A) → Good x → All Good ys → All Good (insert_sorted after x ys)
  unfolding insert_sorted
  insert_sorted-Good x [] g gs = (g, tt)
  insert_sorted-Good x (y ∷ ys) g (gy, gs) = elim (Bool-cases (after x y)) [
    | inl e ↦ rw e (gy, insert_sorted-Good x ys g gs)
    | inr e ↦ rw e (g, (gy, gs))
  ]

  insert_sorted-IsSorted :
      (x : A) (ys : List A)
      → Good x
      → All Good ys
      → IsSorted after ys
      → IsSorted after (insert_sorted after x ys)
  unfolding insert_sorted
  insert_sorted-IsSorted x [] g gs s = (tt, tt)
  insert_sorted-IsSorted x (y ∷ ys) g (gy, gs) (h, s) = elim (Bool-cases (after x y)) [
    | inl e ↦ rw e (All-insert_sorted y x ys (asym x y e) h, insert_sorted-IsSorted x ys g gs s)
    | inr e ↦ rw e ((e, All-trans x y ys g gy gs e h), (h, s))
  ]

  pub sort-Good : (xs : List A) → All Good xs → All Good (sort after xs)
  unfolding sort
  sort-Good [] g = tt
  sort-Good (x ∷ xs) (g, gs) = insert_sorted-Good x (sort after xs) g (sort-Good xs gs)

  -- A sorted array is in the comparator's order, where its items are comparable.
  pub sort-IsSorted : (xs : List A) → All Good xs → IsSorted after (sort after xs)
  unfolding sort
  sort-IsSorted [] g = tt
  sort-IsSorted (x ∷ xs) (g, gs) =
      insert_sorted-IsSorted x (sort after xs) g (sort-Good xs gs) (sort-IsSorted xs gs)

module _ {ℓ} {A : Type ℓ} (after : A → A → Bool) where
  length-insert_sorted : (x : A) (xs : List A) → length (insert_sorted after x xs) ≡ suc (length xs)
  unfolding insert_sorted
  length-insert_sorted x [] = refl
  length-insert_sorted x (y ∷ ys) = ground (arith, length-insert_sorted x ys)

  pub length-sort : (xs : List A) → length (sort after xs) ≡ length xs
  unfolding sort
  length-sort [] = refl
  length-sort (x ∷ xs) = length-insert_sorted x (sort after xs) ∙ ap suc (length-sort xs)

module _ {ℓ κ} {A : Type ℓ} (after : A → A → Bool) (P : A → Type κ) where
  All-insert_sorted→ : (x : A) (xs : List A) → All P (insert_sorted after x xs) → P x × All P xs
  unfolding insert_sorted
  All-insert_sorted→ x [] h = h
  All-insert_sorted→ x (y ∷ ys) h = elim (Bool-cases (after x y)) [
    | inl e ↦
        let (py, rest) : P y × All P (insert_sorted after x ys) = rw e at h in
        let (px, ps) = All-insert_sorted→ x ys rest in (px, (py, ps))
    | inr e ↦ rw e at h
  ]

  -- What holds of every item of the sorted array holds of every item of the array.
  pub All-sort→ : (xs : List A) → All P (sort after xs) → All P xs
  unfolding sort
  All-sort→ [] h = tt
  All-sort→ (x ∷ xs) h =
      let (p, ps) = All-insert_sorted→ x (sort after xs) h in (p, All-sort→ xs ps)

  All-insert_sorted← : (x : A) (xs : List A) → P x → All P xs → All P (insert_sorted after x xs)
  unfolding insert_sorted
  All-insert_sorted← x [] p ps = (p, ps)
  All-insert_sorted← x (y ∷ ys) p (py, ps) = elim (Bool-cases (after x y)) [
    | inl e ↦ rw e (py, All-insert_sorted← x ys p ps)
    | inr e ↦ rw e (p, (py, ps))
  ]

  -- And the other way round.
  pub sort-All : (xs : List A) → All P xs → All P (sort after xs)
  unfolding sort
  sort-All [] h = tt
  sort-All (x ∷ xs) (p, ps) = All-insert_sorted← x (sort after xs) p (sort-All xs ps)
