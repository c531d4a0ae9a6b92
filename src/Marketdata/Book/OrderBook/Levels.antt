-- ===== src/Marketdata/Book/OrderBook/Levels.antt =====
-- One side of the book: what each price holds after a snapshot and after a delta.
use coindcx_bot.Prelude.{
  String, ◌≡◌, refl, ap, ◌∙◌, inl, inr, true, Option, none, some, List, [], ◌∷◌, ◌++◌, arith, ◌==◌,
  string_key, if◌then◌else◌, Option-cases,
}
use coindcx_bot.Prelude.Dict.{get, set, get-set, get-delete}
use coindcx_bot.Prelude.Num.{Num}
use coindcx_bot.Marketdata.Book.OrderBook.{
  Levels, is_positive, is_zero, snapshot_levels, apply_level, apply_levels,
}

module _ {ℓ} {W : Type ℓ} (num : Num W) where
  -- What a price holds after a snapshot of one side, from what it held before: the last positive
  -- quantity that is listed for it.
  abbrev pub snapshot_at : String → Option String → List (String × String) → Option String
  snapshot_at p old [] = old
  snapshot_at p old ((j, q) ∷ rest) =
      snapshot_at p (if j == p then (if is_positive num q then some q else old) else old) rest

  get-snapshot_level :
      (p j q : String) (m : Levels)
      → get p (if is_positive num q then set j q m else m)
        ≡ (if j == p then (if is_positive num q then some q else get p m) else get p m)
  get-snapshot_level p j q m = ground (arith, get-set j p q m)

  pub get-snapshot_levels :
      (p : String) (m : Levels) (side : List (String × String))
      → get p (snapshot_levels num m side) ≡ snapshot_at p (get p m) side
  unfolding snapshot_levels
  get-snapshot_levels p m [] = refl
  get-snapshot_levels p m ((j, q) ∷ rest) =
      get-snapshot_levels p (if is_positive num q then set j q m else m) rest
      ∙ ap (λ old. snapshot_at p old rest) (get-snapshot_level p j q m)

  -- What a price holds after a delta, from what it held before.
  abbrev pub delta_at : String → Option String → List (String × String) → Option String
  delta_at p old [] = old
  delta_at p old ((j, q) ∷ rest) =
      delta_at p (if j == p then (if is_zero num q then none else some q) else old) rest

  get-apply_level :
      (p j q : String) (m : Levels) {m' : Levels}
      → apply_level num m j q ≡ some m'
      → get p m' ≡ (if j == p then (if is_zero num q then none else some q) else get p m)
  unfolding apply_level
  get-apply_level p j q m h = ground (arith, get-set j p q m, get-delete j p m)

  -- A delta that is applied to its end.
  pub get-apply_levels :
      (p : String) (m : Levels) (side : List (String × String))
      → (apply_levels num m side).1 ≡ none
      → get p (apply_levels num m side).0 ≡ delta_at p (get p m) side
  unfolding apply_levels
  get-apply_levels p m [] h = refl
  get-apply_levels p m ((j, q) ∷ rest) h = elim (Option-cases (apply_level num m j q)) [
    | inl e ↦ absurd (cc (rw (e, apply_levels) at h))
    | inr (m', e) ↦
        rw (e, apply_levels)
          (get-apply_levels p m' rest (rw (e, apply_levels) at h)
            ∙ ap (λ old. delta_at p old rest) (get-apply_level p j q m e))
  ]

  -- A delta that stops: some levels were applied, and the next one deletes a price that is not there.
  pub StopsAt : Levels → List (String × String) → String → Levels → Type 0
  StopsAt m side price m' =
      (done : List (String × String)) × (qty : String) × (rest : List (String × String)) × (side
        ≡ done ++ (price, qty) ∷ rest)
      × (apply_levels num m done ≡ (m', none))
      × (is_zero num qty ≡ true)
      × (get price m' ≡ none)

  apply_level-none :
      (m : Levels) (p q : String)
      → apply_level num m p q ≡ none
      → (is_zero num q ≡ true) × (get p m ≡ none)
  unfolding apply_level
  apply_level-none m p q h = ground (arith)

  apply_levels_nil : (m : Levels) → apply_levels num m [] ≡ (m, none)
  unfolding apply_levels
  apply_levels_nil m = refl

  apply_levels_step :
      (m : Levels) (j q : String) (rest : List (String × String)) {m' : Levels}
      → apply_level num m j q ≡ some m'
      → apply_levels num m ((j, q) ∷ rest) ≡ apply_levels num m' rest
  unfolding apply_levels
  apply_levels_step m j q rest e = rw (e, apply_levels)

  apply_levels_stop :
      (m : Levels) (j q : String) (rest : List (String × String))
      → apply_level num m j q ≡ none
      → apply_levels num m ((j, q) ∷ rest) ≡ (m, some j)
  unfolding apply_levels
  apply_levels_stop m j q rest e = rw (e, apply_levels)

  pub apply_levels-StopsAt :
      (m : Levels) (side : List (String × String)) {price : String}
      → (apply_levels num m side).1 ≡ some price
      → StopsAt m side price (apply_levels num m side).0
  unfolding StopsAt
  apply_levels-StopsAt m [] h =
      absurd (cc (ap (λ (r : Levels × Option String). r.1) (apply_levels_nil m)))
  apply_levels-StopsAt m ((j, q) ∷ rest) {price} h = elim (Option-cases (apply_level num m j q)) [
    | inl e ↦
        let stop = apply_levels_stop m j q rest e in
        let here : j ≡ price = cc (ap (λ (r : Levels × Option String). r.1) stop) in
        rw stop (
          rw (← here) (
            [],
            q,
            rest,
            refl,
            apply_levels_nil m,
            (apply_level-none m j q e).0,
            (apply_level-none m j q e).1,
          ))
    | inr (m', e) ↦
        let step = apply_levels_step m j q rest e in
        let (done, qty, after, p, r, z, g) = apply_levels-StopsAt m' rest (rw step at h) in
        rw step
          ((j, q) ∷ done, qty, after, ap (◌∷◌ (j, q)) p, apply_levels_step m j q done e ∙ r, z, g)
  ]
