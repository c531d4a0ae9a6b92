-- ===== src/Account/Stores/PositionStore/Laws.antt =====
-- What a REST sweep leaves open.
use coindcx_bot.Prelude.{
  String, ◌≡◌, ◌≢◌, refl, ap, sym, ◌∙◌, inl, inr, true, false, not, ◌&&◌, Option, none, some, List,
  [], ◌∷◌, if◌then◌else◌, ◌==◌, string_key, arith, Bool-cases, Option-cases,
}
use coindcx_bot.Prelude.Dict.{get, set, get-set}
use coindcx_bot.Prelude.Num.{Num}
use coindcx_bot.Account.Types.{Position}
use coindcx_bot.Account.Stores.PositionStore.{
  PositionStore, flatten, is_listed, set_all, is_zero, flatten_missing, replace_from_rest,
}

module _ {ℓ} {W : Type ℓ} (num : Num W) where
  -- The last row of an id.
  unfoldable pub last_row : String → List Position → Option Position → Option Position
  last_row id [] old = old
  last_row id (r ∷ rs) old = last_row id rs (if r.id == id then some r else old)

  get-set_all :
      (id : String) (rows : List Position) (store : PositionStore)
      → get id (set_all rows store) ≡ last_row id rows (get id store)
  unfolding set_all last_row
  get-set_all id [] store = refl
  get-set_all id (r ∷ rs) store =
      get-set_all id rs (set r.id r store) ∙ ap (last_row id rs) (get-set r.id id r store)

  -- What becomes of a position that is held.
  abbrev pub swept : String → List Position → Option Position → Option Position
  swept id rows none = none
  swept id rows (some p) =
      some (if not (is_listed id rows) && not (is_zero num p) then flatten p else p)

  get-flatten_missing :
      (id : String) (rows : List Position) (store : PositionStore)
      → get id (flatten_missing num rows store) ≡ swept id rows (get id store)
  unfolding get flatten_missing
  get-flatten_missing id rows [] = refl
  get-flatten_missing id rows ((j, p) ∷ rest) = elim (Bool-cases (j == id)) [
    | inl e ↦ rw (e, (string_key.same_iff j id).0 e) refl
    | inr e ↦ rw e (get-flatten_missing id rows rest)
  ]

  -- After a sweep a position that the rows list is the last row of its id; any other that was held is kept,
  -- flattened if its quantity was not 0; and nothing else is held.
  pub get-replace_from_rest :
      (id : String) (rows : List Position) (store : PositionStore)
      → get id (replace_from_rest num rows store).0
        ≡ last_row id rows (swept id rows (get id store))
  unfolding replace_from_rest
  get-replace_from_rest id rows store =
      get-set_all id rows (flatten_missing num rows store)
      ∙ ap (last_row id rows) (get-flatten_missing id rows store)

  last_row_unlisted :
      (id : String) (rows : List Position) (old : Option Position)
      → is_listed id rows ≡ false
      → last_row id rows old ≡ old
  unfolding last_row
  last_row_unlisted id [] old h = refl
  last_row_unlisted id (r ∷ rs) old h =
      let e : (r.id == id) ≡ false = ground (arith, h) in
      rw e (last_row_unlisted id rs old (ground (arith, h)))

  true≢false : true ≢ false
  true≢false e = cc

  none≢some : (p : Position) → none ≢ some p
  none≢some p e = cc

  some-inj : (p q : Position) → some p ≡ some q → p ≡ q
  some-inj p q e = cc

  swept_zero :
      (id : String) (rows : List Position) (p : Position)
      → num.eq (num.number "0") (num.of_ℕ 0) ≡ true
      → is_listed id rows ≡ false
      → is_zero num (if not (is_listed id rows) && not (is_zero num p) then flatten p else p) ≡ true
  swept_zero id rows p z u = elim (Bool-cases (is_zero num p)) [
    | inl e ↦ rw (u, e) e
    | inr e ↦ rw (u, e) z
  ]

  -- If `Number('0')` is 0, then after a sweep no position is open that the rows do not list.
  pub replace_from_rest_listed :
      (id : String) (p : Position) (rows : List Position) (store : PositionStore)
      → num.eq (num.number "0") (num.of_ℕ 0) ≡ true
      → get id (replace_from_rest num rows store).0 ≡ some p
      → is_zero num p ≡ false
      → is_listed id rows ≡ true
  replace_from_rest_listed id p rows store z g o = elim (Bool-cases (is_listed id rows)) [
    | inl e ↦ e
    | inr e ↦
        let h : swept id rows (get id store) ≡ some p =
          sym (last_row_unlisted id rows (swept id rows (get id store)) e)
          ∙ sym (get-replace_from_rest id rows store)
          ∙ g in
        elim (Option-cases (get id store)) [
          | inl n ↦ absurd (none≢some p (rw n at h))
          | inr (q, n) ↦ absurd (
              true≢false
                (sym (swept_zero id rows q z e) ∙ ap (is_zero num) (some-inj _ p (rw n at h)) ∙ o))
        ]
  ]
