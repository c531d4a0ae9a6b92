-- ===== src/Account/DivergenceDetector/Laws.antt =====
-- What no difference means, and what a difference of quantities raises.
use coindcx_bot.Prelude.{
  String, ◌≡◌, refl, ap, sym, ◌∙◌, inl, inr, Bool, true, false, ◌||◌, Option, none, some, List, [],
  ◌∷◌, ◌++◌, map, get_or, any, ◌==◌, string_key, Bool-cases, Option-cases, arith,
}
use coindcx_bot.Prelude.Dict.{Dict, get, has}
use coindcx_bot.Prelude.Num.{Num}
use coindcx_bot.Account.Types.{Position}
use coindcx_bot.Account.DivergenceDetector.{
  diff_severity, is_alarm, Diff, DivergenceConfig, includes, compare_position, position_field,
  by_id, classify, mismatches, diff_row, diff_rest, diff_local, diff_maps, diff_positions,
}

abbrev pub raises {ℓ} : {T : Type ℓ} → List (Diff T) → Bool
raises ds = any (λ d. is_alarm (diff_severity d)) ds

pub any-append {ℓ} :
    {A : Type ℓ} (p : A → Bool) (xs ys : List A) → any p (xs ++ ys) ≡ (any p xs || any p ys)
any-append p [] ys = refl
any-append p (x ∷ xs) ys = ground (arith, any-append p xs ys)

append_empty {ℓ} : {A : Type ℓ} (xs ys : List A) → xs ++ ys ≡ [] → (xs ≡ []) × (ys ≡ [])
append_empty [] ys e = (refl, e)
append_empty (x ∷ xs) ys e = ground arith

-- What the detector compares of a row.
abbrev pub view {κ} :
    {T : Type κ} → (T → String → String) → List String → Option T → Option (List String)
view field_of fields none = none
view field_of fields (some r) = some (map (field_of r) fields)

module _ {ℓ κ} {W : Type ℓ} (num : Num W) (cfg : DivergenceConfig W) {T : Type κ}
    (field_of : T → String → String) (fields qty pnl : List String) where
  agree :
      (fs : List String) (id : String) (l r : T)
      → mismatches num cfg field_of fields qty pnl id l r fs ≡ []
      → map (field_of l) fs ≡ map (field_of r) fs
  agree [] id l r e = refl
  agree (f ∷ fs) id l r e = elim (Bool-cases (field_of l f == field_of r f)) [
    | inl h ↦
        let rest : map (field_of l) fs ≡ map (field_of r) fs = agree fs id l r (rw h at e) in
        cc ((string_key.same_iff (field_of l f) (field_of r f)).0 h, rest)
    | inr h ↦ ground arith
  ]

  row_agrees :
      (id : String) (o : Option T) (r : T)
      → diff_row num cfg field_of fields qty pnl id o r ≡ []
      → view field_of fields o ≡ view field_of fields (some r)
  row_agrees id none r e = ground arith
  row_agrees id (some l) r e = ap some (agree fields id l r e)

  rest_agrees :
      (id : String) (id_local m : Dict String T) (r : T)
      → diff_rest num cfg field_of fields qty pnl id_local m ≡ []
      → get id m ≡ some r
      → view field_of fields (get id id_local) ≡ view field_of fields (some r)
  unfolding diff_rest get
  rest_agrees id id_local [] r e g = ground arith
  rest_agrees id id_local ((j, s) ∷ m) r e g =
      let (first, rest) =
        append_empty (diff_row num cfg field_of fields qty pnl j (get j id_local) s)
          (diff_rest num cfg field_of fields qty pnl id_local m) e in
      let here = row_agrees j (get j id_local) s first in
      elim (Bool-cases (j == id)) [
        | inl h ↦
            let same = (string_key.same_iff j id).0 h in
            let row : some s ≡ some r = rw h at g in
            ap (λ i. view field_of fields (get i id_local)) (sym same)
            ∙ here
            ∙ ap (view field_of fields) row
        | inr h ↦ rest_agrees id id_local m r rest (rw h at g)
      ]

  local_listed :
      (id : String) (id_rest m : Dict String T)
      → diff_local num cfg field_of fields qty pnl id_rest m ≡ []
      → has id m ≡ true
      → has id id_rest ≡ true
  unfolding diff_local get
  local_listed id id_rest [] e g = ground arith
  local_listed id id_rest ((j, s) ∷ m) e g =
      ground (arith, local_listed id id_rest m, string_key.same_iff j id)

  -- Without a difference, the compared fields of each id are the same on both sides, or both sides lack it.
  maps_agree :
      (id : String) (id_local id_rest : Dict String T)
      → diff_maps num cfg field_of fields qty pnl id_local id_rest ≡ []
      → view field_of fields (get id id_local) ≡ view field_of fields (get id id_rest)
  unfolding diff_maps
  maps_agree id id_local id_rest e =
      let (first, second) =
        append_empty (diff_rest num cfg field_of fields qty pnl id_local id_rest) _ e in
      elim (Option-cases (get id id_rest)) [
        | inl n ↦ elim (Option-cases (get id id_local)) [
          | inl m ↦ rw (n, m) refl
          | inr (l, m) ↦ ground (arith, n, m, local_listed id id_rest id_local second)
        ]
        | inr (r, h) ↦ rest_agrees id id_local id_rest r first h ∙ ap (view field_of fields) (sym h)
      ]

  mismatch_alarms :
      (f : String) (fs : List String) (id : String) (l r : T)
      → includes f fs ≡ true
      → includes f qty ≡ true
      → (field_of l f == field_of r f) ≡ false
      → raises (mismatches num cfg field_of fields qty pnl id l r fs) ≡ true
  unfolding classify
  mismatch_alarms f [] id l r i q d = ground arith
  mismatch_alarms f (g ∷ fs) id l r i q d = elim (Bool-cases (g == f)) [
    | inl h ↦ rw ((string_key.same_iff g f).0 h, d, q) refl
    | inr h ↦ ground (arith, mismatch_alarms f fs id l r (rw h at i) q d)
  ]

  rest_alarms :
      (f : String) (id : String) (id_local m : Dict String T) (l r : T)
      → includes f fields ≡ true
      → includes f qty ≡ true
      → get id id_local ≡ some l
      → get id m ≡ some r
      → (field_of l f == field_of r f) ≡ false
      → raises (diff_rest num cfg field_of fields qty pnl id_local m) ≡ true
  unfolding diff_rest get
  rest_alarms f id id_local [] l r i q gl gr d = ground arith
  rest_alarms f id id_local ((j, s) ∷ m) l r i q gl gr d =
      let split =
        any-append (λ x. is_alarm (diff_severity x))
          (diff_row num cfg field_of fields qty pnl j (get j id_local) s)
          (diff_rest num cfg field_of fields qty pnl id_local m) in
      elim (Bool-cases (j == id)) [
        | inl h ↦
            let row : some s ≡ some r = rw h at gr in
            let local = ap (λ x. get x id_local) ((string_key.same_iff j id).0 h) ∙ gl in
            let fact =
              ap (λ o. raises (diff_row num cfg field_of fields qty pnl j o s)) local
              ∙ ap (λ x. raises (mismatches num cfg field_of fields qty pnl j l x fields))
                  (ap (λ o. get_or o s) row)
              ∙ mismatch_alarms f fields j l r i q d in
            rw (split, fact) refl
        | inr h ↦ rw split (ground (arith, rest_alarms f id id_local m l r i q gl (rw h at gr) d))
      ]

  maps_alarm :
      (f : String) (id : String) (id_local id_rest : Dict String T) (l r : T)
      → includes f fields ≡ true
      → includes f qty ≡ true
      → get id id_local ≡ some l
      → get id id_rest ≡ some r
      → (field_of l f == field_of r f) ≡ false
      → raises (diff_maps num cfg field_of fields qty pnl id_local id_rest) ≡ true
  unfolding diff_maps
  maps_alarm f id id_local id_rest l r i q gl gr d =
      any-append (λ x. is_alarm (diff_severity x))
        (diff_rest num cfg field_of fields qty pnl id_local id_rest)
        (diff_local num cfg field_of fields qty pnl id_rest id_local)
      ∙ rw (rest_alarms f id id_local id_rest l r i q gl gr d) refl

-- The rows of a list under their ids, a later one in the place of an earlier.
abbrev pub positions_by_id : List Position → Dict String Position
positions_by_id rows = by_id (λ p. p.id) rows []

module _ {ℓ} {W : Type ℓ} (num : Num W) (cfg : DivergenceConfig W) where
  -- If a sweep of the positions finds no difference, then for every id the local position and the one of
  -- the exchange agree on each compared field, or there is neither.
  pub diff_positions_silent :
      (id : String) (local rest : List Position)
      → diff_positions num cfg local rest ≡ []
      → view position_field compare_position (get id (positions_by_id local))
        ≡ view position_field compare_position (get id (positions_by_id rest))
  unfolding diff_positions
  diff_positions_silent id local rest e =
      maps_agree num cfg position_field compare_position ("activePos" ∷ [])
        ("unrealizedPnl" ∷ "realizedPnl" ∷ []) id _ _ e

  -- A position whose quantity differs between the local copy and the exchange raises an alarm.
  pub diff_positions_alarm :
      (id : String) (local rest : List Position) (l r : Position)
      → get id (positions_by_id local) ≡ some l
      → get id (positions_by_id rest) ≡ some r
      → (l.active_pos == r.active_pos) ≡ false
      → raises (diff_positions num cfg local rest) ≡ true
  unfolding diff_positions
  diff_positions_alarm id local rest l r gl gr d =
      maps_alarm num cfg position_field compare_position ("activePos" ∷ [])
        ("unrealizedPnl" ∷ "realizedPnl" ∷ []) "activePos" id _ _ l r refl refl gl gr d
