-- ===== src/Account/DivergenceDetector.antt =====
-- src/account/divergence-detector.ts. A row is read by the names of its fields, a missing one as the empty
-- text; a diff names the row by its id.
pub mod Laws
mod Tests
use coindcx_bot.Prelude.{
  ℕ, String, Bool, true, false, not, ◌||◌, Option, none, some, List, [], ◌∷◌, ◌++◌, map,
  if◌then◌else◌, get_or, any, ◌==◌, string_key,
}
use coindcx_bot.Prelude.Dict.{Dict, get, set, has}
use coindcx_bot.Prelude.Num.{Num}
use coindcx_bot.Account.Types.{
  Position, Balance, Order, OrderStatus, open_status, partially_filled, filled, cancelled, rejected,
}

pub data DivergenceSeverity : Type 0 where
  info warn alarm : DivergenceSeverity

pub data Diff {ℓ} (T : Type ℓ) : Type ℓ where
  missing_in_local : (id : String) → (rest_row : T) → DivergenceSeverity → Diff T
  missing_in_rest : (id : String) → (local_row : T) → DivergenceSeverity → Diff T
  field_mismatch : (id field local rest : String) → DivergenceSeverity → Diff T

abbrev pub diff_severity {ℓ} : {T : Type ℓ} → Diff T → DivergenceSeverity
diff_severity (missing_in_local id rest severity) = severity
diff_severity (missing_in_rest id local severity) = severity
diff_severity (field_mismatch id field local rest severity) = severity

abbrev pub is_alarm : DivergenceSeverity → Bool
is_alarm alarm = true
is_alarm _ = false

pub record DivergenceConfig {ℓ} (W : Type ℓ) : Type ℓ where
  pub pnl_abs_alarm : W
  pub pnl_pct_alarm : W

abbrev pub includes : String → List String → Bool
includes s xs = any (λ x. x == s) xs

abbrev pub compare_position : List String
compare_position =
    "activePos" ∷ "avgPrice" ∷ "markPrice" ∷ "unrealizedPnl" ∷ "realizedPnl" ∷ "leverage" ∷ []

abbrev pub compare_balance : List String
compare_balance = "available" ∷ "locked" ∷ []

abbrev pub compare_order : List String
compare_order = "status" ∷ "totalQty" ∷ "remainingQty" ∷ "avgFillPrice" ∷ "price" ∷ []

abbrev pub position_field : Position → String → String
position_field p f =
    if f == "activePos"
    then p.active_pos
    else (if f == "avgPrice"
        then p.avg_price
        else (if f == "markPrice"
            then get_or p.mark_price ""
            else (if f == "unrealizedPnl"
                then p.unrealized_pnl
                else (if f == "realizedPnl" then p.realized_pnl else get_or p.leverage ""))))

abbrev pub balance_field : Balance → String → String
balance_field b f = if f == "available" then b.available else b.locked

abbrev pub status_text : OrderStatus → String
status_text open_status = "open"
status_text partially_filled = "partially_filled"
status_text filled = "filled"
status_text cancelled = "cancelled"
status_text rejected = "rejected"

abbrev pub order_field : Order → String → String
order_field o f =
    if f == "status"
    then status_text o.status
    else (if f == "totalQty"
        then o.total_qty
        else (if f == "remainingQty"
            then o.remaining_qty
            else (if f == "avgFillPrice" then get_or o.avg_fill_price "" else get_or o.price "")))

-- `new Map(rows.map(r => [id(r), r]))`
unfoldable pub by_id {ℓ} : {T : Type ℓ} → (T → String) → List T → Dict String T → Dict String T
by_id id [] m = m
by_id id (r ∷ rows) m = by_id id rows (set (id r) r m)

module _ {ℓ} {W : Type ℓ} (num : Num W) (cfg : DivergenceConfig W) where
  open num use {of_ℕ, number, lt, sub, div}

  abbrev abs : W → W
  abs x = if lt x (of_ℕ 0) then sub (of_ℕ 0) x else x

  abbrev max : W → W → W
  max x y = if lt x y then y else x

  unfoldable pub classify :
      (field local rest : String) → (qty pnl : List String) → DivergenceSeverity
  classify field local rest qty pnl =
      let diff = abs (sub (number local) (number rest)) in
      let denom = max (max (abs (number local)) (abs (number rest))) (of_ℕ 1) in
      if includes field qty
      then alarm
      else (if includes field pnl
          then (if lt cfg.pnl_abs_alarm diff || lt cfg.pnl_pct_alarm (div diff denom)
              then alarm
              else warn)
          else info)

  module _ {κ} {T : Type κ} (field_of : T → String → String) (fields qty pnl : List String) where
    abbrev pub mismatches : (id : String) → T → T → List String → List (Diff T)
    mismatches id local rest [] = []
    mismatches id local rest (f ∷ fs) =
        if field_of local f == field_of rest f
        then mismatches id local rest fs
        else field_mismatch id f (field_of local f) (field_of rest f)
            (classify f (field_of local f) (field_of rest f) qty pnl)
          ∷ mismatches id local rest fs

    abbrev pub diff_row : (id : String) → Option T → T → List (Diff T)
    diff_row id none rest = missing_in_local id rest warn ∷ []
    diff_row id (some local) rest = mismatches id local rest fields

    -- The loops over the rows of the exchange and over the local ones.
    unfoldable pub diff_rest : Dict String T → Dict String T → List (Diff T)
    diff_rest id_local [] = []
    diff_rest id_local ((id, rest) ∷ m) = diff_row id (get id id_local) rest ++ diff_rest id_local m

    unfoldable pub diff_local : Dict String T → Dict String T → List (Diff T)
    diff_local id_rest [] = []
    diff_local id_rest ((id, local) ∷ m) =
        if has id id_rest
        then diff_local id_rest m
        else missing_in_rest id local warn ∷ diff_local id_rest m

    unfoldable pub diff_maps : Dict String T → Dict String T → List (Diff T)
    diff_maps id_local id_rest = diff_rest id_local id_rest ++ diff_local id_rest id_local

  unfoldable pub diff_positions : List Position → List Position → List (Diff Position)
  diff_positions local rest =
      diff_maps position_field compare_position ("activePos" ∷ [])
        ("unrealizedPnl" ∷ "realizedPnl" ∷ []) (by_id (λ p. p.id) local [])
        (by_id (λ p. p.id) rest [])

  unfoldable pub diff_balances : List Balance → List Balance → List (Diff Balance)
  diff_balances local rest =
      diff_maps balance_field compare_balance ("available" ∷ "locked" ∷ []) []
        (by_id (λ b. b.currency) local []) (by_id (λ b. b.currency) rest [])

  unfoldable pub diff_orders : List Order → List Order → List (Diff Order)
  diff_orders local rest =
      diff_maps order_field compare_order ("totalQty" ∷ "remainingQty" ∷ []) []
        (by_id (λ o. o.id) local []) (by_id (λ o. o.id) rest [])
