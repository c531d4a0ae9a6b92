-- ===== src/Account/Stores/PositionStore.antt =====
-- src/account/stores/position-store.ts. The changed fields of an update, which only say what to log, are left
-- out. `Number` of a text is `num.number`, and `n !== 0` is `not (eq n 0)`.
mod Laws
mod Tests
use coindcx_bot.Prelude.{
  String, Bool, true, false, not, ◌&&◌, ◌||◌, Option, none, some, List, [], ◌∷◌, map, filter,
  if◌then◌else◌, any, ◌==◌, string_key,
}
use coindcx_bot.Prelude.Dict.{Dict, get, set}
use coindcx_bot.Prelude.Num.{Num}
use coindcx_bot.Account.Types.{Position, Side, flat, Lifecycle, opened, closed, flipped}

abbrev pub PositionStore : Type 0
PositionStore = Dict String Position

pub record PositionApplyResult : Type 0 where
  pub prev : Option Position
  pub next : Position
  pub lifecycle : Option Lifecycle

abbrev pub flatten : Position → Position
flatten p = record p { side = flat; active_pos = "0" }

abbrev is_flat : Side → Bool
is_flat flat = true
is_flat _ = false

abbrev pub is_listed : String → List Position → Bool
is_listed id rows = any (λ r. r.id == id) rows

-- `for (const r of rows) this.map.set(r.id, r)`
unfoldable pub set_all : List Position → PositionStore → PositionStore
set_all [] store = store
set_all (r ∷ rs) store = set_all rs (set r.id r store)

abbrev pub values : PositionStore → List Position
values store = map (λ entry. entry.1) store

module _ {ℓ} {W : Type ℓ} (num : Num W) where
  open num use {of_ℕ, number, lt, eq}

  abbrev pub is_zero : Position → Bool
  is_zero p = eq (number p.active_pos) (of_ℕ 0)

  -- `Math.sign(a) !== Math.sign(b)` for numbers that are not 0
  abbrev signs_differ : W → W → Bool
  signs_differ a b = not (lt a (of_ℕ 0) && lt b (of_ℕ 0) || lt (of_ℕ 0) a && lt (of_ℕ 0) b)

  abbrev quantity : Option Position → W
  quantity none = of_ℕ 0
  quantity (some p) = number p.active_pos

  unfoldable pub classify_lifecycle : Option Position → Position → Option Lifecycle
  classify_lifecycle prev next =
      let a = quantity prev in
      let b = number next.active_pos in
      if eq a (of_ℕ 0) && not (eq b (of_ℕ 0))
      then some opened
      else (if not (eq a (of_ℕ 0)) && eq b (of_ℕ 0)
          then some closed
          else (if not (eq a (of_ℕ 0)) && not (eq b (of_ℕ 0)) && signs_differ a b
              then some flipped
              else none))

  unfoldable pub apply_ws : Position → PositionStore → PositionStore × PositionApplyResult
  apply_ws next store = (
    set next.id next store,
    record {
      prev = get next.id store;
      next = next;
      lifecycle = classify_lifecycle (get next.id store) next;
    },
  )

  -- The positions that `rows` does not list are closed in place.
  unfoldable pub flatten_missing : List Position → PositionStore → PositionStore
  flatten_missing rows [] = []
  flatten_missing rows ((id, p) ∷ rest) =
      (id, (if not (is_listed id rows) && not (is_zero p) then flatten p else p))
      ∷ flatten_missing rows rest

  unfoldable pub synthesized_flat : List Position → PositionStore → List String
  synthesized_flat rows store =
      map (λ entry. entry.0)
        (filter (λ entry. not (is_listed entry.0 rows) && not (is_zero entry.1)) store)

  unfoldable pub replace_from_rest : List Position → PositionStore → PositionStore × List String
  replace_from_rest rows store =
      (set_all rows (flatten_missing rows store), synthesized_flat rows store)

  unfoldable pub open_positions : PositionStore → List Position
  open_positions store = filter (λ p. not (is_zero p)) (values store)

  unfoldable pub evict_flat : PositionStore → PositionStore × List String
  evict_flat store = (
    filter (λ entry. not (is_flat entry.1.side && is_zero entry.1)) store,
    map (λ entry. entry.0) (filter (λ entry. is_flat entry.1.side && is_zero entry.1) store),
  )
