-- ===== src/Account/Stores/OrderStore.antt =====
-- src/account/stores/order-store.ts. `time_of` is `new Date(s).getTime()` of a text, `none` for a date that cannot
-- be read, and `is_later s t` is `s.localeCompare(t) > 0`.
mod Laws
mod Eviction
mod Tests
use coindcx_bot.Prelude.{
  ℕ, ◌+◌, ◌-◌, String, Bool, true, false, not, Option, none, some, List, [], ◌∷◌, ◌++◌, map, filter,
  if◌then◌else◌, ltb, length, take, ◌==◌, string_key, KeyEq,
}
use coindcx_bot.Prelude.Dict.{Dict, get, set, delete}
use coindcx_bot.Prelude.Sort.{sort}
use coindcx_bot.Account.Types.{
  Order, OrderStatus, open_status, partially_filled, filled, cancelled, rejected,
}

abbrev pub OrderStore : Type 0
OrderStore = Dict String Order

abbrev pub is_closed : OrderStatus → Bool
is_closed filled = true
is_closed cancelled = true
is_closed rejected = true
is_closed _ = false

abbrev pub rank : OrderStatus → ℕ
rank open_status = 0
rank partially_filled = 1
rank _ = 2

abbrev pub same_status : OrderStatus → OrderStatus → Bool
same_status open_status open_status = true
same_status partially_filled partially_filled = true
same_status filled filled = true
same_status cancelled cancelled = true
same_status rejected rejected = true
same_status _ _ = false

-- `===` on texts that may be missing
abbrev pub same_text : Option String → Option String → Bool
same_text none none = true
same_text (some s) (some t) = s == t
same_text _ _ = false

pub record Regression : Type 0 where
  pub id : String
  pub from : OrderStatus
  pub to : OrderStatus

pub record OrderApplyResult : Type 0 where
  pub prev : Option Order
  pub next : Order
  pub changed_fields : List String
  pub regression : Option Regression

abbrev field : String → Bool → List String
field name same = if same then [] else name ∷ []

abbrev pub changes : Option Order → Order → List String
changes none next = "*" ∷ []
changes (some prev) next =
    field "status" (same_status prev.status next.status)
    ++ (field "remainingQty" (prev.remaining_qty == next.remaining_qty)
        ++ (field "avgFillPrice" (same_text prev.avg_fill_price next.avg_fill_price)
            ++ (field "price" (same_text prev.price next.price)
                ++ field "positionId" (same_text prev.position_id next.position_id))))

abbrev pub regression_of : Option Order → Order → Option Regression
regression_of none next = none
regression_of (some prev) next =
    if ltb (rank next.status) (rank prev.status)
    then some (record { id = next.id; from = prev.status; to = next.status })
    else none

unfoldable pub apply_order_ws : Order → OrderStore → OrderStore × OrderApplyResult
apply_order_ws next store = (
  set next.id next store,
  record {
    prev = get next.id store;
    next = next;
    changed_fields = changes (get next.id store) next;
    regression = regression_of (get next.id store) next;
  },
)

unfoldable pub set_orders : List Order → OrderStore → OrderStore
set_orders [] store = store
set_orders (r ∷ rs) store = set_orders rs (set r.id r store)

abbrev pub keep_closed : OrderStore → OrderStore
keep_closed store = filter (λ e. is_closed e.1.status) store

unfoldable pub replace_orders : List Order → OrderStore → OrderStore
replace_orders open_rows store = set_orders open_rows (keep_closed store)

abbrev link : Option Order → String → String → OrderStore → OrderStore
link none order_id position_id store = store
link (some o) order_id position_id store =
    set order_id (record o { position_id = some position_id }) store

unfoldable pub link_to_position : (order_id position_id : String) → OrderStore → OrderStore
link_to_position order_id position_id store = link (get order_id store) order_id position_id store

abbrev pub order_values : OrderStore → List Order
order_values store = map (λ e. e.1) store

pub record OrderStoreOptions : Type 0 where
  pub closed_ttl_ms : ℕ
  pub closed_max : ℕ

abbrev pub closed_orders : OrderStore → List Order
closed_orders store = filter (λ o. is_closed o.status) (order_values store)

unfoldable pub delete_orders : List Order → OrderStore → OrderStore
delete_orders [] store = store
delete_orders (o ∷ os) store = delete_orders os (delete o.id store)

module _ (opts : OrderStoreOptions) (time_of : String → Option ℕ)
    (is_later : String → String → Bool) where
  -- `now - updatedAt > closedTtlMs`
  abbrev older_than : ℕ → Option ℕ → Bool
  older_than now none = false
  older_than now (some t) = ltb (t + opts.closed_ttl_ms) now

  abbrev pub is_expired : ℕ → Order → Bool
  is_expired now o = if is_closed o.status then older_than now (time_of o.updated_at) else false

  abbrev pub updated_later : Order → Order → Bool
  updated_later a b = is_later a.updated_at b.updated_at

  -- The oldest closed orders beyond the bound.
  abbrev pub overflow : List Order → List Order
  overflow closed =
      if ltb opts.closed_max (length closed)
      then take (length closed - opts.closed_max) (sort updated_later closed)
      else []

  abbrev pub unexpired : ℕ → OrderStore → OrderStore
  unexpired now store = filter (λ e. not (is_expired now e.1)) store

  abbrev pub ids_of_expired : ℕ → OrderStore → List String
  ids_of_expired now store = map (λ e. e.0) (filter (λ e. is_expired now e.1) store)

  unfoldable pub evict_expired : ℕ → OrderStore → OrderStore × List String
  evict_expired now store =
      let kept = unexpired now store in
      let over = overflow (closed_orders kept) in
      (delete_orders over kept, ids_of_expired now store ++ map (λ o. o.id) over)
