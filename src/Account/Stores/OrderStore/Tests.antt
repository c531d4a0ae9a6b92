-- ===== src/Account/Stores/OrderStore/Tests.antt =====
-- Orders that fill, and a store that keeps one closed order. Texts are read as dates by a fixed table.
use coindcx_bot.Prelude.{
  ℕ, ◌≤◌, String, ◌≡◌, refl, Bool, false, Option, none, some, List, [], ◌∷◌, length, if◌then◌else◌,
  ◌==◌, string_key,
}
use coindcx_bot.Prelude.Dict.{get, set, delete}
use coindcx_bot.Prelude.Sort.{sort, insert_sorted}
use coindcx_bot.Account.Types.{
  Order, OrderStatus, open_status, partially_filled, filled, cancelled, buy, ws,
}
use coindcx_bot.Account.Stores.OrderStore.{
  OrderStoreOptions, apply_order_ws, set_orders, replace_orders, link_to_position, closed_orders,
  delete_orders, evict_expired,
}
use coindcx_bot.Account.Stores.OrderStore.Laws.{Call, ws_update, linked, call, run, run-closed}

store_code : Unit {0}
unfolding get set delete sort insert_sorted apply_order_ws set_orders replace_orders
    link_to_position delete_orders evict_expired call run
store_code = tt

abbrev opts : OrderStoreOptions
opts = record { closed_ttl_ms = 1000; closed_max = 1 }

abbrev time_of : String → Option ℕ
time_of s = if s == "early" then some 10 else (if s == "late" then some 5000 else none)

abbrev is_later : String → String → Bool
is_later s t = if s == "late" then t == "early" else false

abbrev order : String → OrderStatus → String → Order
order id status updated_at = record {
  id = id;
  pair = "BTC";
  side = buy;
  type = "limit";
  status = status;
  price = none;
  total_qty = "2";
  remaining_qty = "1";
  avg_fill_price = none;
  position_id = none;
  created_at = "early";
  updated_at = updated_at;
  source = ws;
}

abbrev calls : List Call
calls =
    ws_update (order "a" open_status "early")
    ∷ ws_update (order "b" filled "early")
    ∷ ws_update (order "c" cancelled "late")
    ∷ ws_update (order "d" filled "late")
    ∷ linked "a" "p"
    ∷ []

evicted :
    (evict_expired opts time_of is_later 5500 (run opts time_of is_later calls [])).1
    ≡ "b" ∷ "c" ∷ []
unfolding store_code
evicted = refl

regressed :
    (apply_order_ws
      (order "b" partially_filled "late")
      (run opts time_of is_later calls [])).1.changed_fields
    ≡ "status" ∷ []
unfolding store_code
regressed = refl

run-closed_example :
    length (
      closed_orders
        (evict_expired opts time_of is_later 5500 (run opts time_of is_later calls [])).0)
    ≤ 1
run-closed_example = run-closed opts time_of is_later calls 5500

abbrev rows : List Order
rows = order "e" open_status "late" ∷ []
