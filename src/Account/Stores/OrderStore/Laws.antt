-- ===== src/Account/Stores/OrderStore/Laws.antt =====
-- What the updates, the sweeps and the links keep.
use coindcx_bot.Prelude.{
  ℕ, String, ◌≡◌, refl, Bool, true, ◌||◌, Option, none, some, List, [], ◌∷◌, any, ◌==◌, string_key,
  All, All-filter, length, ◌≤◌, arith,
}
use coindcx_bot.Prelude.Dict.{get, set, delete}
use coindcx_bot.Account.Types.{Order}
use coindcx_bot.Account.Stores.OrderStore.{
  OrderStore, OrderStoreOptions, is_closed, apply_order_ws, set_orders, keep_closed, replace_orders,
  link_to_position, closed_orders, delete_orders, evict_expired,
}
use coindcx_bot.Account.Stores.OrderStore.Eviction.{
  IsKeyed, unexpired-IsKeyed, delete-IsKeyed, closed-evict_expired,
}

pub data Call : Type 0 where
  ws_update : Order → Call
  sweep : List Order → Call
  linked : (order_id position_id : String) → Call
  eviction : ℕ → Call

set-IsKeyed :
    (o : Order) (id : String) (store : OrderStore)
    → id ≡ o.id
    → IsKeyed store
    → IsKeyed (set id o store)
unfolding set
set-IsKeyed o id [] e k = (e, tt)
set-IsKeyed o id ((j, p) ∷ store) e (k, ks) = ground (arith, e, k, set-IsKeyed o id store e ks)

set_orders-IsKeyed :
    (rows : List Order) (store : OrderStore) → IsKeyed store → IsKeyed (set_orders rows store)
unfolding set_orders
set_orders-IsKeyed [] store k = k
set_orders-IsKeyed (r ∷ rows) store k =
    set_orders-IsKeyed rows (set r.id r store) (set-IsKeyed r r.id store refl k)

get-IsKeyed :
    (id : String) (o : Order) (store : OrderStore)
    → IsKeyed store
    → get id store ≡ some o
    → id ≡ o.id
unfolding get
get-IsKeyed id o [] k e = ground arith
get-IsKeyed id o ((j, p) ∷ store) (k, ks) e =
    ground (arith, k, e, get-IsKeyed id o store ks, string_key.same_iff j id)

delete_orders-IsKeyed :
    (os : List Order) (store : OrderStore) → IsKeyed store → IsKeyed (delete_orders os store)
unfolding delete_orders
delete_orders-IsKeyed [] store k = k
delete_orders-IsKeyed (o ∷ os) store k =
    delete_orders-IsKeyed os (delete o.id store) (delete-IsKeyed o.id store k)

module _ (opts : OrderStoreOptions) (time_of : String → Option ℕ)
    (is_later : String → String → Bool) where
  unfoldable pub call : Call → OrderStore → OrderStore
  call (ws_update o) store = (apply_order_ws o store).0
  call (sweep rows) store = replace_orders rows store
  call (linked order_id position_id) store = link_to_position order_id position_id store
  call (eviction now) store = (evict_expired opts time_of is_later now store).0

  unfoldable pub run : List Call → OrderStore → OrderStore
  run [] store = store
  run (c ∷ cs) store = run cs (call c store)

  link-IsKeyed :
      (o : Option Order) (order_id position_id : String) (store : OrderStore)
      → get order_id store ≡ o
      → IsKeyed store
      → IsKeyed (link_to_position order_id position_id store)
  unfolding link_to_position
  link-IsKeyed none order_id position_id store e k = rw e k
  link-IsKeyed (some o) order_id position_id store e k = rw e (
      set-IsKeyed (record o { position_id = some position_id }) order_id store
        (get-IsKeyed order_id o store k e) k)

  call-IsKeyed : (c : Call) (store : OrderStore) → IsKeyed store → IsKeyed (call c store)
  unfolding call apply_order_ws replace_orders evict_expired
  call-IsKeyed (ws_update o) store k = set-IsKeyed o o.id store refl k
  call-IsKeyed (sweep rows) store k =
      set_orders-IsKeyed rows (keep_closed store)
        (All-filter (λ e. e.0 ≡ e.1.id) (λ e. is_closed e.1.status) store k)
  call-IsKeyed (linked order_id position_id) store k =
      link-IsKeyed (get order_id store) order_id position_id store refl k
  call-IsKeyed (eviction now) store k =
      delete_orders-IsKeyed _ _ (unexpired-IsKeyed opts time_of is_later now store k)

  run-IsKeyed : (cs : List Call) (store : OrderStore) → IsKeyed store → IsKeyed (run cs store)
  unfolding run
  run-IsKeyed [] store k = k
  run-IsKeyed (c ∷ cs) store k = run-IsKeyed cs (call c store) (call-IsKeyed c store k)

  -- After any updates, sweeps, links and evictions of a new store, an eviction leaves at most `closedMax`
  -- orders that are filled, cancelled or rejected.
  pub run-closed :
      (cs : List Call) (now : ℕ)
      → length (closed_orders (evict_expired opts time_of is_later now (run cs [])).0)
        ≤ opts.closed_max
  run-closed cs now =
      closed-evict_expired opts time_of is_later now (run cs []) (run-IsKeyed cs [] tt)

abbrev pub is_row : String → List Order → Bool
is_row id rows = any (λ r. r.id == id) rows

abbrev pub ClosedOrListed : List Order → OrderStore → Type 0
ClosedOrListed rows store = All (λ e. (is_closed e.1.status || is_row e.0 rows) ≡ true) store

set-Listed :
    (rows : List Order) (o : Order) (store : OrderStore)
    → is_row o.id rows ≡ true
    → ClosedOrListed rows store
    → ClosedOrListed rows (set o.id o store)
unfolding set
set-Listed rows o [] e h = (ground (arith, e), tt)
set-Listed rows o ((j, p) ∷ store) e (h, hs) = ground (arith, e, h, set-Listed rows o store e hs)

set_orders-Listed :
    (rows rest : List Order) (store : OrderStore)
    → All (λ r. is_row r.id rows ≡ true) rest
    → ClosedOrListed rows store
    → ClosedOrListed rows (set_orders rest store)
unfolding set_orders
set_orders-Listed rows [] store l h = h
set_orders-Listed rows (r ∷ rest) store (l, ls) h =
    set_orders-Listed rows rest (set r.id r store) ls (set-Listed rows r store l h)

row_weaken :
    (r : Order) (rows xs : List Order)
    → All (λ x. is_row x.id rows ≡ true) xs
    → All (λ x. is_row x.id (r ∷ rows) ≡ true) xs
row_weaken r rows [] h = tt
row_weaken r rows (x ∷ xs) (h, hs) = (ground (arith, h), row_weaken r rows xs hs)

rows_listed : (rows : List Order) → All (λ r. is_row r.id rows ≡ true) rows
rows_listed [] = tt
rows_listed (r ∷ rows) =
    (ground (arith, string_key.same_iff r.id r.id), row_weaken r rows rows (rows_listed rows))

keep_closed-Listed :
    (rows : List Order) (store : OrderStore) → ClosedOrListed rows (keep_closed store)
keep_closed-Listed rows [] = tt
keep_closed-Listed rows (e ∷ store) = ground (arith, keep_closed-Listed rows store)

-- After a sweep, each order that the store holds as open or partially filled is one that the exchange listed.
pub replace_orders_listed :
    (rows : List Order) (store : OrderStore) → ClosedOrListed rows (replace_orders rows store)
unfolding replace_orders
replace_orders_listed rows store =
    set_orders-Listed rows rows (keep_closed store) (rows_listed rows)
      (keep_closed-Listed rows store)
