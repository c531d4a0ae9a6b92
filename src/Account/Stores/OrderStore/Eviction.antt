-- ===== src/Account/Stores/OrderStore/Eviction.antt =====
-- The bound on the closed orders of a store.
use coindcx_bot.Prelude.{
  ℕ, zero, suc, ◌-◌, ◌≤◌, String, ◌≡◌, refl, ap, sym, ◌∙◌, inl, inr, Bool, false, not, Option, List,
  [], ◌∷◌, ◌++◌, filter, any, ltb, ltb→lt, length, take, drop, ◌==◌, string_key, filter-append,
  length-drop, length-filter-le, Bool-cases, All, All-filter, arith,
}
use coindcx_bot.Prelude.Dict.{delete}
use coindcx_bot.Prelude.Sort.{sort, insert_sorted, length-sort}
use coindcx_bot.Account.Types.{Order}
use coindcx_bot.Account.Stores.OrderStore.{
  OrderStore, OrderStoreOptions, is_closed, order_values, closed_orders, updated_later, overflow,
  delete_orders, is_expired, unexpired, evict_expired,
}

-- Each order stands under its own id.
abbrev pub IsKeyed : OrderStore → Type 0
IsKeyed store = All (λ e. e.0 ≡ e.1.id) store

abbrev spared : List Order → Order → Bool
spared os o = not (any (λ x. x.id == o.id) os)

module _ {ℓ} {A : Type ℓ} where
  filter-none : (p : A → Bool) (xs : List A) → All (λ x. p x ≡ false) xs → filter p xs ≡ []
  filter-none p [] h = refl
  filter-none p (x ∷ xs) (h, hs) = ground (arith, filter-none p xs hs)

  take-drop : (n : ℕ) (xs : List A) → take n xs ++ drop n xs ≡ xs
  take-drop zero xs = refl
  take-drop (suc n) [] = refl
  take-drop (suc n) (x ∷ xs) = ap (λ ys. x ∷ ys) (take-drop n xs)

  length-filter-insert :
      (after : A → A → Bool) (p : A → Bool) (x : A) (xs : List A)
      → length (filter p (insert_sorted after x xs)) ≡ length (filter p (x ∷ xs))
  unfolding insert_sorted
  length-filter-insert after p x [] = refl
  length-filter-insert after p x (y ∷ ys) = ground (arith, length-filter-insert after p x ys)

  length-filter-sort :
      (after : A → A → Bool) (p : A → Bool) (xs : List A)
      → length (filter p (sort after xs)) ≡ length (filter p xs)
  unfolding sort
  length-filter-sort after p [] = refl
  length-filter-sort after p (x ∷ xs) =
      length-filter-insert after p x (sort after xs) ∙ ground (arith, length-filter-sort after p xs)

spared_weaken :
    (o : Order) (os xs : List Order)
    → All (λ x. spared os x ≡ false) xs
    → All (λ x. spared (o ∷ os) x ≡ false) xs
spared_weaken o os [] h = tt
spared_weaken o os (x ∷ xs) (h, hs) = (ground arith, spared_weaken o os xs hs)

spared_self : (os : List Order) → All (λ o. spared os o ≡ false) os
spared_self [] = tt
spared_self (o ∷ os) =
    (ground (arith, string_key.same_iff o.id o.id), spared_weaken o os os (spared_self os))

filter-delete :
    (closed : Order → Bool) (id : String) (store : OrderStore)
    → IsKeyed store
    → filter closed (order_values (delete id store))
      ≡ filter (λ o. not (o.id == id)) (filter closed (order_values store))
unfolding delete
filter-delete closed id [] k = refl
filter-delete closed id ((j, o) ∷ store) (k, ks) = ground (
  arith,
  filter-delete closed id store ks,
  string_key.same_iff j id,
  string_key.same_iff o.id id,
  k,
)

pub delete-IsKeyed : (id : String) (store : OrderStore) → IsKeyed store → IsKeyed (delete id store)
unfolding delete
delete-IsKeyed id [] k = tt
delete-IsKeyed id ((j, o) ∷ store) (k, ks) = ground (arith, k, delete-IsKeyed id store ks)

filter_twice :
    (o : Order) (os xs : List Order)
    → filter (spared os) (filter (λ x. not (x.id == o.id)) xs) ≡ filter (spared (o ∷ os)) xs
filter_twice o os [] = refl
filter_twice o os (x ∷ xs) =
    ground
      (arith, filter_twice o os xs, string_key.same_iff x.id o.id, string_key.same_iff o.id x.id)

filter_all : (xs : List Order) → filter (spared []) xs ≡ xs
filter_all [] = refl
filter_all (x ∷ xs) = ap (λ ys. x ∷ ys) (filter_all xs)

-- Deleting orders by id leaves those of other ids.
filter-delete_orders :
    (closed : Order → Bool) (os : List Order) (store : OrderStore)
    → IsKeyed store
    → filter closed (order_values (delete_orders os store))
      ≡ filter (spared os) (filter closed (order_values store))
unfolding delete_orders
filter-delete_orders closed [] store k = sym (filter_all _)
filter-delete_orders closed (o ∷ os) store k =
    filter-delete_orders closed os (delete o.id store) (delete-IsKeyed o.id store k)
    ∙ ap (filter (spared os)) (filter-delete closed o.id store k)
    ∙ filter_twice o os (filter closed (order_values store))

module _ (opts : OrderStoreOptions) (time_of : String → Option ℕ)
    (is_later : String → String → Bool) where
  spared_le :
      (closed : List Order)
      → length (filter (spared (overflow opts time_of is_later closed)) closed) ≤ opts.closed_max
  spared_le closed = elim (Bool-cases (ltb opts.closed_max (length closed))) [
    | inl e ↦
        let s = sort (updated_later opts time_of is_later) closed in
        let n = length closed - opts.closed_max in
        let over = take n s in
        let kept = filter (spared over) (drop n s) in
        let split : filter (spared over) s ≡ kept =
          ap (filter (spared over)) (sym (take-drop n s))
          ∙ filter-append (spared over) over (drop n s)
          ∙ ap (λ xs. xs ++ kept) (filter-none (spared over) over (spared_self over)) in
        rw e (
          omega (
            arith,
            length-filter-sort (updated_later opts time_of is_later) (spared over) closed,
            ap length split,
            length-filter-le (spared over) (drop n s),
            length-drop n s,
            length-sort (updated_later opts time_of is_later) closed,
            ltb→lt opts.closed_max (length closed) e,
          ))
    | inr e ↦ rw e (ground (arith, ap length (filter_all closed)))
  ]

  pub unexpired-IsKeyed :
      (now : ℕ) (store : OrderStore)
      → IsKeyed store
      → IsKeyed (unexpired opts time_of is_later now store)
  unexpired-IsKeyed now store k =
      All-filter (λ e. e.0 ≡ e.1.id) (λ e. not (is_expired opts time_of is_later now e.1)) store k

  -- However many closed orders a store holds, an eviction leaves at most `closedMax` of them, if each order
  -- stands under its own id, as the store's operations put it.
  pub closed-evict_expired :
      (now : ℕ) (store : OrderStore)
      → IsKeyed store
      → length (closed_orders (evict_expired opts time_of is_later now store).0) ≤ opts.closed_max
  unfolding evict_expired
  closed-evict_expired now store k =
      let kept = unexpired opts time_of is_later now store in
      let over = overflow opts time_of is_later (closed_orders kept) in
      rw (filter-delete_orders (λ o. is_closed o.status) over kept (unexpired-IsKeyed now store k))
        (spared_le (closed_orders kept))
