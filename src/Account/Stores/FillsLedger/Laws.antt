-- ===== src/Account/Stores/FillsLedger/Laws.antt =====
-- What the ledger keeps.
use coindcx_bot.Prelude.{
  ℕ, zero, suc, ◌-◌, ◌≤◌, String, ◌≡◌, refl, ap, sym, ◌∙◌, ◌⊎◌, inl, inr, Bool, true, false, List,
  [], ◌∷◌, ◌++◌, map, if◌then◌else◌, ltb, length, length-drop, drop, ◌==◌, string_key, arith,
  Bool-cases,
}
use coindcx_bot.Account.Types.{Fill}
use coindcx_bot.Account.Stores.FillsLedger.{
  FillsLedger, new_ledger, has_id, delete_id, evict, set_cursor, append,
}

abbrev pub Distinct : List String → Type 0
Distinct [] = Unit
Distinct (x ∷ xs) = (has_id x xs ≡ false) × Distinct xs

delete_absent : (x : String) (xs : List String) → has_id x xs ≡ false → delete_id x xs ≡ xs
delete_absent x [] h = refl
delete_absent x (y ∷ ys) h = ground (arith, delete_absent x ys)

has_id-snoc :
    (x y : String) (xs : List String)
    → has_id y xs ≡ false
    → (x == y) ≡ false
    → has_id y (xs ++ x ∷ []) ≡ false
has_id-snoc x y [] h e = ground arith
has_id-snoc x y (z ∷ zs) h e = ground (arith, has_id-snoc x y zs)

Distinct-snoc :
    (x : String) (xs : List String) → Distinct xs → has_id x xs ≡ false → Distinct (xs ++ x ∷ [])
Distinct-snoc x [] d h = (refl, tt)
Distinct-snoc x (y ∷ ys) (a, d) h = (
  has_id-snoc x y ys a (ground (arith, string_key.same_iff x y, string_key.same_iff y x)),
  Distinct-snoc x ys d (ground arith),
)

Distinct-drop : (n : ℕ) (xs : List String) → Distinct xs → Distinct (drop n xs)
Distinct-drop zero xs d = d
Distinct-drop (suc n) [] d = tt
Distinct-drop (suc n) (x ∷ xs) (a, d) = Distinct-drop n xs d

abbrev pub ids_of : List Fill → List String
ids_of = map (λ f. f.id)

ids_of-drop : (n : ℕ) (fs : List Fill) → ids_of (drop n fs) ≡ drop n (ids_of fs)
ids_of-drop zero fs = refl
ids_of-drop (suc n) [] = refl
ids_of-drop (suc n) (f ∷ fs) = ids_of-drop n fs

ids_of-snoc : (fs : List Fill) (f : Fill) → ids_of (fs ++ f ∷ []) ≡ ids_of fs ++ f.id ∷ []
ids_of-snoc [] f = refl
ids_of-snoc (g ∷ fs) f = ap (◌∷◌ g.id) (ids_of-snoc fs f)

delete_head : (x : String) (xs : List String) → has_id x xs ≡ false → delete_id x (x ∷ xs) ≡ xs
delete_head x xs h = ground (arith, delete_absent x xs h, string_key.same_iff x x)

-- The loop drops the oldest fills over the size, and their ids.
evict-drop :
    (size : ℕ) (fs : List Fill)
    → Distinct (ids_of fs)
    → evict size fs (ids_of fs) ≡ (drop (length fs - size) fs, ids_of (drop (length fs - size) fs))
unfolding evict
evict-drop size [] d = let n : 0 - size ≡ 0 = omega arith in rw n refl
evict-drop size (f ∷ fs) (a, d) = elim (Bool-cases (ltb size (suc (length fs)))) [
  | inl e ↦
      let n : suc (length fs) - size ≡ suc (length fs - size) = ground (arith, e) in
      rw (e, n, delete_head f.id (ids_of fs) a) (evict-drop size fs d)
  | inr e ↦ let n : suc (length fs) - size ≡ 0 = ground (arith, e) in rw (e, n) refl
]

-- The ids are those of the ring, no two alike, and the ring has at most its size.
pub record IsLedger (l : FillsLedger) : Type 0 where
  pub ids_are : l.ids ≡ ids_of l.ring
  pub distinct : Distinct (ids_of l.ring)
  pub bounded : length l.ring ≤ l.ring_size

-- The last fills of a list, at most `size`.
abbrev pub last_of : ℕ → List Fill → List Fill
last_of size fs = drop (length fs - size) fs

snoc-Distinct :
    (fill : Fill) (l : FillsLedger)
    → IsLedger l
    → has_id fill.id (ids_of l.ring) ≡ false
    → Distinct (ids_of (l.ring ++ fill ∷ []))
snoc-Distinct fill l v e =
    rw (ids_of-snoc l.ring fill) (Distinct-snoc fill.id (ids_of l.ring) v.distinct e)

module _ (gt : String → String → Bool) where
  -- A fill whose id is in the ring is refused and changes nothing. Any other is taken: the ring is then
  -- the last fills that fit, the new one included, and the cursor is the later of the old one
  -- and the fill's time.
  pub append-last_of :
      (fill : Fill) (l : FillsLedger)
      → IsLedger l
      → ((has_id fill.id (ids_of l.ring) ≡ true) × (append gt fill l ≡ (l, false)))
        ⊎ ((has_id fill.id (ids_of l.ring) ≡ false)
            × ((append gt fill l).1 ≡ true)
            × ((append gt fill l).0.ring ≡ last_of l.ring_size (l.ring ++ fill ∷ []))
            × ((append gt fill l).0.ids ≡ ids_of (last_of l.ring_size (l.ring ++ fill ∷ [])))
            × ((append gt fill l).0.max_cursor
                ≡ (if gt fill.executed_at l.max_cursor then fill.executed_at else l.max_cursor))
            × ((append gt fill l).0.ring_size ≡ l.ring_size))
  unfolding append set_cursor
  append-last_of fill l v = elim (Bool-cases (has_id fill.id l.ids)) [
    | inl e ↦ inl (rw v.ids_are at e, rw e refl)
    | inr e ↦
        let k =
          evict-drop l.ring_size (l.ring ++ fill ∷ [])
            (snoc-Distinct fill l v (rw v.ids_are at e)) in
        let i : l.ids ++ fill.id ∷ [] ≡ ids_of (l.ring ++ fill ∷ []) =
          ap (λ ids. ids ++ fill.id ∷ []) v.ids_are ∙ sym (ids_of-snoc l.ring fill) in
        inr
          (rw v.ids_are at e, rw e refl, rw (e, i, k) refl, rw (e, i, k) refl, rw e refl, rw e refl)
  ]

  append-IsLedger : (fill : Fill) (l : FillsLedger) → IsLedger l → IsLedger (append gt fill l).0
  append-IsLedger fill l v = elim (append-last_of fill l v) [
    | inl p ↦ rw (p.1) v
    | inr p ↦ record {
      ids_are = p.3 ∙ ap ids_of (sym p.2);
      distinct =
          rw (p.2, ids_of-drop (length (l.ring ++ fill ∷ []) - l.ring_size) (l.ring ++ fill ∷ []))
            (Distinct-drop (length (l.ring ++ fill ∷ []) - l.ring_size)
              (ids_of (l.ring ++ fill ∷ [])) (snoc-Distinct fill l v p.0));
      bounded =
          rw (p.2, p.5)
            (omega (
              arith,
              length-drop (length (l.ring ++ fill ∷ []) - l.ring_size) (l.ring ++ fill ∷ []),
            ));
    }
  ]

  unfoldable pub run : List Fill → FillsLedger → FillsLedger
  run [] l = l
  run (f ∷ fs) l = run fs (append gt f l).0

  run_from : (fs : List Fill) (l : FillsLedger) → IsLedger l → IsLedger (run fs l)
  unfolding run
  run_from [] l v = v
  run_from (f ∷ fs) l v = run_from fs (append gt f l).0 (append-IsLedger f l v)

  -- After any appends to a new ledger the ids are those of the ring, no two alike, and the ring is not
  -- over its size.
  pub run-IsLedger : (size : ℕ) (fs : List Fill) → IsLedger (run fs (new_ledger size))
  run-IsLedger size fs =
      run_from fs (new_ledger size)
        (record { ids_are = refl; distinct = tt; bounded = omega arith })
