-- ===== src/Runtime/FundingWindowWorker/Laws.antt =====
-- The window that a worker waits for.
use coindcx_bot.Prelude.{
  ℕ, ◌≤◌, ◌≡◌, refl, ap, sym, ◌∙◌, subst, get_or, inl, inr, Bool-cases, le→leb, ◌&&◌, Option, none,
  some, List, [], ◌∷◌, ltb, leb, All, arith,
}
use coindcx_bot.Runtime.FundingWindowWorker.{
  to_window_timestamp, nearer, nearest_of_day, nearest_upcoming_window,
}

-- The nearest window is not after a candidate that is not past.
abbrev pub Beats : (now candidate : ℕ) → Option ℕ → Type 0
Beats now candidate nearest = now ≤ candidate → (w : ℕ) × (nearest ≡ some w) × (w ≤ candidate)

abbrev pub NotPast : ℕ → Option ℕ → Type 0
NotPast now none = Unit
NotPast now (some w) = now ≤ w

nearer-Beats :
    (now candidate : ℕ) (nearest : Option ℕ) → Beats now candidate (nearer now candidate nearest)
unfolding nearer
nearer-Beats now candidate none h = rw (le→leb now candidate h) (candidate, refl, omega arith)
nearer-Beats now candidate (some n) h = elim (Bool-cases (ltb candidate n)) [
  | inl e ↦ rw (le→leb now candidate h, e) (candidate, refl, omega arith)
  | inr e ↦ rw (le→leb now candidate h, e) (n, refl, ground arith)
]

nearer_keeps :
    (now c candidate : ℕ) (nearest : Option ℕ)
    → Beats now c nearest
    → Beats now c (nearer now candidate nearest)
unfolding nearer
nearer_keeps now c candidate nearest b h =
    let (w, e, l) = b h in
    elim (Bool-cases (leb now candidate && ltb candidate w)) [
      | inl k ↦ rw (e, k) (candidate, refl, ground arith)
      | inr k ↦ rw (e, k) (w, refl, l)
    ]

nearer-NotPast :
    (now candidate : ℕ) (nearest : Option ℕ)
    → NotPast now nearest
    → NotPast now (nearer now candidate nearest)
unfolding nearer
nearer-NotPast now candidate none p = ground arith
nearer-NotPast now candidate (some n) p = ground (arith, p)

upcoming : (now m : ℕ) → now ≤ to_window_timestamp now m 1
unfolding to_window_timestamp
upcoming now m = omega arith

day_keeps :
    (now c offset : ℕ) (windows : List ℕ) (nearest : Option ℕ)
    → Beats now c nearest
    → Beats now c (nearest_of_day now offset windows nearest)
unfolding nearest_of_day
day_keeps now c offset [] nearest b = b
day_keeps now c offset (m ∷ windows) nearest b =
    day_keeps now c offset windows (nearer now (to_window_timestamp now m offset) nearest)
      (nearer_keeps now c (to_window_timestamp now m offset) nearest b)

day-Beats :
    (now offset : ℕ) (windows : List ℕ) (nearest : Option ℕ)
    → All
        (λ m.
          Beats now (to_window_timestamp now m offset) (nearest_of_day now offset windows nearest))
        windows
unfolding nearest_of_day
day-Beats now offset [] nearest = tt
day-Beats now offset (m ∷ windows) nearest =
    let next = nearer now (to_window_timestamp now m offset) nearest in
    (
      day_keeps now (to_window_timestamp now m offset) offset windows next
          (nearer-Beats now (to_window_timestamp now m offset) nearest),
      day-Beats now offset windows next,
    )

day-NotPast :
    (now offset : ℕ) (windows : List ℕ) (nearest : Option ℕ)
    → NotPast now nearest
    → NotPast now (nearest_of_day now offset windows nearest)
unfolding nearest_of_day
day-NotPast now offset [] nearest p = p
day-NotPast now offset (m ∷ windows) nearest p =
    day-NotPast now offset windows (nearer now (to_window_timestamp now m offset) nearest)
      (nearer-NotPast now (to_window_timestamp now m offset) nearest p)

tomorrow-Beats :
    (now : ℕ) (windows rest : List ℕ) (nearest : Option ℕ)
    → All (λ m. Beats now (to_window_timestamp now m 0) nearest) rest
    → All (λ m. Beats now (to_window_timestamp now m 0) (nearest_of_day now 1 windows nearest)) rest
tomorrow-Beats now windows [] nearest b = tt
tomorrow-Beats now windows (m ∷ rest) nearest (b, bs) = (
  day_keeps now (to_window_timestamp now m 0) 1 windows nearest b,
  tomorrow-Beats now windows rest nearest bs,
)

-- The windows of a day that are not past are not before `w`.
abbrev pub NoneBefore : (now w offset : ℕ) → List ℕ → Type 0
NoneBefore now w offset windows =
    All (λ m. now ≤ to_window_timestamp now m offset → w ≤ to_window_timestamp now m offset) windows

none_before :
    (now w offset : ℕ) (windows : List ℕ) (nearest : Option ℕ)
    → nearest ≡ some w
    → All (λ m. Beats now (to_window_timestamp now m offset) nearest) windows
    → NoneBefore now w offset windows
none_before now w offset [] nearest e b = tt
none_before now w offset (m ∷ windows) nearest e (b, bs) = (
  λ h.
      let (v, f, l) = b h in
      subst (λ x. x ≤ to_window_timestamp now m offset) (ap (λ o. get_or o 0) (sym f ∙ e)) l,
  none_before now w offset windows nearest e bs,
)

-- If a worker has a window at all, the search for the next one always finds one: it is not past,
-- and no window of this day or the next that is not past comes before it.
pub nearest_upcoming_window_lem :
    (now m : ℕ) (windows : List ℕ)
    → (w : ℕ) × (nearest_upcoming_window now (m ∷ windows) ≡ some w)
      × (now ≤ w)
      × NoneBefore now w 0 (m ∷ windows)
      × NoneBefore now w 1 (m ∷ windows)
unfolding nearest_upcoming_window
nearest_upcoming_window_lem now m windows =
    let all = m ∷ windows in
    let today = nearest_of_day now 0 all none in
    let found = nearest_of_day now 1 all today in
    let beats_tomorrow = day-Beats now 1 all today in
    let beats_today = tomorrow-Beats now all all today (day-Beats now 0 all none) in
    let past : NotPast now found = day-NotPast now 1 all today (day-NotPast now 0 all none tt) in
    let (w, e, l) = beats_tomorrow.0 (upcoming now m) in
    (
      w,
      e,
      subst (NotPast now) e past,
      none_before now w 0 all found e beats_today,
      none_before now w 1 all found e beats_tomorrow,
    )
