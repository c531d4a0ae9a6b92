-- ===== src/Strategy/Controller/Streaks.antt =====
-- The error streaks of the registry's entries.
use coindcx_bot.Prelude.{
  ℕ, suc, ◌<◌, String, ◌≡◌, ◌≢◌, refl, sym, inl, inr, true, false, Option, none, some,
  if◌then◌else◌, get_or, arith, Bool-cases, Option-cases, ◌==◌, string_key,
}
use coindcx_bot.Prelude.Dict.{Dict, get, set, get-set}
use coindcx_bot.Strategy.Registry.{
  RegistryEntry, update, disable, with_error, record_error, streak_of,
}

false≢true : false ≢ true
false≢true e = cc

module _ {ℓ} {I : Type ℓ} (n : ℕ) where
  -- An enabled entry has no streak of n errors.
  abbrev pub Tolerates : RegistryEntry I → Type 0
  Tolerates e = e.enabled ≡ true → (pair : String) → streak_of pair e < n

  abbrev pub Tolerated : Option (RegistryEntry I) → Type 0
  Tolerated none = Unit
  Tolerated (some e) = Tolerates e

  abbrev pub AllTolerate : Dict String (RegistryEntry I) → Type 0
  AllTolerate m = (id : String) → Tolerated (get id m)

  pub set-AllTolerate :
      (id : String) (e : RegistryEntry I) (m : Dict String (RegistryEntry I))
      → Tolerates e
      → AllTolerate m
      → AllTolerate (set id e m)
  set-AllTolerate id e m t a j = elim (Bool-cases (id == j)) [
    | inl k ↦ rw (get-set id j e m, k) t
    | inr k ↦ rw (get-set id j e m, k) (a j)
  ]

  pub update-AllTolerate :
      (id : String) (f : RegistryEntry I → RegistryEntry I) (m : Dict String (RegistryEntry I))
      → ((e : RegistryEntry I) → get id m ≡ some e → Tolerates e → Tolerates (f e))
      → AllTolerate m
      → AllTolerate (update id f m)
  unfolding update
  update-AllTolerate id f m h a = elim (Option-cases (get id m)) [
    | inl g ↦ rw g a
    | inr (e, g) ↦ rw g (set-AllTolerate id (f e) m (h e g (rw g at (a id))) a)
  ]

  -- A success ends the streak of the pair.
  pub reset-Tolerates :
      (pair : String) (e : RegistryEntry I)
      → Tolerates e
      → Tolerates (record e { error_streak = set pair 0 e.error_streak })
  unfolding streak_of
  reset-Tolerates pair e t on p = elim (Bool-cases (pair == p)) [
    | inl k ↦ ground (arith, get-set pair p 0 e.error_streak, t on p)
    | inr k ↦ ground (arith, get-set pair p 0 e.error_streak, t on p)
  ]

  counted :
      (pair p : String) (e : RegistryEntry I)
      → streak_of p e < n
      → suc (streak_of pair e) < n
      → get_or (get p (set pair (suc (streak_of pair e)) e.error_streak)) 0 < n
  unfolding streak_of
  counted pair p e t lt = elim (Bool-cases (pair == p)) [
    | inl k ↦ rw (get-set pair p (suc (streak_of pair e)) e.error_streak, k) lt
    | inr k ↦ rw (get-set pair p (suc (streak_of pair e)) e.error_streak, k) t
  ]

  error-Tolerates :
      (pair : String) (e : RegistryEntry I)
      → Tolerates e
      → (if pair == "" then 0 else suc (streak_of pair e)) < n
      → Tolerates (with_error pair e)
  unfolding streak_of
  error-Tolerates pair e t lt on p = elim (Bool-cases (pair == "")) [
    | inl k ↦ rw k (t on p)
    | inr k ↦ rw k (counted pair p e (t on p) (rw k at lt))
  ]

  pub record_error-AllTolerate :
      (id pair : String) (m : Dict String (RegistryEntry I))
      → (record_error id pair m).1 < n
      → AllTolerate m
      → AllTolerate (record_error id pair m).0
  unfolding record_error
  record_error-AllTolerate id pair m lt a =
      update-AllTolerate id (with_error pair) m (λ e g t. error-Tolerates pair e t (rw g at lt)) a

  get-update_other :
      (id j : String) (f : RegistryEntry I → RegistryEntry I) (m : Dict String (RegistryEntry I))
      → (id == j) ≡ false
      → get j (update id f m) ≡ get j m
  unfolding update
  get-update_other id j f m k = elim (Option-cases (get id m)) [
    | inl g ↦ rw g refl
    | inr (e, g) ↦ rw (g, get-set id j (f e) m, k) refl
  ]

  pub record_error_other :
      (id j pair : String) (m : Dict String (RegistryEntry I))
      → (id == j) ≡ false
      → Tolerated (get j m)
      → Tolerated (get j (record_error id pair m).0)
  unfolding record_error
  record_error_other id j pair m k t = rw (get-update_other id j (with_error pair) m k) t

  -- Disabling a strategy leaves the others, and an entry that is off tolerates anything.
  pub disable-AllTolerate :
      (id : String) (m : Dict String (RegistryEntry I))
      → ((j : String) → (id == j) ≡ false → Tolerated (get j m))
      → AllTolerate (disable id m)
  unfolding update
  disable-AllTolerate id m a j = elim (Option-cases (get id m)) [
    | inl g ↦ elim (Bool-cases (id == j)) [
      | inl k ↦ rw (g, sym ((string_key.same_iff id j).0 k), g) tt
      | inr k ↦ rw g (a j k)
    ]
    | inr (e, g) ↦ elim (Bool-cases (id == j)) [
      | inl k ↦
          rw (g, get-set id j (record e { enabled = false }) m, k) (λ on. absurd (false≢true on))
      | inr k ↦ rw (g, get-set id j (record e { enabled = false }) m, k) (a j k)
    ]
  ]
