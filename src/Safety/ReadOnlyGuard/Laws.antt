-- ===== src/Safety/ReadOnlyGuard/Laws.antt =====
-- What the guard lets through.
use text.Mathlib.Text.{starts_with}
use text.Mathlib.TextEquality.{eq_iff, starts_with_iff}
use text.Mathlib.TextBridge.{IsPrefix}
use coindcx_bot.Prelude.{
  String, ◌≡◌, ◌⊎◌, inl, inr, ◌↔◌, true, false, List, [], ◌∷◌, ◌++◌, arith, ◌==◌, ◌&&◌, string_key,
  if◌then◌else◌, Bool-cases,
}
use coindcx_bot.Safety.ReadOnlyGuard.{
  GuardOptions, RequestConfig, passed, thrown, has_prefix_in, is_write_verb, deny_paths,
  signed_read_post_paths, deny, allow_posts, method_of, path_of, violation, intercept,
}

-- Some item of the list has the property.
abbrev pub Exists {ℓ} : {A : Type ℓ} → (A → Type 0) → List A → Type 0
Exists P [] = ⊥
Exists P (x ∷ xs) = P x ⊎ Exists P xs

-- Some text of the list is a prefix of the path.
abbrev pub HasPrefixIn : List String → String → Type 0
HasPrefixIn prefixes path = Exists (λ p. IsPrefix p path) prefixes

has_prefix_in→ :
    (ps : List String) (path : String) → has_prefix_in ps path ≡ true → HasPrefixIn ps path
unfolding has_prefix_in
has_prefix_in→ [] path h = absurd (cc)
has_prefix_in→ (p ∷ ps) path h = elim (Bool-cases (starts_with path p)) [
  | inl e ↦ inl ((starts_with_iff path p).0 e)
  | inr e ↦ inr (has_prefix_in→ ps path (rw e at h))
]

pub →has_prefix_in :
    (ps : List String) (path : String) → HasPrefixIn ps path → has_prefix_in ps path ≡ true
unfolding has_prefix_in
→has_prefix_in [] path h = absurd h
→has_prefix_in (p ∷ ps) path (inl h) = rw ((starts_with_iff path p).1 h)
→has_prefix_in (p ∷ ps) path (inr h) = ground (arith, →has_prefix_in ps path h)

HasPrefixIn-append :
    (ps qs : List String) (path : String) → HasPrefixIn ps path → HasPrefixIn (ps ++ qs) path
HasPrefixIn-append [] qs path h = absurd h
HasPrefixIn-append (p ∷ ps) qs path (inl h) = inl h
HasPrefixIn-append (p ∷ ps) qs path (inr h) = inr (HasPrefixIn-append ps qs path h)

module _ (to_upper : String → String) (opts : GuardOptions) (req : RequestConfig) where
  -- The requests that the guard is there to let through, by the lists that it is configured with.
  abbrev pub IsReadOnly : Type 0
  IsReadOnly =
      (¬ HasPrefixIn (deny opts) (path_of req))
      × ((is_write_verb (method_of to_upper req) ≡ false)
          ⊎ ((method_of to_upper req ≡ "POST") × HasPrefixIn (allow_posts opts) (path_of req)))

  -- The outcomes of the guard's own tests.
  abbrev TestsPass : Type 0
  TestsPass =
      (has_prefix_in (deny opts) (path_of req) ≡ false)
      × ((is_write_verb (method_of to_upper req) ≡ false)
          ⊎ (((method_of to_upper req == "POST") ≡ true)
              × (has_prefix_in (allow_posts opts) (path_of req) ≡ true)))

  intercept_cases :
      (TestsPass × (intercept to_upper opts req ≡ passed req))
      ⊎ (intercept to_upper opts req ≡ thrown (violation to_upper req))
  unfolding intercept
  intercept_cases = ground arith

  TestsPass-IsReadOnly : TestsPass → IsReadOnly
  TestsPass-IsReadOnly (d, t) = (λ h. cc (→has_prefix_in (deny opts) (path_of req) h), verb t)
    where
      verb :
          ((is_write_verb (method_of to_upper req) ≡ false)
            ⊎ (((method_of to_upper req == "POST") ≡ true)
                × (has_prefix_in (allow_posts opts) (path_of req) ≡ true)))
          → ((is_write_verb (method_of to_upper req) ≡ false)
              ⊎ ((method_of to_upper req ≡ "POST") × HasPrefixIn (allow_posts opts) (path_of req)))
      verb (inl w) = inl w
      verb (inr (p, a)) = inr (
        (eq_iff (method_of to_upper req) "POST").0 p,
        has_prefix_in→ (allow_posts opts) (path_of req) a,
      )

  IsReadOnly-passed : IsReadOnly → intercept to_upper opts req ≡ passed req
  unfolding intercept
  IsReadOnly-passed (d, v) = elim (Bool-cases (has_prefix_in (deny opts) (path_of req))) [
    | inl e ↦ absurd (d (has_prefix_in→ (deny opts) (path_of req) e))
    | inr e ↦ rw e (allowed v)
  ]
    where
      allowed :
          ((is_write_verb (method_of to_upper req) ≡ false)
            ⊎ ((method_of to_upper req ≡ "POST") × HasPrefixIn (allow_posts opts) (path_of req)))
          → (if is_write_verb (method_of to_upper req)
              then (if method_of to_upper req == "POST"
                    && has_prefix_in (allow_posts opts) (path_of req)
                  then passed req
                  else thrown (violation to_upper req))
              else passed req)
            ≡ passed req
      allowed (inl w) = rw w
      allowed (inr (m, a)) = ground (
        arith,
        →has_prefix_in (allow_posts opts) (path_of req) a,
        eq_iff (method_of to_upper req) "POST",
      )

  -- An intercepted request is handed on unchanged exactly if no deny-listed text is a prefix of its
  -- path and its verb either is no write verb or is POST with an allow-listed prefix of the path.
  -- Any other request is refused with its verb, its path and the rate limit of its path.
  pub intercept-IsReadOnly :
      ((intercept to_upper opts req ≡ passed req) ↔ IsReadOnly)
      × (¬ IsReadOnly → intercept to_upper opts req ≡ thrown (violation to_upper req))
  intercept-IsReadOnly = elim intercept_cases [
    | inl (t, e) ↦
        ((λ _. TestsPass-IsReadOnly t, IsReadOnly-passed), λ h. absurd (h (TestsPass-IsReadOnly t)))
    | inr e ↦ ((λ h. cc, IsReadOnly-passed), λ _. e)
  ]

  -- A path that begins with an entry of the built-in deny list is refused, whatever the verb and
  -- whatever the options add to either list.
  pub deny_paths-thrown :
      HasPrefixIn deny_paths (path_of req)
      → intercept to_upper opts req ≡ thrown (violation to_upper req)
  unfolding deny
  deny_paths-thrown h =
      intercept-IsReadOnly.1
        (λ r. r.0 (HasPrefixIn-append deny_paths opts.extra_deny_paths (path_of req) h))

  -- The allow list is one of prefixes: a POST is handed on for every path that extends an entry of
  -- the built-in list, a write endpoint below that entry too, unless the path is deny-listed.
  pub signed_read_prefix-passed :
      method_of to_upper req ≡ "POST"
      → HasPrefixIn signed_read_post_paths (path_of req)
      → ¬ HasPrefixIn (deny opts) (path_of req)
      → intercept to_upper opts req ≡ passed req
  unfolding allow_posts
  signed_read_prefix-passed m a d = IsReadOnly-passed (
    d,
    inr (m, HasPrefixIn-append signed_read_post_paths opts.signed_read_post_paths (path_of req) a),
  )
