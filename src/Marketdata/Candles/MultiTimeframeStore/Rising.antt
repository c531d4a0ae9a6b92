-- ===== src/Marketdata/Candles/MultiTimeframeStore/Rising.antt =====
-- The merge of candles keeps an array in rising order.
use coindcx_bot.Prelude.{
  ℕ, suc, ◌<◌, zero, ◌≡◌, refl, ap, ◌∙◌, inl, inr, true, Option, none, some, List, [], ◌∷◌, ◌++◌,
  ltb, ◌==◌, string_key, nat_key, drop, Bool-cases, ltb→lt, is_some, subst, sym, All, All-append,
  arith,
}
use coindcx_bot.Marketdata.Candles.Candle.{Candle}
use coindcx_bot.Marketdata.Candles.MultiTimeframeStore.{
  last?, replace_last, add_after, add_candle, add_candles,
}

module _ {ℓ} {W : Type ℓ} where
  -- Each candle is older than those behind it.
  abbrev pub IsRising : List (Candle W) → Type 0
  IsRising [] = Unit
  IsRising (c ∷ cs) = All (λ d. c.timestamp < d.timestamp) cs × IsRising cs

  abbrev time_of : Option (Candle W) → ℕ
  time_of none = 0
  time_of (some c) = c.timestamp

  last_is : (d : Candle W) (cs : List (Candle W)) → is_some (last? (d ∷ cs)) ≡ true
  last_is d [] = refl
  last_is d (f ∷ cs) = last_is f cs

  first-IsRising : (c : Candle W) (cs : List (Candle W)) → last? cs ≡ none → IsRising (cs ++ c ∷ [])
  first-IsRising c [] e = (tt, tt)
  first-IsRising c (d ∷ cs) e = ground (arith, sym (ap is_some e) ∙ last_is d cs)

  snoc-IsRising :
      (c : Candle W) (cs : List (Candle W))
      → All (λ d. d.timestamp < c.timestamp) cs
      → IsRising cs
      → IsRising (cs ++ c ∷ [])
  snoc-IsRising c [] h r = (tt, tt)
  snoc-IsRising c (d ∷ cs) (h, hs) (r, rs) =
      (All-append (λ e. d.timestamp < e.timestamp) cs (c ∷ []) r (h, tt), snoc-IsRising c cs hs rs)

  -- A rising array ends with its newest candle.
  last_newest :
      (l c : Candle W) (cs : List (Candle W))
      → last? cs ≡ some l
      → IsRising cs
      → l.timestamp < c.timestamp
      → All (λ d. d.timestamp < c.timestamp) cs
  last_newest l c [] e r h = tt
  last_newest l c (d ∷ []) e r h = (subst (λ x. x < c.timestamp) (sym (ap time_of e)) h, tt)
  last_newest l c (d ∷ f ∷ cs) e (r, rs) h =
      let rest = last_newest l c (f ∷ cs) e rs h in (omega (arith, r.0, rest.0), rest)

  replace_last-All :
      (n : ℕ) (c : Candle W) (cs : List (Candle W))
      → All (λ d. n < d.timestamp) cs
      → n < c.timestamp
      → All (λ d. n < d.timestamp) (replace_last c cs)
  replace_last-All n c [] h l = (l, tt)
  replace_last-All n c (d ∷ []) h l = (l, tt)
  replace_last-All n c (d ∷ e ∷ cs) (h, hs) l = (h, replace_last-All n c (e ∷ cs) hs l)

  older_than_last :
      (n : ℕ) (l : Candle W) (cs : List (Candle W))
      → last? cs ≡ some l
      → All (λ d. n < d.timestamp) cs
      → n < l.timestamp
  older_than_last n l [] e h = ground arith
  older_than_last n l (d ∷ []) e (h, u) = subst (λ x. n < x) (ap time_of e) h
  older_than_last n l (d ∷ f ∷ cs) e (h, hs) = older_than_last n l (f ∷ cs) e hs

  replace_last-IsRising :
      (l c : Candle W) (cs : List (Candle W))
      → last? cs ≡ some l
      → l.timestamp ≡ c.timestamp
      → IsRising cs
      → IsRising (replace_last c cs)
  replace_last-IsRising l c [] e t r = (tt, tt)
  replace_last-IsRising l c (d ∷ []) e t r = (tt, tt)
  replace_last-IsRising l c (d ∷ f ∷ cs) e t (r, rs) = (
    replace_last-All d.timestamp c (f ∷ cs) r
        (omega (arith, older_than_last d.timestamp l (f ∷ cs) e r)),
    replace_last-IsRising l c (f ∷ cs) e t rs,
  )

  pub drop-IsRising : (n : ℕ) (cs : List (Candle W)) → IsRising cs → IsRising (drop n cs)
  drop-IsRising zero cs r = r
  drop-IsRising (suc n) [] r = tt
  drop-IsRising (suc n) (c ∷ cs) (r, rs) = drop-IsRising n cs rs

  -- A round of the loop keeps the array rising, whatever candle comes in.
  add_candle-IsRising :
      (c : Candle W) (cs : List (Candle W)) → IsRising cs → IsRising (add_candle c cs)
  unfolding add_candle
  add_candle-IsRising c cs r = add (last? cs) refl
    where
      add : (o : Option (Candle W)) → last? cs ≡ o → IsRising (add_after o c cs)
      add none e = first-IsRising c cs e
      add (some l) e = elim (Bool-cases (l.timestamp == c.timestamp)) [
        | inl h ↦ rw h (replace_last-IsRising l c cs e (ground arith) r)
        | inr h ↦ elim (Bool-cases (ltb l.timestamp c.timestamp)) [
          | inl k ↦ rw (h, k) (snoc-IsRising c cs (last_newest l c cs e r (ltb→lt _ _ k)) r)
          | inr k ↦ rw (h, k) r
        ]
      ]

  pub add_candles-IsRising :
      (incoming cs : List (Candle W)) → IsRising cs → IsRising (add_candles incoming cs)
  unfolding add_candles
  add_candles-IsRising [] cs r = r
  add_candles-IsRising (c ∷ incoming) cs r =
      add_candles-IsRising incoming (add_candle c cs) (add_candle-IsRising c cs r)
