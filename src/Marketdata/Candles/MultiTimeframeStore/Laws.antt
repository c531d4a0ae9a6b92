-- ===== src/Marketdata/Candles/MultiTimeframeStore/Laws.antt =====
-- The order and the bound of the stored candles.
use coindcx_bot.Prelude.{
  ℕ, ◌-◌, ◌≤◌, String, ◌≡◌, refl, inl, inr, true, Option, none, some, List, [], ◌∷◌, get_or, ◌==◌,
  string_key, nat_key, length, length-drop, Bool-cases, is_some, subst, All, arith,
}
use coindcx_bot.Prelude.Dict.{get, set, get-set, get-set_self, has, get-delete}
use coindcx_bot.Marketdata.Candles.Candle.{Candle}
use coindcx_bot.Marketdata.Candles.MultiTimeframeStore.{
  Series, MtfStore, RawCandle, TfConfig, find_config, history_of, add_candles, keep_newest,
  merged_of, merge_into, merge, apply_ws_candle, poll, seed_series, seed, candles, unseed, destroy,
}
use coindcx_bot.Prelude.Num.{Num}
use coindcx_bot.Marketdata.Candles.MultiTimeframeStore.Rising.{
  IsRising, drop-IsRising, add_candles-IsRising,
}

-- The calls of a store.
pub data Call {ℓ} (W : Type ℓ) : Type ℓ where
  seeded : (pair : String) → (String → Option (List (Candle W))) → Call W
  ws_candle : (pair tf : String) → RawCandle → Call W
  polled : (pair : String) → TfConfig → Option (List (Candle W)) → Call W
  unseeded : (pair : String) → Call W
  destroyed : Call W

module _ {ℓ} {W : Type ℓ} where
  abbrev pub new_store : List TfConfig → MtfStore W
  new_store configs = record { configs = configs; stores = []; timers = [] }

  unfoldable pub call : Num W → Call W → MtfStore W → MtfStore W
  call num (seeded pair fetched) s = seed pair fetched s
  call num (ws_candle pair tf raw) s = (apply_ws_candle num pair tf raw s).0
  call num (polled pair cfg fetched) s = (poll pair cfg fetched s).0
  call num (unseeded pair) s = unseed pair s
  call num destroyed s = destroy s

  unfoldable pub run : Num W → List (Call W) → MtfStore W → MtfStore W
  run num [] s = s
  run num (c ∷ cs) s = run num cs (call num c s)

  -- The arrays that a seed fetches are rising.
  abbrev pub OldestFirst : Call W → Type 0
  OldestFirst (seeded pair fetched) = (tf : String) → IsRising (get_or (fetched tf) [])
  OldestFirst _ = Unit

  -- Every stored array is rising.
  abbrev pub IsStore : MtfStore W → Type 0
  IsStore s = (pair tf : String) → IsRising (candles pair tf s)

  abbrev SeriesRising : Series W → Type 0
  SeriesRising series = (tf : String) → IsRising (get_or (get tf series) [])

  set-SeriesRising :
      (tf : String) (cs : List (Candle W)) (series : Series W)
      → IsRising cs
      → SeriesRising series
      → SeriesRising (set tf cs series)
  set-SeriesRising tf cs series r h other = elim (Bool-cases (tf == other)) [
    | inl e ↦ rw (get-set tf other cs series, e) r
    | inr e ↦ rw (get-set tf other cs series, e) (h other)
  ]

  merged_of-IsRising :
      (series : Series W) (tf : String) (incoming : List (Candle W)) (max_len : ℕ)
      → SeriesRising series
      → IsRising (merged_of series tf incoming max_len)
  unfolding merged_of
  merged_of-IsRising series tf incoming max_len h =
      drop-IsRising _ _ (add_candles-IsRising incoming (get_or (get tf series) []) (h tf))

  -- A store with the series of a pair replaced.
  set_pair-IsStore :
      (pair : String) (series : Series W) (s : MtfStore W)
      → SeriesRising series
      → IsStore s
      → IsStore (record s { stores = set pair series s.stores })
  unfolding candles
  set_pair-IsStore pair series s r h other tf = elim (Bool-cases (pair == other)) [
    | inl e ↦ rw (get-set pair other series s.stores, e) (r tf)
    | inr e ↦ rw (get-set pair other series s.stores, e) (h other tf)
  ]

  merge_into-IsStore :
      (o : Option (Series W)) (pair tf : String) (incoming : List (Candle W)) (max_len : ℕ)
      (s : MtfStore W)
      → get pair s.stores ≡ o
      → IsStore s
      → IsStore (merge_into o pair tf incoming max_len s).0
  unfolding candles
  merge_into-IsStore none pair tf incoming max_len s e h = h
  merge_into-IsStore (some series) pair tf incoming max_len s e h =
      let r : SeriesRising series =
        λ other. subst (λ o. IsRising (get_or (get other (get_or o [])) [])) e (h pair other) in
      set_pair-IsStore pair _ s
        (set-SeriesRising tf _ series (merged_of-IsRising series tf incoming max_len r) r) h

  merge-IsStore :
      (pair tf : String) (incoming : List (Candle W)) (max_len : ℕ) (s : MtfStore W)
      → IsStore s
      → IsStore (merge pair tf incoming max_len s).0
  unfolding merge
  merge-IsStore pair tf incoming max_len s h =
      merge_into-IsStore (get pair s.stores) pair tf incoming max_len s refl h

  seed_series-SeriesRising :
      (fetched : String → Option (List (Candle W))) (cfgs : List TfConfig) (series : Series W)
      → ((tf : String) → IsRising (get_or (fetched tf) []))
      → SeriesRising series
      → SeriesRising (seed_series fetched cfgs series)
  unfolding seed_series
  seed_series-SeriesRising fetched [] series f h = h
  seed_series-SeriesRising fetched (cfg ∷ cfgs) series f h =
      seed_series-SeriesRising fetched cfgs
        (set cfg.interval (get_or (fetched cfg.interval) []) series) f
        (set-SeriesRising cfg.interval _ series (f cfg.interval) h)

  unseed-IsStore : (pair : String) (s : MtfStore W) → IsStore s → IsStore (unseed pair s)
  unfolding unseed candles get
  unseed-IsStore pair s h other tf = elim (Bool-cases (pair == other)) [
    | inl e ↦ rw (get-delete pair other s.stores, e) tt
    | inr e ↦ rw (get-delete pair other s.stores, e) (h other tf)
  ]

  call-IsStore :
      (num : Num W) (c : Call W) (s : MtfStore W)
      → OldestFirst c
      → IsStore s
      → IsStore (call num c s)
  unfolding call apply_ws_candle seed destroy candles get poll
  call-IsStore num (seeded pair fetched) s f h =
      set_pair-IsStore pair _ s (seed_series-SeriesRising fetched s.configs [] f (λ tf. tt)) h
  call-IsStore num (ws_candle pair tf raw) s f h = merge-IsStore pair tf _ _ s h
  call-IsStore num (polled pair cfg none) s f h = h
  call-IsStore num (polled pair cfg (some latest)) s f h =
      merge-IsStore pair cfg.interval latest cfg.history_length s h
  call-IsStore num (unseeded pair) s f h = unseed-IsStore pair s h
  call-IsStore num destroyed s f h = λ pair tf. tt

  run_from :
      (num : Num W) (cs : List (Call W)) (s : MtfStore W)
      → All OldestFirst cs
      → IsStore s
      → IsStore (run num cs s)
  unfolding run
  run_from num [] s f h = h
  run_from num (c ∷ cs) s (f, fs) h = run_from num cs (call num c s) fs (call-IsStore num c s f h)

  -- After any calls of a new store, each stored array of candles rises strictly in time, provided that the
  -- arrays fetched by the seeds do: the live candles and the polls may come in any order.
  pub run-IsStore :
      (num : Num W) (configs : List TfConfig) (cs : List (Call W))
      → All OldestFirst cs
      → IsStore (run num cs (new_store configs))
  unfolding candles get
  run-IsStore num configs cs f = run_from num cs (new_store configs) f (λ pair tf. tt)

  keep_newest_le : (n : ℕ) (cs : List (Candle W)) → length (keep_newest n cs) ≤ n
  keep_newest_le n cs = omega (arith, length-drop (length cs - n) cs)

  merged_le :
      (pair tf : String) (incoming : List (Candle W)) (n : ℕ) (s : MtfStore W)
      (o : Option (Series W))
      → is_some o ≡ true
      → length (candles pair tf (merge_into o pair tf incoming n s).0) ≤ n
  unfolding candles merged_of
  merged_le pair tf incoming n s none e = ground arith
  merged_le pair tf incoming n s (some series) e =
      let merged = merged_of series tf incoming n in
      rw (get-set_self pair (set tf merged series) s.stores, get-set_self tf merged series)
        (keep_newest_le n (add_candles incoming (get_or (get tf series) [])))

  -- A live candle leaves at most as many candles of the timeframe as the configuration keeps, 100 where it
  -- has no entry, once the pair is seeded.
  pub length-apply_ws_candle :
      (num : Num W) (pair tf : String) (raw : RawCandle) (s : MtfStore W)
      → has pair s.stores ≡ true
      → length (candles pair tf (apply_ws_candle num pair tf raw s).0)
        ≤ history_of (find_config tf s.configs)
  unfolding apply_ws_candle merge
  length-apply_ws_candle num pair tf raw s e = merged_le pair tf _ _ s (get pair s.stores) e
