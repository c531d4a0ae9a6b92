-- ===== src/PredictionOutcomes/Resolve.antt =====
-- src/prediction-outcomes/resolve-from-bars.ts. The times of bars are whole milliseconds, so each is finite.
use coindcx_bot.Prelude.{
  ℕ, suc, ◌+◌, String, Bool, not, ◌&&◌, List, [], ◌∷◌, if◌then◌else◌, ltb, leb, filter, ◌==◌,
  string_key,
}
use coindcx_bot.Prelude.Num.{Num}
use coindcx_bot.Prelude.Sort.{sort}
use coindcx_bot.Marketdata.Candles.Candle.{Candle}

pub data LiveResolution : Type 0 where
  tp_first sl_first ttl_neutral invalid_geometry pending : LiveResolution

abbrev pub bar_ms_15m : ℕ
bar_ms_15m = 900_000

module _ {ℓ} {W : Type ℓ} (num : Num W) where
  open num use {lt, le, is_finite}

  unfoldable pub levels_geometry_valid : String → (entry sl tp : W) → Bool
  levels_geometry_valid side entry sl tp =
      is_finite entry
      && is_finite sl
      && is_finite tp
      && (if side == "LONG" then lt sl entry && lt entry tp else lt tp entry && lt entry sl)

  abbrev pub hit_sl : String → W → Candle W → Bool
  hit_sl side sl c = if side == "LONG" then le c.low sl else le sl c.high

  abbrev pub hit_tp : String → W → Candle W → Bool
  hit_tp side tp c = if side == "LONG" then le tp c.high else le c.low tp

  -- `filter` and `sort`: the bars that end after the signal and have begun, oldest first.
  abbrev pub is_relevant : ℕ → ℕ → Candle W → Bool
  is_relevant signal_ms now_ms c =
      ltb signal_ms (c.timestamp + bar_ms_15m) && leb c.timestamp now_ms

  abbrev pub is_later : Candle W → Candle W → Bool
  is_later a b = ltb b.timestamp a.timestamp

  unfoldable pub relevant : ℕ → ℕ → List (Candle W) → List (Candle W)
  relevant signal_ms now_ms bars = sort is_later (filter (is_relevant signal_ms now_ms) bars)

  -- The loop, with the number of bars examined. `rest` is the answer at its end.
  unfoldable pub scan :
      String
      → (sl tp : W) → (now_ms : ℕ) → LiveResolution
      → List (Candle W)
      → ℕ
      → LiveResolution × ℕ
  scan side sl tp now_ms rest [] examined = (rest, examined)
  scan side sl tp now_ms rest (c ∷ cs) examined =
      let next = scan side sl tp now_ms rest cs (suc examined) in
      if ltb now_ms (c.timestamp + bar_ms_15m)
      then (rest, examined)
      else (if hit_sl side sl c
          then (sl_first, suc examined)
          else (if hit_tp side tp c then (tp_first, suc examined) else next))

  unfoldable pub resolve_prediction_on_15m_bars :
      String
      → (entry sl tp : W) → (signal_ms ttl_ms now_ms : ℕ) → List (Candle W)
      → LiveResolution × ℕ
  resolve_prediction_on_15m_bars side entry sl tp signal_ms ttl_ms now_ms bars =
      if not (levels_geometry_valid side entry sl tp)
      then (invalid_geometry, 0)
      else scan side sl tp now_ms (if leb (signal_ms + ttl_ms) now_ms then ttl_neutral else pending)
          (relevant signal_ms now_ms bars) 0
