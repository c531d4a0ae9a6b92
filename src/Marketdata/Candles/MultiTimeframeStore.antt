-- ===== src/Marketdata/Candles/MultiTimeframeStore.antt =====
-- src/marketdata/candles/multi-timeframe-store.ts. The stored arrays are oldest first. A fetch of candles that
-- fails is `none`; the fetches of a seed end in the order of the configuration, which only
-- decides the order of the keys. A timer is the configuration that it polls.
mod Laws
mod Rising
mod Tests
use Prim.Native.String.{◌++◌ as concat}
use text.Mathlib.Text.{starts_with}
use coindcx_bot.Prelude.{
  ℕ, ◌-◌, ◌*◌, String, Bool, Option, none, some, List, [], ◌∷◌, ◌++◌, if◌then◌else◌, get_or, ltb,
  length, drop, filter, not, ◌==◌, string_key, nat_key,
}
use coindcx_bot.Prelude.Dict.{Dict, get, set, delete}
use coindcx_bot.Prelude.Num.{Num}
use coindcx_bot.Marketdata.Candles.Candle.{Candle}

pub record TfConfig : Type 0 where
  pub interval : String
  pub history_length : ℕ
  pub poll_ms : ℕ

abbrev pub default_tf_configs : List TfConfig
default_tf_configs =
    record { interval = "1m"; history_length = 100; poll_ms = 0 }
    ∷ record { interval = "5m"; history_length = 80; poll_ms = 60_000 }
    ∷ record { interval = "15m"; history_length = 50; poll_ms = 60_000 }
    ∷ record { interval = "1h"; history_length = 30; poll_ms = 300_000 }
    ∷ record { interval = "4h"; history_length = 40; poll_ms = 600_000 }
    ∷ []

-- The texts of a candlestick event.
pub record RawCandle : Type 0 where
  pub open_text : String
  pub high_text : String
  pub low_text : String
  pub close_text : String
  pub volume_text : String
  pub open_time : ℕ

abbrev pub Series {ℓ} : Type ℓ → Type ℓ
Series W = Dict String (List (Candle W))

pub record MtfStore {ℓ} (W : Type ℓ) : Type ℓ where
  pub configs : List TfConfig
  pub stores : Dict String (Series W)
  pub timers : Dict String TfConfig

pub record CandleUpdate {ℓ} (W : Type ℓ) : Type ℓ where
  pub pair : String
  pub tf : String
  pub candle : Option (Candle W)

abbrev timer_key : String → String → String
timer_key pair tf = concat pair (concat ":" tf)

abbrev pub find_config : String → List TfConfig → Option TfConfig
find_config tf [] = none
find_config tf (cfg ∷ cfgs) = if cfg.interval == tf then some cfg else find_config tf cfgs

abbrev pub history_of : Option TfConfig → ℕ
history_of none = 100
history_of (some cfg) = cfg.history_length

unfoldable pub start_timers :
    (pair : String) → List TfConfig → Dict String TfConfig → Dict String TfConfig
start_timers pair [] timers = timers
start_timers pair (cfg ∷ cfgs) timers =
    start_timers pair cfgs
      (if cfg.poll_ms == 0 then timers else set (timer_key pair cfg.interval) cfg timers)

module _ {ℓ} {W : Type ℓ} where
  abbrev pub last? : List (Candle W) → Option (Candle W)
  last? [] = none
  last? (c ∷ []) = some c
  last? (c ∷ d ∷ cs) = last? (d ∷ cs)

  abbrev pub replace_last : Candle W → List (Candle W) → List (Candle W)
  replace_last c [] = c ∷ []
  replace_last c (d ∷ []) = c ∷ []
  replace_last c (d ∷ e ∷ cs) = d ∷ replace_last c (e ∷ cs)

  abbrev pub add_after : Option (Candle W) → Candle W → List (Candle W) → List (Candle W)
  add_after none c cs = cs ++ c ∷ []
  add_after (some last) c cs =
      if last.timestamp == c.timestamp
      then replace_last c cs
      else (if ltb last.timestamp c.timestamp then cs ++ c ∷ [] else cs)

  -- One round of the loop of `merge`.
  unfoldable pub add_candle : Candle W → List (Candle W) → List (Candle W)
  add_candle c cs = add_after (last? cs) c cs

  unfoldable pub add_candles : List (Candle W) → List (Candle W) → List (Candle W)
  add_candles [] merged = merged
  add_candles (c ∷ incoming) merged = add_candles incoming (add_candle c merged)

  -- `splice(0, length - maxLen)`
  abbrev pub keep_newest : ℕ → List (Candle W) → List (Candle W)
  keep_newest max_len merged = drop (length merged - max_len) merged

  unfoldable pub merged_of : Series W → String → List (Candle W) → ℕ → List (Candle W)
  merged_of series tf incoming max_len =
      keep_newest max_len (add_candles incoming (get_or (get tf series) []))

  abbrev pub merge_into :
      Option (Series W)
      → (pair tf : String) → List (Candle W)
      → ℕ
      → MtfStore W
      → MtfStore W × Option (CandleUpdate W)
  merge_into none pair tf incoming max_len s = (s, none)
  merge_into (some series) pair tf incoming max_len s =
      let merged = merged_of series tf incoming max_len in
      (
        record s { stores = set pair (set tf merged series) s.stores },
        some (record { pair = pair; tf = tf; candle = last? merged }),
      )

  unfoldable pub merge :
      (pair tf : String) → List (Candle W) → ℕ → MtfStore W → MtfStore W × Option (CandleUpdate W)
  merge pair tf incoming max_len s = merge_into (get pair s.stores) pair tf incoming max_len s

  -- The candle of an event, with its time in milliseconds.
  unfoldable pub candle_of_raw : Num W → RawCandle → Candle W
  candle_of_raw num raw = record {
    timestamp = raw.open_time * 1000;
    open_price = num.parse_float raw.open_text;
    high = num.parse_float raw.high_text;
    low = num.parse_float raw.low_text;
    close = num.parse_float raw.close_text;
    volume = num.parse_float raw.volume_text;
  }

  unfoldable pub apply_ws_candle :
      Num W → (pair tf : String) → RawCandle → MtfStore W → MtfStore W × Option (CandleUpdate W)
  apply_ws_candle num pair tf raw s =
      merge pair tf (candle_of_raw num raw ∷ []) (history_of (find_config tf s.configs)) s

  -- What a timer does with the three latest bars, or when they cannot be fetched.
  unfoldable pub poll :
      (pair : String)
      → TfConfig
      → Option (List (Candle W))
      → MtfStore W
      → MtfStore W × Option (CandleUpdate W)
  poll pair cfg none s = (s, none)
  poll pair cfg (some latest) s = merge pair cfg.interval latest cfg.history_length s

  unfoldable pub seed_series :
      (String → Option (List (Candle W))) → List TfConfig → Series W → Series W
  seed_series fetched [] series = series
  seed_series fetched (cfg ∷ cfgs) series =
      seed_series fetched cfgs (set cfg.interval (get_or (fetched cfg.interval) []) series)

  unfoldable pub seed :
      (pair : String) → (String → Option (List (Candle W))) → MtfStore W → MtfStore W
  seed pair fetched s = record s {
    stores = set pair (seed_series fetched s.configs []) s.stores;
    timers = start_timers pair s.configs s.timers;
  }

  -- `get`
  unfoldable pub candles : (pair tf : String) → MtfStore W → List (Candle W)
  candles pair tf s = get_or (get tf (get_or (get pair s.stores) [])) []

  unfoldable pub get_snapshot : (pair : String) → MtfStore W → Option (Series W)
  get_snapshot pair s = get pair s.stores

  unfoldable pub unseed : (pair : String) → MtfStore W → MtfStore W
  unseed pair s = record s {
    timers = filter (λ t. not (starts_with t.0 (concat pair ":"))) s.timers;
    stores = delete pair s.stores;
  }

  unfoldable pub destroy : MtfStore W → MtfStore W
  destroy s = record s { timers = []; stores = [] }
