-- ===== src/Marketdata/Candles/MultiTimeframeStore/Tests.antt =====
-- A store of 15-minute candles.
use coindcx_bot.Prelude.{ℕ, String, ◌≡◌, refl, some, Option, List, [], ◌∷◌, map, arith}
use coindcx_bot.Prelude.Dict.{get, set, delete}
use coindcx_bot.Prelude.Num.{Whole, whole_num}
use coindcx_bot.Prelude.Int.{pos}
use coindcx_bot.Marketdata.Candles.Candle.{Candle}
use coindcx_bot.Marketdata.Candles.MultiTimeframeStore.{
  RawCandle, TfConfig, add_candle, add_candles, merged_of, merge, candle_of_raw, apply_ws_candle,
  poll, seed_series, start_timers, seed, candles, unseed, destroy,
}
use coindcx_bot.Marketdata.Candles.MultiTimeframeStore.Laws.{
  Call, seeded, ws_candle, polled, call, run, new_store, IsStore, run-IsStore,
}

store_code : Unit {0}
unfolding get set delete add_candle add_candles merged_of merge candle_of_raw apply_ws_candle poll
    seed_series start_timers seed candles unseed destroy call run
store_code = tt

abbrev candle : ℕ → Candle Whole
candle t = record {
  timestamp = t;
  open_price = some (pos 1);
  high = some (pos 1);
  low = some (pos 1);
  close = some (pos 1);
  volume = some (pos 1);
}

abbrev raw : ℕ → RawCandle
raw t = record {
  open_text = "1";
  high_text = "1";
  low_text = "1";
  close_text = "1";
  volume_text = "1";
  open_time = t;
}

abbrev config : TfConfig
config = record { interval = "15m"; history_length = 3; poll_ms = 60_000 }

abbrev history : String → Option (List (Candle Whole))
history tf = some (candle 1000 ∷ candle 2000 ∷ candle 3000 ∷ [])

abbrev calls : List (Call Whole)
calls =
    seeded "SOL" history
    ∷ ws_candle "SOL" "15m" (raw 4)
    ∷ ws_candle "SOL" "15m" (raw 2)
    ∷ polled "SOL" config (some (candle 4000 ∷ candle 5000 ∷ []))
    ∷ ws_candle "ETH" "15m" (raw 4)
    ∷ []

newest_three :
    map (λ c. c.timestamp) (candles "SOL" "15m" (run whole_num calls (new_store (config ∷ []))))
    ≡ 3000 ∷ 4000 ∷ 5000 ∷ []
unfolding store_code
newest_three = refl

run-IsStore_example : IsStore (run whole_num calls (new_store (config ∷ [])))
run-IsStore_example = run-IsStore whole_num (config ∷ []) calls (
  (λ tf. ((omega arith, (omega arith, tt)), ((omega arith, tt), (tt, tt)))),
  (tt, (tt, (tt, (tt, tt)))),
)
