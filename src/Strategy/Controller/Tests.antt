-- ===== src/Strategy/Controller/Tests.antt =====
-- A controller with one strategy, a threshold of two errors and a filter that lets all pass.
use coindcx_bot.Prelude.{
  ℕ, String, ◌≡◌, refl, inl, inr, ◌==◌, string_key, Bool-cases, true, false, Option, none, some,
  List, [], ◌∷◌, arith,
}
use coindcx_bot.Prelude.Dict.{get, set}
use coindcx_bot.Prelude.Int.{pos}
use coindcx_bot.Prelude.Num.{Whole, whole_num}
use coindcx_bot.Account.Types.{AccountSnapshot}
use coindcx_bot.Strategy.Types.{Side, wait, bar_close, StrategyManifest, StrategySignal}
use coindcx_bot.Strategy.Registry.{
  Strategy, registered, RegistryEntry, clones, register, update, instance_of, is_enabled, streak_of,
  record_error,
}
use coindcx_bot.Strategy.Controller.{
  StrategyController, no_signal, threw, answered, register_strategy, handle_error, clamp,
  severity_of, emit_filtered, answer, finish, run_once,
}
use coindcx_bot.Strategy.Controller.Runs.{
  IsTolerant, Run, failures, run_all, run_all-IsTolerant, failures_enabled,
}

controller_code : Unit {0}
unfolding get set clones register update instance_of is_enabled streak_of record_error
    register_strategy handle_error clamp severity_of emit_filtered answer finish run_once run_all
controller_code = tt

abbrev manifest : StrategyManifest
manifest = record {
  id = "s";
  version = "1";
  mode = bar_close;
  interval_ms = none;
  evaluation_timeout_ms = none;
  bar_timeframes = none;
  tick_channels = none;
  pairs = "*" ∷ [];
  warmup_candles = none;
  description = "";
}

abbrev strategy : Strategy ℕ
strategy = record { manifest = manifest; object = 7; clone = some 8 }

abbrev empty : StrategyController ℕ (Unit {0})
empty = record {
  registry = [];
  risk_filter = tt;
  config = record { error_threshold = 2; emit_wait = false };
}

abbrev entry : RegistryEntry ℕ
entry = record {
  manifest = manifest;
  enabled = true;
  per_instance = ("BTC", 8) ∷ ("ETH", 8) ∷ [];
  perf = record { signals_emitted = 0; last_signal_at = 0; errors = 0 };
  error_streak = [];
}

abbrev started : StrategyController ℕ (Unit {0})
started = record empty { registry = ("s", entry) ∷ [] }

registers : register_strategy (λ m. "BTC" ∷ "ETH" ∷ []) strategy empty ≡ registered started.registry
unfolding controller_code
registers = refl

abbrev let_pass :
    Unit {0}
    → StrategySignal Whole
    → StrategyManifest
    → AccountSnapshot
    → String
    → Unit {0} × Option (StrategySignal Whole)
let_pass f s m a p = (f, some s)

abbrev account : AccountSnapshot
account = record {
  positions = [];
  balances = [];
  orders = [];
  totals = record {
    equity_inr = "100";
    wallet_inr = "100";
    unrealized_inr = "0";
    realized_day = "0";
    realized_lifetime = "0";
  };
}

abbrev signal : Side → StrategySignal Whole
signal side = record {
  side = side;
  confidence = some (pos 5);
  entry = none;
  stop_loss = none;
  take_profit = none;
  reason = "";
  no_trade_condition = none;
  management = none;
  ttl_ms = none;
}

clamped_signal :
    (run_once whole_num let_pass "s" "BTC" 9 9 (answered (signal wait) account) started).1 ≡ []
unfolding controller_code
clamped_signal = refl

abbrev mixed : List (Run Whole)
mixed =
    record { id = "s"; pair = "BTC"; ts = 1; now = 1; evaluation = threw "x" }
    ∷ record { id = "s"; pair = "BTC"; ts = 2; now = 2; evaluation = no_signal }
    ∷ record { id = "s"; pair = "BTC"; ts = 3; now = 3; evaluation = threw "y" }
    ∷ record { id = "s"; pair = "ETH"; ts = 4; now = 4; evaluation = threw "z" }
    ∷ []

still_enabled : is_enabled "s" (run_all whole_num let_pass mixed started).registry ≡ true
unfolding controller_code
still_enabled = refl

started-IsTolerant : IsTolerant started
unfolding get streak_of
started-IsTolerant id = elim (Bool-cases ("s" == id)) [
  | inl k ↦ rw k (λ on p. omega arith)
  | inr k ↦ rw k tt
]

run_all-IsTolerant_example : IsTolerant (run_all whole_num let_pass mixed started)
run_all-IsTolerant_example = run_all-IsTolerant whole_num let_pass mixed started started-IsTolerant

failures_enabled_example :
    is_enabled "s"
      (run_all whole_num let_pass
        (failures "s" "BTC" ((1, 1, "x") ∷ (2, 2, "y") ∷ []))
        started).registry
    ≡ false
unfolding get streak_of
failures_enabled_example =
    failures_enabled whole_num let_pass "s" "BTC" ((1, 1, "x") ∷ (2, 2, "y") ∷ []) started entry 8
      refl refl refl refl (omega arith)
