-- ===== src/Strategy/Risk/Tests.antt =====
-- A filter with a limit of one signal in a minute and a cooldown of ten seconds.
use coindcx_bot.Prelude.{ℕ, ◌≡◌, ◌≢◌, ◌≤◌, refl, true, none, some, List, [], ◌∷◌, arith}
use mathlib.Core.List.{Memᴰ}
use coindcx_bot.Prelude.Dict.{get, set}
use coindcx_bot.Prelude.Int.{pos}
use coindcx_bot.Prelude.Num.{Whole, whole_num}
use coindcx_bot.Account.Types.{AccountSnapshot}
use coindcx_bot.Strategy.Types.{Side, long, short, manual, StrategyManifest, StrategySignal}
use coindcx_bot.Strategy.Risk.{
  RiskRule, max_concurrent_signals, per_pair_cooldown, cooldown_key, apply_drawdown, apply_active,
  apply, record_emit, apply_rules, CompositeRiskFilter, resolve_pair, expire, context, conclude,
  filter_signal,
}
use coindcx_bot.Strategy.Risk.Outcome.{Answers, blocks_of, filter_signal-Answers}
use coindcx_bot.Strategy.Risk.Limits.{Call, run, recent_count, run-IsLimited}
use coindcx_bot.Strategy.Risk.Cooldown.{HasCooldown, filter_signal_cooldown}

risk_code : Unit {0}
unfolding get set cooldown_key apply_drawdown apply_active apply record_emit apply_rules
    resolve_pair expire conclude filter_signal run
risk_code = tt

abbrev whole : ℕ → Whole
whole n = some (pos n)

abbrev signal : Side → StrategySignal Whole
signal side = record {
  side = side;
  confidence = whole 1;
  entry = none;
  stop_loss = none;
  take_profit = none;
  reason = "";
  no_trade_condition = none;
  management = none;
  ttl_ms = none;
}

abbrev manifest : StrategyManifest
manifest = record {
  id = "s";
  version = "1";
  mode = manual;
  interval_ms = none;
  evaluation_timeout_ms = none;
  bar_timeframes = none;
  tick_channels = none;
  pairs = "BTC" ∷ [];
  warmup_candles = none;
  description = "";
}

abbrev account : AccountSnapshot
account = record {
  positions = [];
  balances = [];
  orders = [];
  totals = record {
    equity_inr = "100";
    wallet_inr = "100";
    unrealized_inr = "0";
    realized_day = "0";
    realized_lifetime = "0";
  };
}

abbrev new_filter : List (RiskRule Whole) → CompositeRiskFilter Whole
new_filter rules = record {
  rules = rules;
  live_signals = [];
  live_ttl_default_ms = 100_000;
  emit_alerts = true;
  pair_resolver = none;
}

abbrev limited : CompositeRiskFilter Whole
limited = new_filter (max_concurrent_signals 1 60_000 ∷ [])

abbrev cooled : CompositeRiskFilter Whole
cooled = new_filter (per_pair_cooldown 10_000 [] ∷ [])

abbrev call : ℕ → Side → Call Whole
call now side = record {
  now = now;
  signal = signal side;
  manifest = manifest;
  account = account;
  pair = some "BTC";
}

second_dropped :
    (filter_signal whole_num
      (filter_signal whole_num limited 50_000 (signal long) manifest account none).0
      70_000
      (signal short)
      manifest
      account
      (some "ETH")).1
    ≡ none
unfolding risk_code
second_dropped = refl

filter_signal-Answers_example :
    Answers whole_num limited
      (context whole_num limited 50_000 (signal long) manifest account "BTC")
      (blocks_of whole_num limited.rules
        (context whole_num limited 50_000 (signal long) manifest account "BTC"))
      (filter_signal whole_num limited 50_000 (signal long) manifest account (some "BTC"))
filter_signal-Answers_example =
    filter_signal-Answers whole_num limited 50_000 (signal long) manifest account (some "BTC")

run-IsLimited_example :
    recent_count 60_000 70_000
      (run whole_num limited (call 50_000 long ∷ call 70_000 short ∷ [])).live_signals
    ≤ 1
run-IsLimited_example =
    run-IsLimited whole_num 1 60_000 limited (call 50_000 long ∷ call 70_000 short ∷ []) 0
      (omega arith, (omega arith, tt)) (record { has_limit = Memᴰ.head refl; below = omega arith })

passed :
    (filter_signal whole_num cooled 50_000 (signal long) manifest account (some "BTC")).1 ≢ none
unfolding risk_code
passed e = cc

filter_signal_cooldown_example :
    (filter_signal whole_num
      (run whole_num
        (filter_signal whole_num cooled 50_000 (signal long) manifest account (some "BTC")).0
        (call 51_000 short ∷ []))
      59_999
      (signal long)
      manifest
      account
      (some "BTC")).1
    ≡ none
filter_signal_cooldown_example =
    filter_signal_cooldown whole_num 10_000 cooled (call 50_000 long) (call 59_999 long) "BTC"
      (call 51_000 short ∷ []) HasCooldown.first refl refl passed (omega arith, tt) refl refl refl
      (omega arith)
