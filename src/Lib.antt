-- ===== src/Lib.antt =====
-- A verification of the core of coindcx-bot, a trading bot that reads the CoinDCX exchange and routes its
-- orders to paper trading. Data flows from the exchange through the order books to the strategies; their
-- signals pass the risk filter, become intents that are validated, and lead positions through their life.
--
-- What is modelled, and where:
-- - src/safety/read-only-guard.ts: Safety.ReadOnlyGuard. The request interceptor (applyReadOnlyGuard is
--   `intercept`) with its deny and allow lists; the thrown ReadOnlyViolation is a result.
-- - src/marketdata/book/orderbook.ts and book-manager.ts: Marketdata.Book.OrderBook and BookManager. A side is
--   the JavaScript Map as an association list in insertion order; handlers return the new book and the
--   event that the code emits, and the manager forwards gap events.
-- - src/marketdata/rate-limit/rest-budget.ts: Marketdata.RestBudget. Tokens are counted in units of 1/60000,
--   so that a rate per minute is a whole number for each millisecond. The loop of acquire is a list of the
--   rounds' clock readings; RestBudget.Rate shows how many rounds are enough for an answer.
-- - src/strategy/risk (the composite filter and its six rules): Strategy.Risk, with child modules for its
--   answers, the limit on live signals and the cooldown.
-- - src/strategy/registry.ts and controller.ts: Strategy.Registry and Strategy.Controller. How the evaluation of a
--   run ends is an argument of `run_once`; the risk filter is a parameter.
-- - src/execution/trade-intent.ts and intent-validator.ts: Execution.TradeIntent and Execution.IntentValidator.
-- - src/runtime/position-state-machine.ts: Runtime.PositionStateMachine, the lifecycle of a position.
-- - src/runtime/paper-trade-gate.ts: Runtime.PaperTradeGate. The rows of the two queries are arguments.
-- - src/runtime/negative-close-policy.ts: Runtime.NegativeClosePolicy.
-- - src/runtime/risk-manager.ts and order-router.ts: Runtime.RiskManager.
-- - src/account/types.ts and stores: Account.Types, Account.Stores with FillsLedger, PositionStore
--   and BalanceStore.
-- - src/account/stores/order-store.ts, divergence-detector.ts, heartbeat-watcher.ts and reconcile-controller.ts:
--   Account.Stores.OrderStore, Account.DivergenceDetector, HeartbeatWatcher and ReconcileController. Rows come
--   normalized and a sweep that throws brings `none`; handlers return the state and the emitted signals.
-- - src/strategy/scheduler: Strategy.Scheduler with the three drivers. The end of an evaluation is a step of
--   its own, so that firings and ends interleave freely; InFlight has the pending sets.
-- - src/strategy/backtest/simulator.ts and src/prediction-outcomes/resolve-from-bars.ts:
--   Strategy.Backtest.Simulator and PredictionOutcomes.Resolve, two readings of the same bars.
-- - src/marketdata/candles/multi-timeframe-store.ts: Marketdata.Candles.MultiTimeframeStore.
-- - src/runtime/trade-plan.ts: Runtime.TradePlan, the size and the leverage of a plan.
-- - src/marketdata/book/resync.ts and health/time-sync.ts: Marketdata.Book.Resync, whose resyncs begin and end in
--   separate steps, and Marketdata.TimeSync.
-- - src/runtime/workers: Runtime.FundingWindowWorker and Runtime.BreakevenProtectionWorker. Ticks
--   overlap: the end of a callback, with whether it failed, is a step of its own.
-- - Prelude: Boolean tests, lists over native numbers, Map as `Dict`, integers, sorting, and `Num`.
--
-- Choices. Whole milliseconds and counters are natural numbers; prices, quantities and ratios are the
-- numbers of the interface `Num`, of which theorems assume no more than laws of IsOrdered and plain facts on
-- constants (that `Number('0')` is 0, that 1 is not above 10), and which whole numbers with a NaN implement. Built-in functions of JavaScript that
-- the code calls (toUpperCase, trim, Date.parse, String of a number, comparison of texts) are parameters.
-- Every operation is total; loops are structural recursions. State is passed and returned.
--
-- Not modelled: the network clients, the SQL, the terminal, the configuration and the language model, which
-- only move data; the indicators and scorers, formulas without a contract; the changelog that the
-- reconciliation writes; and, so far, the runner of the backtest, the other workers and the pipeline.
pub mod Account
pub mod Execution
pub mod Marketdata
pub mod PredictionOutcomes
pub mod Prelude
pub mod Runtime
pub mod Safety
pub mod Strategy
