-- ===== src/Strategy/Scheduler.antt =====
-- src/strategy/scheduler: what starts the evaluations of the strategies.
pub mod InFlight
pub mod IntervalDriver
pub mod TickDriver
pub mod BarDriver
