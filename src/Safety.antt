-- ===== src/Safety.antt =====
-- src/safety: what keeps the bot an observer.
pub mod ReadOnlyGuard
