-- ===== src/Marketdata/Book.antt =====
-- src/marketdata/book: the level-2 order books.
pub mod OrderBook
pub mod BookManager
pub mod Resync
