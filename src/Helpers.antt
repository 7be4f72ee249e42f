-- ===== src/Helpers.antt =====
-- helpers.go: accessors of covers, editions, books and queries, type URLs, and their laws.
pub mod TypeUrl
pub mod Hex
pub mod Uuid
pub mod Covers
pub mod Editions
pub mod Books
pub mod Queries
