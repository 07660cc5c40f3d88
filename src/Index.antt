-- ===== src/Index.antt =====
-- crates/index, what the two vector indexes share.
pub mod Prefetcher
pub mod Tuples
