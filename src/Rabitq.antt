-- ===== src/Rabitq.antt =====
-- crates/rabitq: quantised codes of vectors.
pub mod Packing
