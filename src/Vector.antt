-- ===== src/Vector.antt =====
-- crates/vector, the kinds of vectors.
pub mod Bvect
