-- ===== src/Vchordg.antt =====
-- crates/vchordg, the vector index on a graph.
pub mod Results
pub mod Prune
