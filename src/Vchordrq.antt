-- ===== src/Vchordrq.antt =====
-- crates/vchordrq, the vector index on inverted lists.
pub mod LinkedVec
pub mod Freepages
pub mod FastHeap
