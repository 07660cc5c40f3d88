-- ===== src/Tilemaxsimd.antt =====
-- services/tilemaxsimd, the daemon that scores token tensors on a GPU.
pub mod Allocator
pub mod Sketch
pub mod Cache
pub mod HostCache
pub mod Scheduler
pub mod Permits
pub mod Protocol
