-- ===== src/Lib.antt =====
-- A verification library for VectorChord, a vector index for PostgreSQL with a daemon that scores token
-- tensors on a GPU.
--
-- The daemon, services/tilemaxsimd, answers MaxSim requests of the index. A connection reads a frame and
-- parses it (src/protocol.rs), the scheduler orders the requests of all tenants (src/scheduler.rs), and
-- the engine scores one request at a time (src/engine.rs): it looks its tensors up in the GPU cache of
-- each device, admits and uploads the missing ones, and releases them after the kernel has run. The
-- cache (src/cache.rs) consists of an allocator of page runs, a sketch of access frequencies, and the
-- table of entries with the books of the tenants.
--
-- Which file models what, all in services/tilemaxsimd/src:
--   Tilemaxsimd/Allocator.antt  cache.rs, `PageRunAllocator`. The state is a record of the same fields.
--     A `BTreeMap` is a list of pairs sorted by its keys (Base/BTreeMap.antt), a `HashMap` a list of
--     pairs with different keys (Base/HashMap.antt). An operation is a function from the state to its
--     result and the new state; `?` is the bind of a state monad with errors.
--   Tilemaxsimd/Sketch.antt     cache.rs, `TinyLfu`.
--   Tilemaxsimd/Cache.antt      cache.rs, `GpuCache`. A failed `expect` is the outcome `panicked`.
--   Tilemaxsimd/Scheduler.antt  scheduler.rs, `RequestQueue` over any payload.
--   Tilemaxsimd/Protocol.antt   protocol.rs, `Reader`; Protocol/Frame.antt, `parse`, `success` and
--     `failure`.
--   Tilemaxsimd/HostCache.antt  shard.rs, `HostCache`, the tensors in the memory of the host.
--   Tilemaxsimd/Permits.antt    main.rs, `PendingAdmission` and `ByteAdmission`. An operation on the
--     requests is atomic by its mutex. One on the bytes is two atomic steps, an update of the bytes in use
--     and one of the metric, and threads interleave the steps.
-- In the crates of the index:
--   Index/Prefetcher.antt       crates/index/src/prefetcher.rs: the trait `Sequence` is a record of
--     operations and laws, which the queue implements and the prefetchers take as a parameter. What the
--     storage is told to prefetch is a list.
--   Index/Tuples.antt           crates/index/src/tuples.rs, `RefChecker` and `MutChecker`. Whether the bytes of
--     a range are a value of the type is the crate zerocopy, a parameter.
--   SmallIter.antt              crates/small_iter/src. A read outside the slice is the outcome `unread`.
--   Distance.antt               crates/distance/src/lib.rs: floats, given by their bits, as integers that
--     are ordered by the sign and the magnitude of the float.
--   Vchordrq/Freepages.antt     crates/vchordrq/src/freepages.rs, without page locks and tuple bytes.
--   Vchordrq/LinkedVec.antt     crates/vchordrq/src/linked_vec.rs. What `Vec::with_capacity` grants is a
--     parameter, at least what was asked.
--   Feistel.antt                crates/feistel/src/lib.rs, on numbers below the width.
--   Rabitq/Packing.antt         crates/rabitq/src/packing.rs, 4-bit codes in rows of bytes.
--   Vchordg/Results.antt        crates/vchordg/src/results.rs. The crate min_max_heap is a record of
--     operations and laws.
--   Vchordg/Prune.antt          crates/vchordg/src/prune.rs. The distance of vectors and the operations on
--     floats are parameters.
--   Vchordrq/FastHeap.antt      crates/vchordrq/src/fast_heap.rs. `select_nth_unstable` is a parameter with
--     its documented effect.
--   Vector/Bvect.antt           crates/vector/src/bvect.rs and the loops of crates/simd/src/bit.rs over words.
-- In the extension, src:
--   Extension/Client.antt       index/vchordrq/scanners/maxsim/gpu.rs: `Cursor` and
--     `decode_response_for_version`; Client/Request.antt the checks of a request, Client/Encoder.antt
--     `BoundedWriter` and `encode_external_descriptors`, Client/Batches.antt `collect_external_batch` and
--     `rerank_batches` over a record of what the clock, the transport and the consumer do; the addition
--     that gives the deadline is an operation of that record, which may fail. The other
--     modules below are proofs: what a response says and, together with Protocol/Frame.antt, that both
--     ends of the wire agree.
-- Base and its children are shared names, maps, vectors, bits, taking the least or greatest of a list,
-- and tests on numbers.
--
-- Numbers are natural numbers. A `usize` or `u64` addition that could wrap has its remainder by 2 ^ 64
-- written out, a saturating operation its bound. Left out is the remainder of the count of references
-- of a cache entry: a lookup adds one at most, so that it would take 2 ^ 64 of them. An `i32` is
-- stored with a bias of 2 ^ 31.
-- Floating-point numbers are a parameter, a record of the operations that the sources use
-- (Base/Float.antt); the theorems on fairness name the laws of their comparison that they need, which
-- hold of floats that are no NaN. Where a source takes the bits of an `f32`, the float is the number of
-- its bits. The hash of the sketch is a parameter.
--
-- Fuel: a loop of admission, to the GPU cache or the host's, gets one round more than the cache has
-- entries, since each round removes an entry; the loop of the simple prefetcher gets 32, the size of its
-- window; the loop of `drain_expired` gets as many rounds as there are pending items, since each round
-- removes an item or moves on; `rerank_batches` gets one round more than there are descriptors. The
-- theorems on them show that it is enough.
--
-- Not modelled: sockets, threads and metrics of the daemon (the rest of main.rs), the files of tensors
-- (the rest of shard.rs), the CUDA library (gpu.rs), the access methods of the extension,
-- and the kernels of crates/simd but for the loops named above.
pub mod Extension
pub mod Base
pub mod Tilemaxsimd
pub mod Index
pub mod Distance
pub mod Vchordrq
pub mod SmallIter
pub mod Feistel
pub mod Rabitq
pub mod Vchordg
pub mod Vector
