-- ===== src/Tilemaxsimd/Cache/Invariant.antt =====
-- The invariant of the cache: the entries own the allocated runs one to one, and the books of the
-- tenants and of the pinned bytes are the sums over the entries.
use Prim.Native.String.{String}
use vector_chord.Base.{ℕ, ◌*◌, ◌/◌, ◌%◌, ◌≡◌, Option, some, ite, if◌then◌else◌}
use vector_chord.Base.Text.{string_discrete}
use vector_chord.Base.HashMap
use vector_chord.Base.HashMap.{HashMap}
use vector_chord.Tilemaxsimd.Allocator.{PageRunAllocator, allocated_blocks}
use vector_chord.Tilemaxsimd.Allocator.Invariant.{used_run}
use vector_chord.Tilemaxsimd.Allocator.Invariant
use vector_chord.Tilemaxsimd.Cache.{CacheEntry, GpuCache, bytes_of}

module _ {F : Type 0} where
  -- An entry's pages are an allocated run.
  pub record Owns (a : PageRunAllocator) (e : CacheEntry F) : Type 0 where
    pub aligned : e.offset % a.block_bytes ≡ 0
    pub blocks : ℕ
    pub run : used_run a (e.offset / a.block_bytes) ≡ some blocks
    pub whole : e.allocated_bytes ≡ blocks * a.block_bytes

  abbrev pub any_bytes : String → CacheEntry F → ℕ
  any_bytes k e = e.allocated_bytes

  abbrev pub bytes_if_owner : String → String → CacheEntry F → ℕ
  bytes_if_owner tenant k e = ite (string_discrete e.owner_tenant tenant) (e.allocated_bytes) 0

  abbrev pub bytes_if_pinned : String → CacheEntry F → ℕ
  bytes_if_pinned k e = if e.pinned then e.allocated_bytes else 0

  abbrev pub entry : String → GpuCache F → Option (CacheEntry F)
  entry key c = HashMap.get string_discrete key c.entries

  pub record IsValid (c : GpuCache F) : Type 0 where
    pub arena : Invariant.IsValid c.allocator
    pub keys_once : HashMap.IsDistinct string_discrete c.entries
    pub tenants_once : HashMap.IsDistinct string_discrete c.tenant_allocated
    pub owns : (k : String) (e : CacheEntry F) → entry k c ≡ some e → Owns c.allocator e
    pub apart :
        (j k : String) (e f : CacheEntry F)
        → entry j c ≡ some e
        → entry k c ≡ some f
        → e.offset ≡ f.offset
        → j ≡ k
    -- No page is lost: what is allocated is owned.
    pub no_leak :
        HashMap.sum any_bytes c.entries ≡ allocated_blocks c.allocator * c.allocator.block_bytes
    pub tenant_books :
        (t : String) → bytes_of t c.tenant_allocated ≡ HashMap.sum (bytes_if_owner t) c.entries
    pub pinned_books : c.pinned_bytes ≡ HashMap.sum bytes_if_pinned c.entries

  -- The counters, the sketch and the inflation play no part in it.
  pub same_tables-IsValid :
      (c d : GpuCache F)
      → d.allocator ≡ c.allocator
      → d.entries ≡ c.entries
      → d.tenant_allocated ≡ c.tenant_allocated
      → d.pinned_bytes ≡ c.pinned_bytes
      → IsValid c
      → IsValid d
  same_tables-IsValid c d p q r s v = record {
    arena = rw p (v.arena);
    keys_once = rw q (v.keys_once);
    tenants_once = rw r (v.tenants_once);
    owns = λ k e h. rw p (v.owns k e (rw q at h));
    apart = λ j k e f h i. v.apart j k e f (rw q at h) (rw q at i);
    no_leak = rw (p, q) (v.no_leak);
    tenant_books = λ t. rw (r, q) (v.tenant_books t);
    pinned_books = rw (s, q) (v.pinned_books);
  }
