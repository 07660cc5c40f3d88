-- ===== src/Tilemaxsimd/Cache/Tests.antt =====
-- The cache at work on an arena of eight blocks, with natural numbers for the priorities, and the
-- theorems there.
use Prim.Native.String.{String}
use vector_chord.Base.{
  ℕ, ◌+◌, ◌/◌, ◌≡◌, ◌≢◌, true, false, none, some, [], ◌∷◌, arith, refl, ℕ_discrete,
}
use vector_chord.Base.Text.{string_discrete}
use vector_chord.Base.BTreeMap
use vector_chord.Base.HashMap
use vector_chord.Base.Float.{whole}
use vector_chord.Tilemaxsimd.Allocator
use vector_chord.Tilemaxsimd.Allocator.{
  Result, ok, err, add_free_run, remove_free_run, remove_from_sizes, empty, capacity,
  allocation_bytes, largest_free, give_back, take_run, best_fit, allocate, allocate_blocks,
}
use vector_chord.Tilemaxsimd.Sketch
use vector_chord.Tilemaxsimd.Cache.{
  Cache, Entry, Progress, answered, admitted, new_with_limits, admit_for_tenant, admit_sized,
  make_room, free_pages, take_pages, record_grant, arena_loop, tenant_loop, tenant_limit, get,
  release, count_hit, ready_entry,
}
use vector_chord.Tilemaxsimd.Cache.Invariant.{IsValid, entry}
use vector_chord.Tilemaxsimd.Cache.Outcomes.{Ended, admit_for_tenant-Ended}
use vector_chord.Tilemaxsimd.Cache.History.{
  Reachable, started, asked, Reachable-IsValid, release-get,
}

abbrev no_hash : ℕ → String → ℕ
no_hash row key = 0

-- The cache of a value, or the fallback.
abbrev cache_of : Result (Cache whole) → Cache whole → Cache whole
cache_of (ok c) d = c
cache_of (err e) d = d

abbrev fresh : Cache whole
fresh = record {
  allocator = record {
    block_bytes = 256;
    block_count = 8;
    free_by_start = (0, 8) ∷ [];
    free_by_size = (8, (0, tt) ∷ []) ∷ [];
    allocated = [];
    free_blocks = 8;
  };
  entries = [];
  sketch = Sketch.new 4096;
  inflation = 0;
  tenant_allocated = [];
  tenant_reservations = [];
  default_tenant_max_bytes = 1024;
  pinned_max_bytes = 512;
  pinned_bytes = 0;
  hits = 0;
  misses = 0;
  evictions = 0;
  admission_rejections = 0;
}

fresh-Reachable : Reachable whole no_hash fresh
unfolding new_with_limits Allocator.new empty add_free_run BTreeMap.get BTreeMap.insert HashMap.sum
fresh-Reachable = started 2048 256 50 25 [] fresh (omega arith) refl

-- The cache of an answer, or the fallback.
abbrev after_of : Progress ℕ → Cache whole → Cache whole
after_of (answered a d) c = d
after_of _ c = c

-- One tensor of 300 bytes is loading, in two of the eight blocks.
abbrev busy : Cache whole
busy = after_of (admit_for_tenant whole no_hash "a" "k" 300 1 1 1 false false fresh) fresh

busy_answer :
    admit_for_tenant whole no_hash "a" "k" 300 1 1 1 false false fresh
    ≡ answered (admitted 0 512) busy
unfolding admit_for_tenant admit_sized make_room free_pages take_pages record_grant arena_loop
    tenant_loop tenant_limit allocate allocate_blocks take_run give_back best_fit allocation_bytes
    remove_free_run remove_from_sizes add_free_run largest_free capacity BTreeMap.insert
    BTreeMap.remove BTreeMap.get BTreeMap.first_from BTreeMap.is_empty BTreeMap.last_key_value
    HashMap.get HashMap.insert ℕ_discrete string_discrete
busy_answer = refl

busy-Reachable : Reachable whole no_hash busy
unfolding HashMap.get
busy-Reachable =
    asked fresh busy "a" "k" 300 1 1 1 false false (admitted 0 512) fresh-Reachable refl busy_answer

busy-absent : entry "m" busy ≡ none
unfolding admit_for_tenant admit_sized make_room free_pages take_pages record_grant arena_loop
    tenant_loop tenant_limit allocate allocate_blocks take_run give_back best_fit allocation_bytes
    remove_free_run remove_from_sizes add_free_run largest_free capacity BTreeMap.insert
    BTreeMap.remove BTreeMap.get BTreeMap.first_from BTreeMap.is_empty BTreeMap.last_key_value
    HashMap.get HashMap.insert ℕ_discrete string_discrete
busy-absent = refl

admit_for_tenant-Ended_example :
    Ended whole busy "a" "m" 300 false
      (admit_for_tenant whole no_hash "a" "m" 300 1 1 1 false true busy)
admit_for_tenant-Ended_example =
    admit_for_tenant-Ended whole no_hash "a" "m" 300 1 1 1 false true busy
      (Reachable-IsValid whole no_hash busy busy-Reachable) busy-absent

Reachable-IsValid_example : IsValid busy
Reachable-IsValid_example = Reachable-IsValid whole no_hash busy busy-Reachable

abbrev resident : Entry whole
resident = record {
  offset = 0;
  allocated_bytes = 512;
  payload_bytes = 300;
  rows = 1;
  dimension = 1;
  dtype = 1;
  references = 2;
  pinned = false;
  ready = true;
  owner_tenant = "a";
  priority = 0;
}

abbrev loaded : Cache whole
loaded = record fresh { entries = ("k", resident) ∷ [] }

-- What a hit answers.
abbrev hit : Entry whole
hit = record resident {
  references = 3;
  priority = 0 + (Sketch.increment no_hash "k" (Sketch.new 4096)).0 / 512;
}

release-get_example :
    (f : Entry whole) × (entry "k" loaded ≡ some f)
    × (f.ready ≡ true)
    × (hit.references ≡ f.references + 1)
    × (entry "k" (get whole no_hash "k" loaded).1 ≡ some hit)
    × ((release whole "k" (get whole no_hash "k" loaded).1).0 ≡ ok tt)
    × (entry "k" (release whole "k" (get whole no_hash "k" loaded).1).1
        ≡ some (record hit { references = f.references }))
    × ((k : String)
        → "k" ≢ k
        → entry k (release whole "k" (get whole no_hash "k" loaded).1).1 ≡ entry k loaded)
unfolding get count_hit ready_entry HashMap.get string_discrete
release-get_example = release-get whole no_hash "k" loaded hit refl
