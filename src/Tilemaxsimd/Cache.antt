-- ===== src/Tilemaxsimd/Cache.antt =====
-- `GpuCache` of services/tilemaxsimd/src/cache.rs: which tensors lie in the GPU arena, who may evict
-- which, and what a tenant may take. Priorities are floats: the operations are a parameter. The
-- order in which a `HashMap` is walked is that of the association list.
pub mod Invariant
pub mod Evict
pub mod Admit
pub mod Grant
pub mod Outcomes
pub mod Access
pub mod History
mod Tests
use Prim.Native.String.{String}
use vector_chord.Base.{
  ℕ, zero, suc, ◌+◌, ◌-◌, ◌*◌, ◌/◌, ◌%◌, min, max, Bool, true, false, not, ◌&&◌, ◌||◌, Option, none,
  some, List, [], ◌∷◌, length, leb, ltb, ◌==◌, if◌then◌else◌, ite,
}
use vector_chord.Base.Text.{string_discrete}
use vector_chord.Base.HashMap
use vector_chord.Base.HashMap.{HashMap}
use vector_chord.Base.Float.{F64}
use vector_chord.Tilemaxsimd.Allocator
use vector_chord.Tilemaxsimd.Allocator.{
  PageRunAllocator, Result, ok, err, Error, usize_mod, invalid_tenant_policy, entry_disappeared,
  entry_released_twice, entry_lost_before_ready, capacity, allocation_bytes, largest_free,
}
use vector_chord.Tilemaxsimd.Sketch
use vector_chord.Tilemaxsimd.Sketch.{TinyLfu, increment, estimate}

pub record CacheEntry (F : Type 0) : Type 0 where
  pub offset : ℕ
  pub allocated_bytes : ℕ
  pub payload_bytes : ℕ
  pub rows : ℕ
  pub dimension : ℕ
  pub dtype : ℕ
  pub references : ℕ
  pub pinned : Bool
  pub ready : Bool
  pub owner_tenant : String
  pub priority : F

pub data Admission : Type 0 where
  admitted : ℕ → ℕ → Admission
  rejected deferred : Admission

pub record GpuCache (F : Type 0) : Type 0 where
  pub allocator : PageRunAllocator
  pub entries : HashMap String (CacheEntry F)
  pub sketch : TinyLfu
  pub inflation : F
  pub tenant_allocated : HashMap String ℕ
  pub tenant_reservations : HashMap String ℕ
  pub default_tenant_max_bytes : ℕ
  pub pinned_max_bytes : ℕ
  pub pinned_bytes : ℕ
  pub hits : ℕ
  pub misses : ℕ
  pub evictions : ℕ
  pub admission_rejections : ℕ

abbrev pub saturating_add : ℕ → ℕ → ℕ
saturating_add a b = min (a + b) (usize_mod - 1)

abbrev pub or_zero : Option ℕ → ℕ
or_zero none = 0
or_zero (some n) = n

-- `tenant_allocated.get(tenant).copied().unwrap_or(0)`, and so for the reservations.
abbrev pub bytes_of : String → HashMap String ℕ → ℕ
bytes_of tenant m = or_zero (HashMap.get string_discrete tenant m)

-- How far an eviction loop, or the whole of an admission, has come. `panicked` is a failed `expect`,
-- `out_of_fuel` the model's own.
pub data Progress (F : Type 0) : Type 0 where
  going : GpuCache F → Progress F
  answered : Admission → GpuCache F → Progress F
  panicked out_of_fuel : Progress F

-- Goes on where the cache is neither answered nor lost.
abbrev pub and_then : {F : Type 0} → Progress F → (GpuCache F → Progress F) → Progress F
and_then (going c) f = f c
and_then (answered a c) f = answered a c
and_then panicked f = panicked
and_then out_of_fuel f = out_of_fuel

module _ (F : F64) where
  open F use {Carrier, of_ℕ, add, div, le, total_lt}

  abbrev pub Cache : Type 0
  Cache = GpuCache Carrier

  abbrev pub Entry : Type 0
  Entry = CacheEntry Carrier

  -- `tenant_max_bytes`
  pub tenant_limit : String → Cache → ℕ
  tenant_limit tenant c = max (bytes_of tenant c.tenant_reservations) c.default_tenant_max_bytes

  pub can_evict : Cache → Entry → Bool
  can_evict c e =
      if not (e.references == 0) || e.pinned
      then false
      else leb (bytes_of e.owner_tenant c.tenant_reservations)
          (bytes_of e.owner_tenant c.tenant_allocated - e.allocated_bytes)

  pub owned_by : String → Entry → Bool
  owned_by tenant e =
      ite (string_discrete e.owner_tenant tenant) true false && e.references == 0 && not e.pinned

  -- `filter` and `min_by`: of several least priorities, the first.
  pub least :
      (Entry → Bool) → Option (String × Entry) → HashMap String Entry → Option (String × Entry)
  least keep best [] = best
  least keep none ((k, e) ∷ m) = least keep (if keep e then some (k, e) else none) m
  least keep (some (j, f)) ((k, e) ∷ m) =
      least keep (if keep e && total_lt e.priority f.priority then some (k, e) else some (j, f)) m

  pub victim : Cache → Option (String × Entry)
  unfolding can_evict least
  victim c = least (can_evict c) none c.entries

  pub tenant_victim : String → Cache → Option (String × Entry)
  unfolding owned_by least
  tenant_victim tenant c = least (owned_by tenant) none c.entries

  -- What a tenant's table entry becomes when `bytes` of its pages go.
  pub charge_less : String → ℕ → HashMap String ℕ → HashMap String ℕ
  charge_less tenant bytes m =
      let rest = bytes_of tenant m - bytes in
      elim (HashMap.get string_discrete tenant m) [
        | none ↦ m
        | some usage ↦
            if rest == 0
            then HashMap.remove string_discrete tenant m
            else HashMap.insert string_discrete tenant rest m
      ]

  remove_found : String → Option Entry → Cache → Result Entry × Cache
  unfolding charge_less
  remove_found key none c = (err entry_disappeared, c)
  remove_found key (some e) c =
      let (r, a) = Allocator.release e.offset c.allocator in
      let released : Cache = record c {
        allocator = a;
        entries = HashMap.remove string_discrete key c.entries;
      } in
      elim r [
        | err x ↦ (err x, released)
        | ok _ ↦ (
          ok e,
          record released {
            pinned_bytes = if e.pinned then c.pinned_bytes - e.allocated_bytes else c.pinned_bytes;
            tenant_allocated = charge_less e.owner_tenant e.allocated_bytes c.tenant_allocated;
          },
        )
      ]

  pub remove_entry : String → Cache → Result Entry × Cache
  unfolding remove_found
  remove_entry key c = remove_found key (HashMap.get string_discrete key c.entries) c

  -- The end of `evict_one`, and of a round of the tenant's loop.
  pub evict : String → Cache → Progress Carrier
  unfolding remove_entry
  evict key c =
      let (r, d) = remove_entry key c in
      elim r [
        | err _ ↦ panicked
        | ok e ↦ going (record d {
          inflation = F.max d.inflation e.priority;
          evictions = (d.evictions + 1) % usize_mod;
        })
      ]

  -- The priority that the newcomer would have.
  pub candidate_priority : String → ℕ → (hash : ℕ → String → ℕ) → Cache → Carrier
  candidate_priority key bytes hash c =
      add c.inflation (div (of_ℕ (max (estimate hash key c.sketch) 1)) (of_ℕ bytes))

  reject : Cache → Progress Carrier
  reject c =
      answered rejected
        (record c { admission_rejections = (c.admission_rejections + 1) % usize_mod })

  module _ (hash : ℕ → String → ℕ) (key : String) (bytes : ℕ) (force : Bool) where
    -- A round of either loop once it has looked for a victim. `firm` newcomers push any victim out.
    pub make_way : Bool → Option (String × Entry) → Cache → Progress Carrier
    unfolding reject evict candidate_priority
    make_way firm none c = answered deferred c
    make_way firm (some (k, v)) c =
        if not firm && le (candidate_priority key bytes hash c) v.priority
        then reject c
        else evict k c

    -- `while usage + bytes > limit`
    pub tenant_loop : ℕ → String → ℕ → Cache → Progress Carrier
    unfolding make_way tenant_victim
    tenant_loop zero tenant limit c = out_of_fuel
    tenant_loop (suc fuel) tenant limit c =
        elim (ltb limit (saturating_add (bytes_of tenant c.tenant_allocated) bytes)) [
          | false ↦ going c
          | true ↦
              and_then (make_way force (tenant_victim tenant c) c) (tenant_loop fuel tenant limit)
        ]

    -- `while largest_free() < bytes`
    pub arena_loop : ℕ → Bool → Cache → Progress Carrier
    unfolding make_way victim
    arena_loop zero pinned c = out_of_fuel
    arena_loop (suc fuel) pinned c = elim (ltb (largest_free c.allocator) bytes) [
      | false ↦ going c
      | true ↦ and_then (make_way (force || pinned) (victim c) c) (arena_loop fuel pinned)
    ]

    module _ (tenant : String) (payload_bytes rows dimension dtype : ℕ) (pinned : Bool) where
      -- The pages are taken, and the entry is put into the tables.
      pub record_grant : ℕ → ℕ → Cache → Cache
      unfolding candidate_priority
      record_grant offset allocated c = record c {
        entries =
            HashMap.insert string_discrete key
              (record {
                offset = offset;
                allocated_bytes = allocated;
                payload_bytes = payload_bytes;
                rows = rows;
                dimension = dimension;
                dtype = dtype;
                references = 1;
                pinned = pinned;
                ready = false;
                owner_tenant = tenant;
                priority = candidate_priority key allocated hash c;
              })
              c.entries;
        tenant_allocated =
            HashMap.insert string_discrete tenant
              ((bytes_of tenant c.tenant_allocated + allocated) % usize_mod) c.tenant_allocated;
        pinned_bytes = if pinned then (c.pinned_bytes + allocated) % usize_mod else c.pinned_bytes;
      }

      pub take_pages : Cache → Progress Carrier
      unfolding record_grant
      take_pages c =
          let (grant, a) = Allocator.allocate payload_bytes c.allocator in
          let d : Cache = record c { allocator = a } in
          elim grant [
            | none ↦ answered deferred d
            | some (offset, allocated) ↦
                answered (admitted offset allocated) (record_grant offset allocated d)
          ]

      pub free_pages : Cache → Progress Carrier
      unfolding arena_loop take_pages
      free_pages c = and_then (arena_loop (suc (length c.entries)) pinned c) take_pages

      pub make_room : Cache → Progress Carrier
      unfolding tenant_loop free_pages tenant_limit
      make_room c =
          if pinned
          then free_pages c
          else and_then (tenant_loop (suc (length c.entries)) tenant (tenant_limit tenant c) c)
              free_pages

  pub admit_sized :
      (hash : ℕ → String → ℕ) (tenant key : String) (payload_bytes rows dimension dtype : ℕ)
      → Bool
      → Bool
      → Option ℕ
      → Cache
      → Progress Carrier
  unfolding make_room
  admit_sized hash tenant key payload_bytes rows dimension dtype pinned force none c =
      answered deferred c
  admit_sized hash tenant key payload_bytes rows dimension dtype pinned force (some bytes) c =
      if ltb (capacity c.allocator) bytes
      then answered deferred c
      else if pinned && ltb c.pinned_max_bytes (saturating_add c.pinned_bytes bytes)
      then answered deferred c
      else make_room hash key bytes force tenant payload_bytes rows dimension dtype pinned c

  pub admit_for_tenant :
      (hash : ℕ → String → ℕ) (tenant key : String) (payload_bytes rows dimension dtype : ℕ)
      → Bool
      → Bool
      → Cache
      → Progress Carrier
  unfolding admit_sized
  admit_for_tenant hash tenant key payload_bytes rows dimension dtype pinned force c =
      admit_sized hash tenant key payload_bytes rows dimension dtype pinned force
        (allocation_bytes c.allocator payload_bytes) c

  pub new_with_limits : ℕ → ℕ → ℕ → ℕ → HashMap String ℕ → Result Cache
  new_with_limits size block_bytes tenant_max_percent pinned_max_percent reservations =
      let made = Allocator.new size block_bytes in
      if tenant_max_percent == 0
        || ltb 100 tenant_max_percent
        || ltb 100 pinned_max_percent
        || ltb size (HashMap.sum (λ (t : String) (n : ℕ). n) reservations % usize_mod)
      then err invalid_tenant_policy
      else elim made [
        | err e ↦ err e
        | ok a ↦ ok (record {
          allocator = a;
          entries = [];
          sketch = Sketch.new 4096;
          inflation = of_ℕ 0;
          tenant_allocated = [];
          tenant_reservations = reservations;
          default_tenant_max_bytes = (size * tenant_max_percent) % usize_mod / 100;
          pinned_max_bytes = (size * pinned_max_percent) % usize_mod / 100;
          pinned_bytes = 0;
          hits = 0;
          misses = 0;
          evictions = 0;
          admission_rejections = 0;
        })
      ]

  -- `get_mut(key).filter(|entry| entry.ready)`
  pub ready_entry : String → Cache → Option Entry
  ready_entry key c = elim (HashMap.get string_discrete key c.entries) [
    | none ↦ none
    | some e ↦ if e.ready then some e else none
  ]

  abbrev with_entry : String → Entry → Cache → Cache
  with_entry key e c = record c { entries = HashMap.insert string_discrete key e c.entries }

  -- The remainder of the count of references is left out: a lookup adds one at most, so that it would
  -- take 2 ^ 64 of them to wrap around.
  count_hit : String → ℕ → Option Entry → Cache → Option Entry × Cache
  count_hit key frequency none c = (none, record c { misses = (c.misses + 1) % usize_mod })
  count_hit key frequency (some e) c =
      let used : Entry = record e {
        references = e.references + 1;
        priority = add c.inflation (div (of_ℕ frequency) (of_ℕ e.allocated_bytes));
      } in
      (some used, record (with_entry key used c) { hits = (c.hits + 1) % usize_mod })

  pub get : (hash : ℕ → String → ℕ) → String → Cache → Option Entry × Cache
  unfolding count_hit
  get hash key c =
      let (frequency, sketch) = increment hash key c.sketch in
      let d : Cache = record c { sketch = sketch } in count_hit key frequency (ready_entry key d) d

  reference : String → Option Entry → Cache → Option Entry × Cache
  reference key none c = (none, c)
  reference key (some e) c =
      let used : Entry = record e { references = e.references + 1 } in
      (some used, with_entry key used c)

  pub acquire_existing : String → Cache → Option Entry × Cache
  unfolding reference
  acquire_existing key c = reference key (ready_entry key c) c

  pub record_access_miss : (hash : ℕ → String → ℕ) → String → Cache → Cache
  record_access_miss hash key c = record c {
    sketch = (increment hash key c.sketch).1;
    misses = (c.misses + 1) % usize_mod;
  }

  pub contains : String → Cache → Bool
  unfolding ready_entry
  contains key c = elim (ready_entry key c) [ none ↦ false | some e ↦ true ]

  release_found : String → Option Entry → Cache → Result (Unit {0}) × Cache
  release_found key none c = (err entry_disappeared, c)
  release_found key (some e) c =
      if e.references == 0
      then (err entry_released_twice, c)
      else (ok tt, with_entry key (record e { references = e.references - 1 }) c)

  pub release : String → Cache → Result (Unit {0}) × Cache
  unfolding release_found
  release key c = release_found key (HashMap.get string_discrete key c.entries) c

  mark_found : String → Option Entry → Cache → Result (Unit {0}) × Cache
  mark_found key none c = (err entry_lost_before_ready, c)
  mark_found key (some e) c = (ok tt, with_entry key (record e { ready = true }) c)

  pub mark_ready : String → Cache → Result (Unit {0}) × Cache
  unfolding mark_found
  mark_ready key c = mark_found key (HashMap.get string_discrete key c.entries) c

  no_value : Result Entry × Cache → Result (Unit {0}) × Cache
  no_value (err x, c) = (err x, c)
  no_value (ok e, c) = (ok tt, c)

  pub remove : String → Cache → Result (Unit {0}) × Cache
  unfolding remove_entry no_value
  remove key c = no_value (remove_entry key c)
