-- ===== src/Tilemaxsimd/Allocator.antt =====
-- `PageRunAllocator` of services/tilemaxsimd/src/cache.rs: page runs of the GPU arena. A method
-- that fails leaves behind what it had changed before, so a method returns its result and the state.
pub mod Steps
pub mod Invariant
pub mod Index
pub mod Runs
pub mod Allocate
pub mod Release
pub mod Requests
pub mod History
mod Tests
use vector_chord.Base.{
  ℕ, ◌+◌, ◌-◌, ◌*◌, ◌/◌, ◌%◌, ◌^◌, Bool, true, false, not, ◌||◌, Option, none, some, [], ltb, leb,
  ◌==◌, if◌then◌else◌, ℕ_discrete,
}
use vector_chord.Base.BTreeMap
use vector_chord.Base.BTreeMap.{BTreeMap, BTreeSet}
use vector_chord.Base.HashMap
use vector_chord.Base.HashMap.{HashMap}

-- The error messages of the file, in its order.
pub data Error : Type 0 where
  invalid_arena arena_too_small outside_arena duplicate_run count_overflow : Error
  address_index_inconsistent size_index_inconsistent count_underflow : Error
  unaligned_release released_twice : Error
  invalid_tenant_policy entry_disappeared entry_released_twice entry_lost_before_ready : Error

pub data Result {ℓ} (A : Type ℓ) : Type ℓ where
  ok : A → Result A
  err : Error → Result A

abbrev pub usize_mod : ℕ
usize_mod = 2 ^ 64

pub record PageRunAllocator : Type 0 where
  pub block_bytes : ℕ
  pub block_count : ℕ
  pub free_by_start : BTreeMap ℕ
  pub free_by_size : BTreeMap BTreeSet
  pub allocated : HashMap ℕ ℕ
  pub free_blocks : ℕ

-- A computation on the allocator; the state is kept on an error.
abbrev pub M : Type 0 → Type 0
M A = PageRunAllocator → Result A × PageRunAllocator

infixl 5 ◌>>=◌ ◌>>◌
abbrev pub ◌>>=◌ : {A B : Type 0} → M A → (A → M B) → M B
◌>>=◌ m f a = let (r, b) = m a in elim r [ ok x ↦ f x b | err e ↦ (err e, b) ]

abbrev pub ◌>>◌ : {B : Type 0} → M (Unit {0}) → M B → M B
m >> k = m >>= λ _. k

abbrev is_some {ℓ} : {A : Type ℓ} → Option A → Bool
is_some none = false
is_some (some x) = true

-- `checked_add(..).is_none_or(|end| end > limit)`
abbrev pub ends_beyond : ℕ → ℕ → ℕ → Bool
ends_beyond start blocks limit = leb usize_mod (start + blocks) || ltb limit (start + blocks)

abbrev pub starts_of : ℕ → BTreeMap BTreeSet → BTreeSet
starts_of n m = elim (BTreeMap.get n m) [ none ↦ [] | some s ↦ s ]

unfoldable pub add_free_run : ℕ → ℕ → M (Unit {0})
add_free_run start blocks a =
    let by_start = BTreeMap.insert start blocks a.free_by_start in
    let by_size =
      BTreeMap.insert blocks (BTreeMap.insert start tt (starts_of blocks a.free_by_size))
        a.free_by_size in
    let b : PageRunAllocator = record a { free_by_start = by_start; free_by_size = by_size } in
    if blocks == 0 || ends_beyond start blocks a.block_count
    then (err outside_arena, a)
    else if is_some (BTreeMap.get start a.free_by_start)
    then (err duplicate_run, record a { free_by_start = by_start })
    else if leb usize_mod (a.free_blocks + blocks)
    then (err count_overflow, b)
    else (ok tt, record b { free_blocks = a.free_blocks + blocks })

abbrev is_run : Option ℕ → ℕ → Bool
is_run none n = false
is_run (some k) n = k == n

-- What is left of the size index once `start` is out of the set `starts` of its size.
abbrev pub without_start : ℕ → ℕ → BTreeSet → BTreeMap BTreeSet → BTreeMap BTreeSet
without_start start blocks starts m =
    let rest = BTreeMap.remove start starts in
    if BTreeMap.is_empty rest then BTreeMap.remove blocks m else BTreeMap.insert blocks rest m

unfoldable pub remove_from_sizes : ℕ → ℕ → Option BTreeSet → M (Unit {0})
remove_from_sizes start blocks none a = (err size_index_inconsistent, a)
remove_from_sizes start blocks (some starts) a =
    let b : PageRunAllocator = record a {
      free_by_size = without_start start blocks starts a.free_by_size;
    } in
    if not (is_some (BTreeMap.get start starts))
    then (err size_index_inconsistent, a)
    else if ltb a.free_blocks blocks
    then (err count_underflow, b)
    else (ok tt, record b { free_blocks = a.free_blocks - blocks })

unfoldable pub remove_free_run : ℕ → ℕ → M (Unit {0})
unfolding remove_from_sizes
remove_free_run start blocks a =
    let b : PageRunAllocator = record a { free_by_start = BTreeMap.remove start a.free_by_start } in
    if is_run (BTreeMap.get start a.free_by_start) blocks
    then remove_from_sizes start blocks (BTreeMap.get blocks a.free_by_size) b
    else (err address_index_inconsistent, b)

unfoldable pub empty : ℕ → ℕ → PageRunAllocator
empty block_bytes block_count = record {
  block_bytes = block_bytes;
  block_count = block_count;
  free_by_start = [];
  free_by_size = [];
  allocated = [];
  free_blocks = 0;
}

unfoldable pub new : ℕ → ℕ → Result PageRunAllocator
unfolding empty
new capacity block_bytes =
    let count = capacity / block_bytes in
    let (r, a) = add_free_run 0 count (empty block_bytes count) in
    if capacity == 0 || block_bytes == 0 || not (block_bytes % 256 == 0)
    then err invalid_arena
    else if count == 0
    then err arena_too_small
    else elim r [ ok _ ↦ ok a | err e ↦ err e ]

unfoldable pub capacity : PageRunAllocator → ℕ
capacity a = (a.block_count * a.block_bytes) % usize_mod

-- `usize::div_ceil`
abbrev pub div_ceil : ℕ → ℕ → ℕ
div_ceil n d = if n % d == 0 then n / d else n / d + 1

unfoldable pub allocation_bytes : PageRunAllocator → ℕ → Option ℕ
allocation_bytes a payload_bytes =
    let bytes = div_ceil payload_bytes a.block_bytes * a.block_bytes in
    if payload_bytes == 0 then none else if leb usize_mod bytes then none else some bytes

unfoldable pub largest_free : PageRunAllocator → ℕ
largest_free a = elim (BTreeMap.last_key_value a.free_by_size) [
  | none ↦ 0
  | some (blocks, starts) ↦ (blocks * a.block_bytes) % usize_mod
]

-- The part of a run that a request leaves over goes back to the free runs.
unfoldable pub give_back : ℕ → ℕ → ℕ → M (Unit {0})
give_back start available required a =
    if ltb required available
    then add_free_run ((start + required) % usize_mod) (available - required) a
    else (ok tt, a)

-- Takes the first `required` blocks of the free run of `available` blocks at `start`.
unfoldable pub take_run : ℕ → ℕ → ℕ → M (Unit {0})
unfolding give_back
take_run start available required = do
  remove_free_run start available
  give_back start available required

-- The free run that `allocate` takes: the lowest start among the runs of the least sufficient size.
unfoldable pub best_fit : PageRunAllocator → ℕ → Option (ℕ × ℕ)
best_fit a required = elim (BTreeMap.first_from required a.free_by_size) [
  | none ↦ none
  | some (available, starts) ↦ elim (BTreeMap.first_from 0 starts) [
    | none ↦ none
    | some (start, _) ↦ some (start, available)
  ]
]

unfoldable pub allocate_blocks :
    ℕ → Option (ℕ × ℕ) → PageRunAllocator → Option (ℕ × ℕ) × PageRunAllocator
unfolding take_run
allocate_blocks bytes none a = (none, a)
allocate_blocks bytes (some (start, available)) a =
    let required = bytes / a.block_bytes in
    let (r, b) = take_run start available required a in
    elim r [
      | err _ ↦ (none, b)
      | ok _ ↦ (
        some ((start * b.block_bytes) % usize_mod, bytes),
        record b { allocated = HashMap.insert ℕ_discrete start required b.allocated },
      )
    ]

unfoldable pub allocate : ℕ → PageRunAllocator → Option (ℕ × ℕ) × PageRunAllocator
unfolding allocation_bytes best_fit allocate_blocks
allocate payload_bytes a = elim (allocation_bytes a payload_bytes) [
  | none ↦ (none, a)
  | some bytes ↦ allocate_blocks bytes (best_fit a (bytes / a.block_bytes)) a
]

-- Joins a run with the free run that ends where it starts; returns the run's start and blocks.
pub join_previous : ℕ → ℕ → Option (ℕ × ℕ) → M (ℕ × ℕ)
join_previous start blocks none a = (ok (start, blocks), a)
join_previous start blocks (some (previous_start, previous_blocks)) a =
    let joined = do
      remove_free_run previous_start previous_blocks
      (λ b. (ok (previous_start, (blocks + previous_blocks) % usize_mod), b))
    in if (previous_start + previous_blocks) % usize_mod == start
      then joined a
      else (ok (start, blocks), a)

-- Joins a run with the free run that starts where it ends.
pub join_next : ℕ → ℕ → M (ℕ × ℕ)
join_next start blocks a =
    let next_start = (start + blocks) % usize_mod in
    elim (BTreeMap.get next_start a.free_by_start) [
      | none ↦ (ok (start, blocks), a)
      | some next_blocks ↦
          (do
            remove_free_run next_start next_blocks
            (λ b. (ok (start, (blocks + next_blocks) % usize_mod), b)))
            a
    ]

pub release_run : ℕ → Option ℕ → M (Unit {0})
unfolding join_previous join_next
release_run start none a = (err released_twice, a)
release_run start (some blocks) a =
    (do
      run ← join_previous start blocks (BTreeMap.last_below start a.free_by_start)
      whole ← join_next run.0 run.1
      add_free_run whole.0 whole.1)
      (record a { allocated = HashMap.remove ℕ_discrete start a.allocated })

pub release : ℕ → M (Unit {0})
unfolding release_run
release offset a =
    let start = offset / a.block_bytes in
    if offset % a.block_bytes == 0
    then release_run start (HashMap.get ℕ_discrete start a.allocated) a
    else (err unaligned_release, a)

pub free_bytes : PageRunAllocator → ℕ
free_bytes a = (a.free_blocks * a.block_bytes) % usize_mod

unfoldable pub allocated_blocks : PageRunAllocator → ℕ
allocated_blocks a = HashMap.sum (λ (start blocks : ℕ). blocks) a.allocated

pub allocated_bytes : PageRunAllocator → ℕ
allocated_bytes a =
    HashMap.sum (λ (start blocks : ℕ). blocks * a.block_bytes) a.allocated % usize_mod
