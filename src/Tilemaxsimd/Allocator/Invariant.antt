-- ===== src/Tilemaxsimd/Allocator/Invariant.antt =====
-- The invariant of the allocator: its two indexes agree, its runs are apart, and its counts add up.
use vector_chord.Base.{
  ℕ, ◌+◌, ◌*◌, ◌≤◌, ◌<◌, ◌≡◌, ◌⊎◌, Option, none, some, false, ℕ_discrete, ◌==◌, if◌then◌else◌,
}
use vector_chord.Base.BTreeMap
use vector_chord.Base.BTreeMap.{BTreeMap, BTreeSet}
use vector_chord.Base.HashMap
use vector_chord.Tilemaxsimd.Allocator.{PageRunAllocator, usize_mod, allocated_blocks}

-- Whether the size index lists a start under a size.
abbrev pub listed_in : ℕ → Option BTreeSet → Option (Unit {0})
listed_in s none = none
listed_in s (some starts) = BTreeMap.get s starts

abbrev pub listed : ℕ → ℕ → BTreeMap BTreeSet → Option (Unit {0})
listed n s m = listed_in s (BTreeMap.get n m)

abbrev pub has_size : ℕ → Option ℕ → Option (Unit {0})
has_size n none = none
has_size n (some k) = if k == n then some tt else none

-- The indexes of the free runs.
pub record Agree (by_start : BTreeMap ℕ) (by_size : BTreeMap BTreeSet) : Type 0 where
  pub starts_sorted : BTreeMap.IsSorted by_start
  pub sizes_sorted : BTreeMap.IsSorted by_size
  pub sets_sorted : (n : ℕ) (s : BTreeSet) → BTreeMap.get n by_size ≡ some s → BTreeMap.IsSorted s
  pub sets_inhabited :
      (n : ℕ) (s : BTreeSet) → BTreeMap.get n by_size ≡ some s → BTreeMap.is_empty s ≡ false
  pub same_runs : (n s : ℕ) → listed n s by_size ≡ has_size n (BTreeMap.get s by_start)

-- The runs lie in the arena, hold a block at least, and share none; free runs do not even touch.
pub record Apart (free used : ℕ → Option ℕ) (count : ℕ) : Type 0 where
  pub free_in : (s n : ℕ) → free s ≡ some n → (0 < n) × (s + n ≤ count)
  pub used_in : (s n : ℕ) → used s ≡ some n → (0 < n) × (s + n ≤ count)
  pub free_apart : (s n t k : ℕ) → free s ≡ some n → free t ≡ some k → s < t → s + n < t
  pub used_apart : (s n t k : ℕ) → used s ≡ some n → used t ≡ some k → s < t → s + n ≤ t
  pub free_used : (s n t k : ℕ) → free s ≡ some n → used t ≡ some k → (s + n ≤ t) ⊎ (t + k ≤ s)

abbrev pub free_run : PageRunAllocator → ℕ → Option ℕ
free_run a s = BTreeMap.get s a.free_by_start

abbrev pub used_run : PageRunAllocator → ℕ → Option ℕ
used_run a s = HashMap.get ℕ_discrete s a.allocated

pub record IsValid (a : PageRunAllocator) : Type 0 where
  pub unit : 0 < a.block_bytes
  pub small : a.block_count * a.block_bytes < usize_mod
  pub indexes : Agree a.free_by_start a.free_by_size
  pub used_once : HashMap.IsDistinct ℕ_discrete a.allocated
  pub apart : Apart (free_run a) (used_run a) a.block_count
  pub free_total : BTreeMap.sum a.free_by_start ≡ a.free_blocks
  pub total : a.free_blocks + allocated_blocks a ≡ a.block_count
