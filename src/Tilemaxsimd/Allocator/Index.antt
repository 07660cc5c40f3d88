-- ===== src/Tilemaxsimd/Allocator/Index.antt =====
-- The two indexes of the free runs stay in agreement.
use vector_chord.Base.{ℕ, ◌≡◌, Option, none, some, false, arith, refl}
use vector_chord.Base.BTreeMap
use vector_chord.Base.BTreeMap.{
  BTreeMap, BTreeSet, get-insert, get-remove, insert-IsSorted, remove-IsSorted,
}
use vector_chord.Tilemaxsimd.Allocator.{starts_of, without_start}
use vector_chord.Tilemaxsimd.Allocator.Invariant.{Agree, listed}

-- The size index with one more start, and with one less.
abbrev pub grown : BTreeMap BTreeSet → ℕ → ℕ → BTreeMap BTreeSet
grown by_size start blocks =
    BTreeMap.insert blocks (BTreeMap.insert start tt (starts_of blocks by_size)) by_size

abbrev pub without : BTreeMap BTreeSet → ℕ → ℕ → BTreeMap BTreeSet
without by_size start blocks = without_start start blocks (starts_of blocks by_size) by_size

module _ (by_start : BTreeMap ℕ) (by_size : BTreeMap BTreeSet) (v : Agree by_start by_size) where
  starts_of-IsSorted :
      (n : ℕ) (o : Option BTreeSet)
      → BTreeMap.get n by_size ≡ o
      → BTreeMap.IsSorted (starts_of n by_size)
  starts_of-IsSorted n none e = ground arith
  starts_of-IsSorted n (some s) e = ground (arith, v.sets_sorted n s e)

  get-starts_of : (s n : ℕ) → BTreeMap.get s (starts_of n by_size) ≡ listed n s by_size
  unfolding BTreeMap.get
  get-starts_of s n = ground arith

  insert-ne-empty : (s : ℕ) (m : BTreeSet) → BTreeMap.is_empty (BTreeMap.insert s tt m) ≡ false
  insert-ne-empty s m =
      ground (arith, get-insert s s tt m, BTreeMap.is_empty-get (BTreeMap.insert s tt m) s)

  pub insert-Agree :
      (start blocks : ℕ)
      → BTreeMap.get start by_start ≡ none
      → Agree (BTreeMap.insert start blocks by_start) (grown by_size start blocks)
  insert-Agree start blocks e = record {
    starts_sorted = insert-IsSorted start blocks by_start v.starts_sorted;
    sizes_sorted = insert-IsSorted blocks _ by_size v.sizes_sorted;
    sets_sorted = λ n s h. ground (
      arith,
      get-insert n blocks (BTreeMap.insert start tt (starts_of blocks by_size)) by_size,
      insert-IsSorted start tt (starts_of blocks by_size) (starts_of-IsSorted blocks _ refl),
      v.sets_sorted n s,
    );
    sets_inhabited = λ n s h. ground (
      arith,
      get-insert n blocks (BTreeMap.insert start tt (starts_of blocks by_size)) by_size,
      insert-ne-empty start (starts_of blocks by_size),
      v.sets_inhabited n s,
    );
    same_runs = λ n s. ground (
      arith,
      get-insert n blocks (BTreeMap.insert start tt (starts_of blocks by_size)) by_size,
      get-insert s start tt (starts_of blocks by_size),
      get-insert s start blocks by_start,
      v.same_runs n s,
      get-starts_of s n,
      get-starts_of s blocks,
    );
  }

  pub remove-Agree :
      (start blocks : ℕ)
      → BTreeMap.get start by_start ≡ some blocks
      → Agree (BTreeMap.remove start by_start) (without by_size start blocks)
  remove-Agree start blocks e = record {
    starts_sorted = remove-IsSorted start by_start v.starts_sorted;
    sizes_sorted = ground (
      arith,
      insert-IsSorted blocks (BTreeMap.remove start (starts_of blocks by_size)) by_size
          v.sizes_sorted,
      remove-IsSorted blocks by_size v.sizes_sorted,
    );
    sets_sorted = λ n s h. ground (
      arith,
      get-insert n blocks (BTreeMap.remove start (starts_of blocks by_size)) by_size,
      get-remove n blocks by_size v.sizes_sorted,
      remove-IsSorted start (starts_of blocks by_size) (starts_of-IsSorted blocks _ refl),
      v.sets_sorted n s,
    );
    sets_inhabited = λ n s h. ground (
      arith,
      get-insert n blocks (BTreeMap.remove start (starts_of blocks by_size)) by_size,
      get-remove n blocks by_size v.sizes_sorted,
      v.sets_inhabited n s,
    );
    same_runs = λ n s. ground (
      arith,
      get-insert n blocks (BTreeMap.remove start (starts_of blocks by_size)) by_size,
      get-remove n blocks by_size v.sizes_sorted,
      get-remove s start (starts_of blocks by_size) (starts_of-IsSorted blocks _ refl),
      get-remove s start by_start v.starts_sorted,
      BTreeMap.is_empty-get (BTreeMap.remove start (starts_of blocks by_size)) s,
      v.same_runs n s,
      get-starts_of s n,
      get-starts_of s blocks,
    );
  }
