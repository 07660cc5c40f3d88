-- ===== src/Tilemaxsimd/Allocator/Tests.antt =====
-- The scenario of the source's own test, and the theorems at concrete arenas.
use vector_chord.Base.{
  ℕ, ◌+◌, ◌*◌, ◌/◌, ◌%◌, ◌≤◌, ◌<◌, ◌≡◌, ◌≢◌, ◌⊎◌, ◌↔◌, none, some, List, [], ◌∷◌, arith, ℕ_discrete,
  refl,
}
use vector_chord.Base.BTreeMap
use vector_chord.Base.HashMap
use vector_chord.Tilemaxsimd.Allocator.{
  PageRunAllocator, ok, err, released_twice, unaligned_release, empty, new, allocate, release,
  add_free_run, remove_free_run, remove_from_sizes, take_run, give_back, best_fit, allocate_blocks,
  allocation_bytes, release_run, join_previous, join_next, free_bytes, allocated_bytes,
  largest_free, capacity,
}
use vector_chord.Tilemaxsimd.Allocator.Invariant.{IsValid, free_run, used_run}
use vector_chord.Tilemaxsimd.Allocator.Runs.{Covers}
use vector_chord.Tilemaxsimd.Allocator.Steps.{put_back-IsValid}
use vector_chord.Tilemaxsimd.Allocator.Requests.{
  allocate-IsValid, allocate-fresh, allocate-best_fit, release_lem,
}
use vector_chord.Tilemaxsimd.Allocator.Release.{Released}
use vector_chord.Tilemaxsimd.Allocator.History.{
  empty-IsHoled, release-allocate, Request, allocates, releases, run, run_books,
}

-- Eight free blocks of 256 bytes.
abbrev arena : PageRunAllocator
arena = record {
  block_bytes = 256;
  block_count = 8;
  free_by_start = (0, 8) ∷ [];
  free_by_size = (8, (0, tt) ∷ []) ∷ [];
  allocated = [];
  free_blocks = 8;
}

arena-IsValid : IsValid arena
unfolding empty BTreeMap.get BTreeMap.insert
arena-IsValid =
    put_back-IsValid (empty 256 8) 0 8
      (empty-IsHoled 256 8 (omega arith) (omega arith) (omega arith))
      (λ t k e. absurd (ground arith))

-- What a run of the allocator unfolds.
running : ℕ
unfolding new allocate allocate_blocks take_run give_back best_fit allocation_bytes release
    release_run join_previous join_next add_free_run remove_free_run remove_from_sizes empty
    BTreeMap.insert BTreeMap.remove BTreeMap.get BTreeMap.first_from BTreeMap.last_below
    BTreeMap.is_empty BTreeMap.last_key_value HashMap.get HashMap.insert HashMap.remove HashMap.sum
    ℕ_discrete largest_free free_bytes allocated_bytes capacity
running = 0

abbrev one : PageRunAllocator
one = (allocate 300 arena).1

abbrev two : PageRunAllocator
two = (allocate 300 one).1

abbrev three : PageRunAllocator
three = (allocate 700 two).1

grants :
    ((allocate 300 arena).0 ≡ some (0, 512))
    × ((allocate 300 one).0 ≡ some (512, 512))
    × ((allocate 700 two).0 ≡ some (1024, 768))
    × (free_bytes three ≡ 256)
unfolding running
grants = (refl, refl, refl, refl)

coalesced :
    (largest_free (release 0 (release 512 three).1).1 ≡ 1024)
    × (largest_free (release 1024 (release 0 (release 512 three).1).1).1 ≡ 2048)
unfolding running
coalesced = (refl, refl)

grant_one : (allocate 300 arena).0 ≡ some (0, 512)
grant_one = grants.0

sized_one : allocation_bytes arena 300 ≡ some 512
unfolding allocation_bytes
sized_one = refl

used_one : used_run one 0 ≡ some 2
unfolding running
used_one = refl

one-IsValid : IsValid one
one-IsValid = allocate-IsValid arena 300 arena-IsValid

one_unit : one.block_bytes ≡ 256
unfolding running
one_unit = refl

allocate-fresh_example :
    (300 ≤ 512)
    × (512 < 300 + 256)
    × (512 % 256 ≡ 0)
    × (0 % 256 ≡ 0)
    × (0 + 512 ≤ 8 * 256)
    × ((t k : ℕ) → used_run arena t ≡ some k → (t * 256 + k * 256 ≤ 0) ⊎ (0 + 512 ≤ t * 256))
allocate-fresh_example = allocate-fresh arena 300 0 512 arena-IsValid grant_one

allocate-best_fit_example :
    (n : ℕ) × (free_run arena (0 / arena.block_bytes) ≡ some n)
    × (512 ≤ n * arena.block_bytes)
    × ((t k : ℕ) → free_run arena t ≡ some k → 512 ≤ k * arena.block_bytes → n ≤ k)
allocate-best_fit_example = allocate-best_fit arena 300 0 512 arena-IsValid grant_one

release_lem_example :
    (300 % one.block_bytes ≢ 0 → release 300 one ≡ (err unaligned_release, one))
    × (300 % one.block_bytes ≡ 0
        → used_run one (300 / one.block_bytes) ≡ none
        → release 300 one ≡ (err released_twice, one))
    × ((n : ℕ)
        → 300 % one.block_bytes ≡ 0
        → used_run one (300 / one.block_bytes) ≡ some n
        → Released one (300 / one.block_bytes) n (release 300 one))
release_lem_example = release_lem one 300 one-IsValid

release-allocate_example :
    (c : PageRunAllocator) × (release 0 (allocate 300 arena).1 ≡ (ok tt, c))
    × IsValid c
    × ((x : ℕ) → Covers (free_run c) x ↔ Covers (free_run arena) x)
    × ((t : ℕ) → used_run c t ≡ used_run arena t)
release-allocate_example = release-allocate arena 300 0 512 arena-IsValid grant_one

abbrev calls : List Request
calls = allocates 300 ∷ allocates 700 ∷ releases 0 ∷ releases 0 ∷ releases 3 ∷ []

run_books_example :
    IsValid (run arena calls)
    × (free_bytes (run arena calls) + allocated_bytes (run arena calls)
        ≡ capacity (run arena calls))
run_books_example = run_books arena calls arena-IsValid
