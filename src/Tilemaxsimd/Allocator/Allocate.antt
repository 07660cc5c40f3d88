-- ===== src/Tilemaxsimd/Allocator/Allocate.antt =====
-- `allocate` on a valid allocator: what it takes, and what it leaves.
use vector_chord.Base.{
  ℕ, ◌+◌, ◌-◌, ◌*◌, ◌/◌, ◌%◌, ◌≤◌, ◌<◌, ◌≡◌, none, some, arith, ℕ_discrete, refl, false,
  Option-cases, inl, inr, ltb, if◌then◌else◌, ◌==◌, ◌&&◌, if_elim, ltb→lt, subst,
}
use vector_chord.Base.BTreeMap
use vector_chord.Base.BTreeMap.{BTreeSet}
use vector_chord.Base.HashMap
use vector_chord.Tilemaxsimd.Allocator.{
  PageRunAllocator, ok, usize_mod, best_fit, allocation_bytes, allocate, allocate_blocks, take_run,
  give_back, div_ceil,
}
use vector_chord.Tilemaxsimd.Allocator.Invariant.{IsValid, free_run, used_run}
use vector_chord.Tilemaxsimd.Allocator.Steps.{
  IsHoled, with_run, without_run, count-lt, take-IsHoled, remove_free_run_lem, taken-Clear, put_end,
  put_end-IsHoled, used, use_gap-IsValid,
}

-- A number of blocks that covers the payload, and no more than that.
pub div_ceil_bounds : (p b : ℕ) → 0 < b → (p ≤ div_ceil p b * b) × (div_ceil p b * b < p + b)
div_ceil_bounds p b h = grind arith

pub mul-div_self : (n b : ℕ) → 0 < b → (n * b) / b ≡ n
mul-div_self n b h = grind arith

module _ (a : PageRunAllocator) (v : IsValid a) (r : ℕ) where
  -- The two look-ups of `best_fit`.
  best_fit_steps :
      (s n : ℕ)
      → best_fit a r ≡ some (s, n)
      → (starts : BTreeSet) × (BTreeMap.first_from r a.free_by_size ≡ some (n, starts))
        × (BTreeMap.first_from 0 starts ≡ some (s, tt))
  unfolding best_fit
  best_fit_steps s n e = elim (Option-cases (BTreeMap.first_from r a.free_by_size)) [
    | inl none_left ↦ absurd (ground arith)
    | inr ((m, starts), found) ↦ elim (Option-cases (BTreeMap.first_from 0 starts)) [
      | inl none_left ↦ absurd (ground arith)
      | inr ((t, u), first) ↦ (starts, ground arith, ground arith)
    ]
  ]

  size-listed :
      (t k : ℕ)
      → free_run a t ≡ some k
      → (starts : BTreeSet) × (BTreeMap.get k a.free_by_size ≡ some starts)
  size-listed t k f = elim (Option-cases (BTreeMap.get k a.free_by_size)) [
    | inl e ↦ absurd (ground (arith, v.indexes.same_runs k t))
    | inr found ↦ found
  ]

  -- The run that `best_fit` finds is free and large enough.
  pub best_fit-some : (s n : ℕ) → best_fit a r ≡ some (s, n) → (free_run a s ≡ some n) × (r ≤ n)
  best_fit-some s n e =
      let (starts, found, first) = best_fit_steps s n e in
      ground (
        arith,
        BTreeMap.first_from-some 0 r n starts a.free_by_size v.indexes.sizes_sorted found,
        BTreeMap.first_from-some 0 0 s tt starts
            (v.indexes.sets_sorted n starts (
              ground (
                arith,
                BTreeMap.first_from-some 0 r n starts a.free_by_size v.indexes.sizes_sorted found,
              )))
            first,
        v.indexes.same_runs n s,
      )

  -- No smaller run is large enough.
  pub best_fit-least :
      (s n t k : ℕ) → best_fit a r ≡ some (s, n) → free_run a t ≡ some k → r ≤ k → n ≤ k
  best_fit-least s n t k e f h =
      let (starts, found, first) = best_fit_steps s n e in
      let (others, listed_k) = size-listed t k f in
      BTreeMap.first_from-least 0 r n starts k others a.free_by_size v.indexes.sizes_sorted found
        listed_k h

  -- When it finds none, no free run is large enough.
  pub best_fit-none : (t k : ℕ) → best_fit a r ≡ none → free_run a t ≡ some k → k < r
  unfolding best_fit
  best_fit-none t k e f =
      let (others, listed_k) = size-listed t k f in
      elim (Option-cases (BTreeMap.first_from r a.free_by_size)) [
        | inl gone ↦ BTreeMap.first_from-none r k others a.free_by_size gone listed_k
        | inr ((m, starts), found) ↦
            let (j, u, first) = BTreeMap.not-is_empty starts (
              v.indexes.sets_inhabited m starts
                (BTreeMap.first_from-some 0 r m starts a.free_by_size v.indexes.sizes_sorted
                  found).0) in
            absurd (ground arith)
      ]

-- What is left of an allocator once the first `r` of the `n` free blocks at `s` are out, and the
-- allocator in which they are allocated.
unfoldable pub rest : PageRunAllocator → ℕ → ℕ → ℕ → PageRunAllocator
rest a s n r = if ltb r n then with_run (s + r) (n - r) (without_run s n a) else without_run s n a

unfoldable pub after_allocate : PageRunAllocator → ℕ → ℕ → ℕ → PageRunAllocator
after_allocate a s n r = used (rest a s n r) s r

module _ (a : PageRunAllocator) (v : IsValid a) (s n r : ℕ) (e : free_run a s ≡ some n) (p : 0 < r)
    (q : r ≤ n) where
  start-lt : (s + r) % usize_mod ≡ s + r
  start-lt =
      omega (arith, (v.apart.free_in s n e).1, count-lt a.block_count a.block_bytes v.unit v.small)

  take_run-rest : take_run s n r a ≡ (ok tt, rest a s n r)
  unfolding take_run give_back rest
  take_run-rest = ground (
    arith,
    remove_free_run_lem a s n v e,
    put_end (without_run s n a) s n r (take-IsHoled a s n v e) (taken-Clear a s n v e) p,
    start-lt,
  )

  rest-IsHoled : IsHoled (rest a s n r) s r
  unfolding rest
  rest-IsHoled =
      if_elim (λ b. IsHoled b s r) (ltb r n)
        (λ more.
          put_end-IsHoled (without_run s n a) s n r (take-IsHoled a s n v e) (taken-Clear a s n v e)
            p (ltb→lt r n more))
        (λ exact.
          subst (λ m. IsHoled (without_run s n a) s m) (same exact) (take-IsHoled a s n v e))
    where
      same : ltb r n ≡ false → n ≡ r
      same exact = ground arith

  pub after_allocate-IsValid : IsValid (after_allocate a s n r)
  unfolding after_allocate
  after_allocate-IsValid = use_gap-IsValid (rest a s n r) s r rest-IsHoled

  -- Only the entry of `s` is new among the allocated runs.
  pub used_run-after_allocate :
      (t : ℕ) → used_run (after_allocate a s n r) t ≡ (if s == t then some r else used_run a t)
  unfolding after_allocate rest
  used_run-after_allocate t = ground (arith, HashMap.get-insert ℕ_discrete t s r a.allocated)

  pub free_run-after_allocate :
      (t : ℕ)
      → free_run (after_allocate a s n r) t
        ≡ (if ltb r n && s + r == t then some (n - r) else if s == t then none else free_run a t)
  unfolding after_allocate rest
  free_run-after_allocate t = ground (
    arith,
    BTreeMap.get-insert t (s + r) (n - r) (BTreeMap.remove s a.free_by_start),
    BTreeMap.get-remove t s a.free_by_start v.indexes.starts_sorted,
  )

pub same_arena :
    (a : PageRunAllocator) (s n r : ℕ)
    → ((after_allocate a s n r).block_bytes ≡ a.block_bytes)
      × ((after_allocate a s n r).block_count ≡ a.block_count)
unfolding after_allocate rest
same_arena a s n r = ground arith

-- The table of allocated runs has the new run, and no other change.
pub allocated-after_allocate :
    (a : PageRunAllocator) (s n r : ℕ)
    → (after_allocate a s n r).allocated ≡ HashMap.insert ℕ_discrete s r a.allocated
unfolding after_allocate rest
allocated-after_allocate a s n r = ground arith

rest-block_bytes : (a : PageRunAllocator) (s n r : ℕ) → (rest a s n r).block_bytes ≡ a.block_bytes
unfolding rest
rest-block_bytes a s n r = ground arith

-- No allocated run starts where a free run does.
pub free-unused :
    (a : PageRunAllocator) (v : IsValid a) (s n : ℕ) → free_run a s ≡ some n → used_run a s ≡ none
free-unused a v s n e = elim (Option-cases (used_run a s)) [
  | inl h ↦ h
  | inr (k, h) ↦
      absurd (
        ground (arith, v.apart.free_used s n s k e h, v.apart.free_in s n e, v.apart.used_in s k h))
]

pub offset-lt :
    (a : PageRunAllocator) (v : IsValid a) (s n : ℕ)
    → free_run a s ≡ some n
    → (s * a.block_bytes) % usize_mod ≡ s * a.block_bytes
offset-lt a v s n e =
    let h : s ≤ a.block_count = omega (arith, (v.apart.free_in s n e).1) in
    let k : s * a.block_bytes ≤ a.block_count * a.block_bytes = grind arith in
    omega (arith, k, v.small)

-- The bytes that an allocation of a payload takes: the least whole number of blocks.
module _ (a : PageRunAllocator) (v : IsValid a) (payload bytes : ℕ)
    (sized : allocation_bytes a payload ≡ some bytes) where
  pub allocation_bytes-some :
      (0 < payload) × (bytes ≡ div_ceil payload a.block_bytes * a.block_bytes) × (bytes < usize_mod)
  unfolding allocation_bytes
  allocation_bytes-some = ground arith

  pub required-div_ceil : bytes / a.block_bytes ≡ div_ceil payload a.block_bytes
  required-div_ceil =
      rw (allocation_bytes-some.1)
        (mul-div_self (div_ceil payload a.block_bytes) a.block_bytes v.unit)

  pub required-pos : 0 < bytes / a.block_bytes
  required-pos =
      rw required-div_ceil
        (ground (arith, allocation_bytes-some, div_ceil_bounds payload a.block_bytes v.unit))

  pub bytes-required : bytes ≡ bytes / a.block_bytes * a.block_bytes
  bytes-required = rw required-div_ceil (allocation_bytes-some.1)

  pub payload-le-bytes : (payload ≤ bytes) × (bytes < payload + a.block_bytes)
  payload-le-bytes = rw (allocation_bytes-some.1) (div_ceil_bounds payload a.block_bytes v.unit)

  -- `allocate` takes the run that `best_fit` finds.
  pub allocate_lem :
      (s n : ℕ)
      → best_fit a (bytes / a.block_bytes) ≡ some (s, n)
      → allocate payload a
        ≡ (some (s * a.block_bytes, bytes), after_allocate a s n (bytes / a.block_bytes))
  unfolding allocate allocate_blocks after_allocate
  allocate_lem s n found =
      let (e, q) = best_fit-some a v (bytes / a.block_bytes) s n found in
      ground (
        arith,
        take_run-rest a v s n (bytes / a.block_bytes) e required-pos q,
        offset-lt a v s n e,
        rest-block_bytes a s n (bytes / a.block_bytes),
      )

  pub allocate_full : best_fit a (bytes / a.block_bytes) ≡ none → allocate payload a ≡ (none, a)
  unfolding allocate allocate_blocks
  allocate_full e = ground arith

pub allocate_unsized :
    (a : PageRunAllocator) (payload : ℕ)
    → allocation_bytes a payload ≡ none
    → allocate payload a ≡ (none, a)
unfolding allocate
allocate_unsized a payload e = ground arith

-- How much a payload takes depends on the size of a block only.
pub allocation_bytes-same_unit :
    (a b : PageRunAllocator) (payload : ℕ)
    → b.block_bytes ≡ a.block_bytes
    → allocation_bytes b payload ≡ allocation_bytes a payload
unfolding allocation_bytes
allocation_bytes-same_unit a b payload e = rw e refl
