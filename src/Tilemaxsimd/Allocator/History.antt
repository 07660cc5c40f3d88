-- ===== src/Tilemaxsimd/Allocator/History.antt =====
-- A fresh arena, a release after its allocation, and the books after any sequence of calls.
use vector_chord.Base.{
  ℕ, ◌+◌, ◌-◌, ◌*◌, ◌/◌, ◌%◌, ◌≤◌, ◌<◌, ◌≡◌, ◌⊎◌, ◌↔◌, none, some, List, [], ◌∷◌, arith, ℕ_discrete,
  refl, inl, inr, ltb, if_elim, Option-cases, dec_lt, ◌≢◌, ap, subst,
}
use native.Mathlib.Nat.{mul-mod_left, div-mul-le_self, div-eq_of_lt}
use vector_chord.Base.BTreeMap
use vector_chord.Base.HashMap
use vector_chord.Base.HashMap.{HashMap}
use vector_chord.Tilemaxsimd.Allocator.{
  PageRunAllocator, ok, usize_mod, new, empty, allocate, release, free_bytes, allocated_bytes,
  allocated_blocks, capacity,
}
use vector_chord.Tilemaxsimd.Allocator.Invariant.{IsValid, free_run, used_run}
use vector_chord.Tilemaxsimd.Allocator.Runs.{In, Clear, Covers, Covers-with, Covers-without}
use vector_chord.Tilemaxsimd.Allocator.Steps.{
  IsHoled, with_run, without_run, gone, put_back, put_back-IsValid,
}
use vector_chord.Tilemaxsimd.Allocator.Allocate.{
  rest, after_allocate, best_fit-some, used_run-after_allocate, same_arena, required-pos,
  mul-div_self, after_allocate-IsValid, free-unused,
}
use vector_chord.Tilemaxsimd.Allocator.Release.{Released}
use vector_chord.Tilemaxsimd.Allocator.Requests.{allocate-IsValid, grant-run, release_lem}

module _ (a : PageRunAllocator) (v : IsValid a) (s n r x : ℕ) (e : free_run a s ≡ some n)
    (p : 0 < r) (q : r ≤ n) where
  whole-Covers : Covers (free_run a) x ↔ (Covers (free_run (without_run s n a)) x ⊎ In s n x)
  whole-Covers = Covers-without (free_run a) (free_run (without_run s n a)) s n x (gone a s n v e) e

  back_unlisted : free_run (without_run s n a) (s + r) ≡ none
  back_unlisted = elim (Option-cases (free_run (without_run s n a) (s + r))) [
    | inl h ↦ h
    | inr (k, h) ↦
        absurd (ground (arith, gone a s n v e (s + r), v.apart.free_apart s n (s + r) k e))
  ]

  back-Covers :
      Covers (free_run (with_run (s + r) (n - r) (without_run s n a))) x
      ↔ (Covers (free_run (without_run s n a)) x ⊎ In (s + r) (n - r) x)
  back-Covers =
      Covers-with (free_run (without_run s n a)) _ (s + r) (n - r) x
        (λ t. BTreeMap.get-insert t (s + r) (n - r) (BTreeMap.remove s a.free_by_start))
        back_unlisted

  split : (In (s + r) (n - r) x ⊎ In s r x) ↔ In s n x
  split = (λ h. ground arith, λ h. ground arith)

  -- The free blocks and a grant make up the blocks that were free before it.
  rest-Covers : (Covers (free_run (rest a s n r)) x ⊎ In s r x) ↔ Covers (free_run a) x
  unfolding rest
  rest-Covers =
      if_elim (λ b. (Covers (free_run b) x ⊎ In s r x) ↔ Covers (free_run a) x) (ltb r n)
        (λ more. (
          λ h. elim h [
            | inl c ↦ elim (back-Covers.0 c) [
              | inl d ↦ whole-Covers.1 (inl d)
              | inr i ↦ whole-Covers.1 (inr (split.0 (inl i)))
            ]
            | inr i ↦ whole-Covers.1 (inr (split.0 (inr i)))
          ],
          λ h. elim (whole-Covers.0 h) [
            | inl d ↦ inl (back-Covers.1 (inl d))
            | inr i ↦ elim (split.1 i) [ inl j ↦ inl (back-Covers.1 (inr j)) | inr j ↦ inr j ]
          ],
        ))
        (λ exact.
          let same : In s r x ↔ In s n x = (λ h. ground arith, λ h. ground arith) in
          (
            λ h. elim h [
              | inl d ↦ whole-Covers.1 (inl d)
              | inr i ↦ whole-Covers.1 (inr (same.0 i))
            ],
            λ h. elim (whole-Covers.0 h) [ inl d ↦ inl d | inr i ↦ inr (same.1 i) ],
          ))

  second_release :
      Released (after_allocate a s n r) s r (release (s * a.block_bytes) (after_allocate a s n r))
  second_release =
      let b = after_allocate a s n r in
      let valid = after_allocate-IsValid a v s n r e p q in
      let unit = (same_arena a s n r).0 in
      subst (λ t. Released b t r (release (s * a.block_bytes) b))
        (rw unit (mul-div_self s a.block_bytes v.unit))
        ((release_lem b (s * a.block_bytes) valid).2 r (rw unit (mul-mod_left s a.block_bytes)) (
          rw (unit, mul-div_self s a.block_bytes v.unit)
            (ground (arith, used_run-after_allocate a v s n r e p q s))))

  used_run_back :
      (c : PageRunAllocator)
      → c.allocated ≡ HashMap.remove ℕ_discrete s (after_allocate a s n r).allocated
      → (t : ℕ) → used_run c t ≡ used_run a t
  used_run_back c h t =
      let b = after_allocate a s n r in
      let valid = after_allocate-IsValid a v s n r e p q in
      ground (
        arith,
        free-unused a v s n e,
        ap (HashMap.get ℕ_discrete t) h,
        HashMap.get-remove_self ℕ_discrete s b.allocated valid.used_once,
        HashMap.get-remove_ne ℕ_discrete t s b.allocated,
        used_run-after_allocate a v s n r e p q t,
      )

  round_trip :
      (c : PageRunAllocator) × (release (s * a.block_bytes) (after_allocate a s n r) ≡ (ok tt, c))
      × IsValid c
      × ((y : ℕ)
          → Covers (free_run c) y ↔ (Covers (free_run (after_allocate a s n r)) y ⊎ In s r y))
      × ((t : ℕ) → used_run c t ≡ used_run a t)
  round_trip =
      let d = second_release in
      (d.after, d.result, d.valid, d.covered, used_run_back d.after d.used_after)

-- A release right after its allocation succeeds, and gives back the same free blocks and the same
-- allocated runs.
pub release-allocate :
    (a : PageRunAllocator) (payload offset bytes : ℕ)
    → IsValid a
    → (allocate payload a).0 ≡ some (offset, bytes)
    → (c : PageRunAllocator) × (release offset (allocate payload a).1 ≡ (ok tt, c))
      × IsValid c
      × ((x : ℕ) → Covers (free_run c) x ↔ Covers (free_run a) x)
      × ((t : ℕ) → used_run c t ≡ used_run a t)
unfolding after_allocate
release-allocate a payload offset bytes v e =
    let (s, n, at, sized, found, left) = grant-run a payload v offset bytes e in
    let (free_s, fits) = best_fit-some a v (bytes / a.block_bytes) s n found in
    let pos = required-pos a v payload bytes sized in
    let (c, done, valid, covers, used) =
      round_trip a v s n (bytes / a.block_bytes) 0 free_s pos fits in
    (
      c,
      rw (at, left) done,
      valid,
      λ x.
          let same = rest-Covers a v s n (bytes / a.block_bytes) x free_s pos fits in
          (λ h. same.0 ((covers x).0 h), λ h. (covers x).1 (same.1 h)),
      used,
    )

-- `free_bytes` and `allocated_bytes` make up the arena, and none of the three sums wraps.
sum-scaled :
    (b : ℕ) (m : HashMap ℕ ℕ)
    → HashMap.sum (λ (start blocks : ℕ). blocks * b) m
      ≡ HashMap.sum (λ (start blocks : ℕ). blocks) m * b
unfolding HashMap.sum
sum-scaled b [] = omega arith
sum-scaled b ((s, n) ∷ m) = omega (arith, sum-scaled b m)

pub books :
    (a : PageRunAllocator)
    → IsValid a
    → (free_bytes a + allocated_bytes a ≡ capacity a) × (capacity a ≡ a.block_count * a.block_bytes)
unfolding free_bytes allocated_bytes capacity allocated_blocks
books a v =
    let total = ap (λ (t : ℕ). t * a.block_bytes) v.total in
    let scaled = sum-scaled a.block_bytes a.allocated in
    (omega (arith, total, scaled, v.small), omega (arith, v.small))

-- A client's calls, and the allocator after them.
pub data Request : Type 0 where
  allocates releases : ℕ → Request

abbrev pub step : PageRunAllocator → Request → PageRunAllocator
step a (allocates payload) = (allocate payload a).1
step a (releases offset) = (release offset a).1

pub run : PageRunAllocator → List Request → PageRunAllocator
run a [] = a
run a (r ∷ rs) = run (step a r) rs

release-IsValid : (a : PageRunAllocator) (offset : ℕ) → IsValid a → IsValid (release offset a).1
release-IsValid a offset v =
    let cases = release_lem a offset v in
    elim (ℕ_discrete (offset % a.block_bytes) 0) [
      | no off ↦ rw (cases.0 off) v
      | yes on ↦ elim (Option-cases (used_run a (offset / a.block_bytes))) [
        | inl gone ↦ rw (cases.1 on gone) v
        | inr (n, e) ↦ let d = cases.2 n on e in rw (d.result) (d.valid)
      ]
    ]

step-IsValid : (a : PageRunAllocator) (r : Request) → IsValid a → IsValid (step a r)
step-IsValid a (allocates payload) v = allocate-IsValid a payload v
step-IsValid a (releases offset) v = release-IsValid a offset v

run-IsValid : (rs : List Request) (a : PageRunAllocator) → IsValid a → IsValid (run a rs)
unfolding run
run-IsValid [] a v = v
run-IsValid (r ∷ rs) a v = run-IsValid rs (step a r) (step-IsValid a r v)

-- After any sequence of calls, those that fail included, the allocator is valid and its free and
-- allocated bytes make up its capacity.
pub run_books :
    (a : PageRunAllocator) (rs : List Request)
    → IsValid a
    → IsValid (run a rs)
      × (free_bytes (run a rs) + allocated_bytes (run a rs) ≡ capacity (run a rs))
run_books a rs v = let w = run-IsValid rs a v in (w, (books (run a rs) w).0)

-- A fresh arena is one gap, before its blocks are put in as one free run.
pub empty-IsHoled : (b c : ℕ) → 0 < b → 0 < c → c * b < usize_mod → IsHoled (empty b c) 0 c
unfolding empty BTreeMap.get HashMap.get BTreeMap.sum HashMap.sum allocated_blocks
empty-IsHoled b c p q h = record {
  unit = p;
  small = h;
  indexes = record {
    starts_sorted = tt;
    sizes_sorted = tt;
    sets_sorted = λ n s e. absurd (ground arith);
    sets_inhabited = λ n s e. absurd (ground arith);
    same_runs = λ n s. refl;
  };
  used_once = tt;
  apart = record {
    free_in = λ s n e. absurd (ground arith);
    used_in = λ s n e. absurd (ground arith);
    free_apart = λ s n t k e f l. absurd (ground arith);
    used_apart = λ s n t k e f l. absurd (ground arith);
    free_used = λ s n t k e f. absurd (ground arith);
  };
  gap = record {
    inside = omega arith;
    free_off = λ t k e. absurd (ground arith);
    used_off = λ t k e. absurd (ground arith);
  };
  free_total = refl;
  total = omega arith;
}

count-le : (n d : ℕ) → 0 < d → n / d ≢ 0 → d ≤ n
count-le n d p h = elim (dec_lt n d) [ yes q ↦ absurd (h (div-eq_of_lt q)) | no q ↦ omega arith ]

-- `new` succeeds exactly on a block size that is a positive multiple of 256 and at most the capacity;
-- the arena is then valid, all of it is free, and it holds as many blocks as fit.
pub new_lem :
    (size block_bytes : ℕ)
    → size < usize_mod
    → (0 < block_bytes
        → block_bytes % 256 ≡ 0
        → block_bytes ≤ size
        → (a : PageRunAllocator) × (new size block_bytes ≡ ok a)
          × IsValid a
          × (a.block_bytes ≡ block_bytes)
          × (a.block_count ≡ size / block_bytes)
          × (a.free_blocks ≡ a.block_count)
          × (a.allocated ≡ []))
      × ((a : PageRunAllocator)
          → new size block_bytes ≡ ok a
          → (0 < block_bytes) × (block_bytes % 256 ≡ 0) × (block_bytes ≤ size))
unfolding new empty BTreeMap.get
new_lem size block_bytes small = (
  λ p q h.
      let c = size / block_bytes in
      let hole = empty-IsHoled block_bytes c p (count-pos h p) fits in
      let clear : Clear (free_run (empty block_bytes c)) 0 c = λ t k e. absurd (nothing t k e) in
      (
        with_run 0 c (empty block_bytes c),
        ground (arith, put_back (empty block_bytes c) 0 c hole clear, count-pos h p),
        put_back-IsValid (empty block_bytes c) 0 c hole clear,
        refl,
        refl,
        omega arith,
        refl,
      ),
  λ a e. ground (arith, count-le size block_bytes),
)
  where
    count-pos : block_bytes ≤ size → 0 < block_bytes → 0 < size / block_bytes
    count-pos h p = grind arith

    fits : size / block_bytes * block_bytes < usize_mod
    fits = omega (arith, div-mul-le_self size block_bytes)

    nothing : (t k : ℕ) → free_run (empty block_bytes (size / block_bytes)) t ≡ some k → ⊥
    nothing t k e = ground arith
