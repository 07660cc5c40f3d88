-- ===== src/Tilemaxsimd/Allocator/Requests.antt =====
-- What a client may rely on: each call keeps the invariant, a grant is fresh memory of the right
-- size, a release undoes it, and the books balance after any history.
use vector_chord.Base.{
  ℕ, ◌+◌, ◌*◌, ◌/◌, ◌%◌, ◌≤◌, ◌<◌, ◌≡◌, ◌≢◌, ◌⊎◌, ◌↔◌, Option, none, some, arith, inl, inr,
  Option-cases, subst, ap, ◌∙◌,
}
use native.Mathlib.Nat.{mul-mod_left, mul-le-mul_right}
use vector_chord.Tilemaxsimd.Allocator.{
  PageRunAllocator, err, released_twice, unaligned_release, allocate, release, release_run,
  best_fit, allocation_bytes,
}
use vector_chord.Tilemaxsimd.Allocator.Invariant.{IsValid, free_run, used_run}
use vector_chord.Tilemaxsimd.Allocator.Allocate.{
  best_fit-some, best_fit-least, best_fit-none, after_allocate, after_allocate-IsValid,
  required-pos, bytes-required, payload-le-bytes, allocate_lem, allocate_full, allocate_unsized,
  mul-div_self,
}
use vector_chord.Tilemaxsimd.Allocator.Release.{Released, release_run-Released}

scale : (s r m b : ℕ) → s + r ≤ m → s * b + r * b ≤ m * b
scale s r m b h = omega (arith, mul-le-mul_right b h)

scale-lt : (k r b : ℕ) → 0 < b → (k * b < r * b) ↔ (k < r)
scale-lt k r b h = ((λ p. grind arith), λ p. grind arith)

-- What a call of `allocate` has done.
pub data Outcome (a : PageRunAllocator) (payload : ℕ) (r : Option (ℕ × ℕ) × PageRunAllocator)
    : Type 0 where
  refused : r ≡ (none, a) → Outcome a payload r
  granted :
      (bytes s n : ℕ)
      → allocation_bytes a payload ≡ some bytes
      → best_fit a (bytes / a.block_bytes) ≡ some (s, n)
      → r ≡ (some (s * a.block_bytes, bytes), after_allocate a s n (bytes / a.block_bytes))
      → Outcome a payload r

pub allocate-Outcome :
    (a : PageRunAllocator) (payload : ℕ) → IsValid a → Outcome a payload (allocate payload a)
allocate-Outcome a payload v = elim (Option-cases (allocation_bytes a payload)) [
  | inl e ↦ refused (allocate_unsized a payload e)
  | inr (bytes, sized) ↦ elim (Option-cases (best_fit a (bytes / a.block_bytes))) [
    | inl e ↦ refused (allocate_full a v payload bytes sized e)
    | inr ((s, n), found) ↦
        granted bytes s n sized found (allocate_lem a v payload bytes sized s n found)
  ]
]

Outcome-IsValid :
    (a : PageRunAllocator) (payload : ℕ) (r : Option (ℕ × ℕ) × PageRunAllocator)
    → IsValid a
    → Outcome a payload r
    → IsValid r.1
Outcome-IsValid a payload r v (refused e) = rw e v
Outcome-IsValid a payload r v (granted bytes s n sized found e) =
    let h = best_fit-some a v (bytes / a.block_bytes) s n found in
    rw e (
      after_allocate-IsValid a v s n (bytes / a.block_bytes) h.0
        (required-pos a v payload bytes sized) h.1)

-- `allocate` keeps the invariant, whatever the payload, granted or not.
pub allocate-IsValid :
    (a : PageRunAllocator) (payload : ℕ) → IsValid a → IsValid (allocate payload a).1
allocate-IsValid a payload v =
    Outcome-IsValid a payload (allocate payload a) v (allocate-Outcome a payload v)

module _ (a : PageRunAllocator) (payload : ℕ) (v : IsValid a) (offset bytes : ℕ)
    (e : (allocate payload a).0 ≡ some (offset, bytes)) where
  -- The run behind a grant.
  pub grant-run :
      (s : ℕ) × (n : ℕ) × (offset ≡ s * a.block_bytes)
      × (allocation_bytes a payload ≡ some bytes)
      × (best_fit a (bytes / a.block_bytes) ≡ some (s, n))
      × ((allocate payload a).1 ≡ after_allocate a s n (bytes / a.block_bytes))
  grant-run = go (allocate payload a) (allocate-Outcome a payload v) e
    where
      go :
          (r : Option (ℕ × ℕ) × PageRunAllocator)
          → Outcome a payload r
          → r.0 ≡ some (offset, bytes)
          → (s : ℕ) × (n : ℕ) × (offset ≡ s * a.block_bytes)
            × (allocation_bytes a payload ≡ some bytes)
            × (best_fit a (bytes / a.block_bytes) ≡ some (s, n))
            × (r.1 ≡ after_allocate a s n (bytes / a.block_bytes))
      go r (refused q) h = absurd (ground arith)
      go r (granted b s n sized found q) h =
          (s, n, ground arith, ground arith, ground arith, ground arith)

-- A grant is the least whole number of blocks that holds the payload, starts on a block, lies in the
-- arena, and shares no byte with a run that was allocated before.
pub allocate-fresh :
    (a : PageRunAllocator) (payload offset bytes : ℕ)
    → IsValid a
    → (allocate payload a).0 ≡ some (offset, bytes)
    → (payload ≤ bytes)
      × (bytes < payload + a.block_bytes)
      × (bytes % a.block_bytes ≡ 0)
      × (offset % a.block_bytes ≡ 0)
      × (offset + bytes ≤ a.block_count * a.block_bytes)
      × ((t k : ℕ)
          → used_run a t ≡ some k
          → (t * a.block_bytes + k * a.block_bytes ≤ offset) ⊎ (offset + bytes ≤ t * a.block_bytes))
allocate-fresh a payload offset bytes v e =
    let (s, n, at, sized, found, left) = grant-run a payload v offset bytes e in
    let r = bytes / a.block_bytes in
    let h = best_fit-some a v r s n found in
    let whole = bytes-required a v payload bytes sized in
    (
      (payload-le-bytes a v payload bytes sized).0,
      (payload-le-bytes a v payload bytes sized).1,
      ap (λ m. m % a.block_bytes) whole ∙ mul-mod_left r a.block_bytes,
      rw at (mul-mod_left s a.block_bytes),
      omega (
        arith,
        scale s r a.block_count a.block_bytes (omega (arith, h.1, (v.apart.free_in s n h.0).1)),
        at,
        whole,
      ),
      λ t k u. ground (
        arith,
        v.apart.free_used s n t k h.0 u,
        scale t k s a.block_bytes,
        scale s r t a.block_bytes,
        h.1,
        at,
        whole,
      ),
    )

-- `allocate` refuses exactly when no free run is large enough.
pub allocate-none_iff :
    (a : PageRunAllocator) (payload bytes : ℕ)
    → IsValid a
    → allocation_bytes a payload ≡ some bytes
    → ((allocate payload a).0 ≡ none)
      ↔ ((t k : ℕ) → free_run a t ≡ some k → k * a.block_bytes < bytes)
allocate-none_iff a payload bytes v sized = (there, back)
  where
    whole : bytes ≡ bytes / a.block_bytes * a.block_bytes
    whole = bytes-required a v payload bytes sized

    there :
        (allocate payload a).0 ≡ none
        → (t k : ℕ) → free_run a t ≡ some k
        → k * a.block_bytes < bytes
    there e t k f = elim (Option-cases (best_fit a (bytes / a.block_bytes))) [
      | inl gone ↦ omega (
        arith,
        (scale-lt k (bytes / a.block_bytes) a.block_bytes v.unit).1
            (best_fit-none a v (bytes / a.block_bytes) t k gone f),
        whole,
      )
      | inr ((s, n), found) ↦
          absurd (ground (arith, allocate_lem a v payload bytes sized s n found))
    ]

    back :
        ((t k : ℕ) → free_run a t ≡ some k → k * a.block_bytes < bytes)
        → (allocate payload a).0 ≡ none
    back h = elim (Option-cases (best_fit a (bytes / a.block_bytes))) [
      | inl gone ↦ ground (arith, allocate_full a v payload bytes sized gone)
      | inr ((s, n), found) ↦
          let (e, q) = best_fit-some a v (bytes / a.block_bytes) s n found in
          let fits =
            (scale-lt n (bytes / a.block_bytes) a.block_bytes v.unit).0
              (omega (arith, h s n e, whole)) in
          absurd (omega (arith, fits, q))
    ]

-- A grant is cut from the front of a free run, and no free run that is large enough is smaller.
pub allocate-best_fit :
    (a : PageRunAllocator) (payload offset bytes : ℕ)
    → IsValid a
    → (allocate payload a).0 ≡ some (offset, bytes)
    → (n : ℕ) × (free_run a (offset / a.block_bytes) ≡ some n)
      × (bytes ≤ n * a.block_bytes)
      × ((t k : ℕ) → free_run a t ≡ some k → bytes ≤ k * a.block_bytes → n ≤ k)
allocate-best_fit a payload offset bytes v e =
    let (s, n, at, sized, found, left) = grant-run a payload v offset bytes e in
    let h = best_fit-some a v (bytes / a.block_bytes) s n found in
    let whole = bytes-required a v payload bytes sized in
    (
      n,
      rw (at, mul-div_self s a.block_bytes v.unit) (h.0),
      omega (arith, scale 0 (bytes / a.block_bytes) n a.block_bytes (omega (arith, h.1)), whole),
      λ t k f q.
          best_fit-least a v (bytes / a.block_bytes) s n t k found f
            (at_least k (bytes / a.block_bytes) a.block_bytes v.unit (omega (arith, q, whole))),
    )
  where
    at_least : (k r b : ℕ) → 0 < b → r * b ≤ k * b → r ≤ k
    at_least k r b p q = grind arith

-- Every branch of `release`. An offset within a block or with no allocated run at it changes nothing;
-- otherwise the run leaves the table of allocated runs and its blocks, no others, become free.
pub release_lem :
    (a : PageRunAllocator) (offset : ℕ)
    → IsValid a
    → (offset % a.block_bytes ≢ 0 → release offset a ≡ (err unaligned_release, a))
      × (offset % a.block_bytes ≡ 0
          → used_run a (offset / a.block_bytes) ≡ none
          → release offset a ≡ (err released_twice, a))
      × ((n : ℕ)
          → offset % a.block_bytes ≡ 0
          → used_run a (offset / a.block_bytes) ≡ some n
          → Released a (offset / a.block_bytes) n (release offset a))
unfolding release release_run
release_lem a offset v = (
  λ h. ground arith,
  λ h e. ground arith,
  λ n h e.
      subst (Released a (offset / a.block_bytes) n) (ground arith)
        (release_run-Released a v (offset / a.block_bytes) n e),
)
