-- ===== src/Tilemaxsimd/Allocator/Release.antt =====
-- `release` on a valid allocator: the run joins the free runs that it touches.
use vector_chord.Base.{
  ℕ, ◌+◌, ◌%◌, ◌≤◌, ◌≡◌, ◌≢◌, ◌⊎◌, ◌↔◌, Option, none, some, arith, ℕ_discrete, refl, inl, inr,
  Option-cases, ◌∙◌,
}
use vector_chord.Base.BTreeMap
use vector_chord.Base.HashMap
use vector_chord.Tilemaxsimd.Allocator.{
  PageRunAllocator, Result, ok, usize_mod, release_run, join_previous, join_next,
}
use vector_chord.Tilemaxsimd.Allocator.Invariant.{IsValid, free_run, used_run}
use vector_chord.Tilemaxsimd.Allocator.Runs.{Clear, In, Covers, Covers-with, Covers-without}
use vector_chord.Tilemaxsimd.Allocator.Steps.{
  IsHoled, with_run, without_run, count-lt, unused, untake-IsHoled, remove_joined,
  join_before-IsHoled, join_after-IsHoled, put_back, put_back-IsValid, put, parted, unlisted,
}

-- What joining a gap at `s` of `n` blocks with a free run has done: the gap is now the `blocks` from
-- `start` on, and covers with the free runs what it covered before.
pub record Joined (a : PageRunAllocator) (s n : ℕ) (r : Result (ℕ × ℕ) × PageRunAllocator)
    : Type 0 where
  pub start : ℕ
  pub blocks : ℕ
  pub after : PageRunAllocator
  pub result : r ≡ (ok (start, blocks), after)
  pub holed : IsHoled after start blocks
  pub same_used : after.allocated ≡ a.allocated
  pub same_unit : after.block_bytes ≡ a.block_bytes
  pub covered :
      (b : ℕ) → (Covers (free_run after) b ⊎ In start blocks b) ↔ (Covers (free_run a) b ⊎ In s n b)

-- No free run ends where the gap starts.
abbrev LeftClear : PageRunAllocator → ℕ → Type 0
LeftClear a s = (t k : ℕ) → free_run a t ≡ some k → t + k ≢ s

module _ (a : PageRunAllocator) (s n : ℕ) (v : IsHoled a s n) where
  stays : (r : Result (ℕ × ℕ) × PageRunAllocator) → r ≡ (ok (s, n), a) → Joined a s n r
  stays r e = record {
    start = s;
    blocks = n;
    after = a;
    result = e;
    holed = v;
    same_used = refl;
    same_unit = refl;
    covered = λ b. (λ h. h, λ h. h);
  }

  no_wrap : (x : ℕ) → x ≤ a.block_count → x % usize_mod ≡ x
  no_wrap x h = omega (arith, count-lt a.block_count a.block_bytes v.unit v.small)

  module _ (p k : ℕ) (e : free_run a p ≡ some k) where
    -- The free run at `p` and the gap cover together what they covered apart.
    regrouped :
        (t m b : ℕ)
        → (In t m b ↔ (In p k b ⊎ In s n b))
        → (Covers (free_run (without_run p k a)) b ⊎ In t m b) ↔ (Covers (free_run a) b ⊎ In s n b)
    regrouped t m b i =
        let w =
          Covers-without (free_run a) (free_run (without_run p k a)) p k b (parted a s n p k v e)
            e in
        (there w, back w)
      where
        there :
            (Covers (free_run a) b ↔ (Covers (free_run (without_run p k a)) b ⊎ In p k b))
            → Covers (free_run (without_run p k a)) b ⊎ In t m b
            → Covers (free_run a) b ⊎ In s n b
        there w (inl c) = inl (w.1 (inl c))
        there w (inr h) = elim (i.0 h) [ inl x ↦ inl (w.1 (inr x)) | inr y ↦ inr y ]

        back :
            (Covers (free_run a) b ↔ (Covers (free_run (without_run p k a)) b ⊎ In p k b))
            → Covers (free_run a) b ⊎ In s n b
            → Covers (free_run (without_run p k a)) b ⊎ In t m b
        back w (inl c) = elim (w.0 c) [ inl x ↦ inl x | inr y ↦ inr (i.1 (inl y)) ]
        back w (inr h) = inr (i.1 (inr h))

    before : p + k ≡ s → join_previous s n (some (p, k)) a ≡ (ok (p, n + k), without_run p k a)
    unfolding join_previous
    before q = ground (
      arith,
      remove_joined a s n p k v e,
      no_wrap (p + k),
      no_wrap (n + k),
      v.apart.free_in p k e,
      v.gap.inside,
    )

    after : p ≡ s + n → join_next s n a ≡ (ok (s, n + k), without_run p k a)
    unfolding join_next
    after q = ground (
      arith,
      remove_joined a s n p k v e,
      no_wrap (s + n),
      no_wrap (n + k),
      v.apart.free_in p k e,
      v.gap.inside,
    )

    In-before : p + k ≡ s → (b : ℕ) → In p (n + k) b ↔ (In p k b ⊎ In s n b)
    In-before q b = (λ h. ground arith, λ h. ground arith)

    In-after : p ≡ s + n → (b : ℕ) → In s (n + k) b ↔ (In p k b ⊎ In s n b)
    In-after q b = (λ h. ground arith, λ h. ground arith)

    joined_before : p + k ≡ s → Joined a s n (join_previous s n (some (p, k)) a)
    joined_before q = record {
      start = p;
      blocks = n + k;
      after = without_run p k a;
      result = before q;
      holed = join_before-IsHoled a s n p k v e q;
      same_used = refl;
      same_unit = refl;
      covered = λ b. regrouped p (n + k) b (In-before q b);
    }

    joined_after : p ≡ s + n → Joined a s n (join_next s n a)
    joined_after q = record {
      start = s;
      blocks = n + k;
      after = without_run p k a;
      result = after q;
      holed = join_after-IsHoled a s n p k v e q;
      same_used = refl;
      same_unit = refl;
      covered = λ b. regrouped s (n + k) b (In-after q b);
    }

    -- The free runs of a valid allocator do not touch, so a joined gap is clear of all of them.
    clear_before : p + k ≡ s → (t j : ℕ) → free_run (without_run p k a) t ≡ some j → t + j ≢ p
    clear_before q t j f =
        λ h. ground (arith, parted a s n p k v e t, v.apart.free_apart t j p k, v.apart.free_in t j)

    clear_after : p ≡ s + n → free_run (without_run p k a) (s + (n + k)) ≡ none
    clear_after q = elim (Option-cases (free_run (without_run p k a) (s + (n + k)))) [
      | inl h ↦ h
      | inr (j, h) ↦ absurd (
          ground (
            arith,
            parted a s n p k v e (s + (n + k)),
            v.apart.free_apart p k (s + (n + k)) j,
            v.apart.free_in p k e,
          ))
    ]

    kept_after : LeftClear a s → (t j : ℕ) → free_run (without_run p k a) t ≡ some j → t + j ≢ s
    kept_after c t j f = c t j (ground (arith, parted a s n p k v e t))

module _ (a : PageRunAllocator) (s n : ℕ) (v : IsHoled a s n) where
  -- `join_previous` leaves no free run that ends where the gap starts.
  join_previous-Joined :
      (o : Option (ℕ × ℕ))
      → BTreeMap.last_below s a.free_by_start ≡ o
      → (j : Joined a s n (join_previous s n o a)) × LeftClear j.after j.start
  unfolding join_previous stays joined_before
  join_previous-Joined none e = (
    stays a s n v _ refl,
    λ t k f q. ground (
      arith,
      BTreeMap.last_below-none 0 s t k a.free_by_start v.indexes.starts_sorted e f,
      v.apart.free_in t k f,
    ),
  )
  join_previous-Joined (some (p, k)) e =
      let found = BTreeMap.last_below-some 0 s p k a.free_by_start v.indexes.starts_sorted e in
      elim (ℕ_discrete (p + k) s) [
        | yes q ↦ (joined_before a s n v p k found.0 q, clear_before a s n v p k found.0 q)
        | no q ↦ (
          stays a s n v _ (ground (arith, no_wrap a s n v (p + k), v.apart.free_in p k found.0)),
          λ t j f h. ground (
            arith,
            found,
            BTreeMap.last_below-greatest 0 s p k t j a.free_by_start v.indexes.starts_sorted e f,
            v.apart.free_apart t j p k,
            v.apart.free_in t j f,
          ),
        )
      ]

  -- `join_next` leaves no free run that touches the gap.
  join_next-Joined :
      LeftClear a s
      → (j : Joined a s n (join_next s n a)) × Clear (free_run j.after) j.start j.blocks
  unfolding join_next stays joined_after
  join_next-Joined c = elim (Option-cases (free_run a (s + n))) [
    | inl e ↦ (stays a s n v _ (alone e), λ t k f. ground (arith, v.gap.free_off t k f, c t k f))
    | inr (k, e) ↦
        let j = joined_after a s n v (s + n) k e refl in
        (
          j,
          λ t m f. ground (
            arith,
            j.holed.gap.free_off t m f,
            kept_after a s n v (s + n) k e c t m f,
            clear_after a s n v (s + n) k e refl,
          ),
        )
  ]
    where
      alone : free_run a (s + n) ≡ none → join_next s n a ≡ (ok (s, n), a)
      alone e = ground (arith, no_wrap a s n v (s + n) v.gap.inside.1)

-- What the release of the run of `n` blocks at `s` has done.
pub record Released (a : PageRunAllocator) (s n : ℕ) (r : Result (Unit {0}) × PageRunAllocator)
    : Type 0 where
  pub after : PageRunAllocator
  pub result : r ≡ (ok tt, after)
  pub valid : IsValid after
  pub used_after : after.allocated ≡ HashMap.remove ℕ_discrete s a.allocated
  pub same_unit : after.block_bytes ≡ a.block_bytes
  pub covered : (b : ℕ) → Covers (free_run after) b ↔ (Covers (free_run a) b ⊎ In s n b)

module _ (a : PageRunAllocator) (v : IsValid a) (s n : ℕ) (e : used_run a s ≡ some n) where
  pub release_run-Released : Released a s n (release_run s (some n) a)
  unfolding release_run
  release_run-Released =
      let (one, left) =
        join_previous-Joined (unused a s) s n (untake-IsHoled a s n v e)
          (BTreeMap.last_below s a.free_by_start) refl in
      let (two, clear) = join_next-Joined one.after one.start one.blocks one.holed left in
      let put_covers = λ (b : ℕ).
        Covers-with (free_run two.after) (free_run (with_run two.start two.blocks two.after))
          two.start two.blocks b
          (put two.after two.start two.blocks two.start two.blocks two.holed (omega arith)
            two.holed.gap clear)
          (unlisted two.after two.start two.blocks two.start two.blocks two.holed (omega arith)
            two.holed.gap clear) in
      record {
        after = with_run two.start two.blocks two.after;
        result = ground (
          arith,
          one.result,
          two.result,
          put_back two.after two.start two.blocks two.holed clear,
        );
        valid = put_back-IsValid two.after two.start two.blocks two.holed clear;
        used_after = two.same_used ∙ one.same_used;
        same_unit = two.same_unit ∙ one.same_unit;
        covered = λ b. (
          λ h. (one.covered b).0 ((two.covered b).0 ((put_covers b).0 h)),
          λ h. (put_covers b).1 ((two.covered b).1 ((one.covered b).1 h)),
        );
      }
