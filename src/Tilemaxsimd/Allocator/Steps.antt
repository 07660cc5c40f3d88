-- ===== src/Tilemaxsimd/Allocator/Steps.antt =====
-- `add_free_run` and `remove_free_run` on an allocator that is valid but for a gap: they succeed.
use vector_chord.Base.{
  ℕ, ◌+◌, ◌-◌, ◌*◌, ◌≤◌, ◌<◌, ◌≡◌, none, some, arith, ℕ_discrete, refl, Option-cases, inl, inr,
}
use vector_chord.Base.BTreeMap
use vector_chord.Base.HashMap
use vector_chord.Tilemaxsimd.Allocator.{
  PageRunAllocator, ok, usize_mod, add_free_run, remove_free_run, allocated_blocks,
}
use vector_chord.Tilemaxsimd.Allocator.Invariant.{Agree, Apart, IsValid, free_run, used_run}
use vector_chord.Tilemaxsimd.Allocator.Index.{grown, insert-Agree, without, remove-Agree}
use vector_chord.Tilemaxsimd.Allocator.Runs.{
  Gap, Clear, IsWith, IsWithout, without_free-Apart, without_used-Apart, take-Gap, take-Clear,
  untake-Gap, with_free-Apart, with_used-Apart, join_before, join_after, back-Gap,
}

-- The allocator with one more free run, and with one less.
abbrev pub with_run : ℕ → ℕ → PageRunAllocator → PageRunAllocator
with_run start blocks a = record a {
  free_by_start = BTreeMap.insert start blocks a.free_by_start;
  free_by_size = grown a.free_by_size start blocks;
  free_blocks = a.free_blocks + blocks;
}

abbrev pub without_run : ℕ → ℕ → PageRunAllocator → PageRunAllocator
without_run start blocks a = record a {
  free_by_start = BTreeMap.remove start a.free_by_start;
  free_by_size = without a.free_by_size start blocks;
  free_blocks = a.free_blocks - blocks;
}

-- A valid allocator in which the blocks from `s` on are neither free nor allocated.
pub record IsHoled (a : PageRunAllocator) (s n : ℕ) : Type 0 where
  pub unit : 0 < a.block_bytes
  pub small : a.block_count * a.block_bytes < usize_mod
  pub indexes : Agree a.free_by_start a.free_by_size
  pub used_once : HashMap.IsDistinct ℕ_discrete a.allocated
  pub apart : Apart (free_run a) (used_run a) a.block_count
  pub gap : Gap (free_run a) (used_run a) a.block_count s n
  pub free_total : BTreeMap.sum a.free_by_start ≡ a.free_blocks
  pub total : a.free_blocks + allocated_blocks a + n ≡ a.block_count

pub count-lt : (c b : ℕ) → 0 < b → c * b < usize_mod → c < usize_mod
count-lt c b p q = grind arith

add_free_run_ok :
    (start blocks : ℕ) (a : PageRunAllocator)
    → 0 < blocks
    → start + blocks ≤ a.block_count
    → a.block_count < usize_mod
    → BTreeMap.get start a.free_by_start ≡ none
    → a.free_blocks + blocks < usize_mod
    → add_free_run start blocks a ≡ (ok tt, with_run start blocks a)
unfolding add_free_run
add_free_run_ok start blocks a p q h e f = ground arith

remove_free_run_ok :
    (start blocks : ℕ) (a : PageRunAllocator)
    → Agree a.free_by_start a.free_by_size
    → BTreeMap.get start a.free_by_start ≡ some blocks
    → blocks ≤ a.free_blocks
    → remove_free_run start blocks a ≡ (ok tt, without_run start blocks a)
unfolding remove_free_run BTreeMap.get
remove_free_run_ok start blocks a v e h = ground (arith, v.same_runs blocks start)

-- What `remove_free_run` leaves.
module _ (a : PageRunAllocator) (s n : ℕ) (v : IsValid a) (e : free_run a s ≡ some n) where
  pub gone : IsWithout s (free_run a) (free_run (without_run s n a))
  gone t = BTreeMap.get-remove t s a.free_by_start v.indexes.starts_sorted

  pub take-IsHoled : IsHoled (without_run s n a) s n
  unfolding allocated_blocks
  take-IsHoled = record {
    unit = v.unit;
    small = v.small;
    indexes = remove-Agree a.free_by_start a.free_by_size v.indexes s n e;
    used_once = v.used_once;
    apart = without_free-Apart _ _ _ v.apart s _ gone;
    gap = take-Gap _ _ _ v.apart s n _ gone e;
    free_total = omega (arith, BTreeMap.sum-remove s n a.free_by_start e, v.free_total);
    total = omega (arith, BTreeMap.sum-remove s n a.free_by_start e, v.free_total, v.total);
  }

  pub remove_free_run_lem : remove_free_run s n a ≡ (ok tt, without_run s n a)
  remove_free_run_lem =
      remove_free_run_ok s n a v.indexes e
        (omega (arith, BTreeMap.sum-remove s n a.free_by_start e, v.free_total))

  pub taken-Clear : Clear (free_run (without_run s n a)) s n
  taken-Clear = take-Clear _ _ _ v.apart s n _ gone e

-- An allocated run that is taken out of the table.
abbrev pub unused : PageRunAllocator → ℕ → PageRunAllocator
unused a s = record a { allocated = HashMap.remove ℕ_discrete s a.allocated }

module _ (a : PageRunAllocator) (s n : ℕ) (v : IsValid a) (e : used_run a s ≡ some n) where
  out : IsWithout s (used_run a) (used_run (unused a s))
  out t = ground (
    arith,
    HashMap.get-remove_self ℕ_discrete s a.allocated v.used_once,
    HashMap.get-remove_ne ℕ_discrete t s a.allocated,
  )

  pub untake-IsHoled : IsHoled (unused a s) s n
  unfolding allocated_blocks
  untake-IsHoled = record {
    unit = v.unit;
    small = v.small;
    indexes = v.indexes;
    used_once = HashMap.remove-IsDistinct ℕ_discrete s a.allocated v.used_once;
    apart = without_used-Apart _ _ _ v.apart s _ out;
    gap = untake-Gap _ _ _ v.apart s n _ out e;
    free_total = v.free_total;
    total = omega (
      arith,
      HashMap.sum-remove ℕ_discrete (λ (start blocks : ℕ). blocks) s n a.allocated e,
      v.total,
    );
  }

-- A free run that touches the gap joins it.
module _ (a : PageRunAllocator) (s n p k : ℕ) (v : IsHoled a s n) (e : free_run a p ≡ some k) where
  pub parted : IsWithout p (free_run a) (free_run (without_run p k a))
  parted t = BTreeMap.get-remove t p a.free_by_start v.indexes.starts_sorted

  pub remove_joined : remove_free_run p k a ≡ (ok tt, without_run p k a)
  remove_joined =
      remove_free_run_ok p k a v.indexes e
        (omega (arith, BTreeMap.sum-remove p k a.free_by_start e, v.free_total))

  pub joined-IsHoled :
      (t m : ℕ)
      → m ≡ n + k
      → Gap (free_run (without_run p k a)) (used_run a) a.block_count t m
      → IsHoled (without_run p k a) t m
  unfolding allocated_blocks
  joined-IsHoled t m q g = record {
    unit = v.unit;
    small = v.small;
    indexes = remove-Agree a.free_by_start a.free_by_size v.indexes p k e;
    used_once = v.used_once;
    apart = without_free-Apart _ _ _ v.apart p _ parted;
    gap = g;
    free_total = omega (arith, BTreeMap.sum-remove p k a.free_by_start e, v.free_total);
    total = omega (arith, BTreeMap.sum-remove p k a.free_by_start e, v.free_total, v.total);
  }

  pub join_before-IsHoled : p + k ≡ s → IsHoled (without_run p k a) p (n + k)
  join_before-IsHoled q =
      joined-IsHoled p (n + k) refl (join_before _ _ _ v.apart p k s n _ parted e q v.gap)

  pub join_after-IsHoled : p ≡ s + n → IsHoled (without_run p k a) s (n + k)
  join_after-IsHoled q =
      joined-IsHoled s (n + k) refl
        (join_after _ _ _ v.apart k s n _ (rw (← q) parted) (rw (← q) e) v.gap)

-- The gap, or a part of it, becomes a free run.
module _ (a : PageRunAllocator) (s n t m : ℕ) (v : IsHoled a s n) (h : m ≤ n)
    (g : Gap (free_run a) (used_run a) a.block_count t m) (c : Clear (free_run a) t m) where
  pub unlisted : free_run a t ≡ none
  unlisted = elim (Option-cases (free_run a t)) [
    | inl e ↦ e
    | inr (k, e) ↦ absurd (ground (arith, c t k e))
  ]

  pub put : IsWith t m (free_run a) (free_run (with_run t m a))
  put j = BTreeMap.get-insert j t m a.free_by_start

  pub add_free_run_lem : add_free_run t m a ≡ (ok tt, with_run t m a)
  add_free_run_lem =
      add_free_run_ok t m a g.inside.0 g.inside.1
        (count-lt a.block_count a.block_bytes v.unit v.small) unlisted
        (omega (arith, count-lt a.block_count a.block_bytes v.unit v.small, v.total))

  pub with_run-Agree : Agree (with_run t m a).free_by_start (with_run t m a).free_by_size
  with_run-Agree = insert-Agree a.free_by_start a.free_by_size v.indexes t m unlisted

  pub with_run-Apart : Apart (free_run (with_run t m a)) (used_run a) a.block_count
  with_run-Apart = with_free-Apart _ _ _ v.apart t m _ put g c

  pub with_run-total : BTreeMap.sum (with_run t m a).free_by_start ≡ a.free_blocks + m
  with_run-total = omega (arith, BTreeMap.sum-insert t m a.free_by_start unlisted, v.free_total)

-- With the whole gap put back the allocator is valid.
module _ (a : PageRunAllocator) (s n : ℕ) (v : IsHoled a s n) (c : Clear (free_run a) s n) where
  pub put_back : add_free_run s n a ≡ (ok tt, with_run s n a)
  put_back = add_free_run_lem a s n s n v (omega arith) v.gap c

  pub put_back-IsValid : IsValid (with_run s n a)
  unfolding allocated_blocks
  put_back-IsValid = record {
    unit = v.unit;
    small = v.small;
    indexes = with_run-Agree a s n s n v (omega arith) v.gap c;
    used_once = v.used_once;
    apart = with_run-Apart a s n s n v (omega arith) v.gap c;
    free_total = with_run-total a s n s n v (omega arith) v.gap c;
    total = omega (arith, v.total);
  }

-- With the end of the gap put back the front of the gap is left.
module _ (a : PageRunAllocator) (s n r : ℕ) (v : IsHoled a s n) (c : Clear (free_run a) s n)
    (p : 0 < r) (q : r < n) where
  back : Gap (free_run a) (used_run a) a.block_count (s + r) (n - r)
  back = back-Gap _ _ _ s n r v.gap p q

  back-Clear : Clear (free_run a) (s + r) (n - r)
  back-Clear t k e = ground (arith, c t k e)

  pub put_end : add_free_run (s + r) (n - r) a ≡ (ok tt, with_run (s + r) (n - r) a)
  put_end = add_free_run_lem a s n (s + r) (n - r) v (omega arith) back back-Clear

  pub put_end-IsHoled : IsHoled (with_run (s + r) (n - r) a) s r
  unfolding allocated_blocks
  put_end-IsHoled = record {
    unit = v.unit;
    small = v.small;
    indexes = with_run-Agree a s n (s + r) (n - r) v (omega arith) back back-Clear;
    used_once = v.used_once;
    apart = with_run-Apart a s n (s + r) (n - r) v (omega arith) back back-Clear;
    gap = record {
      inside = ground (arith, v.gap.inside);
      free_off = λ t k e.
          ground (
            arith,
            put a s n (s + r) (n - r) v (omega arith) back back-Clear t,
            v.gap.free_off t k,
          );
      used_off = λ t k e. ground (arith, v.gap.used_off t k);
    };
    free_total = with_run-total a s n (s + r) (n - r) v (omega arith) back back-Clear;
    total = omega (arith, v.total);
  }

-- The gap becomes an allocated run.
abbrev pub used : PageRunAllocator → ℕ → ℕ → PageRunAllocator
used a s n = record a { allocated = HashMap.insert ℕ_discrete s n a.allocated }

module _ (a : PageRunAllocator) (s n : ℕ) (v : IsHoled a s n) where
  unused_at : used_run a s ≡ none
  unused_at = elim (Option-cases (used_run a s)) [
    | inl e ↦ e
    | inr (k, e) ↦
        absurd (ground (arith, v.gap.used_off s k e, v.apart.used_in s k e, v.gap.inside))
  ]

  pub use_gap-IsValid : IsValid (used a s n)
  unfolding allocated_blocks
  use_gap-IsValid = record {
    unit = v.unit;
    small = v.small;
    indexes = v.indexes;
    used_once = HashMap.insert-IsDistinct ℕ_discrete s n a.allocated v.used_once;
    apart =
        with_used-Apart _ _ _ v.apart s n _
          (λ t. ground (arith, HashMap.get-insert ℕ_discrete t s n a.allocated)) v.gap;
    free_total = v.free_total;
    total = omega (
      arith,
      HashMap.sum-insert_new ℕ_discrete (λ (start blocks : ℕ). blocks) s n a.allocated unused_at,
      v.total,
    );
  }
