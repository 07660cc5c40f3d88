-- ===== src/Tilemaxsimd/Allocator/Runs.antt =====
-- Runs of blocks that stay apart while one is taken out, split, joined or put back. A set of runs is
-- a function from the start to the blocks.
use vector_chord.Base.{
  ℕ, ◌+◌, ◌-◌, ◌≤◌, ◌<◌, ◌≡◌, ◌↔◌, ◌⊎◌, inl, inr, Option, none, some, arith, ◌==◌, if◌then◌else◌,
  ℕ_discrete,
}
use vector_chord.Tilemaxsimd.Allocator.Invariant.{Apart}

-- The blocks from `s` on belong to no run.
pub record Gap (free used : ℕ → Option ℕ) (count s n : ℕ) : Type 0 where
  pub inside : (0 < n) × (s + n ≤ count)
  pub free_off : (t k : ℕ) → free t ≡ some k → (t + k ≤ s) ⊎ (s + n ≤ t)
  pub used_off : (t k : ℕ) → used t ≡ some k → (t + k ≤ s) ⊎ (s + n ≤ t)

-- No free run touches the blocks.
abbrev pub Clear : (ℕ → Option ℕ) → ℕ → ℕ → Type 0
Clear free s n = (t k : ℕ) → free t ≡ some k → (t + k < s) ⊎ (s + n < t)

abbrev pub IsWithout : ℕ → (ℕ → Option ℕ) → (ℕ → Option ℕ) → Type 0
IsWithout s f g = (t : ℕ) → g t ≡ (if s == t then none else f t)

abbrev pub IsWith : ℕ → ℕ → (ℕ → Option ℕ) → (ℕ → Option ℕ) → Type 0
IsWith s n f g = (t : ℕ) → g t ≡ (if s == t then some n else f t)

module _ (free used : ℕ → Option ℕ) (count : ℕ) (v : Apart free used count) where
  pub without_free-Apart :
      (s : ℕ) (free' : ℕ → Option ℕ) → IsWithout s free free' → Apart free' used count
  without_free-Apart s free' w = record {
    free_in = λ a n e. ground (arith, w a, v.free_in a n);
    used_in = v.used_in;
    free_apart = λ a n t k e f h. ground (arith, w a, w t, v.free_apart a n t k);
    used_apart = v.used_apart;
    free_used = λ a n t k e f. ground (arith, w a, v.free_used a n t k);
  }

  pub without_used-Apart :
      (s : ℕ) (used' : ℕ → Option ℕ) → IsWithout s used used' → Apart free used' count
  without_used-Apart s used' w = record {
    free_in = v.free_in;
    used_in = λ a n e. ground (arith, w a, v.used_in a n);
    free_apart = v.free_apart;
    used_apart = λ a n t k e f h. ground (arith, w a, w t, v.used_apart a n t k);
    free_used = λ a n t k e f. ground (arith, w t, v.free_used a n t k);
  }

  -- A free run that is taken out leaves a gap that no free run touches.
  pub take-Gap :
      (s n : ℕ) (free' : ℕ → Option ℕ)
      → IsWithout s free free'
      → free s ≡ some n
      → Gap free' used count s n
  take-Gap s n free' w e = record {
    inside = v.free_in s n e;
    free_off = λ t k f. ground (arith, w t, v.free_apart s n t k, v.free_apart t k s n);
    used_off = λ t k f. ground (arith, v.free_used s n t k);
  }

  pub take-Clear :
      (s n : ℕ) (free' : ℕ → Option ℕ) → IsWithout s free free' → free s ≡ some n → Clear free' s n
  take-Clear s n free' w e t k f = ground (arith, w t, v.free_apart s n t k, v.free_apart t k s n)

  -- An allocated run that is taken out leaves a gap, too.
  pub untake-Gap :
      (s n : ℕ) (used' : ℕ → Option ℕ)
      → IsWithout s used used'
      → used s ≡ some n
      → Gap free used' count s n
  untake-Gap s n used' w e = record {
    inside = v.used_in s n e;
    free_off = λ t k f. ground (arith, v.free_used t k s n);
    used_off = λ t k f. ground (arith, w t, v.used_apart s n t k, v.used_apart t k s n);
  }

  pub with_free-Apart :
      (s n : ℕ) (free' : ℕ → Option ℕ)
      → IsWith s n free free'
      → Gap free used count s n
      → Clear free s n
      → Apart free' used count
  with_free-Apart s n free' w g c = record {
    free_in = λ a m e. ground (arith, w a, v.free_in a m, g.inside);
    used_in = v.used_in;
    free_apart = λ a m t k e f h.
        ground (arith, w a, w t, v.free_apart a m t k, c a m, c t k, v.free_in t k, v.free_in a m);
    used_apart = v.used_apart;
    free_used = λ a m t k e f. ground (arith, w a, v.free_used a m t k, g.used_off t k);
  }

  pub with_used-Apart :
      (s n : ℕ) (used' : ℕ → Option ℕ)
      → IsWith s n used used'
      → Gap free used count s n
      → Apart free used' count
  with_used-Apart s n used' w g = record {
    free_in = v.free_in;
    used_in = λ a m e. ground (arith, w a, v.used_in a m, g.inside);
    free_apart = v.free_apart;
    used_apart = λ a m t k e f h. ground (
      arith,
      w a,
      w t,
      v.used_apart a m t k,
      g.used_off a m,
      g.used_off t k,
      v.used_in a m,
      v.used_in t k,
    );
    free_used = λ a m t k e f. ground (arith, w t, v.free_used a m t k, g.free_off a m);
  }

  -- A free run that ends where a gap starts joins it.
  pub join_before :
      (p k s n : ℕ) (free' : ℕ → Option ℕ)
      → IsWithout p free free'
      → free p ≡ some k
      → p + k ≡ s
      → Gap free used count s n
      → Gap free' used count p (n + k)
  join_before p k s n free' w e q g = record {
    inside = ground (arith, g.inside, v.free_in p k e);
    free_off = λ t j f.
        ground
          (arith, w t, g.free_off t j, v.free_apart p k t j, v.free_apart t j p k, v.free_in t j);
    used_off = λ t j f. ground (arith, g.used_off t j, v.free_used p k t j, v.used_in t j);
  }

  -- A free run that starts where a gap ends joins it.
  pub join_after :
      (k s n : ℕ) (free' : ℕ → Option ℕ)
      → IsWithout (s + n) free free'
      → free (s + n) ≡ some k
      → Gap free used count s n
      → Gap free' used count s (n + k)
  join_after k s n free' w e g = record {
    inside = ground (arith, g.inside, v.free_in (s + n) k e);
    free_off = λ t j f. ground (
      arith,
      w t,
      g.free_off t j,
      v.free_apart (s + n) k t j,
      v.free_apart t j (s + n) k,
      v.free_in t j,
    );
    used_off = λ t j f. ground (arith, g.used_off t j, v.free_used (s + n) k t j, v.used_in t j);
  }

-- The front of a gap, and what is left of it once the front is allocated.
module _ (free used : ℕ → Option ℕ) (count s n r : ℕ) (g : Gap free used count s n) where
  pub front-Gap : 0 < r → r ≤ n → Gap free used count s r
  front-Gap p q = record {
    inside = ground (arith, g.inside);
    free_off = λ t k f. ground (arith, g.free_off t k);
    used_off = λ t k f. ground (arith, g.used_off t k);
  }

  pub back-Gap : 0 < r → r < n → Gap free used count (s + r) (n - r)
  back-Gap p q = record {
    inside = ground (arith, g.inside);
    free_off = λ t k f. ground (arith, g.free_off t k);
    used_off = λ t k f. ground (arith, g.used_off t k);
  }

-- A block lies in a stretch of blocks, or in some run.
abbrev pub In : ℕ → ℕ → ℕ → Type 0
In s n b = (s ≤ b) × (b < s + n)

pub Covers : (ℕ → Option ℕ) → ℕ → Type 0
Covers f b = (s : ℕ) × (n : ℕ) × (f s ≡ some n) × In s n b

pub Covers-without :
    (f g : ℕ → Option ℕ) (s n b : ℕ)
    → IsWithout s f g
    → f s ≡ some n
    → Covers f b ↔ (Covers g b ⊎ In s n b)
unfolding Covers
Covers-without f g s n b w e = (there, back)
  where
    there : Covers f b → Covers g b ⊎ In s n b
    there (t, k, h, i) = elim (ℕ_discrete s t) [
      | yes p ↦ inr (ground arith)
      | no p ↦ inl (t, k, ground (arith, w t), i)
    ]

    back : Covers g b ⊎ In s n b → Covers f b
    back (inl (t, k, h, i)) = (t, k, ground (arith, w t), i)
    back (inr i) = (s, n, e, i)

pub Covers-with :
    (f g : ℕ → Option ℕ) (s n b : ℕ)
    → IsWith s n f g
    → f s ≡ none
    → Covers g b ↔ (Covers f b ⊎ In s n b)
unfolding Covers
Covers-with f g s n b w e = (there, back)
  where
    there : Covers g b → Covers f b ⊎ In s n b
    there (t, k, h, i) = elim (ℕ_discrete s t) [
      | yes p ↦ inr (ground (arith, w t))
      | no p ↦ inl (t, k, ground (arith, w t), i)
    ]

    back : Covers f b ⊎ In s n b → Covers g b
    back (inl (t, k, h, i)) = (t, k, ground (arith, w t), i)
    back (inr i) = (s, n, ground (arith, w s), i)
