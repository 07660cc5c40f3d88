-- ===== src/Base/Dedup.antt =====
-- `Vec::dedup_by_key` and `Vec::retain`. A vector sorted by a key keeps the first element of each key.
use Prim.Native.Nat.{ℕ, zero, suc, ◌≤◌, ◌<◌}
use mathlib.Core.Path.{◌≡◌, refl}
use mathlib.Core.Bool.{Bool, not}
use mathlib.Core.Logic.{◌≢◌}
use mathlib.Core.List.{List, [], ◌∷◌}
use native.Mathlib.Omega.{arith}
use vector_chord.Base.Tests.{◌==◌, if◌then◌else◌}
use vector_chord.Base.Lists.{All}
use vector_chord.Base.Heaps.{counted}
use vector_chord.Base.Vecs.{IsSortedBy}

abbrev at_most_one : ℕ → ℕ
at_most_one zero = 0
at_most_one (suc n) = 1

module _ {A : Type 0} where
  -- Without what passes `test` in front of it; here `k` is the key of the last element kept.
  unfoldable pub dedup_after : (A → ℕ) → ℕ → List A → List A
  dedup_after key k [] = []
  dedup_after key k (x ∷ xs) =
      let rest = dedup_after key (key x) xs in if key x == k then rest else x ∷ rest

  unfoldable pub dedup_by_key : (A → ℕ) → List A → List A
  unfolding dedup_after
  dedup_by_key key [] = []
  dedup_by_key key (x ∷ xs) = x ∷ dedup_after key (key x) xs

  unfoldable pub retain : (A → Bool) → List A → List A
  retain test [] = []
  retain test (x ∷ xs) = let rest = retain test xs in if test x then x ∷ rest else rest

  -- How many elements have that key.
  abbrev pub keyed : (A → ℕ) → ℕ → List A → ℕ
  keyed key k = counted (λ a. key a == k)

  dedup_after-counted :
      (key : A → ℕ) (p : A → Bool) (k : ℕ) (xs : List A)
      → counted p (dedup_after key k xs) ≤ counted p xs
  unfolding dedup_after
  dedup_after-counted key p k [] = omega arith
  dedup_after-counted key p k (x ∷ xs) = ground (arith, dedup_after-counted key p (key x) xs)

  pub dedup_by_key-counted :
      (key : A → ℕ) (p : A → Bool) (xs : List A) → counted p (dedup_by_key key xs) ≤ counted p xs
  unfolding dedup_by_key
  dedup_by_key-counted key p [] = omega arith
  dedup_by_key-counted key p (x ∷ xs) = ground (arith, dedup_after-counted key p (key x) xs)

  pub retain-counted : (test p : A → Bool) (xs : List A) → counted p (retain test xs) ≤ counted p xs
  unfolding retain
  retain-counted test p [] = omega arith
  retain-counted test p (x ∷ xs) = ground (arith, retain-counted test p xs)

  pub retain-keyed_other :
      (key : A → ℕ) (u k : ℕ) (xs : List A)
      → k ≢ u
      → keyed key k (retain (λ a. not (key a == u)) xs) ≡ keyed key k xs
  unfolding retain
  retain-keyed_other key u k [] n = refl
  retain-keyed_other key u k (x ∷ xs) n = ground (arith, retain-keyed_other key u k xs n)

  pub retain-keyed_self :
      (key : A → ℕ) (u : ℕ) (xs : List A) → keyed key u (retain (λ a. not (key a == u)) xs) ≡ 0
  unfolding retain
  retain-keyed_self key u [] = refl
  retain-keyed_self key u (x ∷ xs) = ground (arith, retain-keyed_self key u xs)

  keyed-before :
      (key : A → ℕ) (b k : ℕ) (xs : List A) → All (λ y. b ≤ key y) xs → k < b → keyed key k xs ≡ 0
  keyed-before key b k [] a l = refl
  keyed-before key b k (x ∷ xs) (h, a) l = ground (arith, keyed-before key b k xs a l)

  dedup_after-keyed :
      (key : A → ℕ) (b k : ℕ) (xs : List A)
      → All (λ y. b ≤ key y) xs
      → IsSortedBy key xs
      → keyed key k (dedup_after key b xs) ≡ (if k == b then 0 else at_most_one (keyed key k xs))
  unfolding dedup_after
  dedup_after-keyed key b k [] a s = ground arith
  dedup_after-keyed key b k (x ∷ xs) (h, a) (c, s) =
      ground (arith, dedup_after-keyed key (key x) k xs c s, keyed-before key (key x) k xs c)

  pub dedup_by_key-keyed :
      (key : A → ℕ) (k : ℕ) (xs : List A)
      → IsSortedBy key xs
      → (keyed key k (dedup_by_key key xs) ≤ 1)
        × (0 < keyed key k xs → keyed key k (dedup_by_key key xs) ≡ 1)
  unfolding dedup_by_key
  dedup_by_key-keyed key k [] s = (omega arith, λ h. absurd (omega arith))
  dedup_by_key-keyed key k (x ∷ xs) (c, s) = (
    ground (arith, dedup_after-keyed key (key x) k xs c s),
    λ h. ground (arith, dedup_after-keyed key (key x) k xs c s),
  )
