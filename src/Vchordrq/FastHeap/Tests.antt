-- ===== src/Vchordrq/FastHeap/Tests.antt =====
-- Heaps of few items and of one that is partly sorted. A full sort does what `select_nth_unstable` does.
use vector_chord.Base.{
  ℕ, zero, suc, ◌≡◌, ◌≤◌, some, List, [], ◌∷◌, ◌++◌, All, take, drop, replicate, length, arith,
  refl,
}
use mathlib.Core.List.{Perm}
use vector_chord.Base.Vecs.{sort_by_key, sort_by_key-lem, IsSortedBy}
use vector_chord.Base.Heaps.{take_greatest, choose_greatest, above}
use vector_chord.Vchordrq.FastHeap.{from_vec, pop}
use vector_chord.Vchordrq.FastHeap.Order.{Selects, drain, IsFalling, drain-from_vec}

abbrev key : ℕ → ℕ
key n = n

over_none : (ys : List ℕ) → All (λ y. above key (key y) [] ≡ 0) ys
over_none [] = tt
over_none (y ∷ ys) = (refl, over_none ys)

over_more :
    (x n : ℕ) (xs front : List ℕ)
    → All (λ y. x ≤ y) xs
    → All (λ y. above key (key y) front ≡ 0) (drop n xs)
    → All (λ y. above key (key y) (x ∷ front) ≡ 0) (drop n xs)
over_more x zero [] front a b = tt
over_more x zero (y ∷ xs) front (h, a) (k, b) = (ground (arith, k), over_more x zero xs front a b)
over_more x (suc n) [] front a b = tt
over_more x (suc n) (y ∷ xs) front (h, a) b = over_more x n xs front a b

sorted_divides :
    (n : ℕ) (xs : List ℕ)
    → IsSortedBy key xs
    → All (λ y. above key (key y) (take n xs) ≡ 0) (drop n xs)
sorted_divides zero xs s = over_none xs
sorted_divides (suc n) [] s = tt
sorted_divides (suc n) (x ∷ xs) (a, s) = over_more x n xs (take n xs) a (sorted_divides n xs s)

abbrev select : ℕ → List ℕ → List ℕ
select n vec = sort_by_key key vec

Selects-select : Selects key select
Selects-select n vec l =
    let (s, p) = sort_by_key-lem key vec in (p, sorted_divides n (sort_by_key key vec) s)

few : drain key 4 (from_vec key select (5 ∷ 9 ∷ 5 ∷ [])) ≡ some (9 ∷ 5 ∷ 5 ∷ [])
unfolding from_vec pop take_greatest choose_greatest
few = refl

-- Of 400 items, the one at the end is sorted.
abbrev many : List ℕ
many = 8 ∷ (replicate 398 5 ++ 7 ∷ [])

drain-from_vec_example :
    (out : List ℕ) × (drain key (suc (length many)) (from_vec key select many) ≡ some out)
    × IsFalling key out
    × Perm many out
drain-from_vec_example = drain-from_vec key select Selects-select many
