-- ===== src/SmallIter/Tests.antt =====
-- Three elements, of which a buffer of two is too small.
use vector_chord.Base.{ℕ, ◌≡◌, List, [], ◌∷◌, length, arith, refl}
use vector_chord.SmallIter.{Iter, heap, item, done, next, size_hint}
use vector_chord.SmallIter.Order.{IsOver, next_lem}

abbrev slice : List ℕ
slice = 5 ∷ 6 ∷ 7 ∷ []

abbrev half_way : Iter ℕ
half_way = heap (record { off = 1; len = 3; pointer = slice })

half_way-IsOver : IsOver (6 ∷ 7 ∷ []) half_way
unfolding IsOver
half_way-IsOver = (refl, omega arith, refl)

next_lem_example :
    (size_hint half_way ≡ length {A = ℕ} (6 ∷ 7 ∷ []))
    × (◌≡◌ {A = List ℕ} (6 ∷ 7 ∷ []) [] → next half_way ≡ done)
    × ((x : ℕ) (xs : List ℕ)
        → 6 ∷ 7 ∷ [] ≡ x ∷ xs
        → (j : Iter ℕ) × (next half_way ≡ item (x, j)) × IsOver xs j)
next_lem_example = next_lem (6 ∷ 7 ∷ []) half_way half_way-IsOver
