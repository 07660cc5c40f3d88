-- ===== src/Tilemaxsimd/Sketch/Tests.antt =====
-- A sketch of rows of eight counters, over numbers that are their own hashes.
use vector_chord.Base.{ℕ, ◌+◌, ◌≤◌, min, [], ◌∷◌, length, arith, ℕ_discrete}
use vector_chord.Tilemaxsimd.Sketch.{new, u16_max, estimate}
use vector_chord.Tilemaxsimd.Sketch.Counts.{count, counted, estimate-counted}

abbrev itself : ℕ → ℕ → ℕ
itself row key = row + key

estimate-counted_example :
    (min (count ℕ_discrete 3 (3 ∷ 11 ∷ 3 ∷ [])) u16_max
      ≤ estimate itself 3 (counted ℕ_discrete itself (3 ∷ 11 ∷ 3 ∷ []) (new 8)))
    × (estimate itself 3 (counted ℕ_discrete itself (3 ∷ 11 ∷ 3 ∷ []) (new 8))
        ≤ length {A = ℕ} (3 ∷ 11 ∷ 3 ∷ []))
estimate-counted_example =
    estimate-counted ℕ_discrete itself 8 (3 ∷ 11 ∷ 3 ∷ []) 3 (omega arith) (omega arith)
