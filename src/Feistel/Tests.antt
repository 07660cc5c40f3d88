-- ===== src/Feistel/Tests.antt =====
-- Numbers of four bits, and eight rounds.
use vector_chord.Base.{ℕ, ◌+◌, ◌*◌, ◌^◌, ◌<◌, ◌≤◌, ◌≡◌, none, some, refl}
use vector_chord.Feistel.{feistel}
use vector_chord.Feistel.Permutation.{feistel_permutes}

abbrev secret : ℕ → ℕ → ℕ
secret round x = x * 7 + round

five : feistel 4 5 8 secret ≡ some 8
unfolding feistel
five = refl

feistel_permutes_example :
    ((x : ℕ)
      → x < 2 ^ (2 + 2)
      → (y : ℕ) × (feistel (2 + 2) x 8 secret ≡ some y) × (y < 2 ^ (2 + 2)))
    × ((y : ℕ)
        → y < 2 ^ (2 + 2)
        → (x : ℕ) × (x < 2 ^ (2 + 2))
          × (feistel (2 + 2) x 8 secret ≡ some y)
          × ((z : ℕ) → z < 2 ^ (2 + 2) → feistel (2 + 2) z 8 secret ≡ some y → z ≡ x))
    × ((x : ℕ) → 2 ^ (2 + 2) ≤ x → feistel (2 + 2) x 8 secret ≡ none)
feistel_permutes_example = feistel_permutes 2 8 secret
