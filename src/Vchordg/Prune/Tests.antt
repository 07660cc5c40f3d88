-- ===== src/Vchordg/Prune/Tests.antt =====
-- Vertices on a line, the distance of two of them being how far apart they are.
use vector_chord.Base.{
  ◌++◌, ℕ, ◌+◌, ◌-◌, ◌*◌, ◌/◌, ◌<◌, ◌≤◌, ◌≡◌, ◌≢◌, Bool, false, List, [], ◌∷◌, All, map, length,
  ltb, refl,
}
use vector_chord.Base.Float.{F32}
use vector_chord.Base.Heaps.{counted}
use vector_chord.Base.Vecs.{sort_by_key, insert_by_key}
use vector_chord.Base.Dedup.{keyed, dedup_by_key, dedup_after, retain}
use vector_chord.Distance.{to_f32, signed}
use vector_chord.Vchordg.Prune.{
  Item, check, prune_loop, robust_prune, alpha_loop, candidates, prune,
}
use vector_chord.Vchordg.Prune.Kept.{prune_lem}
use vector_chord.Vchordg.Prune.Diverse.{IsDiverse, IsDominated, robust_prune_lem}

-- Fixed-point numbers in place of floats: `one` is 1.
abbrev fixed : F32
fixed = record { mul = λ a b. a * b / 1065353216; lt = ltb }

abbrev apart : ℕ → ℕ → ℕ
apart a b = (a - b) + (b - a)

-- Around the vertex 7 at place 100. The vertex 3 is given twice.
abbrev outs : List (Item ℕ ℕ)
outs = ((20, 5), 120) ∷ ((10, 3), 110) ∷ ((0, 7), 100) ∷ ((30, 2), 70) ∷ ((10, 3), 110) ∷ []

run : prune fixed apart 7 outs 2 [] (λ v. v) false ≡ (10, 3) ∷ (30, 2) ∷ []
unfolding check prune_loop robust_prune alpha_loop candidates prune sort_by_key insert_by_key
    dedup_by_key dedup_after retain to_f32 signed
run = refl

all_kept : prune fixed apart 7 outs 4 [] (λ v. v) false ≡ (10, 3) ∷ (30, 2) ∷ (20, 5) ∷ []
unfolding check prune_loop robust_prune alpha_loop candidates prune sort_by_key insert_by_key
    dedup_by_key dedup_after retain to_f32 signed
all_kept = refl

prune_lem_example :
    (length (prune fixed apart 7 outs 2 [] (λ v. v) false) ≤ 2)
    × ((p : ℕ × ℕ → Bool)
        → counted p (prune fixed apart 7 outs 2 [] (λ v. v) false)
          ≤ counted p (map (λ (a : Item ℕ ℕ). a.0) outs))
    × ((k : ℕ) → keyed (λ (a : ℕ × ℕ). a.1) k (prune fixed apart 7 outs 2 [] (λ v. v) false) ≤ 1)
    × (keyed (λ (a : ℕ × ℕ). a.1) 7 (prune fixed apart 7 outs 2 [] (λ v. v) false) ≡ 0)
    × (length (prune fixed apart 7 outs 2 [] (λ v. v) false) < 2
        → (k : ℕ) → k ≢ 7
        → 0 < keyed (λ (a : ℕ × ℕ). a.1) k (map (λ (a : Item ℕ ℕ). a.0) outs)
        → keyed (λ (a : ℕ × ℕ). a.1) k (prune fixed apart 7 outs 2 [] (λ v. v) false) ≡ 1)
prune_lem_example = prune_lem fixed apart 7 outs 2 [] (λ v. v) false

robust_prune_lem_example :
    IsDiverse fixed apart 1065353216 (robust_prune fixed apart 4 1065353216 [] outs).0
    × All
        (IsDominated fixed apart 1065353216 (robust_prune fixed apart 4 1065353216 [] outs).0)
        (robust_prune fixed apart 4 1065353216 [] outs).1
    × (length (robust_prune fixed apart 4 1065353216 [] outs).0 ≤ 4)
    × (length (robust_prune fixed apart 4 1065353216 [] outs).0 < 4
        → (p : Item ℕ ℕ → Bool)
        → counted p (
            (robust_prune fixed apart 4 1065353216 [] outs).0
            ++ (robust_prune fixed apart 4 1065353216 [] outs).1)
          ≡ counted p outs)
robust_prune_lem_example = robust_prune_lem fixed apart 4 1065353216 outs

-- A negative distance comes before a positive one, though its bits are greater.
negative_first :
    prune fixed apart 7 (((10, 3), 110) ∷ ((3221225471, 2), 70) ∷ []) 2 [] (λ v. v) false
    ≡ (3221225471, 2) ∷ (10, 3) ∷ []
unfolding check prune_loop robust_prune alpha_loop candidates prune sort_by_key insert_by_key
    dedup_by_key dedup_after retain to_f32 signed
negative_first = refl
