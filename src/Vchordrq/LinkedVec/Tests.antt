-- ===== src/Vchordrq/LinkedVec/Tests.antt =====
-- A full block of three elements, with exact capacities.
use vector_chord.Base.{ℕ, ◌≤◌, ◌≡◌, [], ◌∷◌, arith}
use mathlib.Core.List.{Perm}
use vector_chord.Vchordrq.LinkedVec.{LinkedVec, pushed, push, into_vec}
use vector_chord.Vchordrq.LinkedVec.Content.{IsValid, push-into_vec}

abbrev exact : ℕ → ℕ
exact n = n

exact-enough : (n : ℕ) → n ≤ exact n
exact-enough n = omega arith

abbrev full : LinkedVec ℕ
full = record { inner = (1 ∷ []) ∷ []; last = 2 ∷ 3 ∷ 4 ∷ []; capacity = 3 }

push-into_vec_example :
    (w : LinkedVec ℕ) × (push exact 5 full ≡ pushed w)
    × IsValid exact exact-enough w
    × Perm (into_vec exact w) (5 ∷ into_vec exact full)
push-into_vec_example =
    push-into_vec exact exact-enough 5 full
      (record { some_capacity = omega arith; within = omega arith })
