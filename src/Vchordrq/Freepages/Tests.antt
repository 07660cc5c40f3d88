-- ===== src/Vchordrq/Freepages/Tests.antt =====
-- One page that is free, and a second one that is freed.
use vector_chord.Base.{ℕ, ◌≡◌, ◌≢◌, none, some, List, [], ◌∷◌, All, arith, refl}
use vector_chord.Vchordrq.Freepages.{Storage, alloc, free, u32_max}
use vector_chord.Vchordrq.Freepages.Stack.{IsStack, IsLinked, alloc-free}

abbrev one_free : Storage
one_free = record { first = 3; next = λ page. u32_max }

abbrev one_page : List ℕ
one_page = 3 ∷ []

one_free-IsStack : IsStack one_free one_page
unfolding IsStack IsLinked
one_free-IsStack = (refl, (ground arith), refl)

second : alloc (free 8 one_free) ≡ (some 8, record (free 8 one_free) { first = 3 })
unfolding alloc free
second = refl

alloc-free_example :
    (one_page ≡ [] → alloc one_free ≡ (none, one_free))
    × ((x : ℕ) (xs : List ℕ)
        → one_page ≡ x ∷ xs
        → ((alloc one_free).0 ≡ some x) × IsStack (alloc one_free).1 xs)
    × ((id : ℕ)
        → id ≢ u32_max
        → All (λ p. p ≢ id) one_page
        → IsStack (free id one_free) (id ∷ one_page) × ((alloc (free id one_free)).0 ≡ some id))
alloc-free_example = alloc-free one_free one_page one_free-IsStack
