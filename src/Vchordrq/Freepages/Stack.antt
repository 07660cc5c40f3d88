-- ===== src/Vchordrq/Freepages/Stack.antt =====
-- The free pages are a stack.
use vector_chord.Base.{ℕ, ◌≡◌, ◌≢◌, none, some, List, [], ◌∷◌, All, arith, refl, sym, ◌∙◌, subst}
use vector_chord.Vchordrq.Freepages.{Storage, alloc, free, u32_max}

-- The pages of the list are linked from the page on, and the last link is the sentinel.
unfoldable pub IsLinked : (ℕ → ℕ) → ℕ → List ℕ → Type 0
IsLinked next page [] = page ≡ u32_max
IsLinked next page (x ∷ xs) = (page ≡ x) × (x ≢ u32_max) × IsLinked next (next x) xs

-- The storage holds these free pages, the next one to be given first.
unfoldable pub IsStack : Storage → List ℕ → Type 0
unfolding IsLinked
IsStack s pages = IsLinked s.next s.first pages

relink :
    (s : Storage) (id page : ℕ) (pages : List ℕ)
    → All (λ p. p ≢ id) pages
    → IsLinked s.next page pages
    → IsLinked (free id s).next page pages
unfolding IsLinked free
relink s id page [] a h = h
relink s id page (x ∷ xs) (n, a) (e, m, h) = (
  e,
  m,
  relink s id ((free id s).next x) xs a (subst (λ p. IsLinked s.next p xs) (ground arith) h),
)

alloc-first :
    (s : Storage)
    → s.first ≢ u32_max
    → alloc s ≡ (some (s.first), record s { first = s.next s.first })
unfolding alloc
alloc-first s m = ground arith

free-next : (s : Storage) (id page : ℕ) → page ≢ id → (free id s).next page ≡ s.next page
unfolding free
free-next s id page n = ground arith

free-head : (s : Storage) (id : ℕ) → (free id s).next id ≡ s.first
unfolding free
free-head s id = ground arith

free-first : (s : Storage) (id : ℕ) → (free id s).first ≡ id
unfolding free
free-first s id = refl

-- `alloc` takes the first page off the stack, or answers nothing when there is none; `free` puts a page
-- that is not on the stack on top of it, which the next `alloc` then gives back.
pub alloc-free :
    (s : Storage) (pages : List ℕ)
    → IsStack s pages
    → (pages ≡ [] → alloc s ≡ (none, s))
      × ((x : ℕ) (xs : List ℕ) → pages ≡ x ∷ xs → ((alloc s).0 ≡ some x) × IsStack (alloc s).1 xs)
      × ((id : ℕ)
          → id ≢ u32_max
          → All (λ p. p ≢ id) pages
          → IsStack (free id s) (id ∷ pages) × ((alloc (free id s)).0 ≡ some id))
unfolding IsStack IsLinked alloc free
alloc-free s [] h = (
  λ e. ground arith,
  λ x xs e. absurd (ground arith),
  λ id m a. ((refl, m, subst (λ p. p ≡ u32_max) (ground arith) h), ground arith),
)
alloc-free s (y ∷ ys) (p, m, l) = (
  λ e. absurd (ground arith),
  λ x xs e.
      let popped = alloc-first s (λ q. m (sym p ∙ q)) in
      subst (λ r. (r.0 ≡ some x) × IsStack r.1 xs) (sym popped)
        (
          ground arith,
          subst (λ q. IsLinked s.next (s.next q) xs) (sym p)
              (subst (λ qs. IsLinked s.next (s.next y) qs) (ground arith) l),
        ),
  λ id n a. (
    (
      refl,
      n,
      (
        free-head s id ∙ p,
        m,
        relink s id ((free id s).next y) ys a.1
            (subst (λ q. IsLinked s.next q ys) (sym (free-next s id y a.0)) l),
      ),
    ),
    subst (λ r. r.0 ≡ some id) (sym (alloc-first (free id s) n)) refl,
  ),
)
