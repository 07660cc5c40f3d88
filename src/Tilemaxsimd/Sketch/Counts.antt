-- ===== src/Tilemaxsimd/Sketch/Counts.antt =====
-- What the sketch counts: its shape and the width of its counters stay, and it never counts too little
-- as long as it has not been halved.
use vector_chord.Base.{
  ℕ, zero, suc, ◌+◌, ◌*◌, ◌/◌, ◌%◌, ◌≤◌, ◌<◌, ◌≡◌, ◌≢◌, inl, inr, min, List, [], ◌∷◌, map, length,
  get_or, set, ite, ◌==◌, replicate, All, arith, refl, ap, ◌∙◌, length-set, length-map,
  length-replicate, leb, if_elim, Bool-cases,
}
use native.Mathlib.Nat.{mod-lt}
use vector_chord.Tilemaxsimd.Sketch.{
  TinyLfu, new, u16_max, bump, increment_rows, estimate_rows, estimate, halve, increment,
}

-- A row of 16-bit counters.
abbrev IsRow : ℕ → List ℕ → Type 0
IsRow width row = (length row ≡ width) × All (λ v. v ≤ u16_max) row

pub record IsValid (s : TinyLfu) : Type 0 where
  pub inhabited : 0 < s.width
  pub four : length s.tables ≡ 4
  pub rows : All (IsRow s.width) s.tables
  pub young : s.samples < s.width * 10

All-set : (P : ℕ → Type 0) (xs : List ℕ) (i v : ℕ) → All P xs → P v → All P (set xs i v)
All-set P [] i v a p = a
All-set P (x ∷ xs) zero v (a, rest) p = (p, rest)
All-set P (x ∷ xs) (suc i) v (a, rest) p = (a, All-set P xs i v rest p)

bump-IsRow : (width i : ℕ) (row : List ℕ) → IsRow width row → IsRow width (bump row i)
bump-IsRow width i row (l, a) =
    (length-set row i _ ∙ l, All-set (λ v. v ≤ u16_max) row i _ a (omega arith))

halved-All :
    (row : List ℕ) → All (λ v. v ≤ u16_max) row → All (λ v. v ≤ u16_max) (map (λ v. v / 2) row)
halved-All [] a = tt
halved-All (x ∷ xs) (a, rest) = (omega arith, halved-All xs rest)

halve-rows :
    (width : ℕ) (ts : List (List ℕ))
    → All (IsRow width) ts
    → All (IsRow width) (map (map (λ v. v / 2)) ts)
halve-rows width [] a = tt
halve-rows width (t ∷ ts) ((l, a), rest) =
    ((length-map t _ ∙ l, halved-All t a), halve-rows width ts rest)

new-row : (width n : ℕ) → All (λ v. v ≤ u16_max) (replicate n 0)
new-row width zero = tt
new-row width (suc n) = (omega arith, new-row width n)

get_or-set_self : (xs : List ℕ) (i v d : ℕ) → i < length xs → get_or (set xs i v) i d ≡ v
get_or-set_self [] i v d h = absurd (omega arith)
get_or-set_self (x ∷ xs) zero v d h = refl
get_or-set_self (x ∷ xs) (suc i) v d h = get_or-set_self xs i v d (omega arith)

get_or-set_ne : (xs : List ℕ) (i j v d : ℕ) → i ≢ j → get_or (set xs i v) j d ≡ get_or xs j d
get_or-set_ne [] i j v d h = refl
get_or-set_ne (x ∷ xs) zero zero v d h = absurd (h refl)
get_or-set_ne (x ∷ xs) zero (suc j) v d h = refl
get_or-set_ne (x ∷ xs) (suc i) zero v d h = refl
get_or-set_ne (x ∷ xs) (suc i) (suc j) v d h = get_or-set_ne xs i j v d (λ e. h (ap suc e))

-- A counter that is bumped grows by one, up to the greatest; no counter gets smaller.
bump-grows :
    (row : List ℕ) (i j : ℕ)
    → i < length row
    → (min (get_or row i 0 + 1) u16_max ≤ get_or (bump row i) i 0)
      × (min (get_or row j 0) u16_max ≤ get_or (bump row i) j 0)
bump-grows row i j h = elim (Bool-cases (i == j)) [
  | inl e ↦ ground (arith, get_or-set_self row i (min (get_or row i 0 + 1) u16_max) 0 h)
  | inr e ↦ ground (
    arith,
    get_or-set_self row i (min (get_or row i 0 + 1) u16_max) 0 h,
    get_or-set_ne row i j (min (get_or row i 0 + 1) u16_max) 0,
  )
]

-- How often a key stands in a history.
module _ {K : Type 0} (dec : Discrete K) where
  abbrev pub count : K → List K → ℕ
  count key [] = 0
  count key (k ∷ ks) = ite (dec k key) 1 0 + count key ks

module _ {K : Type 0} (hash : ℕ → K → ℕ) where
  increment_rows-rows :
      (width row : ℕ) (key : K) (ts : List (List ℕ))
      → All (IsRow width) ts
      → All (IsRow width) (increment_rows hash width row key ts)
        × (length (increment_rows hash width row key ts) ≡ length ts)
  unfolding increment_rows
  increment_rows-rows width row key [] a = (tt, refl)
  increment_rows-rows width row key (t ∷ ts) (a, rest) =
      let (b, l) = increment_rows-rows width (suc row) key ts rest in
      ((bump-IsRow width (hash row key % width) t a, b), ap suc l)

  get_or-le : (t : List ℕ) (i : ℕ) → All (λ v. v ≤ u16_max) t → get_or t i 0 ≤ u16_max
  get_or-le [] i a = omega arith
  get_or-le (x ∷ xs) zero (a, rest) = a
  get_or-le (x ∷ xs) (suc i) (a, rest) = get_or-le xs i rest

  estimate_rows-le :
      (width row : ℕ) (key : K) (ts : List (List ℕ))
      → All (IsRow width) ts
      → estimate_rows hash width row key ts ≤ u16_max
  unfolding estimate_rows
  estimate_rows-le width row key [] a = omega arith
  estimate_rows-le width row key (t ∷ []) (a, rest) = get_or-le t (hash row key % width) (a.1)
  estimate_rows-le width row key (t ∷ u ∷ ts) (a, rest) =
      omega (arith, get_or-le t (hash row key % width) (a.1))

  pub new-IsValid : (width : ℕ) → 0 < width → IsValid (new width)
  unfolding new
  new-IsValid width h =
      let row : IsRow width (replicate width 0) = (length-replicate width 0, new-row width width) in
      record {
        inhabited = h;
        four = refl;
        rows = (row, (row, (row, (row, tt))));
        young = omega arith;
      }

  -- `increment` keeps the sketch well formed, and answers a frequency from 1 to 65535.
  pub increment-IsValid :
      (key : K) (s : TinyLfu)
      → IsValid s
      → IsValid (increment hash key s).1
        × (1 ≤ (increment hash key s).0)
        × ((increment hash key s).0 ≤ u16_max)
  unfolding increment estimate halve
  increment-IsValid key s v =
      let (rows, four) = increment_rows-rows s.width 0 key s.tables (v.rows) in
      (
        if_elim IsValid (leb (s.width * 10) (s.samples + 1))
            (λ p. record {
              inhabited = v.inhabited;
              four = length-map (increment_rows hash s.width 0 key s.tables) _ ∙ four ∙ v.four;
              rows = halve-rows s.width _ rows;
              young = omega (arith, v.inhabited, v.young);
            })
            (λ p. record {
              inhabited = v.inhabited;
              four = four ∙ v.four;
              rows = rows;
              young = ground arith;
            }),
        omega arith,
        omega (arith, estimate_rows-le s.width 0 key _ rows),
      )

module _ {K : Type 0} (dec : Discrete K) (hash : ℕ → K → ℕ) where
  -- Every counter of a key is at least its count, and no counter is above the number of samples.
  abbrev Counted : ℕ → ℕ → List K → List (List ℕ) → Type 0
  Counted width row ks [] = Unit
  Counted width row ks (t ∷ ts) =
      (length t ≡ width)
      × ((key : K) → min (count dec key ks) u16_max ≤ get_or t (hash row key % width) 0)
      × ((i : ℕ) → get_or t i 0 ≤ length ks)
      × Counted width (suc row) ks ts

  increment_rows-Counted :
      (width row : ℕ) (k : K) (ks : List K) (ts : List (List ℕ))
      → 0 < width
      → Counted width row ks ts
      → Counted width row (k ∷ ks) (increment_rows hash width row k ts)
  unfolding increment_rows
  increment_rows-Counted width row k ks [] h c = tt
  increment_rows-Counted width row k ks (t ∷ ts) h (l, low, high, rest) =
      (length-set t _ _ ∙ l, lower, upper, increment_rows-Counted width (suc row) k ks ts h rest)
    where
      inside : hash row k % width < length t
      inside = ground (arith, mod-lt (hash row k) h)

      lower :
          (key : K)
          → min (count dec key (k ∷ ks)) u16_max
            ≤ get_or (bump t (hash row k % width)) (hash row key % width) 0
      lower key =
          let grows = bump-grows t (hash row k % width) (hash row key % width) inside in
          elim (dec k key) [
            | yes p ↦ ground (
              arith,
              low key,
              p,
              grows,
              ap (λ j. get_or (bump t (hash row k % width)) (hash row j % width) 0) p,
              ap (λ j. get_or t (hash row j % width) 0) p,
            )
            | no p ↦ ground (arith, low key, grows)
          ]

      upper : (i : ℕ) → get_or (bump t (hash row k % width)) i 0 ≤ suc (length ks)
      upper i = ground (
        arith,
        high i,
        high (hash row k % width),
        get_or-set_self t (hash row k % width) (min (get_or t (hash row k % width) 0 + 1) u16_max) 0
            inside,
        get_or-set_ne t (hash row k % width) i (min (get_or t (hash row k % width) 0 + 1) u16_max)
            0,
      )

  -- The sketch after a history, the last key first.
  pub counted : List K → TinyLfu → TinyLfu
  counted [] s = s
  counted (k ∷ ks) s = (increment hash k (counted ks s)).1

  estimate_rows-Counted :
      (width row : ℕ) (key : K) (ks : List K) (ts : List (List ℕ))
      → 0 < length ts
      → Counted width row ks ts
      → (min (count dec key ks) u16_max ≤ estimate_rows hash width row key ts)
        × (estimate_rows hash width row key ts ≤ length ks)
  unfolding estimate_rows
  estimate_rows-Counted width row key ks [] h c = absurd (omega arith)
  estimate_rows-Counted width row key ks (t ∷ []) h (l, low, high, rest) =
      (low key, high (hash row key % width))
  estimate_rows-Counted width row key ks (t ∷ u ∷ ts) h (l, low, high, rest) =
      let (a, b) = estimate_rows-Counted width (suc row) key ks (u ∷ ts) (omega arith) rest in
      (omega (arith, low key, a), omega (arith, b))

  record IsCounted (width : ℕ) (ks : List K) (s : TinyLfu) : Type 0 where
    pub same_width : s.width ≡ width
    pub sampled : s.samples ≡ length ks
    pub four : length s.tables ≡ 4
    pub counters : Counted width 0 ks s.tables

  increment_rows-length :
      (width row : ℕ) (key : K) (ts : List (List ℕ))
      → length (increment_rows hash width row key ts) ≡ length ts
  unfolding increment_rows
  increment_rows-length width row key [] = refl
  increment_rows-length width row key (t ∷ ts) =
      ap suc (increment_rows-length width (suc row) key ts)

  zero-le : (n i : ℕ) → get_or (replicate n 0) i 0 ≤ 0
  zero-le zero i = omega arith
  zero-le (suc n) zero = omega arith
  zero-le (suc n) (suc i) = zero-le n i

  counted-IsCounted :
      (width : ℕ) (ks : List K)
      → 0 < width
      → length ks < width * 10
      → IsCounted width ks (counted ks (new width))
  unfolding counted increment new
  counted-IsCounted width [] h q =
      let l = length-replicate width 0 in
      let low : (key : K) (i : ℕ) → min 0 u16_max ≤ get_or (replicate width 0) i 0 =
        λ key i. omega arith in
      let z = zero-le width in
      record {
        same_width = refl;
        sampled = refl;
        four = refl;
        counters = (
          l,
          (λ key. low key _),
          z,
          (l, (λ key. low key _), z, (l, (λ key. low key _), z, (l, (λ key. low key _), z, tt))),
        );
      }
  counted-IsCounted width (k ∷ ks) h q =
      let c = counted-IsCounted width ks h (omega arith) in
      let s = counted ks (new width) in
      if_elim (IsCounted width (k ∷ ks)) (leb (s.width * 10) (s.samples + 1))
        (λ p. absurd (ground (arith, c.same_width, c.sampled)))
        (λ p. record {
          same_width = c.same_width;
          sampled = omega (arith, c.sampled);
          four = increment_rows-length s.width 0 k s.tables ∙ c.four;
          counters = rw (c.same_width) (increment_rows-Counted width 0 k ks s.tables h c.counters);
        })

  -- As long as the counters have not been halved, the sketch's estimate of a key is at least how often
  -- the key was counted, up to the greatest 16-bit number, and at most how many keys were counted.
  pub estimate-counted :
      (width : ℕ) (ks : List K) (key : K)
      → 0 < width
      → length ks < width * 10
      → (min (count dec key ks) u16_max ≤ estimate hash key (counted ks (new width)))
        × (estimate hash key (counted ks (new width)) ≤ length ks)
  unfolding estimate
  estimate-counted width ks key h q =
      let c = counted-IsCounted width ks h q in
      let s = counted ks (new width) in
      rw (c.same_width)
        (estimate_rows-Counted width 0 key ks s.tables (omega (arith, c.four)) c.counters)
