-- ===== src/Base/Vecs.antt =====
-- Operations of Rust's `Vec` beyond the list library: `swap_remove`, `iter().any` and a stable sort by
-- a numeric key.
use Prim.Native.Nat.{ℕ, zero, suc, ◌≤◌, ◌<◌}
use mathlib.Core.Path.{◌≡◌, refl, ap, sym, subst}
use mathlib.Core.Bool.{Bool, false, ◌||◌}
use mathlib.Core.List.{List, [], ◌∷◌, ◌++◌}
use mathlib.Core.Option.{Option, none, some}
use mathlib.Core.List.Perm as Perm
use mathlib.Core.List.{Perm, perm_middle, append-nil}
use native.Mathlib.Omega.{arith}
use vector_chord.Base.Tests.{leb, if◌then◌else◌, leb→le, if_elim}
use vector_chord.Base.Lists.{length, get_elem?, take, All}

module _ {ℓ} {A : Type ℓ} where
  -- The last element, moved to the front.
  unfoldable pub last : A → List A → A
  last x [] = x
  last x (y ∷ ys) = last y ys

  unfoldable pub init : A → List A → List A
  init x [] = []
  init x (y ∷ ys) = x ∷ init y ys

  unfoldable pub last_first : List A → List A
  unfolding last init
  last_first [] = []
  last_first (x ∷ xs) = last x xs ∷ init x xs

  abbrev after_head : A → Option (A × List A) → Option (A × List A)
  after_head x none = none
  after_head x (some (y, ys)) = some (y, x ∷ ys)

  -- The element at an index, and the vector in which the last element takes its place.
  unfoldable pub swap_remove : ℕ → List A → Option (A × List A)
  unfolding last_first
  swap_remove i [] = none
  swap_remove zero (x ∷ xs) = some (x, last_first xs)
  swap_remove (suc i) (x ∷ xs) = after_head x (swap_remove i xs)

  after_last : A → Option (A × List A) → A × List A
  after_last x none = (x, [])
  after_last x (some (y, ys)) = (y, x ∷ ys)

  -- `pop`: the last element, and the vector without it.
  pub pop_back : List A → Option (A × List A)
  unfolding after_last
  pop_back [] = none
  pop_back (x ∷ xs) = some (after_last x (pop_back xs))

  pub pop_back-append : (xs : List A) (y : A) → pop_back (xs ++ y ∷ []) ≡ some (y, xs)
  unfolding pop_back
  pop_back-append [] y = refl
  pop_back-append (x ∷ xs) y = ap (λ o. some (after_last x o)) (pop_back-append xs y)

  pub unsnoc : (xs : List A) → 0 < length xs → (ys : List A) × (y : A) × (xs ≡ ys ++ y ∷ [])
  unsnoc [] h = absurd (omega arith)
  unsnoc (x ∷ []) h = ([], x, refl)
  unsnoc (x ∷ z ∷ xs) h =
      let (ys, y, e) = unsnoc (z ∷ xs) (omega arith) in (x ∷ ys, y, ap (◌∷◌ x) e)

  unfoldable pub any : (A → Bool) → List A → Bool
  any p [] = false
  any p (x ∷ xs) = p x || any p xs

  -- Inserted behind the elements of the same key.
  unfoldable pub insert_by_key : (A → ℕ) → A → List A → List A
  insert_by_key key x [] = x ∷ []
  insert_by_key key x (y ∷ ys) =
      let rest = insert_by_key key x ys in if leb (key y) (key x) then y ∷ rest else x ∷ y ∷ ys

  abbrev sort_onto : (A → ℕ) → List A → List A → List A
  sort_onto key done [] = done
  sort_onto key done (x ∷ xs) = sort_onto key (insert_by_key key x done) xs

  unfoldable pub sort_by_key : (A → ℕ) → List A → List A
  unfolding insert_by_key
  sort_by_key key xs = sort_onto key [] xs

  abbrev pub IsSortedBy : (A → ℕ) → List A → Type 0
  IsSortedBy key [] = Unit {0}
  IsSortedBy key (x ∷ xs) = All (λ y. key x ≤ key y) xs × IsSortedBy key xs

  init-last-Perm : (x : A) (xs : List A) → Perm (x ∷ xs) (last x xs ∷ init x xs)
  unfolding last init
  init-last-Perm x [] = Perm.refl (x ∷ [])
  init-last-Perm x (y ∷ ys) =
      Perm.trans (Perm.cons x (init-last-Perm y ys)) (Perm.swap (last y ys) x (init y ys))

  last_first-Perm : (xs : List A) → Perm xs (last_first xs)
  unfolding last_first
  last_first-Perm [] = Perm.refl []
  last_first-Perm (x ∷ xs) = init-last-Perm x xs

  length-init : (x : A) (xs : List A) → length xs ≡ length (init x xs)
  unfolding init
  length-init x [] = refl
  length-init x (y ∷ ys) = ap suc (length-init y ys)

  length-last_first : (xs : List A) → length xs ≡ length (last_first xs)
  unfolding last_first
  length-last_first [] = refl
  length-last_first (x ∷ xs) = ap suc (length-init x xs)

  -- What `swap_remove` takes out and leaves, within the vector.
  pub swap_remove-some :
      (i : ℕ) (xs : List A) (x : A)
      → get_elem? xs i ≡ some x
      → (ys : List A) × (swap_remove i xs ≡ some (x, ys))
        × Perm xs (x ∷ ys)
        × (take i ys ≡ take i xs)
        × (length xs ≡ suc (length ys))
  unfolding swap_remove
  swap_remove-some i [] x e = absurd (ground arith)
  swap_remove-some zero (y ∷ ys) x e =
      let p : y ≡ x = ground arith in
      (
        last_first ys,
        ground arith,
        subst (λ z. Perm (y ∷ ys) (z ∷ last_first ys)) p (Perm.cons y (last_first-Perm ys)),
        refl,
        ap suc (length-last_first ys),
      )
  swap_remove-some (suc i) (y ∷ ys) x e =
      let (zs, r, p, q, l) = swap_remove-some i ys x e in
      (
        y ∷ zs,
        ap (after_head y) r,
        Perm.trans (Perm.cons y p) (Perm.swap x y zs),
        ap (◌∷◌ y) q,
        ap suc l,
      )

  pub insert_by_key-Perm :
      (key : A → ℕ) (x : A) (xs : List A) → Perm (x ∷ xs) (insert_by_key key x xs)
  unfolding insert_by_key
  insert_by_key-Perm key x [] = Perm.refl (x ∷ [])
  insert_by_key-Perm key x (y ∷ ys) =
      if_elim (Perm (x ∷ y ∷ ys)) (leb (key y) (key x))
        (λ p. Perm.trans (Perm.swap y x ys) (Perm.cons y (insert_by_key-Perm key x ys)))
        (λ p. Perm.refl (x ∷ y ∷ ys))

  All-insert_by_key :
      (P : A → Type 0) (key : A → ℕ) (x : A) (xs : List A)
      → P x
      → All P xs
      → All P (insert_by_key key x xs)
  unfolding insert_by_key
  All-insert_by_key P key x [] p a = (p, tt)
  All-insert_by_key P key x (y ∷ ys) p (q, a) =
      if_elim (All P) (leb (key y) (key x)) (λ e. (q, All-insert_by_key P key x ys p a))
        (λ e. (p, (q, a)))

  pub All-map : (P Q : A → Type 0) (xs : List A) → ((x : A) → P x → Q x) → All P xs → All Q xs
  All-map P Q [] f a = tt
  All-map P Q (x ∷ xs) f (p, a) = (f x p, All-map P Q xs f a)

  insert_by_key-IsSortedBy :
      (key : A → ℕ) (x : A) (xs : List A)
      → IsSortedBy key xs
      → IsSortedBy key (insert_by_key key x xs)
  unfolding insert_by_key
  insert_by_key-IsSortedBy key x [] s = (tt, tt)
  insert_by_key-IsSortedBy key x (y ∷ ys) (a, s) =
      if_elim (IsSortedBy key) (leb (key y) (key x))
        (λ e. (
          All-insert_by_key (λ z. key y ≤ key z) key x ys (leb→le (key y) (key x) e) a,
          insert_by_key-IsSortedBy key x ys s,
        ))
        (λ e.
          let h : key x ≤ key y = ground arith in
          (
            (h, All-map (λ z. key y ≤ key z) (λ z. key x ≤ key z) ys (λ z p. omega arith) a),
            (a, s),
          ))

  sort_onto-lem :
      (key : A → ℕ) (done xs : List A)
      → IsSortedBy key done
      → IsSortedBy key (sort_onto key done xs) × Perm (done ++ xs) (sort_onto key done xs)
  sort_onto-lem key done [] s =
      (s, subst (λ l. Perm l done) (sym (append-nil done)) (Perm.refl done))
  sort_onto-lem key done (x ∷ xs) s =
      let (t, p) =
        sort_onto-lem key (insert_by_key key x done) xs (insert_by_key-IsSortedBy key x done s) in
      (
        t,
        Perm.trans (perm_middle done xs)
            (Perm.trans (Perm.append_right xs (insert_by_key-Perm key x done)) p),
      )

  -- A sort by a key is sorted, and has the same elements.
  pub sort_by_key-lem :
      (key : A → ℕ) (xs : List A)
      → IsSortedBy key (sort_by_key key xs) × Perm xs (sort_by_key key xs)
  unfolding sort_by_key
  sort_by_key-lem key xs = sort_onto-lem key [] xs tt

  sort_onto-All :
      (P : A → Type 0) (key : A → ℕ) (done xs : List A)
      → All P done
      → All P xs
      → All P (sort_onto key done xs)
  sort_onto-All P key done [] a b = a
  sort_onto-All P key done (x ∷ xs) a (p, b) =
      sort_onto-All P key (insert_by_key key x done) xs (All-insert_by_key P key x done p a) b

  pub sort_by_key-All :
      (P : A → Type 0) (key : A → ℕ) (xs : List A) → All P xs → All P (sort_by_key key xs)
  unfolding sort_by_key
  sort_by_key-All P key xs a = sort_onto-All P key [] xs tt a
