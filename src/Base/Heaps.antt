-- ===== src/Base/Heaps.antt =====
-- Priority queues. A `BinaryHeap` of Rust is the list of what is in it, and its pop takes out a greatest
-- element; which of several equal ones is not promised. What bounds a list is said by counting, which
-- does not depend on the order.
use Prim.Native.Nat.{ℕ, ◌+◌, ◌≤◌, ◌<◌}
use mathlib.Core.Path.{◌≡◌, refl, sym, ◌∙◌, subst}
use mathlib.Core.Logic.{∥∥₁_elim}
use mathlib.Core.Bool.{Bool, true}
use mathlib.Core.Option.{Option, none, some}
use mathlib.Core.List.{List, [], ◌∷◌, ◌++◌, Perm, Permᴰ}
use mathlib.Core.List.Perm as Perm
use native.Mathlib.Omega.{arith}
use native.Mathlib.Nat.{ℕ_set}
use vector_chord.Base.Tests.{ltb, leb, if◌then◌else◌, if_elim, leb→le}
use vector_chord.Base.Lists.{length}

module _ {A : Type 0} where
  -- How many elements pass a test.
  abbrev pub counted : (A → Bool) → List A → ℕ
  counted p [] = 0
  counted p (x ∷ xs) = (if p x then 1 else 0) + counted p xs

  counted_permᴰ : (p : A → Bool) {xs ys : List A} → Permᴰ xs ys → counted p xs ≡ counted p ys
  counted_permᴰ p Permᴰ.nil = refl
  counted_permᴰ p (Permᴰ.cons e d) = λ i. (if p (e i) then 1 else 0) + counted_permᴰ p d i
  counted_permᴰ p (Permᴰ.swap {a = a} {b = b} {l = l} e f) =
      swapped (if p a then 1 else 0) (if p b then 1 else 0) (counted p l)
      ∙ (λ i. (if p (f i) then 1 else 0) + ((if p (e i) then 1 else 0) + counted p l))
    where
      swapped : (m n k : ℕ) → m + (n + k) ≡ n + (m + k)
      swapped m n k = omega arith
  counted_permᴰ p (Permᴰ.trans d e) = counted_permᴰ p d ∙ counted_permᴰ p e

  pub counted_perm : (p : A → Bool) {xs ys : List A} → Perm xs ys → counted p xs ≡ counted p ys
  counted_perm p {xs} {ys} e = ∥∥₁_elim e (ℕ_set (counted p xs) (counted p ys)) (counted_permᴰ p)

  pub counted-append :
      (p : A → Bool) (xs ys : List A) → counted p (xs ++ ys) ≡ counted p xs + counted p ys
  counted-append p [] ys = omega arith
  counted-append p (x ∷ xs) ys = omega (arith, counted-append p xs ys)

  pub length_perm : {xs ys : List A} → Perm xs ys → length xs ≡ length ys
  length_perm {xs} {ys} e = sym (all xs) ∙ counted_perm (λ a. true) e ∙ all ys
    where
      all : (zs : List A) → counted (λ a. true) zs ≡ length zs
      all [] = refl
      all (z ∷ zs) = omega (arith, all zs)

module _ {A : Type 0} (key : A → ℕ) where
  -- Elements with a key above a number, below it, or at most it.
  abbrev pub above : ℕ → List A → ℕ
  above d = counted (λ a. ltb d (key a))

  abbrev pub below : ℕ → List A → ℕ
  below d = counted (λ a. ltb (key a) d)

  abbrev pub upto : ℕ → List A → ℕ
  upto d = counted (λ a. leb (key a) d)

  pub above_mono : (c d : ℕ) (xs : List A) → c ≤ d → above d xs ≤ above c xs
  above_mono c d [] h = omega arith
  above_mono c d (x ∷ xs) h = ground (arith, above_mono c d xs h)

  pub below_mono : (c d : ℕ) (xs : List A) → c ≤ d → below c xs ≤ below d xs
  below_mono c d [] h = omega arith
  below_mono c d (x ∷ xs) h = ground (arith, below_mono c d xs h)

  pub upto-below : (c d : ℕ) (xs : List A) → c < d → upto c xs ≤ below d xs
  upto-below c d [] h = omega arith
  upto-below c d (x ∷ xs) h = ground (arith, upto-below c d xs h)

  unfoldable pub choose_least : A → List A → Option (A × List A) → A × List A
  choose_least x xs none = (x, [])
  choose_least x xs (some (y, ys)) = if leb (key x) (key y) then (x, xs) else (y, x ∷ ys)

  unfoldable pub choose_greatest : A → List A → Option (A × List A) → A × List A
  choose_greatest x xs none = (x, [])
  choose_greatest x xs (some (y, ys)) = if leb (key y) (key x) then (x, xs) else (y, x ∷ ys)

  -- An element with a least key, and the others; so for a greatest.
  unfoldable pub take_least : List A → Option (A × List A)
  unfolding choose_least
  take_least [] = none
  take_least (x ∷ xs) = some (choose_least x xs (take_least xs))

  unfoldable pub take_greatest : List A → Option (A × List A)
  unfolding choose_greatest
  take_greatest [] = none
  take_greatest (x ∷ xs) = some (choose_greatest x xs (take_greatest xs))

  pub record IsLeast (xs : List A) (p : A × List A) : Type 0 where
    pub same : Perm xs (p.0 ∷ p.1)
    pub least : below (key p.0) p.1 ≡ 0

  pub record IsGreatest (xs : List A) (p : A × List A) : Type 0 where
    pub same : Perm xs (p.0 ∷ p.1)
    pub greatest : above (key p.0) p.1 ≡ 0

  pub take_least-none : (xs : List A) → take_least xs ≡ none → xs ≡ []
  unfolding take_least
  take_least-none [] e = refl
  take_least-none (x ∷ xs) e = absurd (ground arith)

  pub take_greatest-none : (xs : List A) → take_greatest xs ≡ none → xs ≡ []
  unfolding take_greatest
  take_greatest-none [] e = refl
  take_greatest-none (x ∷ xs) e = absurd (ground arith)

  some_inj : {p q : A × List A} → Option.some p ≡ some q → p ≡ q
  some_inj e = cc

  choose_least-IsLeast :
      (x : A) (xs : List A) (o : Option (A × List A))
      → (o ≡ none → xs ≡ [])
      → ((p : A × List A) → o ≡ some p → IsLeast xs p)
      → IsLeast (x ∷ xs) (choose_least x xs o)
  unfolding choose_least
  choose_least-IsLeast x xs none h k = record {
    same = subst (λ l. Perm (x ∷ l) (x ∷ [])) (sym (h refl)) (Perm.refl (x ∷ []));
    least = refl;
  }
  choose_least-IsLeast x xs (some (y, ys)) h k =
      let v = k (y, ys) refl in
      let n = counted_perm (λ a. ltb (key a) (key x)) v.same in
      if_elim (IsLeast (x ∷ xs)) (leb (key x) (key y))
        (λ e. record {
          same = Perm.refl (x ∷ xs);
          least =
              ground (arith, v.least, n, below_mono (key x) (key y) ys (leb→le (key x) (key y) e));
        })
        (λ e. record {
          same = Perm.trans (Perm.cons x v.same) (Perm.swap y x ys);
          least = ground (arith, v.least);
        })

  choose_greatest-IsGreatest :
      (x : A) (xs : List A) (o : Option (A × List A))
      → (o ≡ none → xs ≡ [])
      → ((p : A × List A) → o ≡ some p → IsGreatest xs p)
      → IsGreatest (x ∷ xs) (choose_greatest x xs o)
  unfolding choose_greatest
  choose_greatest-IsGreatest x xs none h k = record {
    same = subst (λ l. Perm (x ∷ l) (x ∷ [])) (sym (h refl)) (Perm.refl (x ∷ []));
    greatest = refl;
  }
  choose_greatest-IsGreatest x xs (some (y, ys)) h k =
      let v = k (y, ys) refl in
      let n = counted_perm (λ a. ltb (key x) (key a)) v.same in
      if_elim (IsGreatest (x ∷ xs)) (leb (key y) (key x))
        (λ e. record {
          same = Perm.refl (x ∷ xs);
          greatest =
              ground
                (arith, v.greatest, n, above_mono (key y) (key x) ys (leb→le (key y) (key x) e));
        })
        (λ e. record {
          same = Perm.trans (Perm.cons x v.same) (Perm.swap y x ys);
          greatest = ground (arith, v.greatest);
        })

  pub take_least-IsLeast : (xs : List A) (p : A × List A) → take_least xs ≡ some p → IsLeast xs p
  unfolding take_least
  take_least-IsLeast [] p e = absurd (ground arith)
  take_least-IsLeast (x ∷ xs) p e =
      subst (IsLeast (x ∷ xs)) (some_inj e)
        (choose_least-IsLeast x xs (take_least xs) (take_least-none xs) (take_least-IsLeast xs))

  pub take_greatest-IsGreatest :
      (xs : List A) (p : A × List A) → take_greatest xs ≡ some p → IsGreatest xs p
  unfolding take_greatest
  take_greatest-IsGreatest [] p e = absurd (ground arith)
  take_greatest-IsGreatest (x ∷ xs) p e = subst (IsGreatest (x ∷ xs)) (some_inj e) (
      choose_greatest-IsGreatest x xs (take_greatest xs) (take_greatest-none xs)
        (take_greatest-IsGreatest xs))
