-- ===== src/Tilemaxsimd/Scheduler/Selection.antt =====
-- `pop`: what it takes, and which item the policies choose.
use vector_chord.Base.{
  ℕ, zero, suc, ◌≡◌, inl, inr, Bool, true, false, some, List, [], ◌∷◌, get_elem?, drop, All, arith,
  refl, ap, ◌∙◌, sym, subst, Bool-cases,
}
use mathlib.Core.List.{Perm}
use vector_chord.Base.Vecs.{swap_remove-some}
use vector_chord.Base.Float.{F64}
use vector_chord.Tilemaxsimd.Scheduler.{
  Queue, Item, highest, better, select, choose, charge, pop, pop_from, serve,
}

drop-get :
    {A : Type 0} (n : ℕ) (l : List A) (x : A) (xs : List A)
    → drop n l ≡ x ∷ xs
    → (get_elem? l n ≡ some x) × (drop (suc n) l ≡ xs)
drop-get zero [] x xs e = absurd (ground arith)
drop-get zero (y ∷ ys) x xs e = (ground arith, ground arith)
drop-get (suc n) [] x xs e = absurd (ground arith)
drop-get (suc n) (y ∷ ys) x xs e = drop-get n ys x xs e

module _ {A : Type 0} (is_better : A → A → Bool) where
  -- A sense of "at least as good" that the comparison decides.
  pub record IsGuide (R : A → A → Type 0) : Type 0 where
    pub same : (a : A) → R a a
    pub chain : (a b c : A) → R a b → R b c → R a c
    pub wins : (a b : A) → is_better a b ≡ true → R a b
    pub loses : (a b : A) → is_better a b ≡ false → R b a

module _ (F : F64) (T : Type 0) where
  -- The loop returns the index of an item that is at least as good as all.
  select-best :
      (is_better : Item F T → Item F T → Bool) (R : Item F T → Item F T → Type 0)
      → IsGuide is_better R
      → (candidate best : ℕ) (b : Item F T) (xs l : List (Item F T)) → get_elem? l best ≡ some b
      → drop candidate l ≡ xs
      → (w : Item F T) × (get_elem? l (select F T is_better candidate best b xs) ≡ some w)
        × R w b
        × All (R w) xs
  unfolding select
  select-best is_better R g candidate best b [] l e d = (b, e, g.same b, tt)
  select-best is_better R g candidate best b (x ∷ xs) l e d =
      let (here, later) = drop-get candidate l x xs d in
      elim (Bool-cases (is_better x b)) [
        | inl p ↦
            let (w, f, r, a) =
              select-best is_better R g (suc candidate) candidate x xs l here later in
            (w, ground (arith, f), g.chain w x b r (g.wins x b p), (r, a))
        | inr p ↦
            let (w, f, r, a) = select-best is_better R g (suc candidate) best b xs l e later in
            (w, ground (arith, f), r, (g.chain w b x r (g.loses x b p), a))
      ]

  module _ (q : Queue F T) (now : ℕ) (x : Item F T) (xs : List (Item F T))
      (e : q.pending ≡ x ∷ xs) where
    -- What `pop` does with a queue that is not empty, for any guide of the policy's comparison.
    pub pop-guided :
        (R : Item F T → Item F T → Type 0)
        → IsGuide (better F T q now (highest F T q now (x ∷ xs))) R
        → (w : Item F T) × (rest : List (Item F T)) × (pop F T now q
            ≡ (some w, charge F T w (record q { pending = rest })))
          × Perm q.pending (w ∷ rest)
          × All (R w) q.pending
    unfolding pop pop_from choose serve
    pop-guided R g =
        let (w, f, r, a) =
          select-best (better F T q now (highest F T q now (x ∷ xs))) R g 1 0 x xs (x ∷ xs) refl
            refl in
        let (rest, s, p, t, l) =
          swap_remove-some (choose F T q now x xs) q.pending w
            (ap (λ l. get_elem? l (choose F T q now x xs)) e ∙ f) in
        (
          w,
          rest,
          ap (λ l. pop_from F T now l q) e ∙ ap (λ o. serve F T o q) s,
          p,
          subst (All (R w)) (sym e) (r, a),
        )
