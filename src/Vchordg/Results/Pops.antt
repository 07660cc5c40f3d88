-- ===== src/Vchordg/Results/Pops.antt =====
-- A search keeps its results in order: `new`, `push` and `pop_min`.
use mathlib.Core.List.{Perm, append-nil}
use mathlib.Core.List.Perm as Perm
use vector_chord.Base.{
  ℕ, ◌<◌, ◌≤◌, ◌≡◌, Bool, true, false, Option, none, some, List, [], ◌∷◌, ◌++◌, length, ltb,
  if◌then◌else◌, if_elim, inl, inr, arith, refl, ap, ◌∙◌, subst, Bool-cases,
}
use vector_chord.Base.Heaps.{
  counted-append, length_perm, below, upto, IsLeast, take_least, take_least-none,
  take_least-IsLeast,
}
use vector_chord.Vchordg.Results.{
  Item, distance, MinMaxHeap, Results, new, push, with_front, pop_over, pop_min, contents,
}
use vector_chord.Vchordg.Results.Fronts.{
  Divides, push_divides, push_same, pop_divides, pop_least, pop_same,
}

none-some : (d : ℕ) → Option.none ≡ some d → ⊥
none-some d e = cc

module _ {T : Type 0} (m : MinMaxHeap T) where
  -- At most `ef` results in front, none behind them unless there are so many, and none behind that is
  -- better than one in front.
  pub record IsOrdered (r : Results m) : Type 0 where
    pub positive : 0 < r.ef
    pub bounded : length (m.items r.front) ≤ r.ef
    pub filled : length (m.items r.front) < r.ef → r.back ≡ []
    pub split : Divides (m.items r.front) r.back

  pub new-IsOrdered :
      (ef : ℕ) (r : Results m) → new m ef ≡ some r → IsOrdered r × (contents m r ≡ [])
  unfolding new
  new-IsOrdered ef r e =
      let p : 0 < ef = ground arith in
      let q : record { ef = ef; front = m.empty; back = [] } ≡ r =
        made ef (record { ef = ef; front = m.empty; back = [] }) r p e in
      subst (λ s. IsOrdered s × (contents m s ≡ [])) q
        (
          record {
            positive = p;
            bounded = rw (m.items-empty) (omega arith);
            filled = λ h. refl;
            split = λ d h. absurd (omega arith);
          },
          append-nil (m.items m.empty) ∙ m.items-empty,
        )
    where
      made : (n : ℕ) (a b : Results m) → 0 < n → (if ltb 0 n then some a else none) ≡ some b → a ≡ b
      made n a b h e = ground arith

  empty_both : (xs ys : List (Item T)) → xs ≡ [] → ys ≡ [] → xs ++ ys ≡ []
  empty_both xs ys e f = ap (λ l. l ++ ys) e ∙ f

  empty_or_not : (n ef : ℕ) (l : List (Item T)) → (n < ef → l ≡ []) → ltb n ef ≡ true → l ≡ []
  empty_or_not n ef l h e = h (ground arith)

  pub full_of : (n ef : ℕ) → n ≤ ef → ltb n ef ≡ false → n ≡ ef
  full_of n ef h e = ground arith

  some_inj : {p q : Item T × Results m} → Option.some p ≡ some q → p ≡ q
  some_inj e = cc

  -- A result of `pop_min`, and what it leaves.
  pub record IsPopped (r : Results m) (p : Item T × Results m) : Type 0 where
    pub ordered : IsOrdered p.1
    pub popped : IsLeast distance (contents m r) (p.0, contents m p.1)
    pub same_ef : p.1.ef ≡ r.ef

  pub push-IsOrdered :
      (item : Item T) (r : Results m)
      → IsOrdered r
      → IsOrdered (push m item r) × Perm (contents m (push m item r)) (item ∷ contents m r)
  unfolding push
  push-IsOrdered item r v =
      if_elim (λ s. IsOrdered s × Perm (contents m s) (item ∷ contents m r))
        (ltb (m.len r.front) r.ef)
        (λ e.
          let e' : ltb (length (m.items r.front)) r.ef ≡ true = rw (← m.len-items r.front) e in
          let b : r.back ≡ [] = empty_or_not _ r.ef r.back v.filled e' in
          let n = length_perm (m.items-push item r.front) in
          (
            record {
              positive = v.positive;
              bounded = ground (arith, n);
              filled = λ h. b;
              split = λ d h. absurd (no_one d r.back b h);
            },
            Perm.append_right r.back (m.items-push item r.front),
          ))
        (λ e.
          let e' : ltb (length (m.items r.front)) r.ef ≡ false = rw (← m.len-items r.front) e in
          let g = m.push_pop_max_lem item r.front in
          let n = length_perm g.same in
          let full = full_of _ r.ef v.bounded e' in
          (
            record {
              positive = v.positive;
              bounded = omega (arith, n, full);
              filled = λ h. absurd (omega (arith, n, full));
              split = push_divides item _ (m.items r.front) _ r.back g v.split;
            },
            push_same item _ (m.items r.front) _ r.back g.same,
          ))
    where
      no_one : (d : ℕ) (l : List (Item T)) → l ≡ [] → 0 < upto distance d l → ⊥
      no_one d l e h = absurd (omega (arith, ap (upto distance d) e))

  from_front :
      (r : Results m) (o : Option (Item T × m.Heap)) (p : Item T × Results m)
      → IsOrdered r
      → r.back ≡ []
      → ((q : Item T × m.Heap) → o ≡ some q → IsLeast distance (m.items r.front) (q.0, m.items q.1))
      → with_front m r o ≡ some p
      → IsPopped r p
  from_front r none p v b k e = absurd (ground arith)
  from_front r (some (a, front)) p v b k e =
      let g = k (a, front) refl in
      let n = length_perm g.same in
      let made : (a, record r { front = front }) ≡ p = some_inj e in
      subst (IsPopped r) made (record {
        ordered = record {
          positive = v.positive;
          bounded = omega (arith, n, v.bounded);
          filled = λ h. b;
          split = λ d h. absurd (omega (arith, h, ap (upto distance d) b));
        };
        popped = record {
          same = Perm.append_right r.back g.same;
          least =
              counted-append (λ (c : Item T). ltb (distance c) (distance a)) (m.items front) r.back
              ∙ omega (arith, g.least, ap (below distance (distance a)) b);
        };
        same_ef = refl;
      })

  over_back :
      (r : Results m) (o : Option (Item T × List (Item T))) (p : Item T × Results m)
      → IsOrdered r
      → length (m.items r.front) ≡ r.ef
      → (o ≡ none → r.back ≡ [])
      → ((q : Item T × List (Item T)) → o ≡ some q → IsLeast distance r.back q)
      → pop_over m r o ≡ some p
      → IsPopped r p
  over_back r none p v full n k e =
      from_front r (m.pop_min r.front) p v (n refl) (m.pop_min-some r.front) e
  over_back r (some (b, back)) p v full n k e =
      let g = k (b, back) refl in
      let f = m.push_pop_min_lem b r.front in
      let l = length_perm f.same in
      let (a, front) = m.push_pop_min b r.front in
      let made : (a, record r { front = front; back = back }) ≡ p = some_inj e in
      subst (IsPopped r) made (record {
        ordered = record {
          positive = v.positive;
          bounded = omega (arith, l, full);
          filled = λ h. absurd (omega (arith, l, full));
          split = pop_divides a b (m.items r.front) (m.items front) r.back back f g v.split;
        };
        popped = record {
          same = pop_same a b (m.items r.front) (m.items front) r.back back f g;
          least = pop_least a b (m.items r.front) (m.items front) r.back back f g;
        };
        same_ef = refl;
      })

  pub pop_min-IsPopped :
      (r : Results m) (p : Item T × Results m) → IsOrdered r → pop_min m r ≡ some p → IsPopped r p
  unfolding pop_min
  pop_min-IsPopped r p v e = elim (Bool-cases (ltb (m.len r.front) r.ef)) [
    | inl t ↦
        let e' : ltb (length (m.items r.front)) r.ef ≡ true = rw (← m.len-items r.front) t in
        from_front r (m.pop_min r.front) p v (empty_or_not _ r.ef r.back v.filled e')
          (m.pop_min-some r.front)
          (subst
            (λ (b : Bool).
              (if b
                then with_front m r (m.pop_min r.front)
                else pop_over m r (take_least distance r.back))
              ≡ some p)
            t e)
    | inr t ↦
        let e' : ltb (length (m.items r.front)) r.ef ≡ false = rw (← m.len-items r.front) t in
        over_back r (take_least distance r.back) p v (full_of _ r.ef v.bounded e')
          (take_least-none distance r.back) (take_least-IsLeast distance r.back)
          (subst
            (λ (b : Bool).
              (if b
                then with_front m r (m.pop_min r.front)
                else pop_over m r (take_least distance r.back))
              ≡ some p)
            t e)
  ]

  with_front-none :
      (r : Results m) (o : Option (Item T × m.Heap)) → with_front m r o ≡ none → o ≡ none
  with_front-none r none e = refl
  with_front-none r (some (a, front)) e = absurd (ground arith)

  over_back-none :
      (r : Results m) (o : Option (Item T × List (Item T)))
      → (o ≡ none → r.back ≡ [])
      → pop_over m r o ≡ none
      → contents m r ≡ []
  over_back-none r none n e =
      empty_both (m.items r.front) r.back
        (m.pop_min-none r.front (with_front-none r (m.pop_min r.front) e)) (n refl)
  over_back-none r (some (b, back)) n e = absurd (ground arith)

  pub pop_min-none : (r : Results m) → IsOrdered r → pop_min m r ≡ none → contents m r ≡ []
  unfolding pop_min
  pop_min-none r v e = elim (Bool-cases (ltb (m.len r.front) r.ef)) [
    | inl t ↦
        let e' : ltb (length (m.items r.front)) r.ef ≡ true = rw (← m.len-items r.front) t in
        let f =
          subst
            (λ (b : Bool).
              (if b
                then with_front m r (m.pop_min r.front)
                else pop_over m r (take_least distance r.back))
              ≡ none)
            t e in
        empty_both (m.items r.front) r.back
          (m.pop_min-none r.front (with_front-none r (m.pop_min r.front) f))
          (empty_or_not _ r.ef r.back v.filled e')
    | inr t ↦ over_back-none r (take_least distance r.back) (take_least-none distance r.back) (
        subst
          (λ (b : Bool).
            (if b
              then with_front m r (m.pop_min r.front)
              else pop_over m r (take_least distance r.back))
            ≡ none)
          t e)
  ]
