-- ===== src/Vchordg/Results/Order.antt =====
-- The results in front are the best, and `pop_min` gives the best of all.
use mathlib.Core.List.{Perm}
use mathlib.Core.Option
use vector_chord.Base.{
  ℕ, length-append, ◌<◌, ◌≤◌, ◌≡◌, Bool, false, Option, none, some, [], ◌∷◌, length, ltb, ◌==◌,
  if◌then◌else◌, inl, inr, arith, refl, ◌∙◌, subst, lt→ltb, Bool-cases, ltb→lt, Option-cases, ap,
}
use vector_chord.Base.Heaps.{counted, counted_perm, above, below}
use vector_chord.Vchordg.Results.{
  Item, distance, MinMaxHeap, Results, new, push, peek_ef_th, pop_min, contents,
}
use vector_chord.Vchordg.Results.Fronts.{has_one, none_above, none_below}
use vector_chord.Vchordg.Results.Pops.{
  IsOrdered, new-IsOrdered, full_of, push-IsOrdered, pop_min-IsPopped, pop_min-none,
}

none-some : (d : ℕ) → Option.none ≡ some d → ⊥
none-some d e = cc

module _ {T : Type 0} (m : MinMaxHeap T) where
  -- What calls can lead to.
  pub data Reachable : Results m → Type 0 where
    created : (ef : ℕ) {r : Results m} → new m ef ≡ some r → Reachable r
    pushed : (item : Item T) {r : Results m} → Reachable r → Reachable (push m item r)
    popped :
        (item : Item T) {r s : Results m} → Reachable r → pop_min m r ≡ some (item, s) → Reachable s

  pub Reachable-IsOrdered : {r : Results m} → Reachable r → IsOrdered m r
  Reachable-IsOrdered (created ef {r} e) = (new-IsOrdered m ef r e).0
  Reachable-IsOrdered (pushed item {r} h) = (push-IsOrdered m item r (Reachable-IsOrdered h)).0
  Reachable-IsOrdered (popped item {r} {s} h e) =
      (pop_min-IsPopped m r (item, s) (Reachable-IsOrdered h) e).ordered

  -- Whatever calls led to the results: a pushed one is added to them; `pop_min` takes out one with a
  -- least distance of all, in front or behind, and finds none only if there are none.
  pub pop_min_lem :
      {r : Results m}
      → Reachable r
      → ((item : Item T) → Perm (contents m (push m item r)) (item ∷ contents m r))
        × (pop_min m r ≡ none → contents m r ≡ [])
        × ((item : Item T) (s : Results m)
            → pop_min m r ≡ some (item, s)
            → Perm (contents m r) (item ∷ contents m s)
              × (below distance (distance item) (contents m s) ≡ 0))
  pop_min_lem {r} h =
      let v = Reachable-IsOrdered h in
      (
        λ item. (push-IsOrdered m item r v).1,
        pop_min-none m r v,
        λ item s e. let q = pop_min-IsPopped m r (item, s) v e in (q.popped.same, q.popped.least),
      )

  -- With so many results, the front is full.
  enough :
      (r : Results m)
      → IsOrdered m r
      → r.ef ≤ length (contents m r)
      → ltb (length (m.items r.front)) r.ef ≡ false
  enough r v l = elim (Bool-cases (ltb (length (m.items r.front)) r.ef)) [
    | inl e ↦
        let h = ltb→lt (length (m.items r.front)) r.ef e in
        absurd (omega (arith, h, l, length-append (m.items r.front) r.back, ap length (v.filled h)))
    | inr e ↦ e
  ]

  peeked :
      (r : Results m) (o : Option (Item T)) (d : ℕ)
      → Option.map distance o ≡ some d
      → (a : Item T) × (o ≡ some a) × (distance a ≡ d)
  peeked r none d e = absurd (ground arith)
  peeked r (some a) d e = (a, refl, ground arith)

  -- Whatever calls led to the results: `peek_ef_th` finds nothing while there are fewer than `ef`, finds
  -- a distance when there are at least so many, and what it finds is the distance of one in front, of which there are `ef`; none of these is above it,
  -- and none of the others below it.
  pub peek_ef_th_lem :
      {r : Results m}
      → Reachable r
      → (length (contents m r) < r.ef → peek_ef_th m r ≡ none)
        × (r.ef ≤ length (contents m r) → (d : ℕ) × (peek_ef_th m r ≡ some d))
        × ((d : ℕ)
            → peek_ef_th m r ≡ some d
            → (length (m.items r.front) ≡ r.ef)
              × (0 < counted (λ (a : Item T). distance a == d) (m.items r.front))
              × (above distance d (m.items r.front) ≡ 0)
              × (below distance d r.back ≡ 0))
  unfolding peek_ef_th
  peek_ef_th_lem {r} h =
      let v = Reachable-IsOrdered h in
      (
        λ l.
            let n : length (m.items r.front) < r.ef =
              omega (arith, l, length-append (m.items r.front) r.back) in
            rw (m.len-items r.front, lt→ltb _ _ n) refl,
        λ l.
            let full : ltb (length (m.items r.front)) r.ef ≡ false = enough r v l in
            elim (Option-cases (m.peek_max r.front)) [
              | inl e ↦
                  let none_left : length (m.items r.front) ≡ 0 =
                    ap length (m.peek_max-none r.front e) in
                  absurd (ground (arith, v.positive, none_left))
              | inr (a, e) ↦ (distance a, rw (m.len-items r.front, full, e) refl)
            ],
        λ d e. elim (Bool-cases (ltb (m.len r.front) r.ef)) [
          | inl t ↦ absurd (
              none-some d (
                subst
                  (λ (b : Bool).
                    (if b then none else Option.map distance (m.peek_max r.front)) ≡ some d)
                  t e))
          | inr t ↦
              let e' : ltb (length (m.items r.front)) r.ef ≡ false = rw (← m.len-items r.front) t in
              let (a, f, q) = peeked r (m.peek_max r.front) d (
                subst
                  (λ (b : Bool).
                    (if b then none else Option.map distance (m.peek_max r.front)) ≡ some d)
                  t e) in
              let (rest, g) = m.peek_max-some r.front a f in
              let one = has_one a rest (m.items r.front) d q g.same in
              (
                full_of m _ r.ef v.bounded e',
                one,
                counted_perm (λ (c : Item T). ltb d (distance c)) g.same
                    ∙ none_above a rest d q g.greatest,
                none_below (m.items r.front) r.back d v.split one,
              )
        ],
      )
