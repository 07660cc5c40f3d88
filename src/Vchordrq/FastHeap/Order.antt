-- ===== src/Vchordrq/FastHeap/Order.antt =====
-- The items leave a heap in falling order, and it stays well-formed.
use mathlib.Core.List.{Perm, append-nil, append_assoc, perm_middle}
use mathlib.Core.List.Perm as Perm
use mathlib.Core.Option
use vector_chord.Base.{
  ℕ, zero, suc, ◌-◌, ◌/◌, ◌≡◌, ◌<◌, ◌≤◌, Option, Option-cases, inl, inr, none, some, List, [], ◌∷◌,
  ◌++◌, All, length, length-append, length-drop, take-append-drop, take, drop, ltb, if_elim, ltb→lt,
  arith, refl, sym, ap, ◌∙◌, subst,
}
use vector_chord.Base.Vecs.{
  pop_back, pop_back-append, unsnoc, sort_by_key, sort_by_key-lem, sort_by_key-All, IsSortedBy,
}
use vector_chord.Base.Heaps.{
  counted-append, counted_perm, length_perm, above, IsGreatest, take_greatest, take_greatest-none,
  take_greatest-IsGreatest,
}
use vector_chord.Vchordrq.FastHeap.{
  FastHeap, into_inner, from_vec, after_pop, pop_binary, pop, peek,
}

module _ {T : Type 0} (key : T → ℕ) where
  -- No item of `front` is greater than one of `back`, and `back` is sorted.
  pub record IsSplit (front back : List T) : Type 0 where
    pub over : All (λ y. above key (key y) front ≡ 0) back
    pub in_order : IsSortedBy key back

  pub data IsValid : FastHeap T → Type 0 where
    split :
        (front back inner : List T) (t : ℕ)
        → inner ≡ front ++ back
        → length back ≡ t
        → 0 < t
        → IsSplit front back
        → IsValid (FastHeap.sorted inner t)
    whole : (items : List T) → IsValid (FastHeap.binary items)

  All-init : (P : T → Type 0) (xs : List T) (y : T) → All P (xs ++ y ∷ []) → All P xs × P y
  All-init P [] y (p, a) = (tt, p)
  All-init P (x ∷ xs) y (p, a) = let (b, q) = All-init P xs y a in ((p, b), q)

  sorted-init :
      (xs : List T) (y : T)
      → IsSortedBy key (xs ++ y ∷ [])
      → IsSortedBy key xs × (above key (key y) xs ≡ 0)
  sorted-init [] y s = (tt, refl)
  sorted-init (x ∷ xs) y (a, s) =
      let (b, h) = All-init (λ z. key x ≤ key z) xs y a in
      let (s', g) = sorted-init xs y s in ((b, s'), ground (arith, h, g))

  -- The last item of a split vector is a greatest, and what is left is split.
  without_last :
      (front back : List T) (k : T)
      → IsSplit front (back ++ k ∷ [])
      → IsSplit front back × (above key (key k) (front ++ back) ≡ 0)
  without_last front back k s =
      let (a, h) = All-init (λ y. above key (key y) front ≡ 0) back k s.over in
      let (o, g) = sorted-init back k s.in_order in
      (
        record { over = a; in_order = o },
        omega (arith, h, g, counted-append (λ x. ltb (key k) (key x)) front back),
      )

  -- What a pop does to the items, as `r` says.
  pub data IsPopped (items : List T) : Option (Option T × FastHeap T) → Type 0 where
    ended : (h : FastHeap T) → items ≡ [] → IsPopped items (some (none, h))
    gave :
        (k : T) (h : FastHeap T)
        → IsValid h
        → IsGreatest key items (k, into_inner h)
        → IsPopped items (some (some k, h))

  last_taken :
      (front back : List T) (k : T) (t : ℕ)
      → length (back ++ k ∷ []) ≡ t
      → IsSplit front (back ++ k ∷ [])
      → IsPopped ((front ++ back) ++ k ∷ []) (after_pop key t (some (k, front ++ back)))
  unfolding into_inner
  last_taken front back k t n s =
      let (s', g) = without_last front back k s in
      let l : suc (length back) ≡ t = omega (arith, n, length-append back (k ∷ [])) in
      let greatest : IsGreatest key ((front ++ back) ++ k ∷ []) (k, front ++ back) = record {
        same =
            subst (λ m. Perm ((front ++ back) ++ k ∷ []) (k ∷ m)) (append-nil (front ++ back))
              (perm_middle (front ++ back) []);
        greatest = g;
      } in
      if_elim (λ h. IsPopped ((front ++ back) ++ k ∷ []) (some (some k, h))) (ltb 0 (t - 1))
        (λ more.
          gave k _
            (split front back (front ++ back) (t - 1) refl (omega (arith, l)) (ltb→lt _ _ more) s')
            greatest)
        (λ last. gave k _ (whole (front ++ back)) greatest)

  pub pop-IsPopped : (h : FastHeap T) → IsValid h → IsPopped (into_inner h) (pop key h)
  unfolding pop into_inner
  pop-IsPopped h (IsValid.split front back inner t e n z s) =
      let (back', k, q) = unsnoc back (omega (arith, n, z)) in
      let whole_of : inner ≡ (front ++ back') ++ k ∷ [] =
        e ∙ ap (◌++◌ front) q ∙ sym (append_assoc front back' (k ∷ [])) in
      let popped : pop_back inner ≡ some (k, front ++ back') =
        ap pop_back whole_of ∙ pop_back-append (front ++ back') k in
      rw (popped) (
        subst (λ l. IsPopped l (after_pop key t (some (k, front ++ back')))) (sym whole_of)
          (last_taken front back' k t (ap length (sym q) ∙ n) (subst (IsSplit front) q s)))
  pop-IsPopped h (IsValid.whole items) = elim (Option-cases (take_greatest key items)) [
    | inl e ↦ rw e (ended _ (take_greatest-none key items e))
    | inr ((k, rest), e) ↦
        rw e (gave k _ (whole rest) (take_greatest-IsGreatest key items (k, rest) e))
  ]

  -- What `select_nth_unstable` documents: no item before the place is greater than one from it on.
  abbrev pub Selects : (ℕ → List T → List T) → Type 0
  Selects select =
      (n : ℕ) (vec : List T)
      → n < length vec
      → Perm vec (select n vec)
        × All (λ y. above key (key y) (take n (select n vec)) ≡ 0) (drop n (select n vec))

  module _ (select : ℕ → List T → List T) (law : Selects select) where
    split_vec-IsValid :
        (vec : List T) (t : ℕ)
        → 0 < t
        → t ≤ length vec
        → IsValid (
            FastHeap.sorted
              (take (length vec - t) (select (length vec - t) vec)
                ++ sort_by_key key (drop (length vec - t) (select (length vec - t) vec)))
              t)
          × Perm vec (
              take (length vec - t) (select (length vec - t) vec)
              ++ sort_by_key key (drop (length vec - t) (select (length vec - t) vec)))
    split_vec-IsValid vec t z l =
        let n = length vec - t in
        let front = take n (select n vec) in
        let back = drop n (select n vec) in
        let (p, a) = law n vec (omega (arith, z, l)) in
        let (o, q) = sort_by_key-lem key back in
        let long : length (sort_by_key key back) ≡ t =
          omega (arith, length_perm q, length_perm p, length-drop n (select n vec), l) in
        (
          split front (sort_by_key key back) _ t refl long z
              (record { over = sort_by_key-All _ key back a; in_order = o }),
          Perm.trans p (
              subst (λ m. Perm m (front ++ sort_by_key key back))
                (take-append-drop n (select n vec)) (Perm.append_left front q)),
        )

    pub from_vec-IsValid :
        (vec : List T)
        → IsValid (from_vec key select vec) × Perm vec (into_inner (from_vec key select vec))
    unfolding from_vec into_inner
    from_vec-IsValid vec =
        if_elim (λ h. IsValid h × Perm vec (into_inner h)) (ltb 0 (length vec / 384))
          (λ some_sorted.
            split_vec-IsValid vec (length vec / 384) (ltb→lt _ _ some_sorted) (omega arith))
          (λ none_sorted. (whole vec, Perm.refl vec))

  -- Popping until there is nothing left; `none` if that panics or the fuel is not enough.
  abbrev pub after :
      Option (Option T × FastHeap T) → (FastHeap T → Option (List T)) → Option (List T)
  after none rest = none
  after (some (none, h)) rest = some []
  after (some (some k, h)) rest = Option.map (◌∷◌ k) (rest h)

  abbrev pub drain : ℕ → FastHeap T → Option (List T)
  drain zero h = none
  drain (suc fuel) h = after (pop key h) (drain fuel)

  abbrev pub IsFalling : List T → Type 0
  IsFalling [] = Unit {0}
  IsFalling (x ∷ xs) = (above key (key x) xs ≡ 0) × IsFalling xs

  drain-IsFalling :
      (fuel : ℕ) (h : FastHeap T)
      → IsValid h
      → length (into_inner h) < fuel
      → (out : List T) × (drain fuel h ≡ some out) × IsFalling out × Perm (into_inner h) out
  drain-IsFalling zero h v l = absurd (omega arith)
  drain-IsFalling (suc fuel) h v l =
      drained (pop key h) (pop-IsPopped h v) (λ h' w k. drain-IsFalling fuel h' w k)
    where
      drained :
          (r : Option (Option T × FastHeap T))
          → IsPopped (into_inner h) r
          → ((h' : FastHeap T)
              → IsValid h'
              → length (into_inner h') < fuel
              → (out : List T) × (drain fuel h' ≡ some out)
                × IsFalling out
                × Perm (into_inner h') out)
          → (out : List T) × (after r (drain fuel) ≡ some out)
            × IsFalling out
            × Perm (into_inner h) out
      drained r (IsPopped.ended h' e) next =
          ([], refl, tt, subst (λ m. Perm m []) (sym e) (Perm.refl []))
      drained r (IsPopped.gave k h' v' g) next =
          let (out, e, f, p) = next h' v' (omega (arith, l, length_perm g.same)) in
          (
            k ∷ out,
            ap (Option.map (◌∷◌ k)) e,
            (sym (counted_perm (λ x. ltb (key k) (key x)) p) ∙ g.greatest, f),
            Perm.trans g.same (Perm.cons k p),
          )

  -- Where `select` moves the greatest items to the end as documented, popping a heap made from a vector
  -- ends, after one pop more than there are items, without a panic: the items of the vector come out in
  -- falling order.
  pub drain-from_vec :
      (select : ℕ → List T → List T)
      → Selects select
      → (vec : List T)
      → (out : List T) × (drain (suc (length vec)) (from_vec key select vec) ≡ some out)
        × IsFalling out
        × Perm vec out
  drain-from_vec select law vec =
      let (v, p) = from_vec-IsValid select law vec in
      let (out, e, f, q) = drain-IsFalling (suc (length vec)) _ v (omega (arith, length_perm p)) in
      (out, e, f, Perm.trans p q)

  shown_last :
      (t : ℕ) (r : Option (T × List T)) (o : Option T) (h : FastHeap T)
      → after_pop key t r ≡ some (o, h)
      → Option.map (λ x. x.0) r ≡ o
  shown_last t none o h e = absurd (ground arith)
  shown_last t (some (k, rest)) o h e = cc

  shown_greatest :
      (items : List T) (r : Option (T × List T)) (o : Option T) (h : FastHeap T)
      → Option.some (pop_binary key items r) ≡ some (o, h)
      → Option.map (λ x. x.0) r ≡ o
  shown_greatest items none o h e = cc
  shown_greatest items (some (k, rest)) o h e = cc

  -- `peek` shows the item that the next `pop` gives.
  pub peek-pop : (h h' : FastHeap T) (o : Option T) → pop key h ≡ some (o, h') → peek key h ≡ o
  unfolding pop peek
  peek-pop (FastHeap.sorted inner t) h' o e = shown_last t (pop_back inner) o h' e
  peek-pop (FastHeap.binary items) h' o e = shown_greatest items (take_greatest key items) o h' e
