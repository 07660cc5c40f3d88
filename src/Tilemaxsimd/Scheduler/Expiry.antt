-- ===== src/Tilemaxsimd/Scheduler/Expiry.antt =====
-- `drain_expired`: its loop ends, and it splits the queue by the deadlines.
use vector_chord.Base.{
  ℕ, zero, suc, ◌+◌, ◌≤◌, ◌<◌, ◌≡◌, true, false, none, some, List, [], ◌∷◌, ◌++◌, length, get_elem?,
  take, All, leb, arith, refl, inl, inr, sym, subst, Option-cases, Bool-cases,
}
use mathlib.Core.List.Perm as Perm
use mathlib.Core.List.{Perm, append_assoc}
use vector_chord.Base.Vecs.{
  swap_remove, swap_remove-some, sort_by_key-lem, sort_by_key-All, IsSortedBy,
}
use vector_chord.Base.Float.{F64}
use vector_chord.Tilemaxsimd.Scheduler.{Queue, Item, drain, drain_expired}

module _ (F : F64) (T : Type 0) where
  abbrev pub IsExpired : ℕ → Item F T → Type 0
  IsExpired now x = x.deadline ≤ now

  abbrev pub IsAlive : ℕ → Item F T → Type 0
  IsAlive now x = now < x.deadline

  All-append_one :
      (P : Item F T → Type 0) (xs : List (Item F T)) (x : Item F T)
      → All P xs
      → P x
      → All P (xs ++ (x ∷ []))
  All-append_one P [] x a p = (p, tt)
  All-append_one P (y ∷ ys) x (q, a) p = (q, All-append_one P ys x a p)

  All-take_suc :
      (P : Item F T → Type 0) (i : ℕ) (xs : List (Item F T)) (x : Item F T)
      → get_elem? xs i ≡ some x
      → All P (take i xs)
      → P x
      → All P (take (suc i) xs)
  All-take_suc P i [] x e a p = absurd (ground arith)
  All-take_suc P zero (y ∷ ys) x e a p = (subst P (ground arith) p, tt)
  All-take_suc P (suc i) (y ∷ ys) x e (q, a) p = (q, All-take_suc P i ys x e a p)

  All-take_all :
      (P : Item F T → Type 0) (i : ℕ) (xs : List (Item F T))
      → get_elem? xs i ≡ none
      → All P (take i xs)
      → All P xs
  All-take_all P i [] e a = tt
  All-take_all P zero (y ∷ ys) e a = absurd (ground arith)
  All-take_all P (suc i) (y ∷ ys) e (q, a) = (q, All-take_all P i ys e a)

  get_elem?-lt :
      (xs : List (Item F T)) (i : ℕ) (x : Item F T) → get_elem? xs i ≡ some x → i < length xs
  get_elem?-lt [] i x e = absurd (ground arith)
  get_elem?-lt (y ∷ ys) zero x e = omega arith
  get_elem?-lt (y ∷ ys) (suc i) x e = omega (arith, get_elem?-lt ys i x e)

  get_elem?-ge : (xs : List (Item F T)) (i : ℕ) → length xs ≤ i → get_elem? xs i ≡ none
  get_elem?-ge [] i h = refl
  get_elem?-ge (y ∷ ys) zero h = absurd (omega arith)
  get_elem?-ge (y ∷ ys) (suc i) h = get_elem?-ge ys i (omega arith)

  -- What the loop makes of its state.
  record Drained (now : ℕ) (expired pending : List (Item F T))
      (r : List (Item F T) × List (Item F T)) : Type 0 where
    pub same : Perm (expired ++ pending) (r.0 ++ r.1)
    pub over : All (IsExpired now) (r.0)
    pub alive : All (IsAlive now) (r.1)

  drain-end :
      (fuel now index : ℕ) (expired pending : List (Item F T))
      → get_elem? pending index ≡ none
      → drain F T (suc fuel) now index expired pending ≡ (expired, pending)
  unfolding drain
  drain-end fuel now index expired pending e = ground arith

  drain-late :
      (fuel now index : ℕ) (expired pending rest : List (Item F T)) (x : Item F T)
      → get_elem? pending index ≡ some x
      → leb x.deadline now ≡ true
      → swap_remove index pending ≡ some (x, rest)
      → drain F T (suc fuel) now index expired pending
        ≡ drain F T fuel now index (expired ++ (x ∷ [])) rest
  unfolding drain
  drain-late fuel now index expired pending rest x e l r = ground arith

  drain-early :
      (fuel now index : ℕ) (expired pending : List (Item F T)) (x : Item F T)
      → get_elem? pending index ≡ some x
      → leb x.deadline now ≡ false
      → drain F T (suc fuel) now index expired pending
        ≡ drain F T fuel now (suc index) expired pending
  unfolding drain
  drain-early fuel now index expired pending x e l = ground arith

  drain-Drained :
      (fuel now index : ℕ) (expired pending : List (Item F T))
      → length pending ≤ fuel + index
      → All (IsExpired now) expired
      → All (IsAlive now) (take index pending)
      → Drained now expired pending (drain F T fuel now index expired pending)
  unfolding drain
  drain-Drained zero now index expired pending h over alive = record {
    same = Perm.refl (expired ++ pending);
    over = over;
    alive =
        All-take_all (IsAlive now) index pending (get_elem?-ge pending index (omega arith)) alive;
  }
  drain-Drained (suc fuel) now index expired pending h over alive =
      elim (Option-cases (get_elem? pending index)) [
        | inl e ↦
            subst (Drained now expired pending) (sym (drain-end fuel now index expired pending e))
              (record {
                same = Perm.refl (expired ++ pending);
                over = over;
                alive = All-take_all (IsAlive now) index pending e alive;
              })
        | inr (x, e) ↦ elim (Bool-cases (leb x.deadline now)) [
          | inl late ↦
              let (rest, r, p, same_front, shorter) = swap_remove-some index pending x e in
              subst (Drained now expired pending)
                (sym (drain-late fuel now index expired pending rest x e late r))
                (later x rest p (
                  drain-Drained fuel now index (expired ++ (x ∷ [])) rest (omega (arith, shorter))
                    (All-append_one (IsExpired now) expired x over (ground arith))
                    (rw same_front alive)))
          | inr early ↦
              subst (Drained now expired pending)
                (sym (drain-early fuel now index expired pending x e early))
                (drain-Drained fuel now (suc index) expired pending (omega arith) over
                  (All-take_suc (IsAlive now) index pending x e alive (ground arith)))
        ]
      ]
    where
      later :
          (x : Item F T) (rest : List (Item F T))
          → Perm pending (x ∷ rest)
          → Drained now
              (expired ++ (x ∷ []))
              rest
              (drain F T fuel now index (expired ++ (x ∷ [])) rest)
          → Drained now expired pending (drain F T fuel now index (expired ++ (x ∷ [])) rest)
      later x rest p d = record {
        same = Perm.trans (Perm.append_left expired p) (
            subst
              (λ l.
                let r = drain F T fuel now index (expired ++ (x ∷ [])) rest in Perm l (r.0 ++ r.1))
              (append_assoc expired (x ∷ []) rest) d.same);
        over = d.over;
        alive = d.alive;
      }

  -- `drain_expired` takes exactly the items whose deadline has come, in the order of their sequence
  -- numbers, and leaves exactly the others: no item is lost or served twice.
  pub drain_expired_lem :
      (now : ℕ) (q : Queue F T)
      → All (IsExpired now) (drain_expired F T now q).0
        × All (IsAlive now) (drain_expired F T now q).1.pending
        × Perm q.pending ((drain_expired F T now q).0 ++ (drain_expired F T now q).1.pending)
        × IsSortedBy (λ (x : Item F T). x.sequence) (drain_expired F T now q).0
  unfolding drain_expired
  drain_expired_lem now q =
      let d = drain-Drained (length q.pending) now 0 [] q.pending (omega arith) tt tt in
      let sorted =
        sort_by_key-lem (λ (x : Item F T). x.sequence)
          (drain F T (length q.pending) now 0 [] q.pending).0 in
      (
        sort_by_key-All (IsExpired now) (λ (x : Item F T). x.sequence) _ d.over,
        d.alive,
        Perm.trans d.same (Perm.append_right _ (sorted.1)),
        sorted.0,
      )
