-- ===== src/Vchordg/Prune/Diverse.antt =====
-- How far apart the kept neighbours are, and why the others were set aside.
use mathlib.Core.List.{append_assoc}
use vector_chord.Base.{
  ◌<◌, ◌≤◌, ℕ, Bool-cases, inl, inr, ap, ◌∙◌, ◌≡◌, Bool, true, false, ◌&&◌, List, [], ◌∷◌, ◌++◌,
  All, length, ◌==◌, if_elim, arith, refl,
}
use vector_chord.Base.Float.{F32}
use vector_chord.Distance.{to_f32}
use vector_chord.Base.Heaps.{counted}
use vector_chord.Vchordg.Prune.Kept.{prune_loop-Keeps}
use vector_chord.Vchordg.Prune.{Item, distance, check, prune_loop, robust_prune}

both : (a b : Bool) → a && b ≡ true → (a ≡ true) × (b ≡ true)
both a b e = (ground arith, ground arith)

module _ (f : F32) {T V : Type 0} (d : V → V → ℕ) where
  -- Whether the first is closer to the vertex than `alpha` times to the second.
  abbrev pub closer : ℕ → Item T V → Item T V → Bool
  closer alpha u v = f.lt (to_f32 (distance u)) (f.mul alpha (to_f32 (d (u.1) (v.1))))

  -- Each item is closer to the vertex than `alpha` times to any of those before it.
  pub data IsDiverse (alpha : ℕ) : List (Item T V) → Type 0 where
    alone : IsDiverse alpha []
    further :
        {result : List (Item T V)} (u : Item T V)
        → IsDiverse alpha result
        → All (λ v. closer alpha u v ≡ true) result
        → IsDiverse alpha (result ++ u ∷ [])

  -- Some item of the result is too close.
  abbrev pub IsDominated : ℕ → List (Item T V) → Item T V → Type 0
  IsDominated alpha result u =
      (before : List (Item T V)) × (v : Item T V) × (after : List (Item T V)) × (result
        ≡ before ++ v ∷ after)
      × (closer alpha u v ≡ false)

  check-true :
      (alpha : ℕ) (u : Item T V) (result : List (Item T V))
      → check f d alpha u result ≡ true
      → All (λ v. closer alpha u v ≡ true) result
  unfolding check
  check-true alpha u [] e = tt
  check-true alpha u (v ∷ result) e =
      let (a, b) = both (closer alpha u v) (check f d alpha u result) e in
      (a, check-true alpha u result b)

  check-IsDominated :
      (alpha : ℕ) (u : Item T V) (result : List (Item T V))
      → check f d alpha u result ≡ false
      → IsDominated alpha result u
  unfolding check
  check-IsDominated alpha u [] e = absurd (ground arith)
  check-IsDominated alpha u (v ∷ result) e = elim (Bool-cases (closer alpha u v)) [
    | inl y ↦
        let (before, w, after, q, far) = check-IsDominated alpha u result (still_false _ _ y e) in
        (v ∷ before, w, after, ap (◌∷◌ v) q, far)
    | inr n ↦ ([], v, result, refl, n)
  ]
    where
      still_false : (a b : Bool) → a ≡ true → a && b ≡ false → b ≡ false
      still_false a b p q = ground arith

  IsDominated-append :
      (alpha : ℕ) (v : Item T V) (result pruned : List (Item T V))
      → All (IsDominated alpha result) pruned
      → All (IsDominated alpha (result ++ v ∷ [])) pruned
  IsDominated-append alpha v result [] a = tt
  IsDominated-append alpha v result (u ∷ pruned) ((before, w, after, q, far), a) = (
    (
      before,
      w,
      after ++ v ∷ [],
      ap (λ l. l ++ v ∷ []) q ∙ append_assoc before (w ∷ after) (v ∷ []),
      far,
    ),
    IsDominated-append alpha v result pruned a,
  )

  All-append :
      (P : Item T V → Type 0) (xs : List (Item T V)) (u : Item T V)
      → All P xs
      → P u
      → All P (xs ++ u ∷ [])
  All-append P [] u a p = (p, tt)
  All-append P (x ∷ xs) u (q, a) p = (q, All-append P xs u a p)

  prune_loop-IsDiverse :
      (m alpha : ℕ) (trace result pruned : List (Item T V))
      → IsDiverse alpha result
      → All (IsDominated alpha result) pruned
      → IsDiverse alpha (prune_loop f d m alpha trace result pruned).0
        × All
            (IsDominated alpha (prune_loop f d m alpha trace result pruned).0)
            (prune_loop f d m alpha trace result pruned).1
  unfolding prune_loop
  prune_loop-IsDiverse m alpha [] result pruned s a = (s, a)
  prune_loop-IsDiverse m alpha (u ∷ trace) result pruned s a =
      if_elim
        (λ (r : List (Item T V) × List (Item T V)).
          IsDiverse alpha r.0 × All (IsDominated alpha r.0) r.1)
        (length result == m) (λ full. (s, a))
        (λ space.
          if_elim
            (λ (r : List (Item T V) × List (Item T V)).
              IsDiverse alpha (prune_loop f d m alpha trace r.0 r.1).0
              × All (IsDominated alpha (prune_loop f d m alpha trace r.0 r.1).0)
                  (prune_loop f d m alpha trace r.0 r.1).1)
            (check f d alpha u result)
            (λ c.
              prune_loop-IsDiverse m alpha trace (result ++ u ∷ []) pruned
                (further u s (check-true alpha u result c))
                (IsDominated-append alpha u result pruned a))
            (λ c.
              prune_loop-IsDiverse m alpha trace result (pruned ++ u ∷ []) s
                (All-append _ pruned u a (check-IsDominated alpha u result c))))

  -- From an empty result, each item that `robust_prune` keeps is closer to the vertex than `alpha`
  -- times to any item kept before it, and each item that it returns is not so for some kept item. At most
  -- `m` are kept, and while there are fewer, every item is either kept or returned.
  pub robust_prune_lem :
      (m alpha : ℕ) (trace : List (Item T V))
      → IsDiverse alpha (robust_prune f d m alpha [] trace).0
        × All
            (IsDominated alpha (robust_prune f d m alpha [] trace).0)
            (robust_prune f d m alpha [] trace).1
        × (length (robust_prune f d m alpha [] trace).0 ≤ m)
        × (length (robust_prune f d m alpha [] trace).0 < m
            → (p : Item T V → Bool)
            → counted p
                ((robust_prune f d m alpha [] trace).0 ++ (robust_prune f d m alpha [] trace).1)
              ≡ counted p trace)
  unfolding robust_prune
  robust_prune_lem m alpha trace =
      let (diverse, dominated) = prune_loop-IsDiverse m alpha trace [] [] alone tt in
      let kept = prune_loop-Keeps f d trace m alpha trace [] [] (omega arith) (λ p. refl) in
      (diverse, dominated, kept.size, kept.whole)
