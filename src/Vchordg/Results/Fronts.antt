-- ===== src/Vchordg/Results/Fronts.antt =====
-- Two lists of results of which the first is the better, and what leaves them.
use mathlib.Core.List.{Perm, perm_middle}
use mathlib.Core.List.Perm as Perm
use vector_chord.Base.{
  ℕ, zero, suc, ◌<◌, ◌≤◌, ◌≡◌, Option, some, List, [], ◌∷◌, ◌++◌, ltb, leb, ◌==◌, inl, inr, arith,
  refl, subst, ltb→lt, leb→le, Bool-cases,
}
use vector_chord.Base.Heaps.{
  counted, counted_perm, counted-append, above, below, upto, above_mono, below_mono, upto-below,
  IsLeast, IsGreatest,
}
use vector_chord.Vchordg.Results.{Item, distance}

none-some : (d : ℕ) → Option.none ≡ some d → ⊥
none-some d e = cc

module _ {T : Type 0} where
  -- No result of the second list is better than one of the first.
  abbrev pub Divides : List (Item T) → List (Item T) → Type 0
  Divides front back = (d : ℕ) → 0 < upto distance d back → above distance d front ≡ 0

  pub push_divides :
      (x last : Item T) (front front' back : List (Item T))
      → IsGreatest distance (x ∷ front) (last, front')
      → Divides front back
      → Divides front' (last ∷ back)
  push_divides x last front front' back g s d h = elim (Bool-cases (leb (distance last) d)) [
    | inl e ↦ omega (arith, g.greatest, above_mono distance (distance last) d front' (leb→le _ _ e))
    | inr e ↦
        let z : above distance d front ≡ 0 = s d (ground arith) in
        let n = counted_perm (λ (a : Item T). ltb d (distance a)) g.same in ground (arith, z, n)
  ]

  pub push_same :
      (x last : Item T) (front front' back : List (Item T))
      → Perm (x ∷ front) (last ∷ front')
      → Perm (front' ++ last ∷ back) (x ∷ (front ++ back))
  push_same x last front front' back p =
      Perm.trans (perm_middle front' back) (Perm.append_right back (Perm.symm p))

  pub has_one :
      (a : Item T) (rest l : List (Item T)) (d : ℕ)
      → distance a ≡ d
      → Perm l (a ∷ rest)
      → 0 < counted (λ (c : Item T). distance c == d) l
  has_one a rest l d e p = ground (arith, counted_perm (λ (c : Item T). distance c == d) p)

  pub none_above :
      (a : Item T) (rest : List (Item T)) (d : ℕ)
      → distance a ≡ d
      → above distance (distance a) rest ≡ 0
      → above distance d (a ∷ rest) ≡ 0
  none_above a rest d e g = subst (λ k. above distance k (a ∷ rest) ≡ 0) e (ground (arith, g))

  below-zero : (l : List (Item T)) → below distance 0 l ≡ 0
  below-zero [] = refl
  below-zero (a ∷ l) = ground (arith, below-zero l)

  below-suc : (d : ℕ) (l : List (Item T)) → below distance (suc d) l ≤ upto distance d l
  below-suc d [] = omega arith
  below-suc d (a ∷ l) = ground (arith, below-suc d l)

  equal-le-above :
      (d : ℕ) (l : List (Item T))
      → counted (λ (c : Item T). distance c == suc d) l ≤ above distance d l
  equal-le-above d [] = omega arith
  equal-le-above d (a ∷ l) = ground (arith, equal-le-above d l)

  pub none_below :
      (front back : List (Item T)) (d : ℕ)
      → Divides front back
      → 0 < counted (λ (c : Item T). distance c == d) front
      → below distance d back ≡ 0
  none_below front back zero s h = below-zero back
  none_below front back (suc d) s h = elim (Bool-cases (ltb 0 (upto distance d back))) [
    | inl e ↦ absurd (omega (arith, s d (ltb→lt _ _ e), equal-le-above d front))
    | inr e ↦ let z : upto distance d back ≡ 0 = ground arith in omega (arith, z, below-suc d back)
  ]

  module _ (a b : Item T) (front front' back back' : List (Item T))
      (f : IsLeast distance (b ∷ front) (a, front')) (g : IsLeast distance back (b, back')) where
    pub pop_divides : Divides front back → Divides front' back'
    pop_divides s d h = elim (Bool-cases (leb (distance b) d)) [
      | inl e ↦
          let q = counted_perm (λ (a : Item T). leb (distance a) d) g.same in
          let z : above distance d front ≡ 0 = s d (ground (arith, q)) in
          let n = counted_perm (λ (a : Item T). ltb d (distance a)) f.same in ground (arith, z, n)
      | inr e ↦
          let l : d < distance b = ground arith in
          absurd (omega (arith, upto-below distance d (distance b) back' l, g.least))
    ]

    pub pop_least : below distance (distance a) (front' ++ back') ≡ 0
    pop_least = elim (Bool-cases (ltb (distance b) (distance a))) [
      | inl e ↦
          let n = counted_perm (λ (c : Item T). leb (distance c) (distance b)) f.same in
          let u = upto-below distance (distance b) (distance a) front' (ltb→lt _ _ e) in
          absurd (ground (arith, n, u, f.least))
      | inr e ↦
          let l : distance a ≤ distance b = ground arith in
          omega (
            arith,
            counted-append (λ (c : Item T). ltb (distance c) (distance a)) front' back',
            f.least,
            below_mono distance (distance a) (distance b) back' l,
            g.least,
          )
    ]

    pub pop_same : Perm (front ++ back) (a ∷ (front' ++ back'))
    pop_same =
        Perm.trans (Perm.append_left front g.same)
          (Perm.trans (perm_middle front back') (Perm.append_right back' f.same))
