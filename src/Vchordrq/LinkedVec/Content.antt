-- ===== src/Vchordrq/LinkedVec/Content.antt =====
-- What a linked vector holds: what was pushed, each element once.
use vector_chord.Base.{
  Bool, true, false, ℕ, ◌*◌, ◌≤◌, ◌<◌, ◌≡◌, List, [], ◌∷◌, ◌++◌, length, length-append, ◌==◌,
  if◌then◌else◌, arith, refl, sym, subst, ap, ◌∙◌,
}
use mathlib.Core.List.Perm as Perm
use mathlib.Core.List.{Perm, perm_middle, append-nil, append_assoc, perm_append_comm}
use vector_chord.Vchordrq.LinkedVec.{
  LinkedVec, Pushed, pushed, concat, reserve, push, push_within, into_vec,
}

module _ {T : Type 0} (granted : ℕ → ℕ) (enough : (n : ℕ) → n ≤ granted n) where
  -- There is a capacity, and it is not exceeded.
  pub record IsValid (v : LinkedVec T) : Type 0 where
    pub some_capacity : 0 < v.capacity
    pub within : length v.last ≤ v.capacity

  flat : List (List T) → List T
  flat [] = []
  flat (x ∷ xs) = x ++ flat xs

  concat-flat : (last : List T) (xs : List (List T)) → concat last xs ≡ last ++ flat xs
  unfolding concat flat
  concat-flat last [] = sym (append-nil last)
  concat-flat last (x ∷ xs) = concat-flat (last ++ x) xs ∙ append_assoc last x (flat xs)

  flat-append : (xs ys : List (List T)) → flat (xs ++ ys) ≡ flat xs ++ flat ys
  unfolding flat
  flat-append [] ys = refl
  flat-append (x ∷ xs) ys =
      ap (λ l. x ++ l) (flat-append xs ys) ∙ sym (append_assoc x (flat xs) (flat ys))

  -- A step of `push` once there is room.
  Grown : T → List T → Pushed T → Type 0
  Grown value old r =
      (w : LinkedVec T) × (r ≡ pushed w) × IsValid w × Perm (into_vec granted w) (value ∷ old)

  push_within-Grown :
      (value : T) (v : LinkedVec T) (old : List T)
      → 0 < v.capacity
      → length v.last < v.capacity
      → Perm (v.last ++ flat v.inner) old
      → Grown value old (push_within granted value v)
  unfolding push_within into_vec Grown
  push_within-Grown value v old h k p =
      let w : LinkedVec T = record v { last = v.last ++ (value ∷ []) } in
      (
        w,
        ground arith,
        record { some_capacity = h; within = omega (arith, length-append v.last (value ∷ []), k) },
        subst (λ l. Perm l (value ∷ old))
            (sym (
              concat-flat (v.last ++ (value ∷ [])) v.inner
              ∙ append_assoc v.last (value ∷ []) (flat v.inner)))
            (Perm.trans (perm_middle v.last (flat v.inner)) (Perm.cons value p)),
      )

  reserved : (v : LinkedVec T) → Perm (flat (v.inner ++ (v.last ∷ []))) (into_vec granted v)
  unfolding into_vec flat
  reserved v =
      subst (λ l. Perm l (concat v.last v.inner))
        (sym (flat-append v.inner (v.last ∷ []) ∙ ap (λ l. flat v.inner ++ l) (append-nil v.last)))
        (subst (Perm (flat v.inner ++ v.last)) (sym (concat-flat v.last v.inner))
          (perm_append_comm (flat v.inner) v.last))

  unpacked : (v : LinkedVec T) → into_vec granted v ≡ concat v.last v.inner
  unfolding into_vec
  unpacked v = refl

  -- `push` never reaches its `assert_unchecked` with a full block, and `into_vec` then has the new
  -- element besides those it had before, each as often.
  pub push-into_vec :
      (value : T) (v : LinkedVec T)
      → IsValid v
      → (w : LinkedVec T) × (push granted value v ≡ pushed w)
        × IsValid w
        × Perm (into_vec granted w) (value ∷ into_vec granted v)
  unfolding push reserve Grown
  push-into_vec value v i = go (length v.last == v.capacity) refl
    where
      go :
          (b : Bool)
          → (length v.last == v.capacity) ≡ b
          → Grown value
              (into_vec granted v)
              (push_within granted value (if b then reserve granted v else v))
      go true e =
          let room = enough (v.capacity * 4) in
          push_within-Grown value (reserve granted v) (into_vec granted v)
            (omega (arith, room, i.some_capacity)) (omega (arith, room, i.some_capacity))
            (reserved v)
      go false e =
          push_within-Grown value v (into_vec granted v) (i.some_capacity)
            (ground (arith, i.within))
            (subst (Perm (v.last ++ flat v.inner))
              (sym (concat-flat v.last v.inner) ∙ sym (unpacked v))
              (Perm.refl (v.last ++ flat v.inner)))
