-- ===== src/Vchordg/Prune/Kept.antt =====
-- What is kept of the neighbours: every operation keeps a part of the items, and all of them while the
-- result is not full.
use mathlib.Core.List.{append-nil}
use vector_chord.Base.{
  ℕ, zero, suc, ◌+◌, ◌<◌, ◌≤◌, ◌≡◌, ◌≢◌, Bool, not, List, [], ◌∷◌, ◌++◌, map, length, take, ◌==◌,
  if◌then◌else◌, if_elim, length-append, arith, refl, sym, ap, ◌∙◌, subst, ℕ_discrete,
}
use vector_chord.Base.Float.{F32}
use vector_chord.Base.Heaps.{counted, counted_perm, counted-append}
use vector_chord.Base.Vecs.{sort_by_key, sort_by_key-lem}
use vector_chord.Base.Dedup.{
  dedup_by_key, retain, keyed, dedup_by_key-counted, dedup_by_key-keyed, retain-counted,
  retain-keyed_other, retain-keyed_self,
}
use vector_chord.Vchordg.Prune.{
  Item, rank, check, prune_loop, robust_prune, alpha_loop, fill_up, candidates, one, prune,
}

module _ {A : Type 0} where
  counted-take : (p : A → Bool) (n : ℕ) (xs : List A) → counted p (take n xs) ≤ counted p xs
  counted-take p zero xs = omega arith
  counted-take p (suc n) [] = omega arith
  counted-take p (suc n) (x ∷ xs) = ground (arith, counted-take p n xs)

  take-short : (n : ℕ) (xs : List A) → length (take n xs) < n → take n xs ≡ xs
  take-short zero xs h = absurd (omega arith)
  take-short (suc n) [] h = refl
  take-short (suc n) (x ∷ xs) h = ap (◌∷◌ x) (take-short n xs (omega arith))

  length-take_le : (n : ℕ) (xs : List A) → length (take n xs) ≤ n
  length-take_le zero xs = omega arith
  length-take_le (suc n) [] = omega arith
  length-take_le (suc n) (x ∷ xs) = omega (arith, length-take_le n xs)

  counted-map :
      {B : Type 0} (g : A → B) (p : B → Bool) (xs : List A)
      → counted p (map g xs) ≡ counted (λ a. p (g a)) xs
  counted-map g p [] = refl
  counted-map g p (x ∷ xs) = ap (◌+◌ (if p (g x) then 1 else 0)) (counted-map g p xs)

  length-map : {B : Type 0} (g : A → B) (xs : List A) → length (map g xs) ≡ length xs
  length-map g [] = refl
  length-map g (x ∷ xs) = ap suc (length-map g xs)

  -- Of the items `all`, the result and the rest hold a part, and all if the result is not full.
  pub record Keeps (m : ℕ) (all : List A) (s : List A × List A) : Type 0 where
    pub size : length (s.0) ≤ m
    pub part : (p : A → Bool) → counted p (s.0 ++ s.1) ≤ counted p all
    pub whole : length (s.0) < m → (p : A → Bool) → counted p (s.0 ++ s.1) ≡ counted p all

module _ (f : F32) {T V : Type 0} (d : V → V → ℕ) where
  pub prune_loop-Keeps :
      (all : List (Item T V)) (m alpha : ℕ) (trace result pruned : List (Item T V))
      → length result ≤ m
      → ((p : Item T V → Bool) → counted p (result ++ (pruned ++ trace)) ≡ counted p all)
      → Keeps m all (prune_loop f d m alpha trace result pruned)
  unfolding prune_loop
  prune_loop-Keeps all m alpha [] result pruned h e =
      let same : (p : Item T V → Bool) → counted p (result ++ pruned) ≡ counted p all =
        λ p. ap (λ l. counted p (result ++ l)) (sym (append-nil pruned)) ∙ e p in
      record { size = h; part = λ p. omega (arith, same p); whole = λ l p. same p }
  prune_loop-Keeps all m alpha (u ∷ trace) result pruned h e =
      if_elim (Keeps m all) (length result == m)
        (λ full. record {
          size = h;
          part = λ p. omega (
            arith,
            e p,
            counted-append p result (pruned ++ u ∷ trace),
            counted-append p pruned (u ∷ trace),
            counted-append p result pruned,
          );
          whole = λ l p. absurd (ground arith);
        })
        (λ space.
          if_elim
            (λ (s : List (Item T V) × List (Item T V)).
              Keeps m all (prune_loop f d m alpha trace (s.0) (s.1)))
            (check f d alpha u result)
            (λ c.
              prune_loop-Keeps all m alpha trace (result ++ u ∷ []) pruned
                (ground (arith, length-append result (u ∷ [])))
                (λ p. omega (
                  arith,
                  e p,
                  counted-append p result (pruned ++ u ∷ trace),
                  counted-append p pruned (u ∷ trace),
                  counted-append p (result ++ u ∷ []) (pruned ++ trace),
                  counted-append p result (u ∷ []),
                  counted-append p pruned trace,
                )))
            (λ c. prune_loop-Keeps all m alpha trace result (pruned ++ u ∷ []) h (λ p. omega (
              arith,
              e p,
              counted-append p result (pruned ++ u ∷ trace),
              counted-append p pruned (u ∷ trace),
              counted-append p result ((pruned ++ u ∷ []) ++ trace),
              counted-append p (pruned ++ u ∷ []) trace,
              counted-append p pruned (u ∷ []),
            ))))

  alpha_loop-Keeps :
      (all : List (Item T V)) (m : ℕ) (alphas : List ℕ) (result trace : List (Item T V))
      → Keeps m all (result, trace)
      → Keeps m all (alpha_loop f d m alphas result trace)
  unfolding alpha_loop robust_prune
  alpha_loop-Keeps all m [] result trace k = k
  alpha_loop-Keeps all m (alpha ∷ alphas) result trace k =
      if_elim (Keeps m all) (length result == m) (λ full. k)
        (λ space.
          alpha_loop-Keeps all m alphas _ _ (
            prune_loop-Keeps all m alpha trace result [] k.size (k.whole (ground (arith, k.size)))))

  fill_up-Keeps :
      (all : List (Item T V)) (m : ℕ) (s : List (Item T V) × List (Item T V))
      → Keeps m all s
      → Keeps m all (fill_up f d m s, [])
  fill_up-Keeps all m (result, trace) k =
      if_elim (λ l. Keeps m all (l, [])) (not (length result == m))
        (λ space. record {
          size = length-take_le m (result ++ trace);
          part = λ p.
              rw (append-nil (take m (result ++ trace)))
                (omega (arith, counted-take p m (result ++ trace), k.part p));
          whole = λ l p. rw (append-nil (take m (result ++ trace))) (
              ap (counted p) (take-short m (result ++ trace) l)
              ∙ k.whole (ground (arith, k.size)) p);
        })
        (λ full. record {
          size = k.size;
          part =
              λ p. rw (append-nil result) (omega (arith, k.part p, counted-append p result trace));
          whole = λ l p. absurd (ground arith);
        })

  candidates-counted :
      (key : T → ℕ) (u : T) (outs : List (Item T V)) (p : Item T V → Bool)
      → counted p (candidates f d key u outs) ≤ counted p outs
  unfolding candidates
  candidates-counted key u outs p =
      let by_vertex : Item T V → ℕ = λ a. key (a.0.1) in
      let sorted = sort_by_key by_vertex outs in
      let deduped = dedup_by_key by_vertex sorted in
      let others = retain (λ a. not (by_vertex a == key u)) deduped in
      omega (
        arith,
        counted_perm p (sort_by_key-lem by_vertex outs).1,
        dedup_by_key-counted by_vertex p sorted,
        retain-counted (λ a. not (by_vertex a == key u)) p deduped,
        counted_perm p (sort_by_key-lem rank others).1,
      )

  candidates-keyed_self :
      (key : T → ℕ) (u : T) (outs : List (Item T V))
      → keyed (λ a. key (a.0.1)) (key u) (candidates f d key u outs) ≡ 0
  unfolding candidates
  candidates-keyed_self key u outs =
      let by_vertex : Item T V → ℕ = λ a. key (a.0.1) in
      let deduped = dedup_by_key by_vertex (sort_by_key by_vertex outs) in
      sym (
        counted_perm (λ a. by_vertex a == key u)
          (sort_by_key-lem rank (retain (λ a. not (by_vertex a == key u)) deduped)).1)
      ∙ retain-keyed_self by_vertex (key u) deduped

  candidates-keyed :
      (key : T → ℕ) (u : T) (outs : List (Item T V)) (k : ℕ)
      → k ≢ key u
      → (keyed (λ a. key (a.0.1)) k (candidates f d key u outs) ≤ 1)
        × (0 < keyed (λ a. key (a.0.1)) k outs
            → keyed (λ a. key (a.0.1)) k (candidates f d key u outs) ≡ 1)
  unfolding candidates
  candidates-keyed key u outs k n =
      let by_vertex : Item T V → ℕ = λ a. key (a.0.1) in
      let sorted = sort_by_key by_vertex outs in
      let deduped = dedup_by_key by_vertex sorted in
      let others = retain (λ a. not (by_vertex a == key u)) deduped in
      let (is_sorted, same) = sort_by_key-lem by_vertex outs in
      let (most, one) = dedup_by_key-keyed by_vertex k sorted is_sorted in
      let left : keyed by_vertex k (sort_by_key rank others) ≡ keyed by_vertex k deduped =
        sym (counted_perm (λ a. by_vertex a == k) (sort_by_key-lem rank others).1)
        ∙ retain-keyed_other by_vertex (key u) k deduped n in
      (
        omega (arith, most, left),
        λ h. left ∙ one (omega (arith, counted_perm (λ a. by_vertex a == k) same)),
      )

  abbrev first : Item T V → ℕ × T
  first a = a.0

  -- What `fill_up` leaves, as a part of the candidates, the vectors left out.
  kept-Keeps :
      (cands : List (Item T V)) (m : ℕ) (alphas : List ℕ)
      → Keeps m (map first cands) (map first (fill_up f d m (alpha_loop f d m alphas [] cands)), [])
  kept-Keeps cands m alphas =
      let kept = fill_up f d m (alpha_loop f d m alphas [] cands) in
      let start : Keeps m cands ([], cands) = record {
        size = omega arith;
        part = λ p. omega arith;
        whole = λ l p. refl;
      } in
      let k = fill_up-Keeps cands m _ (alpha_loop-Keeps cands m alphas [] cands start) in
      record {
        size = rw (length-map first kept) k.size;
        part = λ p.
            rw (append-nil (map first kept), counted-map first p kept, counted-map first p cands)
              (subst (λ l. counted (λ a. p (first a)) l ≤ counted (λ a. p (first a)) cands)
                (append-nil kept) (k.part (λ a. p (first a))));
        whole = λ l p.
            rw (append-nil (map first kept), counted-map first p kept, counted-map first p cands)
              (ap (counted (λ a. p (first a))) (sym (append-nil kept))
                ∙ k.whole (omega (arith, l, length-map first kept)) (λ a. p (first a)));
      }

  -- With the vectors left out, at most `m` of the items given are kept, none of them more often than
  -- it was given. No vertex is kept twice, and never `u` itself. While there is room for more, every other vertex that was given
  -- is kept.
  pub prune_lem :
      (u : T) (outs : List (Item T V)) (m : ℕ) (alpha : List ℕ) (key : T → ℕ) (is_l2s : Bool)
      → (length (prune f d u outs m alpha key is_l2s) ≤ m)
        × ((p : ℕ × T → Bool)
            → counted p (prune f d u outs m alpha key is_l2s)
              ≤ counted p (map (λ (a : Item T V). a.0) outs))
        × ((k : ℕ) → keyed (λ (a : ℕ × T). key (a.1)) k (prune f d u outs m alpha key is_l2s) ≤ 1)
        × (keyed (λ (a : ℕ × T). key (a.1)) (key u) (prune f d u outs m alpha key is_l2s) ≡ 0)
        × (length (prune f d u outs m alpha key is_l2s) < m
            → (k : ℕ) → k ≢ key u
            → 0 < keyed (λ (a : ℕ × T). key (a.1)) k (map (λ (a : Item T V). a.0) outs)
            → keyed (λ (a : ℕ × T). key (a.1)) k (prune f d u outs m alpha key is_l2s) ≡ 1)
  unfolding prune
  prune_lem u outs m alpha key is_l2s =
      let cands = candidates f d key u outs in
      let kept = prune f d u outs m alpha key is_l2s in
      let k : Keeps m (map first cands) (kept, []) =
        kept-Keeps cands m (if is_l2s then alpha else one ∷ []) in
      let part : (p : ℕ × T → Bool) → counted p kept ≤ counted (λ a. p (first a)) cands = λ p.
        subst (λ l. counted p l ≤ counted (λ a. p (first a)) cands) (append-nil kept)
          (rw (sym (counted-map first p cands)) (k.part p)) in
      let by_key : ℕ → ℕ × T → Bool = λ i a. key (a.1) == i in
      (
        k.size,
        λ p. omega (
          arith,
          part p,
          candidates-counted key u outs (λ a. p (first a)),
          counted-map first p outs,
        ),
        λ i. elim (ℕ_discrete i (key u)) [
          | yes e ↦ omega (
            arith,
            part (by_key (key u)),
            candidates-keyed_self key u outs,
            ap (λ j. counted (by_key j) kept) e,
          )
          | no n ↦ omega (arith, part (by_key i), (candidates-keyed key u outs i n).0)
        ],
        omega (arith, part (by_key (key u)), candidates-keyed_self key u outs),
        λ l i n h.
            ap (counted (by_key i)) (sym (append-nil kept))
            ∙ k.whole l (by_key i)
            ∙ counted-map first (by_key i) cands
            ∙ (candidates-keyed key u outs i n).1
                (omega (arith, h, counted-map first (by_key i) outs)),
      )
