-- ===== src/Index/Prefetcher/Order.antt =====
-- The simple prefetcher gives the items in the order of its sequence, and has told the storage of the
-- pages of each.
use vector_chord.Base.{
  ℕ, zero, suc, ◌+◌, ◌≤◌, ◌<◌, ◌≡◌, ◌⊎◌, inl, inr, Bool, true, false, Option, none, some, List, [],
  ◌∷◌, ◌++◌, length, length-append, ltb, arith, refl, ap, sym, ◌∙◌, subst,
}
use mathlib.Core.List.{append_assoc, append-nil}
use vector_chord.Index.Prefetcher.{
  Sequence, window_size, SimplePrefetcher, simple_new, fill, look_at, pop_front, simple_next,
  pop_front_if, simple_next_if, deque_next, deque_peek, PlainPrefetcher, plain_next, with_pages,
}

-- A `VecDeque` is a sequence: it gives its items from the front.
unfoldable pub deque : {A : Type 0} → Sequence (List A) A
unfolding deque_next deque_peek
deque = record {
  next = deque_next;
  peek = deque_peek;
  order = λ s. s;
  next_none = λ s e. ap deque_next e;
  next_some = λ s x xs e. (xs, ap deque_next e, refl);
  peek_none = λ s e. ap deque_peek e;
  peek_some = λ s x xs e. ap deque_peek e;
}

module _ {S Item : Type 0} (seq : Sequence S Item) (fetch : Item → List ℕ) where
  -- The items that are still to come.
  abbrev pub pending : SimplePrefetcher seq fetch → List Item
  pending p = p.window ++ seq.order p.sequence

  -- The pages of some items, in their order.
  abbrev pub pages : List Item → List ℕ
  pages [] = []
  pages (x ∷ xs) = fetch x ++ pages xs

  pages-append : (xs ys : List Item) → pages (xs ++ ys) ≡ pages xs ++ pages ys
  pages-append [] ys = refl
  pages-append (x ∷ xs) ys =
      ap (λ l. fetch x ++ l) (pages-append xs ys)
      ∙ sym (append_assoc (fetch x) (pages xs) (pages ys))

  -- Once `served` has been given, the storage has been told of exactly the pages of these items and of
  -- those in the window, in their order.
  pub record IsAhead (served : List Item) (p : SimplePrefetcher seq fetch) : Type 0 where
    pub told : p.prefetched ≡ pages (served ++ p.window)
    pub bounded : length p.window ≤ window_size

  -- What the loop has done.
  record Filled (served : List Item) (p q : SimplePrefetcher seq fetch) : Type 0 where
    pub same : pending q ≡ pending p
    pub ahead : IsAhead served q
    pub full : (length q.window ≡ window_size) ⊎ (seq.order q.sequence ≡ [])

  fill-Filled :
      (fuel : ℕ) (served : List Item) (p : SimplePrefetcher seq fetch)
      → IsAhead served p
      → window_size ≤ fuel + length p.window
      → Filled served p (fill seq fetch fuel p)
  unfolding fill
  fill-Filled zero served p a h = record {
    same = refl;
    ahead = a;
    full = inl (omega (arith, a.bounded));
  }
  fill-Filled (suc fuel) served p a h =
      go (λ q b l. fill-Filled fuel served q b l) (ltb (length p.window) window_size) refl
        (seq.order p.sequence) refl
    where
      next : Item → S → SimplePrefetcher seq fetch
      next e s = record {
        prefetched = p.prefetched ++ fetch e;
        window = p.window ++ (e ∷ []);
        sequence = s;
      }

      next-IsAhead : (e : Item) (s : S) → length p.window < window_size → IsAhead served (next e s)
      next-IsAhead e s l = record {
        told =
            ap (λ l. l ++ fetch e) a.told
            ∙ ap (λ l. pages (served ++ p.window) ++ l) (sym (append-nil (fetch e)))
            ∙ sym (pages-append (served ++ p.window) (e ∷ []))
            ∙ ap pages (append_assoc served p.window (e ∷ []));
        bounded = omega (arith, length-append p.window (e ∷ []), l);
      }

      go :
          ((q : SimplePrefetcher seq fetch)
            → IsAhead served q
            → window_size ≤ fuel + length q.window
            → Filled served q (fill seq fetch fuel q))
          → (b : Bool) → ltb (length p.window) window_size ≡ b
          → (l : List Item) → seq.order p.sequence ≡ l
          → Filled served p (elim b [
            | false ↦ p
            | true ↦ elim (look_at seq fetch (seq.next p.sequence) p) [
              | none ↦ p
              | some q ↦ fill seq fetch fuel q
            ]
          ])
      go rest false e l r = record {
        same = refl;
        ahead = a;
        full = inl (ground (arith, a.bounded));
      }
      go rest true e [] r =
          let end = seq.next_none p.sequence r in
          rw end (record { same = refl; ahead = a; full = inr r })
      go rest true e (x ∷ xs) r =
          let (t, n, o) = seq.next_some p.sequence x xs r in
          let f =
            rest (next x t) (next-IsAhead x t (ground arith))
              (omega (arith, length-append p.window (x ∷ []), h)) in
          rw n (record {
            same =
                f.same
                ∙ ap (λ l. (p.window ++ (x ∷ [])) ++ l) o
                ∙ append_assoc p.window (x ∷ []) xs
                ∙ ap (λ l. p.window ++ l) (sym r);
            ahead = f.ahead;
            full = f.full;
          })

  -- A step of the simple prefetcher, of either kind: what it answers, for the items that are to come.
  pub record Stepped (served : List Item) (p : SimplePrefetcher seq fetch)
      (r : Option (Item × List ℕ) × SimplePrefetcher seq fetch) (x : Item) (xs : List Item)
      : Type 0 where
    pub answer : r.0 ≡ some (x, fetch x)
    pub rest : pending r.1 ≡ xs
    pub ahead : IsAhead (served ++ (x ∷ [])) r.1

  front :
      (served : List Item) (p q : SimplePrefetcher seq fetch) (x : Item) (xs w : List Item)
      → Filled served p q
      → pending p ≡ x ∷ xs
      → q.window ≡ w
      → (v : List Item) × (w ≡ x ∷ v) × (v ++ seq.order q.sequence ≡ xs)
  front served p q x xs [] f e h =
      let c : seq.order q.sequence ≡ x ∷ xs =
        ap (λ l. l ++ seq.order q.sequence) (sym h) ∙ f.same ∙ e in
      absurd (ground (arith, f.full, ap (λ (l : List Item). length l) h))
  front served p q x xs (y ∷ v) f e h =
      let c : y ∷ (v ++ seq.order q.sequence) ≡ x ∷ xs =
        ap (λ l. l ++ seq.order q.sequence) (sym h) ∙ f.same ∙ e in
      let same : y ≡ x = ground arith in (v, ap (λ z. z ∷ v) same, ground arith)

  popped-IsAhead :
      (served : List Item) (q : SimplePrefetcher seq fetch) (x : Item) (v : List Item)
      → IsAhead served q
      → q.window ≡ x ∷ v
      → IsAhead (served ++ (x ∷ [])) (record q { window = v })
  popped-IsAhead served q x v a h = record {
    told =
        a.told ∙ ap (λ l. pages (served ++ l)) h ∙ sym (ap pages (append_assoc served (x ∷ []) v));
    bounded = omega (arith, a.bounded, ap (λ (l : List Item). length l) h);
  }

  -- `next` gives the first of the items that are to come, and the others are then to come. The storage
  -- has been told of exactly the pages of the items given so far and of the window, at most 32 items,
  -- in their order: of the pages that the guards now read in particular.
  pub simple_next-order :
      (served : List Item) (p : SimplePrefetcher seq fetch) (x : Item) (xs : List Item)
      → IsAhead served p
      → pending p ≡ x ∷ xs
      → Stepped served p (simple_next seq fetch p) x xs
  unfolding simple_next pop_front
  simple_next-order served p x xs a e =
      let q = fill seq fetch window_size p in
      let f = fill-Filled window_size served p a (omega arith) in
      let (v, h, r) = front served p q x xs q.window f e refl in
      subst (λ o. Stepped served p o x xs) (sym (ap (λ w. pop_front seq fetch w q) h))
        (record { answer = refl; rest = r; ahead = popped-IsAhead served q x v f.ahead h })

  -- `next_if` gives the first of the items that are to come if the predicate holds of it, as `next`
  -- does; otherwise it gives nothing, and no item is lost.
  pub simple_next_if-order :
      (predicate : Item → Bool) (served : List Item) (p : SimplePrefetcher seq fetch) (x : Item)
      (xs : List Item)
      → IsAhead served p
      → pending p ≡ x ∷ xs
      → (predicate x ≡ true → Stepped served p (simple_next_if seq fetch predicate p) x xs)
        × (predicate x ≡ false
            → ((simple_next_if seq fetch predicate p).0 ≡ none)
              × (pending (simple_next_if seq fetch predicate p).1 ≡ x ∷ xs)
              × IsAhead served (simple_next_if seq fetch predicate p).1)
  unfolding simple_next_if pop_front_if
  simple_next_if-order predicate served p x xs a e =
      let q = fill seq fetch window_size p in
      let f = fill-Filled window_size served p a (omega arith) in
      let (v, h, r) = front served p q x xs q.window f e refl in
      let step = ap (λ w. pop_front_if seq fetch predicate w q) h in
      (
        λ yes_x.
            subst (λ o. Stepped served p o x xs) (sym (step ∙ accepted q x v yes_x))
              (record { answer = refl; rest = r; ahead = popped-IsAhead served q x v f.ahead h }),
        λ no_x.
            subst
              (λ (o : Option (Item × List ℕ) × SimplePrefetcher seq fetch).
                (o.0 ≡ none) × (pending o.1 ≡ x ∷ xs) × IsAhead served o.1)
              (sym (step ∙ declined q x v no_x)) (refl, f.same ∙ e, f.ahead),
      )
    where
      accepted :
          (q : SimplePrefetcher seq fetch) (x : Item) (v : List Item)
          → predicate x ≡ true
          → pop_front_if seq fetch predicate (x ∷ v) q
            ≡ (some (x, fetch x), record q { window = v })
      accepted q x v h = ground arith

      declined :
          (q : SimplePrefetcher seq fetch) (x : Item) (v : List Item)
          → predicate x ≡ false
          → pop_front_if seq fetch predicate (x ∷ v) q ≡ (none, q)
      declined q x v h = ground arith

  pub simple_new-IsAhead :
      (s : S)
      → IsAhead [] (simple_new seq fetch s) × (pending (simple_new seq fetch s) ≡ seq.order s)
  unfolding simple_new
  simple_new-IsAhead s = (record { told = refl; bounded = omega arith }, refl)

  nothing :
      (served : List Item) (p q : SimplePrefetcher seq fetch) (w : List Item)
      → Filled served p q
      → pending p ≡ []
      → q.window ≡ w
      → w ≡ []
  nothing served p q [] f e h = refl
  nothing served p q (y ∷ v) f e h =
      let c : y ∷ (v ++ seq.order q.sequence) ≡ [] =
        ap (λ l. l ++ seq.order q.sequence) (sym h) ∙ f.same ∙ e in
      absurd (ground arith)

  simple_next-end :
      (served : List Item) (p : SimplePrefetcher seq fetch)
      → IsAhead served p
      → pending p ≡ []
      → (simple_next seq fetch p).0 ≡ none
  unfolding simple_next pop_front
  simple_next-end served p a e =
      let q = fill seq fetch window_size p in
      let f = fill-Filled window_size served p a (omega arith) in
      ap (λ w. (pop_front seq fetch w q).0) (nothing served p q q.window f e refl)

  -- The simple prefetcher answers what the plain one does: over the same items to come, the same item
  -- with the same pages, or nothing.
  pub simple_next-plain_next :
      (served : List Item) (p : SimplePrefetcher seq fetch) (r : PlainPrefetcher seq fetch)
      → IsAhead served p
      → pending p ≡ seq.order r.sequence
      → (simple_next seq fetch p).0 ≡ (plain_next seq fetch r).0
  unfolding plain_next with_pages
  simple_next-plain_next served p r a e = go (seq.order r.sequence) refl
    where
      go :
          (l : List Item)
          → seq.order r.sequence ≡ l
          → (simple_next seq fetch p).0 ≡ (plain_next seq fetch r).0
      go [] h =
          simple_next-end served p a (e ∙ h)
          ∙ sym (ap (λ o. (with_pages seq fetch o r).0) (seq.next_none r.sequence h))
      go (x ∷ xs) h =
          let (t, n, o) = seq.next_some r.sequence x xs h in
          (simple_next-order served p x xs a (e ∙ h)).answer
          ∙ sym (ap (λ o. (with_pages seq fetch o r).0) n)
