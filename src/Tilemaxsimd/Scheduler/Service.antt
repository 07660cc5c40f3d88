-- ===== src/Tilemaxsimd/Scheduler/Service.antt =====
-- Which item `pop` serves under each policy.
use Prim.Native.String.{String}
use vector_chord.Base.{
  ℕ, Option, ◌+◌, ◌-◌, ◌≤◌, ◌<◌, ◌≡◌, ◌≢◌, ◌⊎◌, true, false, none, some, List, [], ◌∷◌, dec_le, All,
  arith, refl, ap, sym, subst,
}
use mathlib.Core.List.{Perm}
use vector_chord.Base.Text.{string_discrete}
use vector_chord.Base.HashMap
use vector_chord.Base.Vecs.{All-map}
use vector_chord.Base.Float.{F64}
use vector_chord.Tilemaxsimd.Scheduler.{
  Queue, Item, or_else, fair, priority_first, fair_priority, i32, runtime, effective_priority,
  highest, fair_cmp, fair_priority_better, better, charge, pop, pop_from,
}
use vector_chord.Tilemaxsimd.Scheduler.Selection.{IsGuide, pop-guided}

-- What the comparison of floats that are no NaN satisfies.
pub record IsOrder (F : F64) : Type 0 where
  pub asymmetric : (a b : F.Carrier) → F.lt a b ≡ true → F.lt b a ≡ false
  pub negative : (a b c : F.Carrier) → F.lt a b ≡ false → F.lt b c ≡ false → F.lt a c ≡ false
  pub equal : (a b : F.Carrier) → F.eq a b ≡ true → F.lt b a ≡ false

module _ (F : F64) (T : Type 0) where
  -- The service that the tenant of an item is charged with, in the tenant's weight.
  abbrev pub charged : Queue F T → Item F T → F.Carrier
  charged q item = F.add (runtime F q.virtual_runtime item.tenant) (
      F.div (F.of_ℕ item.cost)
        (or_else (HashMap.get string_discrete item.tenant q.weights) (F.of_ℕ 1)))

  -- What a service of the item leaves of a queue: the others wait, the tenant of the item is charged
  -- with its cost over the tenant's weight, no other tenant is, and nothing else changes.
  pub record IsServed (q : Queue F T) (item : Item F T) (after : Queue F T) : Type 0 where
    pub others : Perm q.pending (item ∷ after.pending)
    pub pays : runtime F after.virtual_runtime item.tenant ≡ charged q item
    pub free :
        (tenant : String)
        → item.tenant ≢ tenant
        → runtime F after.virtual_runtime tenant ≡ runtime F q.virtual_runtime tenant
    pub kept : after ≡ record q { pending = after.pending; virtual_runtime = after.virtual_runtime }

  charge-IsServed :
      (q : Queue F T) (item : Item F T) (rest : List (Item F T))
      → Perm q.pending (item ∷ rest)
      → IsServed q item (charge F T item (record q { pending = rest }))
  unfolding charge
  charge-IsServed q item rest p = record {
    others = p;
    pays = ground (
      arith,
      HashMap.get-insert string_discrete item.tenant item.tenant (charged q item) q.virtual_runtime,
    );
    free = λ tenant n. ground (
      arith,
      n,
      HashMap.get-insert string_discrete tenant item.tenant (charged q item) q.virtual_runtime,
    );
    kept = refl;
  }

  -- `pop` answers nothing exactly on an empty queue, which it leaves alone. Otherwise it takes one
  -- item out of the queue and leaves the others. The virtual runtime of the item's tenant grows by the
  -- cost of the item over the weight of the tenant, which is 1 if it has none; that of no other tenant
  -- changes, and nothing else of the queue does.
  pub pop_lem :
      (now : ℕ) (q : Queue F T)
      → (q.pending ≡ [] → pop F T now q ≡ (none, q))
        × (q.pending ≢ []
            → (item : Item F T) × ((pop F T now q).0 ≡ some item)
              × IsServed q item (pop F T now q).1)
  unfolding pop pop_from
  pop_lem now q = (λ e. ap (λ l. pop_from F T now l q) e, λ h. go (q.pending) refl h)
    where
      go :
          (l : List (Item F T))
          → q.pending ≡ l
          → q.pending ≢ []
          → (item : Item F T) × ((pop F T now q).0 ≡ some item) × IsServed q item (pop F T now q).1
      go [] e h = absurd (h e)
      go (x ∷ xs) e h =
          let (w, rest, r, p, a) =
            pop-guided F T q now x xs e (λ a b. Unit {0})
              (record {
                same = λ a. tt;
                chain = λ a b c p q. tt;
                wins = λ a b p. tt;
                loses = λ a b p. tt;
              }) in
          (
            w,
            ap (λ (s : Option (Item F T) × Queue F T). s.0) r,
            subst (λ (s : Option (Item F T) × Queue F T). IsServed q w s.1) (sym r)
                (charge-IsServed q w rest p),
          )

  -- The item that `pop` serves is as good as every pending one, for any guide.
  served :
      (now : ℕ) (q : Queue F T) (item : Item F T) (R : Item F T → Item F T → Type 0)
      → ((top : ℕ) → top ≡ highest F T q now q.pending → IsGuide (better F T q now top) R)
      → (pop F T now q).0 ≡ some item
      → All (R item) q.pending
  unfolding pop pop_from
  served now q item R g e = go (q.pending) refl
    where
      go : (l : List (Item F T)) → q.pending ≡ l → All (R item) q.pending
      go [] h = absurd (ground (arith, ap (λ l. (pop_from F T now l q).0) h))
      go (x ∷ xs) h =
          let (w, rest, r, p, a) =
            pop-guided F T q now x xs h R
              (g (highest F T q now (x ∷ xs)) (ap (λ l. highest F T q now l) (sym h))) in
          subst (λ y. All (R y) q.pending) (ground (arith, r)) a

  -- Served before: of higher effective priority, or of the same and with no greater sequence number.
  pub IsUrgent : Queue F T → ℕ → Item F T → Item F T → Type 0
  IsUrgent q now a b =
      (effective_priority F T q b now < effective_priority F T q a now)
      ⊎ ((effective_priority F T q a now ≡ effective_priority F T q b now)
          × (a.sequence ≤ b.sequence))

  -- Under `priority`, the item that is served has the highest effective priority of all that are
  -- pending, and among those of the same priority the least sequence number.
  pub pop-priority :
      (now : ℕ) (q : Queue F T) (item : Item F T)
      → q.policy ≡ priority_first
      → (pop F T now q).0 ≡ some item
      → All (IsUrgent q now item) q.pending
  unfolding better IsUrgent
  pop-priority now q item p e =
      served now q item (IsUrgent q now)
        (λ top h. record {
          same = λ a. ground arith;
          chain = λ a b c r s. ground arith;
          wins = λ a b w. ground arith;
          loses = λ a b w. ground arith;
        })
        e

  floor_of : Queue F T → ℕ → ℕ
  floor_of q top = top - (q.priority_band - i32 0)

  IsEligible : Queue F T → ℕ → ℕ → Item F T → Type 0
  unfolding floor_of
  IsEligible q now top a = floor_of q top ≤ effective_priority F T q a now

  highest-reached :
      (q : Queue F T) (now : ℕ) (x : Item F T) (xs : List (Item F T)) (P : Item F T → Type 0)
      (R : Type 0)
      → All P (x ∷ xs)
      → ((y : Item F T) → P y → effective_priority F T q y now ≡ highest F T q now (x ∷ xs) → R)
      → R
  unfolding highest
  highest-reached q now x [] P R (p, a) f = f x p refl
  highest-reached q now x (y ∷ ys) P R (p, a) f =
      elim (dec_le (highest F T q now (y ∷ ys)) (effective_priority F T q x now)) [
        | yes h ↦ f x p (omega arith)
        | no h ↦ highest-reached q now y ys P R a (λ z r e. f z r (omega (arith, e)))
      ]

  band-guide :
      (q : Queue F T) (now top : ℕ)
      → q.policy ≡ fair_priority
      → IsGuide (better F T q now top) (λ a b. IsEligible q now top b → IsEligible q now top a)
  unfolding better fair_priority_better IsEligible floor_of
  band-guide q now top p = record {
    same = λ a h. h;
    chain = λ a b c r s h. r (s h);
    wins = λ a b w h. ground arith;
    loses = λ a b w h. ground arith;
  }

  all_below :
      (q : Queue F T) (now n : ℕ) (xs : List (Item F T))
      → highest F T q now xs ≤ n
      → All (λ y. effective_priority F T q y now ≤ n) xs
  unfolding highest
  all_below q now n [] h = tt
  all_below q now n (x ∷ []) h = (h, tt)
  all_below q now n (x ∷ y ∷ ys) h = (omega arith, all_below q now n (y ∷ ys) (omega arith))

  IsWithin : Queue F T → ℕ → Item F T → Item F T → Type 0
  IsWithin q now item y =
      effective_priority F T q y now ≤ effective_priority F T q item now + (q.priority_band - i32 0)

  all-IsWithin :
      (q : Queue F T) (now : ℕ) (item : Item F T) (l : List (Item F T))
      → All
          (λ y.
            IsEligible q now (highest F T q now l) y → IsEligible q now (highest F T q now l) item)
          l
      → All (IsWithin q now item) l
  unfolding IsEligible floor_of IsWithin
  all-IsWithin q now item [] a = tt
  all-IsWithin q now item (x ∷ xs) a =
      let top = highest F T q now (x ∷ xs) in
      let chosen : IsEligible q now top item =
        highest-reached q now x xs (λ y. IsEligible q now top y → IsEligible q now top item)
          (IsEligible q now top item) a (λ y r e. r (omega (arith, e))) in
      all_below q now (effective_priority F T q item now + (q.priority_band - i32 0)) (x ∷ xs)
        (omega (arith, chosen))

  -- Under `fair-priority`, no pending item is more than the priority band more urgent than the item
  -- that is served.
  pub pop-band :
      (now : ℕ) (q : Queue F T) (item : Item F T)
      → q.policy ≡ fair_priority
      → (pop F T now q).0 ≡ some item
      → All
          (λ y.
            effective_priority F T q y now
            ≤ effective_priority F T q item now + (q.priority_band - i32 0))
          q.pending
  unfolding IsWithin
  pop-band now q item p e = all-IsWithin q now item q.pending (
      served now q item (λ a b. IsEligible q now top b → IsEligible q now top a)
        (λ t h.
          subst
            (λ z.
              IsGuide (better F T q now z) (λ a b. IsEligible q now top b → IsEligible q now top a))
            (sym h) (band-guide q now top p))
        e)
    where
      top : ℕ
      top = highest F T q now q.pending

  -- The tenant of the first has had no more service than that of the second.
  IsFair : Queue F T → Item F T → Item F T → Type 0
  IsFair q a b =
      F.lt (runtime F q.virtual_runtime b.tenant) (runtime F q.virtual_runtime a.tenant) ≡ false

  module _ (o : IsOrder F) where
    irreflexive : (a : F.Carrier) → F.lt a a ≡ false
    irreflexive a = ground (arith, o.asymmetric a a)

    -- Under `fair`, no pending item belongs to a tenant with less service than the tenant of the item
    -- that is served.
    pub pop-fair :
        (now : ℕ) (q : Queue F T) (item : Item F T)
        → q.policy ≡ fair
        → (pop F T now q).0 ≡ some item
        → All
            (λ y.
              F.lt (runtime F q.virtual_runtime y.tenant) (runtime F q.virtual_runtime item.tenant)
              ≡ false)
            q.pending
    unfolding better fair_cmp IsFair
    pop-fair now q item p e =
        served now q item (IsFair q)
          (λ top h. record {
            same = λ a. irreflexive _;
            chain = λ a b c r s. o.negative _ _ _ s r;
            wins = λ a b w. ground (
              arith,
              o.asymmetric (runtime F q.virtual_runtime a.tenant)
                  (runtime F q.virtual_runtime b.tenant),
              o.equal (runtime F q.virtual_runtime a.tenant) (runtime F q.virtual_runtime b.tenant),
            );
            loses = λ a b w. ground arith;
          })
          e

    share-guide :
        (q : Queue F T) (now top : ℕ)
        → q.policy ≡ fair_priority
        → IsGuide
            (better F T q now top)
            (λ a b. IsEligible q now top b → IsEligible q now top a × IsFair q a b)
    unfolding better fair_priority_better IsEligible floor_of IsFair
    share-guide q now top p = record {
      same = λ a h. (h, irreflexive _);
      chain = λ a b c r s h. let (i, u) = s h in let (j, w) = r i in (j, o.negative _ _ _ u w);
      wins = λ a b w h. ground (
        arith,
        h,
        irreflexive (runtime F q.virtual_runtime a.tenant),
        o.asymmetric (runtime F q.virtual_runtime a.tenant) (runtime F q.virtual_runtime b.tenant),
        o.equal (runtime F q.virtual_runtime a.tenant) (runtime F q.virtual_runtime b.tenant),
      );
      loses = λ a b w h. ground (
        arith,
        h,
        irreflexive (runtime F q.virtual_runtime a.tenant),
        o.asymmetric (runtime F q.virtual_runtime a.tenant) (runtime F q.virtual_runtime b.tenant),
        o.equal (runtime F q.virtual_runtime a.tenant) (runtime F q.virtual_runtime b.tenant),
      );
    }

    -- Under `fair-priority`, of the pending items within the priority band of the most urgent one, none
    -- belongs to a tenant with less service than the tenant of the item that is served.
    pub pop-share :
        (now : ℕ) (q : Queue F T) (item : Item F T)
        → q.policy ≡ fair_priority
        → (pop F T now q).0 ≡ some item
        → All
            (λ y.
              highest F T q now q.pending
                ≤ effective_priority F T q y now + (q.priority_band - i32 0)
              → F.lt
                  (runtime F q.virtual_runtime y.tenant)
                  (runtime F q.virtual_runtime item.tenant)
                ≡ false)
            q.pending
    unfolding IsFair IsEligible floor_of
    pop-share now q item p e =
        All-map _ _ q.pending (λ y f h. (f (omega arith)).1)
          (served now q item (λ a b. IsEligible q now top b → IsEligible q now top a × IsFair q a b)
            (λ t h.
              subst
                (λ z.
                  IsGuide (better F T q now z)
                    (λ a b. IsEligible q now top b → IsEligible q now top a × IsFair q a b))
                (sym h) (share-guide q now top p))
            e)
      where
        top : ℕ
        top = highest F T q now q.pending
