-- ===== src/Tilemaxsimd/Scheduler.antt =====
-- `RequestQueue` of services/tilemaxsimd/src/scheduler.rs: which waiting request the GPU serves next.
-- An `i32` i is the number i + 2 ^ 31, so that the saturating operations are those of the naturals;
-- instants and durations are nanoseconds. Virtual runtimes and weights are floats.
pub mod Expiry
pub mod Selection
pub mod Service
mod Tests
use Prim.Native.String.{String}
use vector_chord.Base.{
  ℕ, zero, suc, ◌+◌, ◌-◌, ◌*◌, ◌/◌, ◌%◌, ◌^◌, min, max, Bool, true, false, not, ◌&&◌, ◌||◌, Option,
  none, some, List, [], ◌∷◌, ◌++◌, map, length, get_elem?, leb, ltb, ◌==◌, if◌then◌else◌, ite,
}
use vector_chord.Base.Text.{string_discrete}
use vector_chord.Base.HashMap
use vector_chord.Base.HashMap.{HashMap}
use vector_chord.Base.Vecs.{swap_remove, sort_by_key, any}
use vector_chord.Base.Float.{F64}

pub data SchedulerPolicy : Type 0 where
  fair priority_first fair_priority : SchedulerPolicy

pub parse : String → Option SchedulerPolicy
parse value = ite (string_discrete value "fair") (some fair) (
    ite (string_discrete value "priority") (some priority_first)
      (ite (string_discrete value "fair-priority") (some fair_priority) none))

-- The `i32` n, and the least and the greatest one, as biased numbers.
abbrev pub i32 : ℕ → ℕ
i32 n = 2147483648 + n

abbrev pub i32_max : ℕ
i32_max = 4294967295

abbrev pub u64_mod : ℕ
u64_mod = 18446744073709551616

pub record Scheduled (T : Type 0) : Type 0 where
  pub tenant : String
  pub priority : ℕ
  pub cost : ℕ
  pub enqueued_at : ℕ
  pub deadline : ℕ
  pub payload : T
  pub sequence : ℕ

pub scheduled : {T : Type 0} → String → ℕ → ℕ → ℕ → ℕ → T → Scheduled T
scheduled tenant priority cost enqueued_at deadline payload = record {
  tenant = tenant;
  priority = priority;
  cost = max cost 1;
  enqueued_at = enqueued_at;
  deadline = deadline;
  payload = payload;
  sequence = 0;
}

pub record RequestQueue (F T : Type 0) : Type 0 where
  pub policy : SchedulerPolicy
  pub aging : ℕ
  pub priority_band : ℕ
  pub pending : List (Scheduled T)
  pub virtual_runtime : HashMap String F
  pub weights : HashMap String F
  pub next_sequence : ℕ

abbrev pub as_millis : ℕ → ℕ
as_millis nanos = nanos / 1000000

abbrev pub or_else {ℓ} : {A : Type ℓ} → Option A → A → A
or_else none d = d
or_else (some a) d = a

module _ (F : F64) where
  open F use {Carrier, of_ℕ}

  -- `virtual_runtime.get(tenant).copied().unwrap_or(0.0)`
  abbrev pub runtime : HashMap String Carrier → String → Carrier
  runtime m tenant = or_else (HashMap.get string_discrete tenant m) (of_ℕ 0)

module _ (F : F64) (T : Type 0) where
  open F use {Carrier, of_ℕ, add, div, lt, eq}

  abbrev pub Queue : Type 0
  Queue = RequestQueue Carrier T

  abbrev pub Item : Type 0
  Item = Scheduled T

  pub new : SchedulerPolicy → ℕ → ℕ → HashMap String Carrier → Queue
  new policy aging priority_band weights = record {
    policy = policy;
    aging = aging;
    priority_band = max priority_band (i32 0);
    pending = [];
    virtual_runtime = [];
    weights = weights;
    next_sequence = 0;
  }

  -- The least runtime of the pending tenants that have one.
  abbrev reduce_min : HashMap String Carrier → Option Carrier → List Item → Option Carrier
  reduce_min m best [] = best
  reduce_min m best (x ∷ xs) =
      reduce_min m
        (elim (HashMap.get string_discrete x.tenant m) [
          | none ↦ best
          | some r ↦ some (elim best [ none ↦ r | some b ↦ F.min b r ])
        ])
        xs

  pub baseline : HashMap String Carrier → List Item → Carrier
  baseline m pending = or_else (reduce_min m none pending) (of_ℕ 0)

  pub push : Item → Queue → Queue
  unfolding baseline any
  push item q =
      let runtimes : HashMap String Carrier = elim (q.pending) [
        | [] ↦ []
        | _ ∷ _ ↦ q.virtual_runtime
      ] in
      let is_active =
        any (λ (p : Item). ite (string_discrete p.tenant item.tenant) true false) q.pending in
      let base = baseline runtimes q.pending in
      let started = or_else (HashMap.get string_discrete item.tenant runtimes) base in
      record q {
        pending = q.pending ++ (record item { sequence = q.next_sequence } ∷ []);
        virtual_runtime =
            HashMap.insert string_discrete item.tenant
              (if is_active then started else F.max started base) runtimes;
        next_sequence = (q.next_sequence + 1) % u64_mod;
      }

  -- The loop of `drain_expired` from an index on; `fuel` bounds its rounds.
  pub drain : ℕ → ℕ → ℕ → List Item → List Item → List Item × List Item
  unfolding swap_remove
  drain zero now index expired pending = (expired, pending)
  drain (suc fuel) now index expired pending = elim (get_elem? pending index) [
    | none ↦ (expired, pending)
    | some item ↦ elim (leb item.deadline now) [
      | true ↦ elim (swap_remove index pending) [
        | none ↦ (expired, pending)
        | some (x, rest) ↦ drain fuel now index (expired ++ (x ∷ [])) rest
      ]
      | false ↦ drain fuel now (suc index) expired pending
    ]
  ]

  pub drain_expired : ℕ → Queue → List Item × Queue
  unfolding drain sort_by_key
  drain_expired now q =
      let (expired, pending) = drain (length q.pending) now 0 [] q.pending in
      (sort_by_key (λ (x : Item). x.sequence) expired, record q { pending = pending })

  pub effective_priority : Queue → Item → ℕ → ℕ
  effective_priority q item now =
      if q.aging == 0
      then item.priority
      else let waited = as_millis (now - item.enqueued_at) in
        let steps = waited / max (as_millis q.aging) 1 in
        min (min (item.priority + min steps 200) i32_max) (i32 100)

  -- The highest effective priority, or the zero of `unwrap_or`.
  pub highest : Queue → ℕ → List Item → ℕ
  highest q now [] = i32 0
  highest q now (x ∷ []) = effective_priority q x now
  highest q now (x ∷ y ∷ ys) = max (effective_priority q x now) (highest q now (y ∷ ys))

  -- Of two items: the higher effective priority, then the earlier one.
  abbrev pub more_urgent : Queue → ℕ → Item → Item → Bool
  more_urgent q now left right =
      let l = effective_priority q left now in
      let r = effective_priority q right now in
      ltb r l || (l == r && ltb left.sequence right.sequence)

  pub fair_cmp : Queue → Item → Item → Bool
  fair_cmp q left right =
      let l = runtime F q.virtual_runtime left.tenant in
      let r = runtime F q.virtual_runtime right.tenant in
      lt l r || (eq l r && ltb left.sequence right.sequence)

  -- The arm of `SchedulerPolicy::FairPriority`.
  pub fair_priority_better : Queue → ℕ → ℕ → Item → Item → Bool
  fair_priority_better q now top left right =
      let floor = top - (q.priority_band - i32 0) in
      let left_eligible = leb floor (effective_priority q left now) in
      let right_eligible = leb floor (effective_priority q right now) in
      if not left_eligible && right_eligible
      then false
      else if left_eligible && not right_eligible
      then true
      else if not left_eligible
      then more_urgent q now left right
      else if ite (string_discrete left.tenant right.tenant) true false
      then more_urgent q now left right
      else let l = runtime F q.virtual_runtime left.tenant in
        let r = runtime F q.virtual_runtime right.tenant in
        lt l r || (eq l r && more_urgent q now left right)

  pub better : Queue → ℕ → ℕ → Item → Item → Bool
  unfolding fair_cmp fair_priority_better
  better q now top left right = elim (q.policy) [
    | fair ↦ fair_cmp q left right
    | priority_first ↦ more_urgent q now left right
    | fair_priority ↦ fair_priority_better q now top left right
  ]

  -- The loop over the candidates: the index of the best one, which is `best` so far.
  pub select : (Item → Item → Bool) → ℕ → ℕ → Item → List Item → ℕ
  select is_better candidate best b [] = best
  select is_better candidate best b (x ∷ xs) = elim (is_better x b) [
    | true ↦ select is_better (suc candidate) candidate x xs
    | false ↦ select is_better (suc candidate) best b xs
  ]

  -- The tenant pays for the item that is served.
  pub charge : Item → Queue → Queue
  charge item q =
      let weight = or_else (HashMap.get string_discrete item.tenant q.weights) (of_ℕ 1) in
      record q {
        virtual_runtime =
            HashMap.insert string_discrete item.tenant
              (add (runtime F q.virtual_runtime item.tenant) (div (of_ℕ item.cost) weight))
              q.virtual_runtime;
      }

  -- The index of the item that is served next.
  pub choose : Queue → ℕ → Item → List Item → ℕ
  unfolding better select highest
  choose q now x xs = select (better q now (highest q now (x ∷ xs))) 1 0 x xs

  serve : Option (Item × List Item) → Queue → Option Item × Queue
  unfolding charge
  serve none q = (none, q)
  serve (some (item, rest)) q = (some item, charge item (record q { pending = rest }))

  pop_from : ℕ → List Item → Queue → Option Item × Queue
  unfolding serve choose swap_remove
  pop_from now [] q = (none, q)
  pop_from now (x ∷ xs) q = serve (swap_remove (choose q now x xs) q.pending) q

  pub pop : ℕ → Queue → Option Item × Queue
  unfolding pop_from
  pop now q = pop_from now q.pending q
