-- ===== src/Tilemaxsimd/Scheduler/Tests.antt =====
-- The queue at work, with whole numbers for the runtimes, and the theorems there.
use Prim.Native.String.{String}
use vector_chord.Base.{
  ℕ, ◌+◌, ◌-◌, ◌≤◌, ◌≡◌, ◌≢◌, false, none, some, [], ◌∷◌, ◌++◌, All, ltb, arith, refl,
}
use mathlib.Core.List.{Perm}
use vector_chord.Base.Text.{string_discrete}
use vector_chord.Base.HashMap
use vector_chord.Base.Vecs.{IsSortedBy, swap_remove, last_first, last, init}
use vector_chord.Base.Float.{whole}
use vector_chord.Tilemaxsimd.Scheduler.{
  Queue, Item, SchedulerPolicy, fair, priority_first, fair_priority, i32, runtime,
  effective_priority, highest, pop, pop_from, serve, choose, select, better, fair_priority_better,
  drain_expired,
}
use vector_chord.Tilemaxsimd.Scheduler.Expiry.{IsExpired, IsAlive, drain_expired_lem}
use vector_chord.Tilemaxsimd.Scheduler.Service.{
  IsOrder, IsUrgent, pop_lem, IsServed, pop-priority, pop-band, pop-share,
}

whole-IsOrder : IsOrder whole
whole-IsOrder = record {
  asymmetric = λ a b h. ground arith;
  negative = λ a b c h k. ground arith;
  equal = λ a b h. ground arith;
}

abbrev item : String → ℕ → ℕ → Item whole ℕ
item tenant priority sequence = record {
  tenant = tenant;
  priority = i32 priority;
  cost = 4;
  enqueued_at = 0;
  deadline = 10 + sequence;
  payload = sequence;
  sequence = sequence;
}

-- The tenant "a" has had more service than "b".
abbrev waiting : SchedulerPolicy → Queue whole ℕ
waiting policy = record {
  policy = policy;
  aging = 0;
  priority_band = i32 5;
  pending = item "a" 7 0 ∷ item "b" 3 1 ∷ item "a" 7 2 ∷ item "b" 1 3 ∷ [];
  virtual_runtime = ("a", 9) ∷ ("b", 2) ∷ [];
  weights = [];
  next_sequence = 4;
}

pop_lem_example :
    ((waiting fair).pending ≡ [] → pop whole ℕ 1 (waiting fair) ≡ (none, waiting fair))
    × ((waiting fair).pending ≢ []
        → (x : Item whole ℕ) × ((pop whole ℕ 1 (waiting fair)).0 ≡ some x)
          × IsServed whole ℕ (waiting fair) x (pop whole ℕ 1 (waiting fair)).1)
pop_lem_example = pop_lem whole ℕ 1 (waiting fair)

pop-priority_example :
    All
      (IsUrgent whole ℕ (waiting priority_first) 1 (item "a" 7 0))
      ((waiting priority_first).pending)
unfolding pop pop_from serve choose select better effective_priority swap_remove string_discrete
    HashMap.get HashMap.insert last_first last init
pop-priority_example = pop-priority whole ℕ 1 (waiting priority_first) (item "a" 7 0) refl refl

pop-band_example :
    All
      (λ y.
        effective_priority whole ℕ (waiting fair_priority) y 1
        ≤ effective_priority whole ℕ (waiting fair_priority) (item "b" 3 1) 1 + (i32 5 - i32 0))
      ((waiting fair_priority).pending)
unfolding pop pop_from serve choose select better fair_priority_better highest effective_priority
    swap_remove string_discrete HashMap.get HashMap.insert last_first last init
pop-band_example = pop-band whole ℕ 1 (waiting fair_priority) (item "b" 3 1) refl refl

pop-share_example :
    All
      (λ y.
        highest whole ℕ (waiting fair_priority) 1 ((waiting fair_priority).pending)
          ≤ effective_priority whole ℕ (waiting fair_priority) y 1 + (i32 5 - i32 0)
        → ltb
            (runtime whole ((waiting fair_priority).virtual_runtime) y.tenant)
            (runtime whole ((waiting fair_priority).virtual_runtime) "b")
          ≡ false)
      ((waiting fair_priority).pending)
unfolding pop pop_from serve choose select better fair_priority_better highest effective_priority
    swap_remove string_discrete HashMap.get HashMap.insert last_first last init
pop-share_example =
    pop-share whole ℕ whole-IsOrder 1 (waiting fair_priority) (item "b" 3 1) refl refl

drain_expired_lem_example :
    All (IsExpired whole ℕ 11) (drain_expired whole ℕ 11 (waiting fair)).0
    × All (IsAlive whole ℕ 11) (drain_expired whole ℕ 11 (waiting fair)).1.pending
    × Perm ((waiting fair).pending) (
        (drain_expired whole ℕ 11 (waiting fair)).0
        ++ (drain_expired whole ℕ 11 (waiting fair)).1.pending)
    × IsSortedBy (λ (x : Item whole ℕ). x.sequence) (drain_expired whole ℕ 11 (waiting fair)).0
drain_expired_lem_example = drain_expired_lem whole ℕ 11 (waiting fair)
