-- ===== src/Vchordrq/FastHeap.antt =====
-- crates/vchordrq/src/fast_heap.rs: a priority queue over a vector of which only the best part is sorted.
-- An item compares by its key. `select` is `select_nth_unstable`, of which only the documented effect is
-- used. A `BinaryHeap` is a list from which a greatest item is taken. A panic is `none`.
pub mod Order
mod Tests
use mathlib.Core.Option
use vector_chord.Base.{
  ℕ, ◌-◌, ◌/◌, Option, none, some, List, ◌++◌, length, take, drop, ltb, if◌then◌else◌,
}
use vector_chord.Base.Vecs.{pop_back, sort_by_key}
use vector_chord.Base.Heaps.{take_greatest}

pub data FastHeap (T : Type 0) : Type 0 where
  -- The last `t` items of `inner` are sorted, and no item before them is greater.
  sorted : (inner : List T) (t : ℕ) → FastHeap T
  binary : (items : List T) → FastHeap T

module _ {T : Type 0} where
  -- What `into_inner` iterates over.
  pub into_inner : FastHeap T → List T
  into_inner (FastHeap.sorted inner t) = inner
  into_inner (FastHeap.binary items) = items

module _ {T : Type 0} (key : T → ℕ) (select : ℕ → List T → List T) where
  pub from_vec : List T → FastHeap T
  from_vec vec =
      let n = length vec in
      let t = n / 384 in
      let inner = select (n - t) vec in
      if ltb 0 t
      then FastHeap.sorted (take (n - t) inner ++ sort_by_key key (drop (n - t) inner)) t
      else FastHeap.binary vec

module _ {T : Type 0} (key : T → ℕ) where
  abbrev pub after_pop : ℕ → Option (T × List T) → Option (Option T × FastHeap T)
  after_pop t none = none
  after_pop t (some (k, rest)) =
      some (some k, if ltb 0 (t - 1) then FastHeap.sorted rest (t - 1) else FastHeap.binary rest)

  abbrev pub pop_binary : List T → Option (T × List T) → Option T × FastHeap T
  pop_binary items none = (none, FastHeap.binary items)
  pop_binary items (some (k, rest)) = (some k, FastHeap.binary rest)

  pub pop : FastHeap T → Option (Option T × FastHeap T)
  pop (FastHeap.sorted inner t) = after_pop t (pop_back inner)
  pop (FastHeap.binary items) = some (pop_binary items (take_greatest key items))

  pub peek : FastHeap T → Option T
  peek (FastHeap.sorted inner t) = Option.map (λ r. r.0) (pop_back inner)
  peek (FastHeap.binary items) = Option.map (λ r. r.0) (take_greatest key items)
