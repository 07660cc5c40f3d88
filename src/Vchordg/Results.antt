-- ===== src/Vchordg/Results.antt =====
-- crates/vchordg/src/results.rs: the results of a search, the best `ef` of them in front. A distance is
-- the number by which it compares, and `Reverse` around it is left out: where the source pops the
-- greatest of reversed distances, the model pops the least. The heap in front is the crate
-- min_max_heap, a parameter.
pub mod Fronts
pub mod Pops
pub mod Order
mod Tests
use mathlib.Core.List.{Perm}
use vector_chord.Base.{
  ℕ, ◌<◌, ◌≡◌, Option, none, some, List, [], ◌∷◌, ◌++◌, length, ltb, if◌then◌else◌,
}
use mathlib.Core.Option
use vector_chord.Base.Heaps.{IsLeast, IsGreatest, take_least}

abbrev pub Item : Type 0 → Type 0
Item T = ℕ × T

abbrev pub distance : {T : Type 0} → Item T → ℕ
distance a = a.0

-- What the crate min_max_heap documents of its operations.
pub record MinMaxHeap (T : Type 0) : Type 1 where
  pub Heap : Type 0
  pub items : Heap → List (Item T)
  pub empty : Heap
  pub len : Heap → ℕ
  pub push : Item T → Heap → Heap
  pub pop_min : Heap → Option (Item T × Heap)
  pub push_pop_min : Item T → Heap → Item T × Heap
  pub push_pop_max : Item T → Heap → Item T × Heap
  pub peek_max : Heap → Option (Item T)
  pub items-empty : items empty ≡ []
  pub len-items : (h : Heap) → len h ≡ length (items h)
  pub items-push : (a : Item T) (h : Heap) → Perm (items (push a h)) (a ∷ items h)
  pub pop_min-none : (h : Heap) → pop_min h ≡ none → items h ≡ []
  pub pop_min-some :
      (h : Heap) (r : Item T × Heap)
      → pop_min h ≡ some r
      → IsLeast distance (items h) (r.0, items r.1)
  pub push_pop_min_lem :
      (a : Item T) (h : Heap)
      → IsLeast distance (a ∷ items h) ((push_pop_min a h).0, items (push_pop_min a h).1)
  pub push_pop_max_lem :
      (a : Item T) (h : Heap)
      → IsGreatest distance (a ∷ items h) ((push_pop_max a h).0, items (push_pop_max a h).1)
  pub peek_max-none : (h : Heap) → peek_max h ≡ none → items h ≡ []
  pub peek_max-some :
      (h : Heap) (a : Item T)
      → peek_max h ≡ some a
      → (rest : List (Item T)) × IsGreatest distance (items h) (a, rest)

module _ {T : Type 0} (m : MinMaxHeap T) where
  pub record Results : Type 0 where
    pub ef : ℕ
    pub front : m.Heap
    -- a `BinaryHeap`
    pub back : List (Item T)

  pub new : ℕ → Option Results
  new ef = if ltb 0 ef then some (record { ef = ef; front = m.empty; back = [] }) else none

  pub push : Item T → Results → Results
  push item r =
      if ltb (m.len r.front) r.ef
      then record r { front = m.push item r.front }
      else (let (last, front) = m.push_pop_max item r.front in
          record r { front = front; back = last ∷ r.back })

  pub peek_ef_th : Results → Option ℕ
  peek_ef_th r = if ltb (m.len r.front) r.ef then none else Option.map distance (m.peek_max r.front)

  abbrev with_front : Results → Option (Item T × m.Heap) → Option (Item T × Results)
  with_front r none = none
  with_front r (some (a, front)) = some (a, record r { front = front })

  abbrev pop_over : Results → Option (Item T × List (Item T)) → Option (Item T × Results)
  pop_over r none = with_front r (m.pop_min r.front)
  pop_over r (some (item, back)) =
      let (a, front) = m.push_pop_min item r.front in
      some (a, record r { front = front; back = back })

  pub pop_min : Results → Option (Item T × Results)
  pop_min r =
      if ltb (m.len r.front) r.ef
      then with_front r (m.pop_min r.front)
      else pop_over r (take_least distance r.back)

  -- `into_inner`, both heaps in one list.
  abbrev pub contents : Results → List (Item T)
  contents r = m.items r.front ++ r.back
