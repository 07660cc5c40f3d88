-- ===== src/Vchordg/Results/Tests.antt =====
-- Two results in front, and lists for the heap of the crate min_max_heap.
use mathlib.Core.List.{Perm}
use mathlib.Core.List.Perm as Perm
use vector_chord.Base.{
  ℕ, ◌<◌, ◌≤◌, ◌≡◌, Option, none, some, List, [], ◌∷◌, length, ◌==◌, arith, refl,
}
use vector_chord.Base.Heaps.{
  IsGreatest, counted, above, below, choose_least, choose_greatest, take_least, take_greatest,
  take_least-none, take_greatest-none, take_least-IsLeast, take_greatest-IsGreatest,
}
use vector_chord.Vchordg.Results.{
  Item, distance, MinMaxHeap, Results, new, push, pop_min, peek_ef_th, contents,
}
use vector_chord.Vchordg.Results.Order.{Reachable, created, pushed, pop_min_lem, peek_ef_th_lem}

head_of : Option (Item ℕ × List (Item ℕ)) → Option (Item ℕ)
head_of none = none
head_of (some (a, rest)) = some a

head_of-none : (o : Option (Item ℕ × List (Item ℕ))) → head_of o ≡ none → o ≡ none
unfolding head_of
head_of-none none e = refl
head_of-none (some (a, rest)) e = absurd (ground arith)

head_of-some :
    (o : Option (Item ℕ × List (Item ℕ))) (a : Item ℕ)
    → head_of o ≡ some a
    → (rest : List (Item ℕ)) × (o ≡ some (a, rest))
unfolding head_of
head_of-some none a e = absurd (ground arith)
head_of-some (some (b, rest)) a e = (rest, ground arith)

heads :
    (h : List (Item ℕ)) (a : Item ℕ)
    → head_of (take_greatest distance h) ≡ some a
    → (rest : List (Item ℕ)) × IsGreatest distance h (a, rest)
heads h a e =
    let (rest, f) = head_of-some (take_greatest distance h) a e in
    (rest, take_greatest-IsGreatest distance h (a, rest) f)

lists : MinMaxHeap ℕ
unfolding take_least take_greatest
lists = record {
  Heap = List (Item ℕ);
  items = λ h. h;
  empty = [];
  len = length;
  push = λ a h. a ∷ h;
  pop_min = take_least distance;
  push_pop_min = λ a h. choose_least distance a h (take_least distance h);
  push_pop_max = λ a h. choose_greatest distance a h (take_greatest distance h);
  peek_max = λ h. head_of (take_greatest distance h);
  items-empty = refl;
  len-items = λ h. refl;
  items-push = λ a h. Perm.refl (a ∷ h);
  pop_min-none = take_least-none distance;
  pop_min-some = λ h r. take_least-IsLeast distance h r;
  push_pop_min_lem = λ a h. take_least-IsLeast distance (a ∷ h) _ refl;
  push_pop_max_lem = λ a h. take_greatest-IsGreatest distance (a ∷ h) _ refl;
  peek_max-none = λ h e. take_greatest-none distance h (head_of-none (take_greatest distance h) e);
  peek_max-some = heads;
}

abbrev fresh : Results lists
unfolding lists
fresh = record { ef = 2; front = []; back = [] }

fresh-new : new lists 2 ≡ some fresh
unfolding new lists fresh
fresh-new = refl

-- Of three results the one at distance 9 is behind.
abbrev three : Results lists
three = push lists (3, 30) (push lists (9, 90) (push lists (5, 50) fresh))

three_behind : three.back ≡ (9, 90) ∷ []
unfolding push lists
three_behind = refl

Reachable-three : Reachable lists three
Reachable-three = pushed (3, 30) (pushed (9, 90) (pushed (5, 50) (created 2 fresh-new)))

pop_min_lem_example :
    ((item : Item ℕ) → Perm (contents lists (push lists item three)) (item ∷ contents lists three))
    × (pop_min lists three ≡ none → contents lists three ≡ [])
    × ((item : Item ℕ) (s : Results lists)
        → pop_min lists three ≡ some (item, s)
        → Perm (contents lists three) (item ∷ contents lists s)
          × (below distance (distance item) (contents lists s) ≡ 0))
pop_min_lem_example = pop_min_lem lists Reachable-three

peek_ef_th_lem_example :
    (length (contents lists three) < three.ef → peek_ef_th lists three ≡ none)
    × (three.ef ≤ length (contents lists three) → (d : ℕ) × (peek_ef_th lists three ≡ some d))
    × ((d : ℕ)
        → peek_ef_th lists three ≡ some d
        → (length (lists.items three.front) ≡ three.ef)
          × (0 < counted (λ (a : Item ℕ). distance a == d) (lists.items three.front))
          × (above distance d (lists.items three.front) ≡ 0)
          × (below distance d three.back ≡ 0))
peek_ef_th_lem_example = peek_ef_th_lem lists Reachable-three
