-- ===== src/Index/Prefetcher/Tests.antt =====
-- Three items of one or two pages, in a queue.
use vector_chord.Base.{ℕ, ◌≡◌, List, [], ◌∷◌, refl}
use vector_chord.Index.Prefetcher.{
  SimplePrefetcher, PlainPrefetcher, simple_new, simple_next, plain_next,
}
use vector_chord.Index.Prefetcher.Order.{
  deque, Stepped, IsAhead, simple_next-order, simple_new-IsAhead, simple_next-plain_next,
}

abbrev fetch : ℕ → List ℕ
fetch n = n ∷ n ∷ []

abbrev start : SimplePrefetcher deque fetch
start = record { prefetched = []; window = []; sequence = 4 ∷ 7 ∷ 9 ∷ [] }

start-IsAhead : IsAhead deque fetch [] start
unfolding simple_new deque
start-IsAhead = (simple_new-IsAhead deque fetch (4 ∷ 7 ∷ 9 ∷ [])).0

simple_next-order_example :
    Stepped deque fetch [] start (simple_next deque fetch start) 4 (7 ∷ 9 ∷ [])
unfolding deque
simple_next-order_example = simple_next-order deque fetch [] start 4 (7 ∷ 9 ∷ []) start-IsAhead refl

abbrev plain : PlainPrefetcher deque fetch
plain = record { sequence = 4 ∷ 7 ∷ 9 ∷ [] }

simple_next-plain_next_example :
    (simple_next deque fetch start).0 ≡ (plain_next deque fetch plain).0
unfolding deque
simple_next-plain_next_example =
    simple_next-plain_next deque fetch [] start plain start-IsAhead refl
