-- ===== src/Index/Prefetcher.antt =====
-- crates/index/src/prefetcher.rs: iterators over items that know which pages they will read. The plain
-- one reads when asked; the simple one looks ahead and tells the storage of up to 32 items first. The
-- storage is a parameter of the source: what it is told is a list of page numbers here.
pub mod Order
mod Tests
use vector_chord.Base.{
  ℕ, zero, suc, ◌+◌, ◌≡◌, Bool, true, false, Option, none, some, List, [], ◌∷◌, ◌++◌, length, ltb,
  if◌then◌else◌,
}

abbrev pub window_size : ℕ
window_size = 32

-- The trait `Sequence`; `order` is the order in which `next` gives the items.
pub record Sequence (S Item : Type 0) : Type 0 where
  pub next : S → Option (Item × S)
  pub peek : S → Option Item
  pub order : S → List Item
  pub next_none : (s : S) → order s ≡ [] → next s ≡ none
  pub next_some :
      (s : S) (x : Item) (xs : List Item)
      → order s ≡ x ∷ xs
      → (t : S) × (next s ≡ some (x, t)) × (order t ≡ xs)
  pub peek_none : (s : S) → order s ≡ [] → peek s ≡ none
  pub peek_some : (s : S) (x : Item) (xs : List Item) → order s ≡ x ∷ xs → peek s ≡ some x

-- `Sequence` for `VecDeque`
pub deque_next : {A : Type 0} → List A → Option (A × List A)
deque_next [] = none
deque_next (x ∷ xs) = some (x, xs)

pub deque_peek : {A : Type 0} → List A → Option A
deque_peek [] = none
deque_peek (x ∷ xs) = some x

module _ {S Item : Type 0} (seq : Sequence S Item) (fetch : Item → List ℕ) where
  pub record PlainPrefetcher : Type 0 where
    pub sequence : S

  with_pages : Option (Item × S) → PlainPrefetcher → Option (Item × List ℕ) × PlainPrefetcher
  with_pages none p = (none, p)
  with_pages (some (e, s)) p = (some (e, fetch e), record p { sequence = s })

  -- The item and the pages that its guards will read.
  pub plain_next : PlainPrefetcher → Option (Item × List ℕ) × PlainPrefetcher
  unfolding with_pages
  plain_next p = with_pages (seq.next p.sequence) p

  plain_if :
      (Item → Bool) → Option Item → PlainPrefetcher → Option (Item × List ℕ) × PlainPrefetcher
  unfolding plain_next
  plain_if predicate none p = (none, p)
  plain_if predicate (some e) p = elim (predicate e) [ true ↦ plain_next p | false ↦ (none, p) ]

  pub plain_next_if : (Item → Bool) → PlainPrefetcher → Option (Item × List ℕ) × PlainPrefetcher
  unfolding plain_if
  plain_next_if predicate p = plain_if predicate (seq.peek p.sequence) p

  pub record SimplePrefetcher : Type 0 where
    pub prefetched : List ℕ
    pub window : List Item
    pub sequence : S

  pub simple_new : S → SimplePrefetcher
  simple_new s = record { prefetched = []; window = []; sequence = s }

  abbrev pub look_at : Option (Item × S) → SimplePrefetcher → Option SimplePrefetcher
  look_at none p = none
  look_at (some (e, s)) p =
      some (record {
        prefetched = p.prefetched ++ fetch e;
        window = p.window ++ (e ∷ []);
        sequence = s;
      })

  -- The loop that fills the window; `fuel` bounds its rounds.
  pub fill : ℕ → SimplePrefetcher → SimplePrefetcher
  fill zero p = p
  fill (suc fuel) p = elim (ltb (length p.window) window_size) [
    | false ↦ p
    | true ↦ elim (look_at (seq.next p.sequence) p) [ none ↦ p | some q ↦ fill fuel q ]
  ]

  pop_front : List Item → SimplePrefetcher → Option (Item × List ℕ) × SimplePrefetcher
  pop_front [] p = (none, p)
  pop_front (e ∷ es) p = (some (e, fetch e), record p { window = es })

  pub simple_next : SimplePrefetcher → Option (Item × List ℕ) × SimplePrefetcher
  unfolding fill pop_front
  simple_next p = let q = fill window_size p in pop_front q.window q

  pop_front_if :
      (Item → Bool) → List Item → SimplePrefetcher → Option (Item × List ℕ) × SimplePrefetcher
  pop_front_if predicate [] p = (none, p)
  pop_front_if predicate (e ∷ es) p = elim (predicate e) [
    | true ↦ (some (e, fetch e), record p { window = es })
    | false ↦ (none, p)
  ]

  pub simple_next_if : (Item → Bool) → SimplePrefetcher → Option (Item × List ℕ) × SimplePrefetcher
  unfolding fill pop_front_if
  simple_next_if predicate p = let q = fill window_size p in pop_front_if predicate q.window q
