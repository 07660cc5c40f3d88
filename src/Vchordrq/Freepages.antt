-- ===== src/Vchordrq/Freepages.antt =====
-- crates/vchordrq/src/freepages.rs: the pages that a deletion has left, as a list that is linked through
-- the pages themselves. The storage is a parameter of the source: of its pages the model keeps the field
-- `next` of their opaque part, and the one tuple that holds the first free page.
pub mod Stack
mod Tests
use vector_chord.Base.{ℕ, Option, none, some, ◌==◌, if◌then◌else◌}

abbrev pub u32_max : ℕ
u32_max = 4294967295

pub record Storage : Type 0 where
  -- `FreepagesTuple::first`
  pub first : ℕ
  -- `get_opaque().next` of each page
  pub next : ℕ → ℕ

unfoldable pub alloc : Storage → Option ℕ × Storage
alloc s =
    if s.first == u32_max then (none, s) else (some (s.first), record s { first = s.next s.first })

unfoldable pub free : ℕ → Storage → Storage
free id s = record { first = id; next = λ page. if page == id then s.first else s.next page }
