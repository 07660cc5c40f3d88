-- ===== src/Tilemaxsimd/Sketch.antt =====
-- `TinyLfu` of services/tilemaxsimd/src/cache.rs: a count-min sketch of four rows of 16-bit counters
-- that is halved from time to time. The hash of a row and a key is a parameter: the source takes the
-- standard library's `DefaultHasher`, whose values it leaves open.
pub mod Counts
mod Tests
use vector_chord.Base.{
  ℕ, zero, suc, ◌+◌, ◌-◌, ◌*◌, ◌/◌, ◌%◌, min, max, List, [], ◌∷◌, map, length, get_or, set,
  replicate, leb, if◌then◌else◌,
}

pub record TinyLfu : Type 0 where
  pub width : ℕ
  pub tables : List (List ℕ)
  pub samples : ℕ

pub new : ℕ → TinyLfu
new width = record { width = width; tables = replicate 4 (replicate width 0); samples = 0 }

abbrev pub u16_max : ℕ
u16_max = 65535

-- `value.saturating_add(1)` at an index of a row
abbrev pub bump : List ℕ → ℕ → List ℕ
bump row i = set row i (min (get_or row i 0 + 1) u16_max)

module _ {K : Type 0} (hash : ℕ → K → ℕ) where
  -- The indices of a key in the rows from `row` on.
  pub increment_rows : ℕ → ℕ → K → List (List ℕ) → List (List ℕ)
  increment_rows width row key [] = []
  increment_rows width row key (t ∷ ts) =
      bump t (hash row key % width) ∷ increment_rows width (suc row) key ts

  -- The least counter of the key in the rows from `row` on.
  pub estimate_rows : ℕ → ℕ → K → List (List ℕ) → ℕ
  estimate_rows width row key [] = 0
  estimate_rows width row key (t ∷ []) = get_or t (hash row key % width) 0
  estimate_rows width row key (t ∷ u ∷ ts) =
      min (get_or t (hash row key % width) 0) (estimate_rows width (suc row) key (u ∷ ts))

  pub estimate : K → TinyLfu → ℕ
  estimate key s = estimate_rows s.width 0 key s.tables

  pub halve : List (List ℕ) → List (List ℕ)
  halve = map (map (λ v. v / 2))

  -- `increment` returns the estimate from before the counters are halved.
  pub increment : K → TinyLfu → ℕ × TinyLfu
  unfolding halve
  increment key s =
      let counted : TinyLfu = record s {
        tables = increment_rows s.width 0 key s.tables;
        samples = s.samples + 1;
      } in
      let aged : TinyLfu = record counted {
        tables = halve counted.tables;
        samples = counted.samples / 2;
      } in
      (max (estimate key counted) 1, if leb (s.width * 10) counted.samples then aged else counted)
