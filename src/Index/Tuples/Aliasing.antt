-- ===== src/Index/Tuples/Aliasing.antt =====
-- No two ranges that are handed out for writing overlap.
use vector_chord.Base.{ℕ, ◌≤◌, ◌≡◌, Bool, Option, none, some, List, [], ◌∷◌, All, arith, refl}
use vector_chord.Base.Vecs.{All-map}
use vector_chord.Index.Tuples.{
  Range, MutChecker, mut_bytes, mut_prefix, Call, prefix, range, answer, collect, handed_out,
}

-- The range lies between the bounds.
abbrev pub IsInside : ℕ → ℕ → Range → Type 0
IsInside low high r = (low ≤ r.0) × (r.0 ≤ r.1) × (r.1 ≤ high)

-- Each range ends before the next one starts.
pub IsApart : List Range → Type 0
IsApart [] = Unit {0}
IsApart (r ∷ rs) = All (λ s. r.1 ≤ s.0) rs × IsApart rs

answer_lem :
    (parses : ℕ → ℕ → Bool) (k : Call) (c : MutChecker)
    → ((answer parses k c).1.len ≡ c.len)
      × (c.flag ≤ (answer parses k c).1.flag)
      × ((r : Range)
          → (answer parses k c).0 ≡ some r
          → IsInside c.flag c.len r × ((answer parses k c).1.flag ≡ r.1))
unfolding answer mut_bytes mut_prefix
answer_lem parses (prefix size start) c = ground arith
answer_lem parses (range start end) c = ground arith

-- The references for writing that a checker hands out, for any calls, lie within the bytes of the
-- tuple, at or behind its flag, and no two of them overlap.
pub handed_out-IsApart :
    (parses : ℕ → ℕ → Bool) (ks : List Call) (c : MutChecker)
    → All (IsInside c.flag c.len) (handed_out parses ks c) × IsApart (handed_out parses ks c)
unfolding handed_out IsApart
handed_out-IsApart parses [] c = (tt, tt)
handed_out-IsApart parses (k ∷ ks) c =
    let (same, grows, law) = answer_lem parses k c in
    let (inside, apart) = handed_out-IsApart parses ks (answer parses k c).1 in
    go (answer parses k c).0 (λ r e. law r e) inside apart
  where
    go :
        (o : Option Range)
        → ((r : Range) → o ≡ some r → IsInside c.flag c.len r × ((answer parses k c).1.flag ≡ r.1))
        → All
            (IsInside (answer parses k c).1.flag (answer parses k c).1.len)
            (handed_out parses ks (answer parses k c).1)
        → IsApart (handed_out parses ks (answer parses k c).1)
        → All (IsInside c.flag c.len) (collect o (handed_out parses ks (answer parses k c).1))
          × IsApart (collect o (handed_out parses ks (answer parses k c).1))
    go none law inside apart =
        (All-map _ _ _ (λ s h. omega (arith, h, answer_lem parses k c)) inside, apart)
    go (some r) law inside apart =
        let (within, at) = law r refl in
        (
          (within, All-map _ _ _ (λ s h. omega (arith, h, answer_lem parses k c)) inside),
          (All-map _ _ _ (λ s h. omega (arith, h, at)) inside, apart),
        )
