-- ===== src/Index/Tuples/Tests.antt =====
-- A header of eight bytes, an overlapping range that is refused, and the rest of a tuple.
use vector_chord.Base.{◌≡◌, true, [], ◌∷◌, All, refl}
use vector_chord.Index.Tuples.{new, prefix, range, handed_out, answer, mut_prefix, mut_bytes}
use vector_chord.Index.Tuples.Aliasing.{IsInside, IsApart, handed_out-IsApart}

handed_out-IsApart_example :
    All
      (IsInside 0 32)
      (handed_out (λ s e. true) (prefix 8 0 ∷ range 4 16 ∷ range 8 32 ∷ []) (new 32))
    × IsApart (handed_out (λ s e. true) (prefix 8 0 ∷ range 4 16 ∷ range 8 32 ∷ []) (new 32))
unfolding new
handed_out-IsApart_example =
    handed_out-IsApart (λ s e. true) (prefix 8 0 ∷ range 4 16 ∷ range 8 32 ∷ []) (new 32)

handed_out_three :
    handed_out (λ s e. true) (prefix 8 0 ∷ range 4 16 ∷ range 8 32 ∷ []) (new 32)
    ≡ (0, 8) ∷ (8, 32) ∷ []
unfolding handed_out answer mut_prefix mut_bytes new
handed_out_three = refl
