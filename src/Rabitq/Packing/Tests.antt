-- ===== src/Rabitq/Packing/Tests.antt =====
-- Two slices of three codes.
use vector_chord.Base.{ℕ, ◌<◌, ◌≡◌, some, List, [], ◌∷◌, get_or, replicate, arith, refl}
use vector_chord.Rabitq.Packing.{padding_pack, pack_rows, same_lengths, unpack}
use vector_chord.Rabitq.Packing.Codes.{unpack-padding_pack}

abbrev slices : List (List ℕ)
slices = (1 ∷ 15 ∷ 7 ∷ []) ∷ (4 ∷ 0 ∷ 9 ∷ []) ∷ []

packed : (rows : List (List ℕ)) × (padding_pack slices ≡ some rows)
unfolding padding_pack pack_rows same_lengths
packed = (_, refl)

second : unpack packed.0 1 ≡ 4 ∷ 0 ∷ 9 ∷ []
unfolding packed unpack padding_pack pack_rows same_lengths
second = refl

unpack-padding_pack_example :
    (rows : List (List ℕ)) × (padding_pack slices ≡ some rows)
    × ((k : ℕ) → k < 32 → unpack rows k ≡ get_or slices k (replicate 3 0))
unpack-padding_pack_example =
    unpack-padding_pack slices 3 (omega arith) (omega arith) (refl, (refl, tt)) (omega arith)
