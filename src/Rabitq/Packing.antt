-- ===== src/Rabitq/Packing.antt =====
-- crates/rabitq/src/packing.rs: 32 columns of 4-bit codes as rows of 16 bytes, and back. An array of 32
-- slices is a function of its index. A failed assertion or a panic is `none`.
pub mod Codes
mod Tests
use Prim.Native.Nat.{bit_or}
use vector_chord.Base.{
  ℕ, zero, suc, ◌+◌, ◌*◌, ◌/◌, ◌%◌, Bool, true, false, not, ◌&&◌, ◌||◌, Option, none, some, List,
  [], ◌∷◌, map, length, get_or, replicate, ltb, leb, ◌==◌, if◌then◌else◌,
}

-- `a | (b << 4)` on bytes.
pub byte : ℕ → ℕ → ℕ
byte a b = bit_or a (b * 16 % 256)

-- `& 0xf` and `>> 4`
pub low : ℕ → ℕ
low b = b % 16

pub high : ℕ → ℕ
high b = b / 16

-- The bytes of the codes at one position of the 32 slices.
pub pack_row : (ℕ → ℕ) → List ℕ
unfolding byte
pack_row x =
    byte (x 0) (x 16)
    ∷ byte (x 8) (x 24)
    ∷ byte (x 1) (x 17)
    ∷ byte (x 9) (x 25)
    ∷ byte (x 2) (x 18)
    ∷ byte (x 10) (x 26)
    ∷ byte (x 3) (x 19)
    ∷ byte (x 11) (x 27)
    ∷ byte (x 4) (x 20)
    ∷ byte (x 12) (x 28)
    ∷ byte (x 5) (x 21)
    ∷ byte (x 13) (x 29)
    ∷ byte (x 6) (x 22)
    ∷ byte (x 14) (x 30)
    ∷ byte (x 7) (x 23)
    ∷ byte (x 15) (x 31)
    ∷ []

pub pack_rows : (ℕ → List ℕ) → ℕ → ℕ → List (List ℕ)
unfolding pack_row
pack_rows x i zero = []
pack_rows x i (suc count) = pack_row (λ k. get_or (x k) i 0) ∷ pack_rows x (suc i) count

-- All of the first slices have that length.
pub same_lengths : (ℕ → List ℕ) → ℕ → ℕ → Bool
same_lengths x n zero = true
same_lengths x n (suc count) = (n == length (x count)) && same_lengths x n count

pub pack : (ℕ → List ℕ) → Option (List (List ℕ))
pack x = let n = length (x 0) in if same_lengths x n 32 then some (pack_rows x 0 n) else none

-- The codes of a row, for each of the 32 results.
pub unpack_row : List ℕ → List ℕ
unfolding low high
unpack_row row =
    low (get_or row 0 0)
    ∷ low (get_or row 2 0)
    ∷ low (get_or row 4 0)
    ∷ low (get_or row 6 0)
    ∷ low (get_or row 8 0)
    ∷ low (get_or row 10 0)
    ∷ low (get_or row 12 0)
    ∷ low (get_or row 14 0)
    ∷ low (get_or row 1 0)
    ∷ low (get_or row 3 0)
    ∷ low (get_or row 5 0)
    ∷ low (get_or row 7 0)
    ∷ low (get_or row 9 0)
    ∷ low (get_or row 11 0)
    ∷ low (get_or row 13 0)
    ∷ low (get_or row 15 0)
    ∷ high (get_or row 0 0)
    ∷ high (get_or row 2 0)
    ∷ high (get_or row 4 0)
    ∷ high (get_or row 6 0)
    ∷ high (get_or row 8 0)
    ∷ high (get_or row 10 0)
    ∷ high (get_or row 12 0)
    ∷ high (get_or row 14 0)
    ∷ high (get_or row 1 0)
    ∷ high (get_or row 3 0)
    ∷ high (get_or row 5 0)
    ∷ high (get_or row 7 0)
    ∷ high (get_or row 9 0)
    ∷ high (get_or row 11 0)
    ∷ high (get_or row 13 0)
    ∷ high (get_or row 15 0)
    ∷ []

pub unpack : List (List ℕ) → ℕ → List ℕ
unfolding unpack_row
unpack rows k = map (λ row. get_or (unpack_row row) k 0) rows

pub padding_pack : List (List ℕ) → Option (List (List ℕ))
unfolding pack
padding_pack [] = none
padding_pack (x ∷ xs) =
    if ltb 32 (length (x ∷ xs))
    then none
    else pack
        (λ i. if ltb i (length (x ∷ xs)) then get_or (x ∷ xs) i [] else replicate (length x) 0)

abbrev bit : Bool → ℕ
bit true = 1
bit false = 0

-- Four bits in a number, the first the lowest; what is missing at the end is zero.
pub pack_to_u4 : List Bool → List ℕ
pack_to_u4 (a ∷ b ∷ c ∷ d ∷ bits) =
    bit_or (bit_or (bit_or (bit a) (bit b * 2)) (bit c * 4)) (bit d * 8) ∷ pack_to_u4 bits
pack_to_u4 (a ∷ b ∷ c ∷ []) = bit_or (bit_or (bit a) (bit b * 2)) (bit c * 4) ∷ []
pack_to_u4 (a ∷ b ∷ []) = bit_or (bit a) (bit b * 2) ∷ []
pack_to_u4 (a ∷ []) = bit a ∷ []
pack_to_u4 [] = []
