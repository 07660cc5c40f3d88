-- ===== src/Vector/Bvect.antt =====
-- crates/vector/src/bvect.rs: vectors of bits in 64-bit words, and from crates/simd/src/bit.rs the
-- operations on words that they use. An owned and a borrowed vector are one type here. A failed
-- assertion or `expect` is `none`.
pub mod Operators
mod Tests
use Prim.Native.Nat.{bit_and, bit_or, bit_xor}
use vector_chord.Base.{
  ℕ, ◌+◌, ◌-◌, ◌/◌, ◌%◌, ◌^◌, Bool, not, ◌&&◌, ◌||◌, Option, none, some, List, [], ◌∷◌, length,
  get_elem?, get_or, ltb, leb, ◌==◌, if◌then◌else◌,
}
use vector_chord.Base.Digits.{bit_at}

pub record Bvect : Type 0 where
  pub dim : ℕ
  pub words : List ℕ

pub new_checked : ℕ → List ℕ → Option Bvect
new_checked dim words =
    if not (leb 1 dim && leb dim 65535)
    then none
    else if not (length words == (dim + 63) / 64)
    then none
    else if not (dim % 64 == 0) && not (get_or words (length words - 1) 0 / 2 ^ (dim % 64) == 0)
    then none
    else some (record { dim = dim; words = words })

-- `word & (1 << place) != 0` is the digit at the place.
abbrev pub bit_of : ℕ → Option ℕ → Option Bool
bit_of place none = none
bit_of place (some word) = some (bit_at place word)

pub get : Bvect → ℕ → Option Bool
get v index = if ltb index v.dim then bit_of (index % 64) (get_elem? v.words (index / 64)) else none

pub zip_words : (ℕ → ℕ → ℕ) → List ℕ → List ℕ → List ℕ
zip_words op (l ∷ lhs) (r ∷ rhs) = op l r ∷ zip_words op lhs rhs
zip_words op lhs rhs = []

pub vector_and : List ℕ → List ℕ → Option (List ℕ)
unfolding zip_words
vector_and lhs rhs = if length lhs == length rhs then some (zip_words bit_and lhs rhs) else none

pub vector_or : List ℕ → List ℕ → Option (List ℕ)
unfolding zip_words
vector_or lhs rhs = if length lhs == length rhs then some (zip_words bit_or lhs rhs) else none

pub vector_xor : List ℕ → List ℕ → Option (List ℕ)
unfolding zip_words
vector_xor lhs rhs = if length lhs == length rhs then some (zip_words bit_xor lhs rhs) else none

-- `BVectOwned::new`
abbrev pub new : ℕ → Option (List ℕ) → Option Bvect
new dim none = none
new dim (some words) = new_checked dim words

pub operator_and : Bvect → Bvect → Option Bvect
unfolding new_checked vector_and
operator_and lhs rhs =
    if lhs.dim == rhs.dim then new lhs.dim (vector_and lhs.words rhs.words) else none

pub operator_or : Bvect → Bvect → Option Bvect
unfolding new_checked vector_or
operator_or lhs rhs =
    if lhs.dim == rhs.dim then new lhs.dim (vector_or lhs.words rhs.words) else none

pub operator_xor : Bvect → Bvect → Option Bvect
unfolding new_checked vector_xor
operator_xor lhs rhs =
    if lhs.dim == rhs.dim then new lhs.dim (vector_xor lhs.words rhs.words) else none
