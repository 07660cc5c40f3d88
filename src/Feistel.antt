-- ===== src/Feistel.antt =====
-- crates/feistel/src/lib.rs: a permutation of the numbers of a width, from rounds with a secret. The
-- width is below the bits of the source's integer, where no shift overflows. `x & half_mask`, the mask
-- being 2 ^ half_width - 1, is the remainder. A failed assertion is `none`.
pub mod Permutation
mod Tests
use Prim.Native.Nat.{bit_or, bit_xor}
use vector_chord.Base.{
  ℕ, zero, suc, ◌+◌, ◌*◌, ◌/◌, ◌%◌, ◌^◌, not, ◌||◌, Option, none, some, ◌==◌, if◌then◌else◌,
}

-- `(right, left ^ (secret(i, right) & half_mask))`
pub mix : ℕ → (ℕ → ℕ → ℕ) → ℕ → ℕ × ℕ → ℕ × ℕ
mix half_width secret i (left, right) = (right, bit_xor left (secret i right % 2 ^ half_width))

-- That many rounds, the first of them numbered `i`.
pub mix_rounds : ℕ → (ℕ → ℕ → ℕ) → ℕ → ℕ → ℕ × ℕ → ℕ × ℕ
unfolding mix
mix_rounds half_width secret i zero halves = halves
mix_rounds half_width secret i (suc count) halves =
    mix_rounds half_width secret (i + 1) count (mix half_width secret i halves)

-- The two halves of a number, and the number of two halves.
pub split : ℕ → ℕ → ℕ × ℕ
split half_width x = (x / 2 ^ half_width % 2 ^ half_width, x % 2 ^ half_width)

pub join : ℕ → ℕ × ℕ → ℕ
join half_width (left, right) = bit_or (left * 2 ^ half_width) right

pub feistel : ℕ → ℕ → ℕ → (ℕ → ℕ → ℕ) → Option ℕ
unfolding mix_rounds split join
feistel width x round secret =
    if not (width % 2 == 0) || not (x / 2 ^ width == 0)
    then none
    else some (join (width / 2) (mix_rounds (width / 2) secret 0 round (split (width / 2) x)))
