-- ===== src/Distance.antt =====
-- crates/distance/src/lib.rs: a float as a 32-bit integer of the same order. The bits of a float are a
-- number below 2 ^ 32, and an `i32` is the number of its bits.
pub mod Order
mod Tests
use vector_chord.Base.{ℕ, ◌+◌, ◌-◌, ◌*◌, ◌/◌, ◌%◌, leb, if◌then◌else◌}

abbrev pub sign_bit : ℕ
sign_bit = 2147483648

-- `((bits >> 31) as u32) >> 1`: the shift of an `i32` repeats its sign.
abbrev pub mask : ℕ → ℕ
mask bits = if leb sign_bit bits then 2147483647 else 0

-- `bits ^ mask`, for the two values of the mask: the low 31 bits complemented, or the bits as they are.
abbrev pub xor_mask : ℕ → ℕ → ℕ
xor_mask bits m =
    if leb 1 m then bits / sign_bit * sign_bit + (2147483647 - bits % sign_bit) else bits

unfoldable pub from_f32 : ℕ → ℕ
from_f32 value = xor_mask value (mask value)

unfoldable pub to_f32 : ℕ → ℕ
to_f32 distance = xor_mask distance (mask distance)

-- The derived order of `Distance` is that of `i32`: two bit patterns compare as signed integers.
unfoldable pub signed : ℕ → ℕ
signed bits = (bits + sign_bit) % 4294967296
