-- ===== src/Distance/Order.antt =====
-- A distance keeps the bits of its float, and compares by their sign and magnitude.
use vector_chord.Base.{ℕ, ◌-◌, ◌/◌, ◌%◌, ◌≤◌, ◌<◌, ◌≡◌, ◌⊎◌, ◌↔◌, arith}
use vector_chord.Distance.{sign_bit, from_f32, to_f32, signed}

-- The sign is the highest bit, and the others are the magnitude. This is the order of `f32::total_cmp`:
-- of floats that are no NaN and not both zero it is the order of their values.
pub IsLess : ℕ → ℕ → Type 0
IsLess a b =
    ((sign_bit ≤ a) × (b < sign_bit))
    ⊎ ((a < sign_bit) × (b < sign_bit) × (a < b))
    ⊎ ((sign_bit ≤ a) × (sign_bit ≤ b) × (b < a))

low : (n : ℕ) → sign_bit ≤ n → n < 4294967296 → (n / sign_bit ≡ 1) × (n % sign_bit ≡ n - sign_bit)
low n h k = (omega arith, omega arith)

from_f32_lem :
    (a : ℕ)
    → a < 4294967296
    → (a < sign_bit → from_f32 a ≡ a) × (sign_bit ≤ a → from_f32 a ≡ 6442450943 - a)
unfolding from_f32
from_f32_lem a h = (λ p. ground arith, λ p. ground (arith, low a p h))

-- The float of a distance is the float that it was made of, bit by bit, and the distance of its float
-- is the distance.
pub to_f32-from_f32 :
    (a : ℕ)
    → a < 4294967296
    → (to_f32 (from_f32 a) ≡ a) × (from_f32 (to_f32 a) ≡ a) × (from_f32 a < 4294967296)
unfolding from_f32 to_f32
to_f32-from_f32 a h = ground arith

-- Distances compare as signed integers exactly by the sign and the magnitude of the bits of their
-- floats: the negative zero is below the positive one, and a NaN is beyond the infinity of its sign.
pub from_f32-IsLess :
    (a b : ℕ)
    → a < 4294967296
    → b < 4294967296
    → (signed (from_f32 a) < signed (from_f32 b)) ↔ IsLess a b
unfolding signed IsLess
from_f32-IsLess a b h k = ground (arith, from_f32_lem a h, from_f32_lem b k)
