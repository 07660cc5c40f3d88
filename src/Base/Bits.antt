-- ===== src/Base/Bits.antt =====
-- Laws of the bit operations at every width. The native operations go from the lowest digit up, with
-- fuel; each law here is by induction on the width.
use Prim.Native.Nat.{
  ℕ, zero, suc, ◌+◌, ◌*◌, ◌/◌, ◌%◌, ◌^◌, ◌≤◌, ◌<◌, max, digits, bitwise, differ, bit_or, bit_xor,
  bit_or-bitwise, bit_xor-bitwise,
}
use mathlib.Core.Path.{◌≡◌, refl, sym, ap, ◌∙◌}
use native.Mathlib.Omega.{arith}
use native.Mathlib.Nat.{pow-suc, le_refl}

-- What is known of an operation on digits, `z` being its value where the first number is zero.
module _ (z : ℕ → ℕ) (f : ℕ → ℕ → ℕ) where
  digits-zero : (fuel b : ℕ) → digits z f fuel zero b ≡ z b
  digits-zero zero b = refl
  digits-zero (suc fuel) b = refl

  more_fuel : (m n a b : ℕ) → a ≤ m → a ≤ n → digits z f m a b ≡ digits z f n a b
  more_fuel m n zero b h k = digits-zero m b ∙ sym (digits-zero n b)
  more_fuel zero n (suc a) b h k = absurd (omega arith)
  more_fuel (suc m) zero (suc a) b h k = absurd (omega arith)
  more_fuel (suc m) (suc n) (suc a) b h k =
      ap (λ low. low * 2 + f (suc a % 2) (b % 2))
        (more_fuel m n (suc a / 2) (b / 2) (omega arith) (omega arith))

  pub lowest_digit :
      (a b : ℕ)
      → bitwise z f (suc a) b ≡ bitwise z f (suc a / 2) (b / 2) * 2 + f (suc a % 2) (b % 2)
  lowest_digit a b =
      ap (λ low. low * 2 + f (suc a % 2) (b % 2))
        (more_fuel a (suc a / 2) (suc a / 2) (b / 2) (omega arith) (le_refl _))

pub differ_sum : (x y : ℕ) → differ (x % 2) (y % 2) ≡ (x + y) % 2
differ_sum x y = two (x % 2) (y % 2) (omega arith) (omega arith) ∙ omega arith
  where
    two : (p q : ℕ) → p < 2 → q < 2 → differ p q ≡ (p + q) % 2
    two zero zero h k = refl
    two zero (suc zero) h k = refl
    two (suc zero) zero h k = refl
    two (suc zero) (suc zero) h k = refl
    two zero (suc (suc q)) h k = absurd (omega arith)
    two (suc zero) (suc (suc q)) h k = absurd (omega arith)
    two (suc (suc p)) q h k = absurd (omega arith)

pub xor_digit : (a b : ℕ) → bit_xor a b ≡ bit_xor (a / 2) (b / 2) * 2 + (a + b) % 2
xor_digit zero b = simp bit_xor-bitwise (omega arith)
xor_digit (suc a) b =
    simp bit_xor-bitwise (lowest_digit (λ y. y) differ a b)
    ∙ ap (λ d. bit_xor (suc a / 2) (b / 2) * 2 + d) (differ_sum (suc a) b)

pub or_digit : (a b : ℕ) → bit_or a b ≡ bit_or (a / 2) (b / 2) * 2 + max (a % 2) (b % 2)
or_digit zero b = simp bit_or-bitwise (omega arith)
or_digit (suc a) b = simp bit_or-bitwise (lowest_digit (λ y. y) max a b)

-- The exclusive or of two numbers of a width has that width.
pub bit_xor-lt : (width a b : ℕ) → a < 2 ^ width → b < 2 ^ width → bit_xor a b < 2 ^ width
bit_xor-lt zero a b h k =
    let p : a ≡ 0 = omega arith in let q : b ≡ 0 = omega arith in rw (p, q) (omega arith)
bit_xor-lt (suc width) a b h k = omega (
  arith,
  xor_digit a b,
  pow-suc 2 width,
  bit_xor-lt width (a / 2) (b / 2) (omega (arith, pow-suc 2 width))
      (omega (arith, pow-suc 2 width)),
)

-- An exclusive or that is made twice is undone.
pub bit_xor_cancel : (width a b : ℕ) → a < 2 ^ width → b < 2 ^ width → bit_xor (bit_xor a b) b ≡ a
bit_xor_cancel zero a b h k =
    let p : a ≡ 0 = omega arith in let q : b ≡ 0 = omega arith in rw (p, q) refl
bit_xor_cancel (suc width) a b h k =
    let ih =
      bit_xor_cancel width (a / 2) (b / 2) (omega (arith, pow-suc 2 width))
        (omega (arith, pow-suc 2 width)) in
    let half : bit_xor a b / 2 ≡ bit_xor (a / 2) (b / 2) = omega (arith, xor_digit a b) in
    let low : (bit_xor a b + b) % 2 ≡ a % 2 = omega (arith, xor_digit a b) in
    xor_digit (bit_xor a b) b ∙ rw (half, ih, low) (omega arith)

or_nothing : (bound a : ℕ) → a ≤ bound → bit_or a 0 ≡ a
or_nothing bound zero h = refl
or_nothing zero (suc a) h = absurd (omega arith)
or_nothing (suc bound) (suc a) h =
    omega (arith, or_digit (suc a) 0, or_nothing bound (suc a / 2) (omega arith))

nothing_or : (b : ℕ) → bit_or 0 b ≡ b
nothing_or b = bit_or-bitwise 0 b

-- A number of a width fits behind one that is shifted by the width.
pub bit_or_sum :
    (width high low : ℕ) → low < 2 ^ width → bit_or (high * 2 ^ width) low ≡ high * 2 ^ width + low
bit_or_sum zero high low h =
    let p : low ≡ 0 = omega arith in
    let q : high * 2 ^ 0 ≡ high = omega arith in
    rw (p, q) (or_nothing high high (le_refl high) ∙ omega arith)
bit_or_sum (suc width) high low h =
    let double : high * 2 ^ suc width ≡ 2 * (high * 2 ^ width) =
      omega (arith, ap (λ (p : ℕ). high * p) (pow-suc 2 width)) in
    let half : (high * 2 ^ suc width) / 2 ≡ high * 2 ^ width = omega (arith, double) in
    let ih = bit_or_sum width high (low / 2) (omega (arith, pow-suc 2 width)) in
    or_digit (high * 2 ^ suc width) low ∙ rw (half, ih) (omega (arith, double))

pub bit_or_beside :
    (width high low : ℕ) → low < 2 ^ width → bit_or low (high * 2 ^ width) ≡ high * 2 ^ width + low
bit_or_beside zero high low h =
    let p : low ≡ 0 = omega arith in
    let q : high * 2 ^ 0 ≡ high = omega arith in rw (p, q) (nothing_or high ∙ omega arith)
bit_or_beside (suc width) high low h =
    let double : high * 2 ^ suc width ≡ 2 * (high * 2 ^ width) =
      omega (arith, ap (λ (p : ℕ). high * p) (pow-suc 2 width)) in
    let half : (high * 2 ^ suc width) / 2 ≡ high * 2 ^ width = omega (arith, double) in
    let ih = bit_or_beside width high (low / 2) (omega (arith, pow-suc 2 width)) in
    or_digit low (high * 2 ^ suc width) ∙ rw (half, ih) (omega (arith, double))
