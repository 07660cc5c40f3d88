-- ===== src/Base/Digits.antt =====
-- The bit operations digit by digit, at every place.
use Prim.Native.Nat.{
  ℕ, zero, suc, ◌+◌, ◌*◌, ◌/◌, ◌%◌, ◌^◌, ◌<◌, min, max, differ, bit_and, bit_or, bit_xor,
  bit_and-bitwise,
}
use mathlib.Core.Path.{◌≡◌, refl, sym, ap, ◌∙◌}
use mathlib.Core.Bool.{Bool, true, false, not, ◌&&◌, ◌||◌}
use native.Mathlib.Omega.{arith}
use native.Mathlib.Nat.{pow-suc, pow-succ', div-div-eq-div-mul}
use vector_chord.Base.Tests.{◌==◌}
use vector_chord.Base.Bits.{lowest_digit, or_digit, xor_digit, differ_sum}

-- The digit at a place, as a truth value.
abbrev pub bit_at : ℕ → ℕ → Bool
bit_at k a = a / 2 ^ k % 2 == 1

-- An operation that works on every digit alone, as `g` on truth values.
pub record IsDigitwise (op : ℕ → ℕ → ℕ) (g : Bool → Bool → Bool) : Type 0 where
  pub lt : (width a b : ℕ) → a < 2 ^ width → b < 2 ^ width → op a b < 2 ^ width
  pub at : (k a b : ℕ) → bit_at k (op a b) ≡ g (bit_at k a) (bit_at k b)

whole : (a : ℕ) → a / 2 ^ 0 ≡ a
whole a = omega arith

halved : (k a : ℕ) → a / 2 ^ suc k ≡ a / 2 / 2 ^ k
halved k a = rw (pow-succ' 2 k) (sym (div-div-eq-div-mul a 2 (2 ^ k)))

module _ (op f : ℕ → ℕ → ℕ)
    (digit : (a b : ℕ) → op a b ≡ op (a / 2) (b / 2) * 2 + f (a % 2) (b % 2))
    (small : (x y : ℕ) → x < 2 → y < 2 → f x y < 2) (zeros : f 0 0 ≡ 0) where
  op-lt : (width a b : ℕ) → a < 2 ^ width → b < 2 ^ width → op a b < 2 ^ width
  op-lt zero a b h k =
      let p : a ≡ 0 = omega arith in
      let q : b ≡ 0 = omega arith in rw (p, q) (omega (arith, digit 0 0, zeros))
  op-lt (suc width) a b h k = omega (
    arith,
    digit a b,
    pow-suc 2 width,
    small (a % 2) (b % 2) (omega arith) (omega arith),
    op-lt width (a / 2) (b / 2) (omega (arith, pow-suc 2 width)) (omega (arith, pow-suc 2 width)),
  )

  half : (a b : ℕ) → op a b / 2 ≡ op (a / 2) (b / 2)
  half a b = omega (arith, digit a b, small (a % 2) (b % 2) (omega arith) (omega arith))

  op-digit : (k a b : ℕ) → op a b / 2 ^ k % 2 ≡ f (a / 2 ^ k % 2) (b / 2 ^ k % 2)
  op-digit zero a b =
      rw (whole (op a b), whole a, whole b)
        (omega (arith, digit a b, small (a % 2) (b % 2) (omega arith) (omega arith)))
  op-digit (suc k) a b =
      rw (halved k (op a b), halved k a, halved k b, half a b) (op-digit k (a / 2) (b / 2))

-- Digits that agree with truth values.
two_digits :
    (f : ℕ → ℕ → ℕ) (g : Bool → Bool → Bool)
    → (f 0 0 == 1) ≡ g false false
    → (f 0 1 == 1) ≡ g false true
    → (f 1 0 == 1) ≡ g true false
    → (f 1 1 == 1) ≡ g true true
    → (x y : ℕ) → x < 2
    → y < 2
    → (f x y == 1) ≡ g (x == 1) (y == 1)
two_digits f g a b c d zero zero h k = a
two_digits f g a b c d zero (suc zero) h k = b
two_digits f g a b c d (suc zero) zero h k = c
two_digits f g a b c d (suc zero) (suc zero) h k = d
two_digits f g a b c d (suc (suc x)) y h k = absurd (omega arith)
two_digits f g a b c d zero (suc (suc y)) h k = absurd (omega arith)
two_digits f g a b c d (suc zero) (suc (suc y)) h k = absurd (omega arith)

differ-lt : (x y : ℕ) → x < 2 → y < 2 → differ x y < 2
differ-lt zero y h k = k
differ-lt (suc zero) zero h k = h
differ-lt (suc zero) (suc zero) h k = omega arith
differ-lt (suc zero) (suc (suc y)) h k = absurd (omega arith)
differ-lt (suc (suc x)) y h k = absurd (omega arith)

and_digit : (a b : ℕ) → bit_and a b ≡ bit_and (a / 2) (b / 2) * 2 + min (a % 2) (b % 2)
and_digit zero b = simp bit_and-bitwise (omega arith)
and_digit (suc a) b = simp bit_and-bitwise (lowest_digit (λ y. zero) min a b)

differ_digit : (a b : ℕ) → bit_xor a b ≡ bit_xor (a / 2) (b / 2) * 2 + differ (a % 2) (b % 2)
differ_digit a b = xor_digit a b ∙ ap (λ d. bit_xor (a / 2) (b / 2) * 2 + d) (sym (differ_sum a b))

-- `xor` of truth values.
abbrev pub exclusive : Bool → Bool → Bool
exclusive true b = not b
exclusive false b = b

pub bit_and-IsDigitwise : IsDigitwise bit_and ◌&&◌
bit_and-IsDigitwise = record {
  lt = op-lt bit_and min and_digit (λ x y h k. omega arith) refl;
  at = λ k a b.
      ap (λ n. n == 1) (op-digit bit_and min and_digit (λ x y h k. omega arith) refl k a b)
      ∙ two_digits min ◌&&◌ refl refl refl refl _ _ (omega arith) (omega arith);
}

pub bit_or-IsDigitwise : IsDigitwise bit_or ◌||◌
bit_or-IsDigitwise = record {
  lt = op-lt bit_or max or_digit (λ x y h k. omega arith) refl;
  at = λ k a b.
      ap (λ n. n == 1) (op-digit bit_or max or_digit (λ x y h k. omega arith) refl k a b)
      ∙ two_digits max ◌||◌ refl refl refl refl _ _ (omega arith) (omega arith);
}

pub bit_xor-IsDigitwise : IsDigitwise bit_xor exclusive
bit_xor-IsDigitwise = record {
  lt = op-lt bit_xor differ differ_digit differ-lt refl;
  at = λ k a b.
      ap (λ n. n == 1) (op-digit bit_xor differ differ_digit differ-lt refl k a b)
      ∙ two_digits differ exclusive refl refl refl refl (a / 2 ^ k % 2) (b / 2 ^ k % 2)
          (omega arith) (omega arith);
}
