-- ===== src/Tilemaxsimd/Protocol/Words.antt =====
-- Numbers as little-endian bytes, and back.
use vector_chord.Base.{ℕ, zero, suc, ◌/◌, ◌^◌, ◌<◌, ◌≡◌, length, arith, refl, ap}
use native.Mathlib.Nat.{pow-suc, div-lt_iff_lt-mul}
use vector_chord.Tilemaxsimd.Protocol.{le_value, le_bytes}

pub length-le_bytes : (count n : ℕ) → length (le_bytes count n) ≡ count
unfolding le_bytes
length-le_bytes zero n = refl
length-le_bytes (suc count) n = ap suc (length-le_bytes count (n / 256))

pub le_value-le_bytes : (count n : ℕ) → n < 256 ^ count → le_value (le_bytes count n) ≡ n
unfolding le_value le_bytes
le_value-le_bytes zero n h = omega arith
le_value-le_bytes (suc count) n h =
    let low : n / 256 < 256 ^ count =
      (div-lt_iff_lt-mul {k = 256} {x = n} {y = 256 ^ count} (omega arith)).1
        (rw (← pow-suc 256 count) h) in
    omega (
      arith,
      (let e : le_value (le_bytes count (n / 256)) ≡ n / 256 =
            le_value-le_bytes count (n / 256) low in
          e),
    )
