-- ===== src/Feistel/Permutation.antt =====
-- `feistel` permutes the numbers of its width, whatever the secret does.
use Prim.Native.Nat.{bit_xor}
use native.Mathlib.Nat.{
  pow-suc, le-div_iff_mul-le, mod-lt, mod-eq_of_lt, div-lt_iff_lt-mul, mul-add-div_right,
  mul-add-mod_self_right, div-eq_of_lt, div-add-mod', add-zero,
}
use vector_chord.Base.{
  ℕ, zero, suc, ◌+◌, ◌*◌, ◌/◌, ◌%◌, ◌^◌, ◌<◌, ◌≤◌, ◌≡◌, true, false, Option, none, some, ◌==◌,
  arith, refl, sym, ap, ◌∙◌,
}
use vector_chord.Base.Bits.{bit_xor-lt, bit_xor_cancel, bit_or_sum}
use vector_chord.Feistel.{mix, mix_rounds, split, join, feistel}

-- Both halves have half the width.
pub record Fits (half_width : ℕ) (halves : ℕ × ℕ) : Type 0 where
  pub left : halves.0 < 2 ^ half_width
  pub right : halves.1 < 2 ^ half_width

pow_pos : (k : ℕ) → 0 < 2 ^ k
pow_pos zero = omega arith
pow_pos (suc k) = omega (arith, pow-suc 2 k, pow_pos k)

nonzero : (n : ℕ) → 1 ≤ n → (n == 0) ≡ false
nonzero n h = ground arith

four_times : (p : ℕ) → p * 2 * (p * 2) ≡ p * p * 2 * 2
four_times p = grind arith

in_square : (m l r : ℕ) → l < m → r < m → l * m + r < m * m
in_square m l r h k = grind arith

pow-double : (h : ℕ) → 2 ^ (h + h) ≡ 2 ^ h * 2 ^ h
pow-double zero = refl
pow-double (suc h) =
    let double : 2 ^ suc h ≡ 2 ^ h * 2 = pow-suc 2 h in
    let sum : suc h + suc h ≡ suc (suc (h + h)) = omega arith in
    rw (sum, double)
      (omega (arith, pow-suc 2 (suc (h + h)), pow-suc 2 (h + h), pow-double h, four_times (2 ^ h)))

module _ (h : ℕ) (secret : ℕ → ℕ → ℕ) where
  mix-Fits : (i : ℕ) (s : ℕ × ℕ) → Fits h s → Fits h (mix h secret i s)
  unfolding mix
  mix-Fits i (l, r) f = record {
    left = f.right;
    right = bit_xor-lt h l (secret i r % 2 ^ h) f.left (mod-lt (secret i r) (pow_pos h));
  }

  -- The round that takes a round back.
  unmix : ℕ → ℕ × ℕ → ℕ × ℕ
  unmix i (l, r) = (bit_xor r (secret i l % 2 ^ h), l)

  unmix-Fits : (i : ℕ) (s : ℕ × ℕ) → Fits h s → Fits h (unmix i s)
  unfolding unmix
  unmix-Fits i (l, r) f = record {
    left = bit_xor-lt h r (secret i l % 2 ^ h) f.right (mod-lt (secret i l) (pow_pos h));
    right = f.left;
  }

  unmix-mix : (i : ℕ) (s : ℕ × ℕ) → Fits h s → unmix i (mix h secret i s) ≡ s
  unfolding mix unmix
  unmix-mix i (l, r) f =
      ap (λ q. (q, r))
        (bit_xor_cancel h l (secret i r % 2 ^ h) f.left (mod-lt (secret i r) (pow_pos h)))

  mix-unmix : (i : ℕ) (s : ℕ × ℕ) → Fits h s → mix h secret i (unmix i s) ≡ s
  unfolding mix unmix
  mix-unmix i (l, r) f =
      ap (λ q. (l, q))
        (bit_xor_cancel h r (secret i l % 2 ^ h) f.right (mod-lt (secret i l) (pow_pos h)))

  rounds-Fits : (i n : ℕ) (s : ℕ × ℕ) → Fits h s → Fits h (mix_rounds h secret i n s)
  unfolding mix_rounds
  rounds-Fits i zero s f = f
  rounds-Fits i (suc n) s f = rounds-Fits (i + 1) n (mix h secret i s) (mix-Fits i s f)

  unmix_rounds : ℕ → ℕ → ℕ × ℕ → ℕ × ℕ
  unmix_rounds i zero s = s
  unmix_rounds i (suc n) s = unmix i (unmix_rounds (i + 1) n s)

  unmix_rounds-Fits : (i n : ℕ) (s : ℕ × ℕ) → Fits h s → Fits h (unmix_rounds i n s)
  unfolding unmix_rounds
  unmix_rounds-Fits i zero s f = f
  unmix_rounds-Fits i (suc n) s f =
      unmix-Fits i (unmix_rounds (i + 1) n s) (unmix_rounds-Fits (i + 1) n s f)

  unmix_rounds-mix_rounds :
      (i n : ℕ) (s : ℕ × ℕ) → Fits h s → unmix_rounds i n (mix_rounds h secret i n s) ≡ s
  unfolding unmix_rounds mix_rounds
  unmix_rounds-mix_rounds i zero s f = refl
  unmix_rounds-mix_rounds i (suc n) s f =
      ap (unmix i) (unmix_rounds-mix_rounds (i + 1) n (mix h secret i s) (mix-Fits i s f))
      ∙ unmix-mix i s f

  mix_rounds-unmix_rounds :
      (i n : ℕ) (s : ℕ × ℕ) → Fits h s → mix_rounds h secret i n (unmix_rounds i n s) ≡ s
  unfolding unmix_rounds mix_rounds
  mix_rounds-unmix_rounds i zero s f = refl
  mix_rounds-unmix_rounds i (suc n) s f =
      ap (mix_rounds h secret (i + 1) n)
        (mix-unmix i (unmix_rounds (i + 1) n s) (unmix_rounds-Fits (i + 1) n s f))
      ∙ mix_rounds-unmix_rounds (i + 1) n s f

module _ (h : ℕ) where
  split-Fits : (x : ℕ) → Fits h (split h x)
  unfolding split
  split-Fits x = record { left = mod-lt (x / 2 ^ h) (pow_pos h); right = mod-lt x (pow_pos h) }

  join_sum : (s : ℕ × ℕ) → Fits h s → join h s ≡ s.0 * 2 ^ h + s.1
  unfolding join
  join_sum (l, r) f = bit_or_sum h l r f.right

  split-join : (s : ℕ × ℕ) → Fits h s → split h (join h s) ≡ s
  unfolding split
  split-join (l, r) f =
      let high : (l * 2 ^ h + r) / 2 ^ h ≡ l =
        mul-add-div_right (pow_pos h) l r ∙ ap (λ q. l + q) (div-eq_of_lt f.right) ∙ add-zero l in
      let low : (l * 2 ^ h + r) % 2 ^ h ≡ r =
        mul-add-mod_self_right l (2 ^ h) r ∙ mod-eq_of_lt f.right in
      rw (join_sum (l, r) f, high, low, mod-eq_of_lt f.left) refl

  join-split : (x : ℕ) → x < 2 ^ h * 2 ^ h → join h (split h x) ≡ x
  unfolding split
  join-split x k =
      let small : x / 2 ^ h % 2 ^ h ≡ x / 2 ^ h =
        mod-eq_of_lt ((div-lt_iff_lt-mul (pow_pos h)).1 k) in
      join_sum (split h x) (split-Fits x) ∙ rw small (div-add-mod' x (2 ^ h))

  join-lt : (s : ℕ × ℕ) → Fits h s → join h s < 2 ^ h * 2 ^ h
  join-lt s f = rw (join_sum s f) (in_square (2 ^ h) s.0 s.1 f.left f.right)

some_inj : {a b : ℕ} → Option.some a ≡ some b → a ≡ b
some_inj e = cc

-- The number that `feistel` takes to a number, for halves of that width.
unfeistel : ℕ → ℕ → ℕ → (ℕ → ℕ → ℕ) → ℕ
unfeistel h y round secret = join h (unmix_rounds h secret 0 round (split h y))

module _ (h round : ℕ) (secret : ℕ → ℕ → ℕ) where
  feistel-some :
      (x : ℕ)
      → x < 2 ^ h * 2 ^ h
      → feistel (h + h) x round secret ≡ some (join h (mix_rounds h secret 0 round (split h x)))
  unfolding feistel
  feistel-some x k =
      let even : ((h + h) % 2 == 0) ≡ true = ground arith in
      let half : (h + h) / 2 ≡ h = omega arith in
      let inside : x / 2 ^ (h + h) ≡ 0 = div-eq_of_lt (rw (pow-double h) k) in
      rw (even, inside, half) refl

  feistel-none : (x : ℕ) → 2 ^ h * 2 ^ h ≤ x → feistel (h + h) x round secret ≡ none
  unfolding feistel
  feistel-none x k =
      let even : ((h + h) % 2 == 0) ≡ true = ground arith in
      let positive : 0 < 2 ^ (h + h) = pow_pos (h + h) in
      let outside : 1 ≤ x / 2 ^ (h + h) =
        (le-div_iff_mul-le positive).1 (rw (pow-double h) (omega arith)) in
      let test : (x / 2 ^ (h + h) == 0) ≡ false = nonzero (x / 2 ^ (h + h)) outside in
      rw (even, test) refl

  mixed-lt : (x : ℕ) → join h (mix_rounds h secret 0 round (split h x)) < 2 ^ h * 2 ^ h
  mixed-lt x = join-lt h _ (rounds-Fits h secret 0 round (split h x) (split-Fits h x))

  unfeistel-lt : (y : ℕ) → unfeistel h y round secret < 2 ^ h * 2 ^ h
  unfolding unfeistel
  unfeistel-lt y = join-lt h _ (unmix_rounds-Fits h secret 0 round (split h y) (split-Fits h y))

  unfeistel-mixed :
      (x : ℕ)
      → x < 2 ^ h * 2 ^ h
      → unfeistel h (join h (mix_rounds h secret 0 round (split h x))) round secret ≡ x
  unfolding unfeistel
  unfeistel-mixed x k =
      ap (λ s. join h (unmix_rounds h secret 0 round s))
        (split-join h _ (rounds-Fits h secret 0 round (split h x) (split-Fits h x)))
      ∙ ap (join h) (unmix_rounds-mix_rounds h secret 0 round (split h x) (split-Fits h x))
      ∙ join-split h x k

  mixed-unfeistel :
      (y : ℕ)
      → y < 2 ^ h * 2 ^ h
      → join h (mix_rounds h secret 0 round (split h (unfeistel h y round secret))) ≡ y
  unfolding unfeistel
  mixed-unfeistel y k =
      ap (λ s. join h (mix_rounds h secret 0 round s))
        (split-join h _ (unmix_rounds-Fits h secret 0 round (split h y) (split-Fits h y)))
      ∙ ap (join h) (mix_rounds-unmix_rounds h secret 0 round (split h y) (split-Fits h y))
      ∙ join-split h y k

-- For an even width, `feistel` takes each number of the width to a number of the width, and each number
-- of the width comes from exactly one. A number beyond the width fails an assertion.
pub feistel_permutes :
    (h round : ℕ) (secret : ℕ → ℕ → ℕ)
    → ((x : ℕ)
        → x < 2 ^ (h + h)
        → (y : ℕ) × (feistel (h + h) x round secret ≡ some y) × (y < 2 ^ (h + h)))
      × ((y : ℕ)
          → y < 2 ^ (h + h)
          → (x : ℕ) × (x < 2 ^ (h + h))
            × (feistel (h + h) x round secret ≡ some y)
            × ((z : ℕ) → z < 2 ^ (h + h) → feistel (h + h) z round secret ≡ some y → z ≡ x))
      × ((x : ℕ) → 2 ^ (h + h) ≤ x → feistel (h + h) x round secret ≡ none)
feistel_permutes h round secret = rw (pow-double h) (
  λ x k. (
    join h (mix_rounds h secret 0 round (split h x)),
    feistel-some h round secret x k,
    mixed-lt h round secret x,
  ),
  λ y k. (
    unfeistel h y round secret,
    unfeistel-lt h round secret y,
    feistel-some h round secret _ (unfeistel-lt h round secret y)
        ∙ ap some (mixed-unfeistel h round secret y k),
    λ z l e.
        let same : join h (mix_rounds h secret 0 round (split h z)) ≡ y =
          some_inj (sym (feistel-some h round secret z l) ∙ e) in
        sym (unfeistel-mixed h round secret z l) ∙ ap (λ q. unfeistel h q round secret) same,
  ),
  λ x k. feistel-none h round secret x k,
)
