-- ===== src/Vector/Bvect/Operators.antt =====
-- What the constructor accepts, and the operations bit by bit.
use Prim.Native.Nat.{bit_and, bit_or, bit_xor}
use vector_chord.Base.{
  ℕ, zero, suc, ◌+◌, ◌-◌, ◌/◌, ◌%◌, ◌^◌, ◌≤◌, ◌<◌, ◌≡◌, ◌≢◌, Bool, true, not, ◌&&◌, ◌||◌, Option,
  none, some, List, [], ◌∷◌, All, length, get_elem?, get_or, leb, ◌==◌, if◌then◌else◌, if_elim,
  lt→ltb, arith, refl, sym, ap, ◌∙◌, subst,
}
use native.Mathlib.Nat.{div-eq_of_lt}
use vector_chord.Base.Digits.{
  bit_at, IsDigitwise, exclusive, bit_and-IsDigitwise, bit_or-IsDigitwise, bit_xor-IsDigitwise,
}
use vector_chord.Vector.Bvect.{
  Bvect, new_checked, get, zip_words, new, operator_and, operator_or, operator_xor,
}

-- The bits behind the dimension are zero.
pub record IsValid (v : Bvect) : Type 0 where
  pub dim_in_range : (1 ≤ v.dim) × (v.dim ≤ 65535)
  pub long : length v.words ≡ (v.dim + 63) / 64
  pub in_words : All (λ w. w < 2 ^ 64) v.words
  pub padding : v.dim % 64 ≢ 0 → get_or v.words (length v.words - 1) 0 < 2 ^ (v.dim % 64)

module _ (op : ℕ → ℕ → ℕ) where
  length-zip_words :
      (xs ys : List ℕ) → length xs ≡ length ys → length (zip_words op xs ys) ≡ length xs
  unfolding zip_words
  length-zip_words [] ys e = refl
  length-zip_words (x ∷ xs) [] e = absurd (omega arith)
  length-zip_words (x ∷ xs) (y ∷ ys) e = ap suc (length-zip_words xs ys (omega arith))

  get-zip_words :
      (xs ys : List ℕ) (i : ℕ)
      → length xs ≡ length ys
      → i < length xs
      → (x y : ℕ) × (get_elem? xs i ≡ some x)
        × (get_elem? ys i ≡ some y)
        × (get_elem? (zip_words op xs ys) i ≡ some (op x y))
  unfolding zip_words
  get-zip_words [] ys i e h = absurd (omega arith)
  get-zip_words (x ∷ xs) [] i e h = absurd (omega arith)
  get-zip_words (x ∷ xs) (y ∷ ys) zero e h = (x, y, refl, refl, refl)
  get-zip_words (x ∷ xs) (y ∷ ys) (suc i) e h = get-zip_words xs ys i (omega arith) (omega arith)

  words-zip_words :
      ((a b : ℕ) → a < 2 ^ 64 → b < 2 ^ 64 → op a b < 2 ^ 64)
      → (xs ys : List ℕ) → All (λ w. w < 2 ^ 64) xs
      → All (λ w. w < 2 ^ 64) ys
      → All (λ w. w < 2 ^ 64) (zip_words op xs ys)
  unfolding zip_words
  words-zip_words f [] ys a b = tt
  words-zip_words f (x ∷ xs) [] a b = tt
  words-zip_words f (x ∷ xs) (y ∷ ys) (h, a) (k, b) = (f x y h k, words-zip_words f xs ys a b)

get_or-some : (xs : List ℕ) (i x : ℕ) → get_elem? xs i ≡ some x → get_or xs i 0 ≡ x
get_or-some [] i x e = absurd (ground arith)
get_or-some (y ∷ xs) zero x e = ground arith
get_or-some (y ∷ xs) (suc i) x e = get_or-some xs i x e

get-bit :
    (v : Bvect) (i word : ℕ)
    → i < v.dim
    → get_elem? v.words (i / 64) ≡ some word
    → get v i ≡ some (bit_at (i % 64) word)
unfolding get
get-bit v i word h e = rw (lt→ltb i v.dim h, e) refl

-- Within the last word, what is behind the dimension is zero.
last_word :
    (v : Bvect)
    → IsValid v
    → (k n x : ℕ) → v.dim % 64 ≡ k
    → length v.words ≡ n
    → k ≢ 0
    → get_elem? v.words (n - 1) ≡ some x
    → x < 2 ^ k
last_word v h k n x p q z e =
    let short : get_or v.words (length v.words - 1) 0 < 2 ^ (v.dim % 64) =
      h.padding (λ y. z (sym p ∙ y)) in
    subst (λ m. x < 2 ^ m) p
      (subst (λ m. m < 2 ^ (v.dim % 64))
        (get_or-some v.words (length v.words - 1) x (ap (λ m. get_elem? v.words (m - 1)) q ∙ e))
        short)

new_checked-accepts : (v : Bvect) → IsValid v → new_checked v.dim v.words ≡ some v
unfolding new_checked
new_checked-accepts v h =
    if_elim (λ r. r ≡ some v) (not (leb 1 v.dim && leb v.dim 65535))
      (λ e. absurd (ground (arith, h.dim_in_range)))
      (λ e1.
        if_elim (λ r. r ≡ some v) (not (length v.words == (v.dim + 63) / 64))
          (λ e. absurd (ground (arith, h.long)))
          (λ e2.
            if_elim (λ r. r ≡ some v)
              (not (v.dim % 64 == 0)
                && not (get_or v.words (length v.words - 1) 0 / 2 ^ (v.dim % 64) == 0))
              (λ e. absurd (beyond v h e)) (λ e3. refl)))
  where
    beyond :
        (w : Bvect)
        → IsValid w
        → not (w.dim % 64 == 0)
            && not (get_or w.words (length w.words - 1) 0 / 2 ^ (w.dim % 64) == 0)
          ≡ true
        → ⊥
    beyond w k e =
        let some_bits : w.dim % 64 ≢ 0 = λ z. absurd (ground arith) in
        let none_beyond : get_or w.words (length w.words - 1) 0 / 2 ^ (w.dim % 64) ≡ 0 =
          div-eq_of_lt (k.padding some_bits) in
        ground arith

-- What an operation on bits comes to: a valid vector with the operation on every bit, and a panic if the
-- dimensions differ.
pub record IsBitwise (g : Bool → Bool → Bool) (a b : Bvect) (r : Option Bvect) : Type 0 where
  pub same_dim :
      a.dim ≡ b.dim
      → (c : Bvect) × (r ≡ some c)
        × IsValid c
        × (c.dim ≡ a.dim)
        × ((i : ℕ)
            → i < a.dim
            → (x y : Bool) × (get a i ≡ some x) × (get b i ≡ some y) × (get c i ≡ some (g x y)))
  pub other_dim : a.dim ≢ b.dim → r ≡ none

module _ (op : ℕ → ℕ → ℕ) (g : Bool → Bool → Bool) (d : IsDigitwise op g) (a b : Bvect)
    (v : IsValid a) (w : IsValid b) (e : a.dim ≡ b.dim) where
  abbrev made : Bvect
  made = record { dim = a.dim; words = zip_words op a.words b.words }

  same_length : length a.words ≡ length b.words
  same_length = omega (arith, v.long, w.long, e)

  made-IsValid : IsValid made
  made-IsValid = record {
    dim_in_range = v.dim_in_range;
    long = length-zip_words op a.words b.words same_length ∙ v.long;
    in_words = words-zip_words op (d.lt 64) a.words b.words v.in_words w.in_words;
    padding = λ n.
        let last : ℕ = length a.words - 1 in
        let (x, y, p, q, r) =
          get-zip_words op a.words b.words last same_length
            (omega (arith, v.long, v.dim_in_range)) in
        let l = length-zip_words op a.words b.words same_length in
        rw (l, get_or-some (zip_words op a.words b.words) last (op x y) r)
          (d.lt (a.dim % 64) x y (last_word a v (a.dim % 64) (length a.words) x refl refl n p) (
            last_word b w (a.dim % 64) (length a.words) y (ap (λ m. m % 64) (sym e))
              (sym same_length) n q));
  }

  made-get :
      (i : ℕ)
      → i < a.dim
      → (x y : Bool) × (get a i ≡ some x) × (get b i ≡ some y) × (get made i ≡ some (g x y))
  unfolding get
  made-get i h =
      let (x, y, p, q, r) =
        get-zip_words op a.words b.words (i / 64) same_length (omega (arith, v.long, h)) in
      (
        bit_at (i % 64) x,
        bit_at (i % 64) y,
        get-bit a i x h p,
        get-bit b i y (omega (arith, h, e)) q,
        get-bit made i (op x y) h r ∙ ap some (d.at (i % 64) x y),
      )

  made-IsBitwise : (r : Option Bvect) → r ≡ new_checked made.dim made.words → IsBitwise g a b r
  made-IsBitwise r q = record {
    same_dim = λ x. (made, q ∙ new_checked-accepts made made-IsValid, made-IsValid, refl, made-get);
    other_dim = λ n. absurd (n e);
  }

-- The result of an operator, `o` being the operation on words and `r` what the operator gives.
by_dim :
    (op : ℕ → ℕ → ℕ) (g : Bool → Bool → Bool)
    → IsDigitwise op g
    → (a b : Bvect) → IsValid a
    → IsValid b
    → IsBitwise g a b (
        if a.dim == b.dim
        then new a.dim
            (if length a.words == length b.words then some (zip_words op a.words b.words) else none)
        else none)
by_dim op g d a b v w =
    if_elim (IsBitwise g a b) (a.dim == b.dim)
      (λ e.
        let same : a.dim ≡ b.dim = ground arith in
        made-IsBitwise op g d a b v w same _ (
          rw (same_words (length a.words) (length b.words) (same_length op g d a b v w same)) refl))
      (λ e. record { same_dim = λ same. absurd (ground arith); other_dim = λ n. refl })
  where
    same_words : (m n : ℕ) → m ≡ n → (m == n) ≡ true
    same_words m n e = ground arith

-- Of valid vectors of bits, `operator_and`, `operator_or` and `operator_xor` work on every bit and give
-- a valid vector, which the constructor accepts; they panic just if the dimensions differ.
pub operators-IsBitwise :
    (a b : Bvect)
    → IsValid a
    → IsValid b
    → IsBitwise ◌&&◌ a b (operator_and a b)
      × IsBitwise ◌||◌ a b (operator_or a b)
      × IsBitwise exclusive a b (operator_xor a b)
unfolding operator_and operator_or operator_xor
operators-IsBitwise a b v w = (
  by_dim bit_and ◌&&◌ bit_and-IsDigitwise a b v w,
  by_dim bit_or ◌||◌ bit_or-IsDigitwise a b v w,
  by_dim bit_xor exclusive bit_xor-IsDigitwise a b v w,
)
