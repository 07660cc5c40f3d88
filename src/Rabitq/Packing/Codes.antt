-- ===== src/Rabitq/Packing/Codes.antt =====
-- Codes that are packed and unpacked again.
use vector_chord.Base.{
  ℕ, zero, suc, ◌+◌, ◌*◌, ◌%◌, ◌^◌, ◌<◌, ◌≤◌, ◌≡◌, true, false, some, List, [], ◌∷◌, length, get_or,
  replicate, All, ltb, if◌then◌else◌, arith, refl, sym, ap, ◌∙◌, subst, length-replicate, if_elim,
  ltb→lt,
}
use vector_chord.Base.Bits.{bit_or_beside}
use vector_chord.Rabitq.Packing.{
  byte, low, high, pack_row, pack_rows, same_lengths, pack, unpack_row, unpack, padding_pack,
}

byte_sum : (a b : ℕ) → a < 16 → b < 16 → byte a b ≡ b * 16 + a
unfolding byte
byte_sum a b h k =
    let e : b * 16 % 256 ≡ b * 2 ^ 4 = omega arith in rw e (bit_or_beside 4 b a h ∙ omega arith)

low-byte : (a b : ℕ) → a < 16 → b < 16 → low (byte a b) ≡ a
unfolding low
low-byte a b h k = rw (byte_sum a b h k) (omega arith)

high-byte : (a b : ℕ) → a < 16 → b < 16 → high (byte a b) ≡ b
unfolding high
high-byte a b h k = rw (byte_sum a b h k) (omega arith)

-- The values of a function from a number on.
abbrev from : (ℕ → ℕ) → ℕ → ℕ → List ℕ
from x i zero = []
from x i (suc n) = x i ∷ from x (suc i) n

cons_eq : {a b : ℕ} {xs ys : List ℕ} → a ≡ b → xs ≡ ys → a ∷ xs ≡ b ∷ ys
cons_eq p q = λ i. p i ∷ q i

unpack_row-pack_row : (x : ℕ → ℕ) → ((k : ℕ) → x k < 16) → unpack_row (pack_row x) ≡ from x 0 32
unfolding unpack_row pack_row
unpack_row-pack_row x h = cons_eq (low-byte (x 0) (x 16) (h 0) (h 16)) (
    cons_eq (low-byte (x 1) (x 17) (h 1) (h 17)) (
      cons_eq (low-byte (x 2) (x 18) (h 2) (h 18)) (
        cons_eq (low-byte (x 3) (x 19) (h 3) (h 19)) (
          cons_eq (low-byte (x 4) (x 20) (h 4) (h 20)) (
            cons_eq (low-byte (x 5) (x 21) (h 5) (h 21)) (
              cons_eq (low-byte (x 6) (x 22) (h 6) (h 22)) (
                cons_eq (low-byte (x 7) (x 23) (h 7) (h 23)) (
                  cons_eq (low-byte (x 8) (x 24) (h 8) (h 24)) (
                    cons_eq (low-byte (x 9) (x 25) (h 9) (h 25)) (
                      cons_eq (low-byte (x 10) (x 26) (h 10) (h 26)) (
                        cons_eq (low-byte (x 11) (x 27) (h 11) (h 27)) (
                          cons_eq (low-byte (x 12) (x 28) (h 12) (h 28)) (
                            cons_eq (low-byte (x 13) (x 29) (h 13) (h 29)) (
                              cons_eq (low-byte (x 14) (x 30) (h 14) (h 30)) (
                                cons_eq (low-byte (x 15) (x 31) (h 15) (h 31)) (
                                  cons_eq (high-byte (x 0) (x 16) (h 0) (h 16)) (
                                    cons_eq (high-byte (x 1) (x 17) (h 1) (h 17)) (
                                      cons_eq (high-byte (x 2) (x 18) (h 2) (h 18)) (
                                        cons_eq (high-byte (x 3) (x 19) (h 3) (h 19)) (
                                          cons_eq (high-byte (x 4) (x 20) (h 4) (h 20)) (
                                            cons_eq (high-byte (x 5) (x 21) (h 5) (h 21)) (
                                              cons_eq (high-byte (x 6) (x 22) (h 6) (h 22)) (
                                                cons_eq (high-byte (x 7) (x 23) (h 7) (h 23)) (
                                                  cons_eq (high-byte (x 8) (x 24) (h 8) (h 24)) (
                                                    cons_eq (high-byte (x 9) (x 25) (h 9) (h 25)) (
                                                      cons_eq
                                                        (high-byte (x 10) (x 26) (h 10) (h 26))
                                                        (cons_eq
                                                          (high-byte (x 11) (x 27) (h 11) (h 27))
                                                          (cons_eq
                                                            (high-byte (x 12) (x 28) (h 12) (h 28))
                                                            (cons_eq
                                                            (high-byte (x 13) (x 29) (h 13) (h 29))
                                                            (cons_eq
                                                            (high-byte (x 14) (x 30) (h 14) (h 30))
                                                            (cons_eq
                                                            (high-byte (x 15) (x 31) (h 15) (h 31))
                                                            refl)))))))))))))))))))))))))))))))

get_or-from : (x : ℕ → ℕ) (i n k : ℕ) → k < n → get_or (from x i n) k 0 ≡ x (i + k)
get_or-from x i zero k h = elim h [ ]
get_or-from x i (suc n) zero h = ap x (omega arith)
get_or-from x i (suc n) (suc k) h = get_or-from x (suc i) n k (omega arith) ∙ ap x (omega arith)

from-suc : (x : ℕ → ℕ) (i n : ℕ) → from x (suc i) n ≡ from (λ k. x (suc k)) i n
from-suc x i zero = refl
from-suc x i (suc n) = ap (◌∷◌ (x (suc i))) (from-suc x (suc i) n)

from-get_or : (xs : List ℕ) → from (λ i. get_or xs i 0) 0 (length xs) ≡ xs
from-get_or [] = refl
from-get_or (x ∷ xs) =
    ap (◌∷◌ x) (from-suc (λ i. get_or (x ∷ xs) i 0) 0 (length xs) ∙ from-get_or xs)

-- A slice of 4-bit codes.
abbrev pub IsCodes : List ℕ → Type 0
IsCodes xs = All (λ c. c < 16) xs

get_or-IsCodes : (xs : List ℕ) (i : ℕ) → IsCodes xs → get_or xs i 0 < 16
get_or-IsCodes [] i a = omega arith
get_or-IsCodes (x ∷ xs) zero (p, a) = p
get_or-IsCodes (x ∷ xs) (suc i) (p, a) = get_or-IsCodes xs i a

unpack-pack_rows :
    (x : ℕ → List ℕ) (k i n : ℕ)
    → ((j : ℕ) → IsCodes (x j))
    → k < 32
    → unpack (pack_rows x i n) k ≡ from (λ i. get_or (x k) i 0) i n
unfolding unpack pack_rows
unpack-pack_rows x k i zero c h = refl
unpack-pack_rows x k i (suc n) c h =
    cons_eq
      (ap (λ l. get_or l k 0)
          (unpack_row-pack_row (λ k. get_or (x k) i 0) (λ j. get_or-IsCodes (x j) i (c j)))
        ∙ get_or-from (λ k. get_or (x k) i 0) 0 32 k h
        ∙ ap (λ j. get_or (x j) i 0) (omega arith))
      (unpack-pack_rows x k (suc i) n c h)

same_lengths-true :
    (x : ℕ → List ℕ) (n count : ℕ) → ((j : ℕ) → length (x j) ≡ n) → same_lengths x n count ≡ true
unfolding same_lengths
same_lengths-true x n zero l = refl
same_lengths-true x n (suc count) l = ground (arith, l count, same_lengths-true x n count l)

-- The slices with zeros behind them.
abbrev padded : List (List ℕ) → ℕ → ℕ → List ℕ
padded xs n i = if ltb i (length xs) then get_or xs i [] else replicate n 0

zeros-IsCodes : (n : ℕ) → IsCodes (replicate n 0)
zeros-IsCodes zero = tt
zeros-IsCodes (suc n) = (omega arith, zeros-IsCodes n)

get_or-All :
    (P : List ℕ → Type 0) (xs : List (List ℕ)) (i : ℕ)
    → All P xs
    → i < length xs
    → P (get_or xs i [])
get_or-All P [] i a h = elim h [ ]
get_or-All P (x ∷ xs) zero (p, a) h = p
get_or-All P (x ∷ xs) (suc i) (p, a) h = get_or-All P xs i a (omega arith)

padded-All :
    (P : List ℕ → Type 0) (xs : List (List ℕ)) (n i : ℕ)
    → All P xs
    → P (replicate n 0)
    → P (padded xs n i)
padded-All P xs n i a z =
    if_elim P (ltb i (length xs)) (λ e. get_or-All P xs i a (ltb→lt i (length xs) e)) (λ e. z)

padded-get_or : (xs : List (List ℕ)) (n i : ℕ) → padded xs n i ≡ get_or xs i (replicate n 0)
padded-get_or [] n zero = ground arith
padded-get_or [] n (suc i) = ground arith
padded-get_or (x ∷ xs) n zero = ground arith
padded-get_or (x ∷ xs) n (suc i) = ground (arith, padded-get_or xs n i)

pack-some :
    (x : ℕ → List ℕ) (n : ℕ) → ((j : ℕ) → length (x j) ≡ n) → pack x ≡ some (pack_rows x 0 n)
unfolding pack
pack-some x n l = rw (l 0, same_lengths-true x n 32 l) refl

-- Up to 32 slices of 4-bit codes, all of the same length, are packed, and unpacking gives each of them
-- back, and zeros for the slices up to the 32nd that were not there.
pub unpack-padding_pack :
    (xs : List (List ℕ)) (n : ℕ)
    → 0 < length xs
    → length xs ≤ 32
    → All (λ x. length x ≡ n) xs
    → All IsCodes xs
    → (rows : List (List ℕ)) × (padding_pack xs ≡ some rows)
      × ((k : ℕ) → k < 32 → unpack rows k ≡ get_or xs k (replicate n 0))
unfolding padding_pack
unpack-padding_pack [] n p m l c = elim p [ ]
unpack-padding_pack (x ∷ xs) n p m (e, l) c =
    let at = padded (x ∷ xs) (length x) in
    let few : ltb 32 (length (x ∷ xs)) ≡ false = ground arith in
    let size : (j : ℕ) → length (at j) ≡ length x = λ j.
      padded-All (λ y. length y ≡ length x) (x ∷ xs) (length x) j
        (refl, subst (λ q. All (λ y. length y ≡ q) xs) (sym e) l) (length-replicate (length x) 0) in
    let codes : (j : ℕ) → IsCodes (at j) =
      λ j. padded-All IsCodes (x ∷ xs) (length x) j c (zeros-IsCodes (length x)) in
    (
      pack_rows at 0 (length x),
      rw few (pack-some at (length x) size),
      λ k h.
          unpack-pack_rows at k 0 (length x) codes h
          ∙ ap (λ q. from (λ i. get_or (at k) i 0) 0 q) (sym (size k))
          ∙ from-get_or (at k)
          ∙ padded-get_or (x ∷ xs) (length x) k
          ∙ ap (λ q. get_or (x ∷ xs) k (replicate q 0)) e,
    )
