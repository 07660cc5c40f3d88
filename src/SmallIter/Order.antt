-- ===== src/SmallIter/Order.antt =====
-- The iterator gives the slice, and never reads outside it.
use vector_chord.Base.{
  ℕ, zero, suc, ◌+◌, ◌-◌, ◌%◌, ◌≤◌, ◌<◌, ◌≡◌, Bool, true, false, ◌&&◌, none, some, List, [], ◌∷◌,
  length, get_elem?, drop, leb, arith, refl, ap, ◌∙◌,
}
use vector_chord.SmallIter.{
  Iter, stack, heap, item, done, from_slice, stack_from_slice, heap_from_slice, next, stack_next,
  heap_next, size_hint,
}

drop-length : {T : Type 0} (i : ℕ) (l : List T) → length (drop i l) ≡ length l - i
drop-length zero l = omega arith
drop-length (suc i) [] = omega arith
drop-length (suc i) (x ∷ xs) = omega (arith, drop-length i xs)

drop-suc :
    {T : Type 0} (i : ℕ) (l : List T) (x : T) (xs : List T)
    → drop i l ≡ x ∷ xs
    → (get_elem? l i ≡ some x) × (drop (suc i) l ≡ xs)
drop-suc zero [] x xs e = absurd (ground arith)
drop-suc zero (y ∷ ys) x xs e = (ground arith, ground arith)
drop-suc (suc i) [] x xs e = absurd (ground arith)
drop-suc (suc i) (y ∷ ys) x xs e = drop-suc i ys x xs e

drop-cons :
    {T : Type 0} (i : ℕ) (l : List T) (x : T) (xs : List T)
    → drop i l ≡ x ∷ xs
    → (get_elem? l i ≡ some x) × (drop (i + 1) l ≡ xs)
drop-cons i l x xs e =
    let (g, t) = drop-suc i l x xs e in
    let next : i + 1 ≡ suc i = omega arith in (g, ap (λ n. drop n l) next ∙ t)

module _ {T : Type 0} where
  -- What is still to come, and the length that the iterator has noted is that of the slice.
  unfoldable pub IsOver : List T → Iter T → Type 0
  IsOver rest (stack i) = (i.len ≡ length i.buffer) × (i.off ≤ i.len) × (drop i.off i.buffer ≡ rest)
  IsOver rest (heap i) =
      (i.len ≡ length i.pointer) × (i.off ≤ i.len) × (drop i.off i.pointer ≡ rest)

  -- A slice of at most 65535 elements makes an iterator over just these, whatever the size of the
  -- buffer; a longer one is refused.
  pub from_slice_lem :
      (n : ℕ) (slice : List T)
      → (length slice ≤ 65535 → (i : Iter T) × (from_slice n slice ≡ some i) × IsOver slice i)
        × (65535 < length slice → from_slice n slice ≡ none)
  unfolding from_slice stack_from_slice heap_from_slice IsOver
  from_slice_lem n slice = (λ h. go (leb (length slice) n && leb n 65535) refl h, λ h. ground arith)
    where
      go :
          (b : Bool)
          → (leb (length slice) n && leb n 65535) ≡ b
          → length slice ≤ 65535
          → (i : Iter T) × (from_slice n slice ≡ some i) × IsOver slice i
      go true e h = (
        stack (record { off = 0; len = length slice % 65536; buffer = slice }),
        ground arith,
        (omega arith, omega arith, refl),
      )
      go false e h = (
        heap (record { off = 0; len = length slice % 65536; pointer = slice }),
        ground arith,
        (omega arith, omega arith, refl),
      )

  -- `next` gives the first of the elements that are to come and leaves the others, or is done when
  -- there is none, and `size_hint` is their number: no read is outside the slice.
  pub next_lem :
      (rest : List T) (i : Iter T)
      → IsOver rest i
      → (size_hint i ≡ length rest)
        × (rest ≡ [] → next i ≡ done)
        × ((x : T) (xs : List T)
            → rest ≡ x ∷ xs
            → (j : Iter T) × (next i ≡ item (x, j)) × IsOver xs j)
  unfolding next stack_next heap_next size_hint IsOver
  next_lem rest (stack i) (n, o, d) =
      let l = ap (λ (r : List T). length r) d in
      (
        omega (arith, l, drop-length i.off i.buffer, n),
        λ e. ground (arith, l, drop-length i.off i.buffer, n, ap (λ (r : List T). length r) e),
        λ x xs e.
            let (g, t) = drop-cons i.off i.buffer x xs (d ∙ e) in
            let k = ap (λ (r : List T). length r) e in
            let before : i.off < i.len = omega (arith, l, k, drop-length i.off i.buffer, n) in
            (
              stack (record i { off = i.off + 1 }),
              ground (arith, g, before),
              (n, omega (arith, before), t),
            ),
      )
  next_lem rest (heap i) (n, o, d) =
      let l = ap (λ (r : List T). length r) d in
      (
        omega (arith, l, drop-length i.off i.pointer, n),
        λ e. ground (arith, l, drop-length i.off i.pointer, n, ap (λ (r : List T). length r) e),
        λ x xs e.
            let (g, t) = drop-cons i.off i.pointer x xs (d ∙ e) in
            let k = ap (λ (r : List T). length r) e in
            let before : i.off < i.len = omega (arith, l, k, drop-length i.off i.pointer, n) in
            (
              heap (record i { off = i.off + 1 }),
              ground (arith, g, before),
              (n, omega (arith, before), t),
            ),
      )
