-- ===== src/Tilemaxsimd/Protocol/Readers.antt =====
-- A reader that stands before known bytes.
use vector_chord.Base.{
  ℕ, ◌+◌, ◌^◌, ◌<◌, ◌≤◌, ◌≡◌, [], ◌++◌, length, take, drop, length-drop, length-append, take_append,
  drop_append, drop_add, arith, ap, ◌∙◌, subst,
}
use vector_chord.Tilemaxsimd.Protocol.{
  Bytes, usize_mod, le_bytes, Reader, ok, take_bytes, unsigned, finish,
}
use vector_chord.Tilemaxsimd.Protocol.Words.{length-le_bytes, le_value-le_bytes}

-- The reader has these bytes before it.
pub record IsBefore (rest : Bytes) (c : Reader) : Type 0 where
  pub ahead : drop c.offset c.bytes ≡ rest
  pub inside : c.offset ≤ length c.bytes
  pub short : length c.bytes < usize_mod

abbrev pub advance : ℕ → Reader → Reader
advance count c = record c { offset = c.offset + count }

pub length-ahead :
    {rest : Bytes} {c : Reader} → IsBefore rest c → length rest + c.offset ≡ length c.bytes
length-ahead {rest} {c} b =
    omega (arith, length-drop c.offset c.bytes, ap (λ (l : Bytes). length l) b.ahead, b.inside)

module _ (x rest : Bytes) {c : Reader} (b : IsBefore (x ++ rest) c) where
  advance-IsBefore : IsBefore rest (advance (length x) c)
  advance-IsBefore = record {
    ahead =
        drop_add c.offset (length x) c.bytes ∙ ap (drop (length x)) b.ahead ∙ drop_append x rest;
    inside = omega (arith, length-ahead b, length-append x rest);
    short = b.short;
  }

  -- The next bytes are read, and the reader stands behind them.
  pub bytes_step :
      (take_bytes (length x) c ≡ ok (x, advance (length x) c))
      × IsBefore rest (advance (length x) c)
  unfolding take_bytes
  bytes_step =
      let e : take (length x) (drop c.offset c.bytes) ≡ x =
        ap (take (length x)) b.ahead ∙ take_append x rest in
      (ground (arith, length-ahead b, length-append x rest, b.short, e), advance-IsBefore)

-- The next number is read, and the reader stands behind it.
pub uint_step :
    (count n : ℕ) (rest : Bytes) {c : Reader}
    → n < 256 ^ count
    → IsBefore (le_bytes count n ++ rest) c
    → (unsigned count c ≡ ok (n, advance count c)) × IsBefore rest (advance count c)
unfolding unsigned
uint_step count n rest {c} h b =
    let (e, b') =
      subst
        (λ k. (take_bytes k c ≡ ok (le_bytes count n, advance k c)) × IsBefore rest (advance k c))
        (length-le_bytes count n) (bytes_step (le_bytes count n) rest b) in
    (rw (e, le_value-le_bytes count n h), b')

pub finish_lem : (c : Reader) → IsBefore [] c → finish c ≡ ok (tt, c)
unfolding finish
finish_lem c b = ground (arith, length-ahead b)
