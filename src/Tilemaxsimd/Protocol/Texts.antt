-- ===== src/Tilemaxsimd/Protocol/Texts.antt =====
-- Texts that `check_text` lets through.
use vector_chord.Base.{
  ℕ, ◌<◌, ◌≤◌, ◌≡◌, true, false, ◌||◌, some, List, [], ◌∷◌, ◌++◌, length, All, ltb, ◌==◌, arith,
  refl,
}
use vector_chord.Tilemaxsimd.Protocol.{Bytes, Reader, ok, any_control, chars, check_text, text}
use vector_chord.Tilemaxsimd.Protocol.Readers.{IsBefore, advance, bytes_step}

-- A string without control characters.
pub record IsText (s : Bytes) : Type 0 where
  pub characters : List ℕ
  pub decoded : chars 0 0 0 0 s ≡ some characters
  pub plain : any_control characters ≡ false

pub check_text-IsText : (s : Bytes) → IsText s → check_text s ≡ ok s
unfolding check_text
check_text-IsText s t = rw (t.decoded, check_text) (rw (t.plain) refl)

-- The characters of ASCII that are printed.
abbrev pub IsPrinted : ℕ → Type 0
IsPrinted c = (32 ≤ c) × (c ≤ 126)

chars-ascii : (s : Bytes) → All IsPrinted s → chars 0 0 0 0 s ≡ some s
unfolding chars
chars-ascii [] a = refl
chars-ascii (c ∷ cs) (p, a) =
    let e : ltb c 128 ≡ true = ground arith in rw (e, chars) (rw (chars-ascii cs a) refl)

any_control-ascii : (s : Bytes) → All IsPrinted s → any_control s ≡ false
any_control-ascii [] a = refl
any_control-ascii (c ∷ cs) (p, a) = ground (arith, any_control-ascii cs a)

pub ascii-IsText : (s : Bytes) → All IsPrinted s → IsText s
ascii-IsText s a = record {
  characters = s;
  decoded = chars-ascii s a;
  plain = any_control-ascii s a;
}

in_bounds : (n m : ℕ) → 0 < n → n ≤ m → (n == 0 || ltb m n) ≡ false
in_bounds n m p q = ground arith

-- A text is read, where its length is in bounds.
pub text_step :
    (x : Bytes) (maximum : ℕ) (rest : Bytes) {r : Reader}
    → IsText x
    → 0 < length x
    → length x ≤ maximum
    → IsBefore (x ++ rest) r
    → (text (length x) maximum r ≡ ok (x, advance (length x) r))
      × IsBefore rest (advance (length x) r)
unfolding text
text_step x maximum rest {r} t p m b =
    let (e, b') = bytes_step x rest b in
    let n : (length x == 0 || ltb maximum (length x)) ≡ false = in_bounds (length x) maximum p m in
    (rw (n, e, check_text-IsText x t) refl, b')
