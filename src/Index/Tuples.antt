-- ===== src/Index/Tuples.antt =====
-- `RefChecker` and `MutChecker` of crates/index/src/tuples.rs: the ranges of a tuple's bytes that are
-- handed out as references. `size` is the size of the type that is read, and `parses` says whether the
-- bytes of a range are a value of the type, which the crate `zerocopy` decides.
pub mod Aliasing
mod Tests
use vector_chord.Base.{
  ℕ, ◌+◌, ◌%◌, Bool, true, false, not, ◌&&◌, Option, none, some, List, [], ◌∷◌, length, leb,
  if◌then◌else◌,
}

-- 2 ^ 64: the end of a prefix wraps around.
abbrev usize_mod : ℕ
usize_mod = 18446744073709551616

-- A range that is handed out, `none` where the source panics.
abbrev pub Range : Type 0
Range = ℕ × ℕ

pub ref_bytes : (parses : ℕ → ℕ → Bool) → ℕ → ℕ → ℕ → Option Range
ref_bytes parses len start end =
    if leb start end && leb end len && parses start end then some (start, end) else none

pub ref_prefix : (parses : ℕ → ℕ → Bool) → ℕ → ℕ → ℕ → Option Range
unfolding ref_bytes
ref_prefix parses len size start = ref_bytes parses len start ((start + size) % usize_mod)

pub record MutChecker : Type 0 where
  pub flag : ℕ
  pub len : ℕ

pub new : ℕ → MutChecker
new len = record { flag = 0; len = len }

-- A failed parse panics after the flag is set.
pub mut_bytes : (parses : ℕ → ℕ → Bool) → ℕ → ℕ → MutChecker → Option Range × MutChecker
mut_bytes parses start end c =
    if not (leb start end && leb end c.len)
    then (none, c)
    else if not (leb c.flag start)
    then (none, c)
    else let set : MutChecker = record c { flag = end } in
      (if parses start end then some (start, end) else none, set)

pub mut_prefix : (parses : ℕ → ℕ → Bool) → ℕ → ℕ → MutChecker → Option Range × MutChecker
unfolding mut_bytes
mut_prefix parses size start c = mut_bytes parses start ((start + size) % usize_mod) c

-- What a client asks for.
pub data Call : Type 0 where
  prefix : ℕ → ℕ → Call
  range : ℕ → ℕ → Call

pub answer : (parses : ℕ → ℕ → Bool) → Call → MutChecker → Option Range × MutChecker
unfolding mut_prefix mut_bytes
answer parses (prefix size start) c = mut_prefix parses size start c
answer parses (range start end) c = mut_bytes parses start end c

abbrev collect : Option Range → List Range → List Range
collect none rs = rs
collect (some r) rs = r ∷ rs

-- The ranges that a checker hands out for some calls.
pub handed_out : (parses : ℕ → ℕ → Bool) → List Call → MutChecker → List Range
unfolding answer
handed_out parses [] c = []
handed_out parses (k ∷ ks) c = let (r, d) = answer parses k c in collect r (handed_out parses ks d)
