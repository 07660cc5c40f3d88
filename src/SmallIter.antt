-- ===== src/SmallIter.antt =====
-- crates/small_iter: an iterator over a copied slice, in place if it is short, otherwise behind a
-- pointer. The buffer of the one and the memory behind the other are lists.
pub mod Order
mod Tests
use vector_chord.Base.{
  ℕ, ◌+◌, ◌-◌, ◌%◌, ◌&&◌, Option, none, some, List, length, get_elem?, leb, ltb, if◌then◌else◌,
}

pub record StackIter (T : Type 0) : Type 0 where
  pub off : ℕ
  pub len : ℕ
  pub buffer : List T

pub record HeapIter (T : Type 0) : Type 0 where
  pub off : ℕ
  pub len : ℕ
  pub pointer : List T

pub data Iter (T : Type 0) : Type 0 where
  stack : StackIter T → Iter T
  heap : HeapIter T → Iter T

abbrev pub u16_mod : ℕ
u16_mod = 65536

-- What a step answers; `unread` is a read outside the slice, which the `unsafe` code must never do.
pub data Answer (A : Type 0) : Type 0 where
  item : A → Answer A
  done unread : Answer A

abbrev pub read : {T A : Type 0} → Option T → (T → Answer A) → Answer A
read none f = unread
read (some x) f = f x

abbrev map_some : {A B : Type 0} → (A → B) → Option A → Option B
map_some f none = none
map_some f (some a) = some (f a)

module _ {T : Type 0} where
  -- An assertion that fails is `none`.
  pub stack_from_slice : ℕ → List T → Option (StackIter T)
  stack_from_slice n slice =
      if leb (length slice) n && leb n 65535
      then some (record { off = 0; len = length slice % u16_mod; buffer = slice })
      else none

  pub heap_from_slice : List T → Option (HeapIter T)
  heap_from_slice slice =
      if leb (length slice) 65535
      then some (record { off = 0; len = length slice % u16_mod; pointer = slice })
      else none

  pub stack_next : StackIter T → Answer (T × StackIter T)
  stack_next i =
      if ltb i.off i.len
      then read (get_elem? i.buffer i.off) (λ r. item (r, record i { off = i.off + 1 }))
      else done

  pub heap_next : HeapIter T → Answer (T × HeapIter T)
  heap_next i =
      if ltb i.off i.len
      then read (get_elem? i.pointer i.off) (λ r. item (r, record i { off = i.off + 1 }))
      else done

  -- `alloc` copies the slice; what it returns is the slice again.
  pub from_slice : ℕ → List T → Option (Iter T)
  unfolding stack_from_slice heap_from_slice
  from_slice n slice =
      if leb (length slice) 65535
      then if leb (length slice) n && leb n 65535
        then map_some stack (stack_from_slice n slice)
        else map_some heap (heap_from_slice slice)
      else none

  abbrev wrap : {I : Type 0} → (I → Iter T) → Answer (T × I) → Answer (T × Iter T)
  wrap f (item (x, i)) = item (x, f i)
  wrap f done = done
  wrap f unread = unread

  pub next : Iter T → Answer (T × Iter T)
  unfolding stack_next heap_next
  next (stack i) = wrap stack (stack_next i)
  next (heap i) = wrap heap (heap_next i)

  pub size_hint : Iter T → ℕ
  size_hint (stack i) = i.len - i.off
  size_hint (heap i) = i.len - i.off
