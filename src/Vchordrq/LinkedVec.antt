-- ===== src/Vchordrq/LinkedVec.antt =====
-- crates/vchordrq/src/linked_vec.rs: a vector that grows by whole blocks and never moves its elements.
-- The capacity that `Vec::with_capacity` grants is a parameter, since it may be more than was asked.
pub mod Content
mod Tests
use vector_chord.Base.{ℕ, zero, suc, ◌+◌, ◌*◌, List, [], ◌∷◌, ◌++◌, length, ◌==◌, if◌then◌else◌}

pub record LinkedVec (T : Type 0) : Type 0 where
  pub inner : List (List T)
  pub last : List T
  -- `last.capacity()`
  pub capacity : ℕ

-- How a push went: `unreachable` is the failure of its `assert_unchecked`.
pub data Pushed (T : Type 0) : Type 0 where
  pushed : LinkedVec T → Pushed T
  unreachable : Pushed T

pub concat : {T : Type 0} → List T → List (List T) → List T
concat last [] = last
concat last (x ∷ xs) = concat (last ++ x) xs

module _ {T : Type 0} (granted : ℕ → ℕ) where
  pub new : LinkedVec T
  new = record { inner = []; last = []; capacity = granted 4096 }

  pub reserve : LinkedVec T → LinkedVec T
  reserve v = record {
    inner = v.inner ++ (v.last ∷ []);
    last = [];
    capacity = granted (v.capacity * 4);
  }

  push_within : T → LinkedVec T → Pushed T
  push_within value v =
      if length v.last == v.capacity
      then unreachable
      else pushed (record v { last = v.last ++ (value ∷ []) })

  pub push : T → LinkedVec T → Pushed T
  unfolding reserve push_within
  push value v = push_within value (if length v.last == v.capacity then reserve v else v)

  pub into_vec : LinkedVec T → List T
  unfolding concat
  into_vec v = concat v.last v.inner
