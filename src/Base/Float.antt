-- ===== src/Base/Float.antt =====
-- The operations of Rust's `f64` that the sources use. A section that computes with floats takes such
-- a record; a theorem that needs a law of IEEE arithmetic states it as a hypothesis.
use Prim.Native.Nat.{ℕ, ◌+◌, ◌/◌}
use Prim.Native.Nat as Nat
use vector_chord.Base.Tests.{ltb, leb, ◌==◌}
use mathlib.Core.Bool.{Bool}

pub record F64 : Type 1 where
  pub Carrier : Type 0
  pub of_ℕ : ℕ → Carrier
  pub add : Carrier → Carrier → Carrier
  pub div : Carrier → Carrier → Carrier
  pub max : Carrier → Carrier → Carrier
  pub min : Carrier → Carrier → Carrier
  pub le : Carrier → Carrier → Bool
  pub lt : Carrier → Carrier → Bool
  pub eq : Carrier → Carrier → Bool
  -- `total_cmp` answers `Less`
  pub total_lt : Carrier → Carrier → Bool

-- Whole numbers in place of floats, to run a model on.
abbrev pub whole : F64
whole = record {
  Carrier = ℕ;
  of_ℕ = λ n. n;
  add = λ a b. a + b;
  div = λ a b. a / b;
  max = Nat.max;
  min = Nat.min;
  le = leb;
  lt = ltb;
  eq = λ a b. a == b;
  total_lt = ltb;
}

-- The operations of Rust's `f32` that the sources use, on the bits of the floats.
pub record F32 : Type 0 where
  pub mul : ℕ → ℕ → ℕ
  pub lt : ℕ → ℕ → Bool
