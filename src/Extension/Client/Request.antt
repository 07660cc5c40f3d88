-- ===== src/Extension/Client/Request.antt =====
-- src/index/vchordrq/scanners/maxsim/gpu.rs: `BoundedWriter` and `encode_external_descriptors`, the
-- request that names tensors by their digests. A string is the list of its UTF-8 bytes, a float the
-- number of its bits, an `i32` i the number i + 2 ^ 31. `panicked` is a slice out of range.
use vector_chord.Base.{
  ℕ, ◌*◌, Bool, true, false, not, ◌&&◌, ◌||◌, Option, none, some, List, [], ◌∷◌, length, ltb, ◌==◌,
  if◌then◌else◌,
}
use vector_chord.Base.Vecs.{any}
use vector_chord.Tilemaxsimd.Protocol.{Bytes, usize_mod, chars, any_control}
use vector_chord.Tilemaxsimd.Protocol.Frame.{
  priority_in_range, strip_prefix, checksum_prefix, is_lower_hex,
}
use vector_chord.Extension.Client.{
  RerankError, tensor_mismatch, unsupported_tensor_kind, request_too_large, invalid_contract,
  invalid_reference, invalid_checksum, invalid_scheduling, Outcome, ok, err, HeapKey,
}

infixl 5 ◌>>=◌ ◌>>◌
abbrev pub ◌>>=◌ {ℓ κ} : {A : Type ℓ} {B : Type κ} → Outcome A → (A → Outcome B) → Outcome B
ok a >>= f = f a
err e >>= f = err e

abbrev pub ◌>>◌ {ℓ κ} : {A : Type ℓ} {B : Type κ} → Outcome A → Outcome B → Outcome B
m >> k = m >>= λ a. k

abbrev pub refuse_if : Bool → RerankError → Outcome (Unit {0})
refuse_if true e = err e
refuse_if false e = ok tt

-- `u32::try_from`
abbrev pub u32_of : ℕ → Outcome ℕ
u32_of n = if ltb n 4294967296 then ok n else err request_too_large

-- `checked_add` and `checked_mul` of a `usize`.
abbrev pub checked : ℕ → Outcome ℕ
checked n = if ltb n usize_mod then ok n else err request_too_large

pub data TensorDtype : Type 0 where
  f32 f16 : TensorDtype

-- `dtype as u8`
abbrev pub dtype_code : TensorDtype → ℕ
dtype_code f32 = 1
dtype_code f16 = 2

abbrev pub same_dtype : TensorDtype → TensorDtype → Bool
same_dtype a b = dtype_code a == dtype_code b

-- The elements as bits, or the dimension of a quantised vector.
pub data OwnedVector : Type 0 where
  vecf32 vecf16 : List ℕ → OwnedVector
  rabitq8 rabitq4 : ℕ → OwnedVector

abbrev pub dim : OwnedVector → ℕ
dim (vecf32 xs) = length xs
dim (vecf16 xs) = length xs
dim (rabitq8 n) = n
dim (rabitq4 n) = n

abbrev pub dtype_of : OwnedVector → Outcome TensorDtype
dtype_of (vecf32 xs) = ok f32
dtype_of (vecf16 xs) = ok f16
dtype_of (rabitq8 n) = err unsupported_tensor_kind
dtype_of (rabitq4 n) = err unsupported_tensor_kind

pub record Scheduling : Type 0 where
  pub tenant : Bytes
  pub priority : ℕ

pub record ExternalTensorDescriptor : Type 0 where
  pub heap_key : HeapKey
  pub tensor_ref : Bytes
  pub rows : ℕ
  pub dimension : ℕ
  pub dtype : TensorDtype
  pub checksum : Bytes

pub record EncodedRequest : Type 0 where
  pub frame : Bytes
  pub heap_keys : List HeapKey
  pub version : ℕ

-- `chars().any(char::is_control)`: what is no UTF-8 is no string.
unfoldable pub has_control : Bytes → Bool
has_control s = elim (chars 0 0 0 0 s) [ none ↦ false | some cs ↦ any_control cs ]

unfoldable pub check_matches : TensorDtype → ℕ → List OwnedVector → Outcome (Unit {0})
check_matches dtype dimension [] = ok tt
check_matches dtype dimension (v ∷ vs) = do
  found ← dtype_of v
  refuse_if (not (same_dtype found dtype) || not (dim v == dimension)) tensor_mismatch
  check_matches dtype dimension vs

unfoldable pub tensor_metadata : List OwnedVector → Outcome (TensorDtype × ℕ)
unfolding check_matches
tensor_metadata [] = err tensor_mismatch
tensor_metadata (v ∷ vs) = do
  dtype ← dtype_of v
  check_matches dtype (dim v) (v ∷ vs)
  ok (dtype, dim v)

abbrev pub scalar_bytes : TensorDtype → ℕ
scalar_bytes f32 = 4
scalar_bytes f16 = 2

unfoldable pub tensor_bytes : ℕ → ℕ → TensorDtype → Outcome ℕ
tensor_bytes rows dimension dtype =
    checked (rows * dimension) >>= λ elements. checked (elements * scalar_bytes dtype)

unfoldable pub validate_request_identity : Bytes → Option Scheduling → Outcome (Unit {0})
unfolding has_control
validate_request_identity contract scheduling =
    refuse_if (length contract == 0 || ltb 512 (length contract) || has_control contract)
      invalid_contract
    >> elim scheduling [
      | none ↦ ok tt
      | some s ↦
          refuse_if
            (length s.tenant == 0
              || ltb 256 (length s.tenant)
              || has_control s.tenant
              || not (priority_in_range s.priority))
            invalid_scheduling
    ]

abbrev pub is_digest : Option Bytes → Bool
is_digest none = false
is_digest (some digest) = length digest == 64 && not (any (λ b. not (is_lower_hex b)) digest)

unfoldable pub validate_external_for_request :
    ExternalTensorDescriptor → ℕ → TensorDtype → Outcome (Unit {0})
unfolding has_control any
validate_external_for_request d dimension dtype = do
  refuse_if
      (d.rows == 0
        || ltb 65536 d.rows
        || ltb 60000 dimension
        || not (d.dimension == dimension)
        || not (same_dtype d.dtype dtype))
      tensor_mismatch
  refuse_if (length d.tensor_ref == 0 || ltb 4096 (length d.tensor_ref) || has_control d.tensor_ref)
      invalid_reference
  refuse_if
      (ltb 512 (length d.checksum) || not (is_digest (strip_prefix checksum_prefix d.checksum)))
      invalid_checksum
