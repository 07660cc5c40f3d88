-- ===== src/Extension/Client/Encoder.antt =====
-- src/index/vchordrq/scanners/maxsim/gpu.rs: `BoundedWriter` and `encode_external_descriptors`.
use vector_chord.Base.{
  ℕ, ◌+◌, ◌-◌, ◌%◌, ◌||◌, Option, none, some, List, [], ◌∷◌, ◌++◌, length, take, drop, replicate,
  min, max, leb, ltb, if◌then◌else◌,
}
use vector_chord.Tilemaxsimd.Protocol.{Bytes, usize_mod, le_bytes}
use vector_chord.Tilemaxsimd.Protocol.Frame.{
  magic, header_bytes, version_external, version_scheduled_external,
}
use vector_chord.Extension.Client.{
  tensor_mismatch, request_too_large, panicked, protocol, invalid_length, Outcome, ok, err, HeapKey,
}
use vector_chord.Extension.Client.Request.{
  ◌>>=◌, ◌>>◌, refuse_if, u32_of, checked, TensorDtype, f32, f16, dtype_code, OwnedVector, vecf32,
  vecf16, Scheduling, ExternalTensorDescriptor, EncodedRequest, tensor_metadata, tensor_bytes,
  validate_request_identity, validate_external_for_request,
}

pub record BoundedWriter : Type 0 where
  pub bytes : Bytes
  pub limit : ℕ

-- A write, and one write after another.
abbrev pub Write : Type 0
Write = BoundedWriter → Outcome BoundedWriter

infixr 6 ◌▷◌
abbrev pub ◌▷◌ : Write → Write → Write
(m ▷ k) w = m w >>= k

-- `bytes`, with `ensure`.
unfoldable pub put : Bytes → Write
put x w =
    let size = length w.bytes + length x in
    if leb usize_mod size || ltb w.limit size
    then err request_too_large
    else ok (record w { bytes = w.bytes ++ x })

-- `zeros`, with `ensure`.
unfoldable pub put_zeros : ℕ → Write
unfolding put
put_zeros count = put (replicate count 0)

-- `patch_bytes`
unfoldable pub patch : ℕ → Bytes → Write
patch offset x w =
    if ltb (length w.bytes) (offset + length x)
    then err panicked
    else ok (record w { bytes = take offset w.bytes ++ (x ++ drop (offset + length x) w.bytes) })

-- The numbers of a vector, each in so many bytes.
unfoldable pub put_values : ℕ → List ℕ → Write
unfolding put le_bytes
put_values size [] = ok
put_values size (x ∷ xs) = put (le_bytes size x) ▷ put_values size xs

unfoldable pub put_vector : TensorDtype → OwnedVector → Write
unfolding put_values
put_vector f32 (vecf32 xs) = put_values 4 xs
put_vector f16 (vecf16 xs) = put_values 2 xs
put_vector _ _ = λ w. err tensor_mismatch

unfoldable pub encode_tensor_values : TensorDtype → List OwnedVector → Write
unfolding put_vector
encode_tensor_values dtype [] = ok
encode_tensor_values dtype (v ∷ vs) = put_vector dtype v ▷ encode_tensor_values dtype vs

-- An `i32` from its bias to its bits.
abbrev pub i32_bits : ℕ → ℕ
i32_bits n = (n + 2147483648) % 4294967296

abbrev pub clamp_timeout : ℕ → ℕ
clamp_timeout ms = min (max ms 1) 600000

-- The three fields of a request that is scheduled.
unfoldable pub put_scheduling : Option Scheduling → ℕ → Write
unfolding put le_bytes
put_scheduling none timeout w = ok w
put_scheduling (some s) timeout w = u32_of (clamp_timeout timeout) >>= λ timeout_ms.
    u32_of (length s.tenant) >>= λ tenant_bytes.
    (put (le_bytes 4 (i32_bits s.priority))
        ▷ put (le_bytes 4 timeout_ms)
        ▷ put (le_bytes 4 tenant_bytes))
      w

unfoldable pub put_tenant : Option Scheduling → Write
unfolding put
put_tenant none = ok
put_tenant (some s) = put s.tenant

abbrev pub version_of : Option Scheduling → ℕ
version_of none = version_external
version_of (some s) = version_scheduled_external

-- All up to the candidates, with zeros for the header and for their count.
unfoldable pub preamble :
    ℕ → ℕ → TensorDtype → Bytes → Option Scheduling → ℕ → List OwnedVector → Write
unfolding put put_zeros put_scheduling put_tenant encode_tensor_values le_bytes
preamble dimension query_rows dtype contract scheduling timeout query w =
    u32_of (length contract) >>= λ contract_bytes.
    (put_zeros header_bytes
        ▷ put (le_bytes 4 dimension)
        ▷ put (le_bytes 4 query_rows)
        ▷ put (le_bytes 4 0)
        ▷ put (le_bytes 1 (dtype_code dtype))
        ▷ put (le_bytes 1 1)
        ▷ put (le_bytes 2 0)
        ▷ put (le_bytes 4 contract_bytes)
        ▷ put_scheduling scheduling timeout
        ▷ put contract
        ▷ put_tenant scheduling
        ▷ encode_tensor_values dtype query)
      w

-- The loop's variables.
pub record Progress : Type 0 where
  pub writer : BoundedWriter
  pub total_tokens : ℕ
  pub declared_tensor_bytes : ℕ
  pub heap_keys : List HeapKey

-- One candidate.
unfoldable pub put_descriptor : ℕ → ExternalTensorDescriptor → Write
unfolding put le_bytes
put_descriptor candidate_id d w = u32_of (length d.tensor_ref) >>= λ reference_bytes.
    u32_of (length d.checksum) >>= λ checksum_bytes.
    (put (le_bytes 4 candidate_id)
        ▷ put (le_bytes 4 d.rows)
        ▷ put (le_bytes 4 reference_bytes)
        ▷ put (le_bytes 4 checksum_bytes)
        ▷ put d.tensor_ref
        ▷ put d.checksum)
      w

-- The limits of a request: tokens and bytes.
pub record Limits : Type 0 where
  pub max_batch_tokens : ℕ
  pub max_batch_bytes : ℕ

unfoldable pub encode_descriptor :
    Limits → ℕ → TensorDtype → ExternalTensorDescriptor → Progress → Outcome Progress
unfolding validate_external_for_request tensor_bytes put_descriptor
encode_descriptor limits dimension dtype d p = do
  validate_external_for_request d dimension dtype
  total_tokens ← checked (p.total_tokens + d.rows)
  refuse_if (ltb limits.max_batch_tokens total_tokens) request_too_large
  bytes ← tensor_bytes d.rows dimension dtype
  declared_tensor_bytes ← checked (p.declared_tensor_bytes + bytes)
  refuse_if (ltb limits.max_batch_bytes declared_tensor_bytes) request_too_large
  candidate_id ← u32_of (length p.heap_keys)
  writer ← put_descriptor candidate_id d p.writer
  ok (record {
    writer = writer;
    total_tokens = total_tokens;
    declared_tensor_bytes = declared_tensor_bytes;
    heap_keys = p.heap_keys ++ d.heap_key ∷ [];
  })

unfoldable pub encode_loop :
    Limits → ℕ → TensorDtype → List ExternalTensorDescriptor → Progress → Outcome Progress
unfolding encode_descriptor
encode_loop limits dimension dtype [] p = ok p
encode_loop limits dimension dtype (d ∷ ds) p =
    encode_descriptor limits dimension dtype d p >>= encode_loop limits dimension dtype ds

-- The count of the candidates and the header, once all is written.
unfoldable pub patch_header : ℕ → ℕ → ℕ → Write
unfolding patch le_bytes
patch_header version request_id candidate_count w = do
  counted ← patch 32 (le_bytes 4 candidate_count) w
  refuse_if (ltb (length counted.bytes) header_bytes) (protocol invalid_length)
  (patch 0 magic
        ▷ patch 4 (le_bytes 2 version)
        ▷ patch 6 (le_bytes 2 1)
        ▷ patch 8 (le_bytes 8 request_id)
        ▷ patch 16 (le_bytes 8 (length counted.bytes - header_bytes)))
      counted

unfoldable pub encode_external_descriptors :
    ℕ
    → Bytes
    → List OwnedVector
    → List ExternalTensorDescriptor
    → Limits
    → Option Scheduling
    → ℕ
    → Outcome EncodedRequest
unfolding validate_request_identity tensor_metadata tensor_bytes preamble encode_loop patch_header
encode_external_descriptors request_id contract query descriptors limits scheduling timeout = do
  validate_request_identity contract scheduling
  metadata ← tensor_metadata query
  query_rows ← u32_of (length query)
  refuse_if (ltb limits.max_batch_tokens (length query)) request_too_large
  declared ← tensor_bytes query_rows metadata.1 metadata.0
  refuse_if (ltb limits.max_batch_bytes declared) request_too_large
  writer ←
      preamble metadata.1 query_rows metadata.0 contract scheduling timeout query
        (record { bytes = []; limit = limits.max_batch_bytes })
  refuse_if (ltb 65536 (length descriptors)) request_too_large
  p ← encode_loop limits metadata.1 metadata.0 descriptors (record {
    writer = writer;
    total_tokens = length query;
    declared_tensor_bytes = declared;
    heap_keys = [];
  })
  candidate_count ← u32_of (length p.heap_keys)
  done ← patch_header (version_of scheduling) request_id candidate_count p.writer
  ok (record { frame = done.bytes; heap_keys = p.heap_keys; version = version_of scheduling })
