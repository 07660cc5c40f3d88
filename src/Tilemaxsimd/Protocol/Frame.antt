-- ===== src/Tilemaxsimd/Protocol/Frame.antt =====
-- `parse`, `success` and `failure` of services/tilemaxsimd/src/protocol.rs: a request frame is read and
-- checked field by field, and a response frame is written.
pub mod Limits
pub mod Accepted
mod Tests
use vector_chord.Base.{
  ℕ, zero, suc, ◌+◌, ◌-◌, ◌*◌, ◌/◌, ◌%◌, min, max, Bool, true, false, not, ◌&&◌, ◌||◌, Option, none,
  some, List, [], ◌∷◌, ◌++◌, length, take, drop, leb, ltb, ◌==◌, if◌then◌else◌,
}
use vector_chord.Base.Vecs.{any}
use vector_chord.Tilemaxsimd.Protocol.{
  Error, truncated_header, invalid_magic, unsupported_version, length_mismatch, unsupported_dtype,
  invalid_shape, shape_too_large, non_finite, unsupported_scoring, too_many_candidates,
  invalid_priority, invalid_timeout, duplicate_candidate, unsupported_reference, invalid_descriptor,
  token_overflow, byte_overflow, exceeds_limits, Result, ok, err, usize_mod, Bytes, Descriptor,
  Request, Reader, Read, ◌>>=◌, ◌>>◌, pure, bail_if, lift, take_bytes, le_value, le_bytes, unsigned,
  signed, text, finish, within,
}

abbrev pub header_bytes : ℕ
header_bytes = 24

abbrev pub version_external : ℕ
version_external = 2

abbrev pub version_scheduled_external : ℕ
version_scheduled_external = 3

-- "VCTM"
abbrev pub magic : Bytes
magic = 86 ∷ 67 ∷ 84 ∷ 77 ∷ []

abbrev pub same_bytes : Bytes → Bytes → Bool
same_bytes [] [] = true
same_bytes [] (y ∷ ys) = false
same_bytes (x ∷ xs) [] = false
same_bytes (x ∷ xs) (y ∷ ys) = x == y && same_bytes xs ys

abbrev pub scalar_bytes : ℕ → Result ℕ
scalar_bytes dtype = if dtype == 1 then ok 4 else if dtype == 2 then ok 2 else err unsupported_dtype

unfoldable pub tensor_bytes : ℕ → ℕ → ℕ → Result ℕ
tensor_bytes rows dimension dtype = elim (scalar_bytes dtype) [
  | err e ↦ err e
  | ok scalar ↦
      if rows == 0 || dimension == 0 || ltb 60000 dimension
      then err invalid_shape
      else if leb usize_mod (rows * dimension) || leb usize_mod (rows * dimension * scalar)
      then err shape_too_large
      else ok (rows * dimension * scalar)
]

-- The exponent of a float of 32 or 16 bits is not all ones.
abbrev pub is_finite_f32 : ℕ → Bool
is_finite_f32 bits = not (bits / 8388608 % 256 == 255)

abbrev pub is_finite_f16 : ℕ → Bool
is_finite_f16 bits = not (bits / 1024 % 32 == 31)

-- Of the whole chunks of four, or of two, bytes.
abbrev pub finite_f32 : Bytes → Bool
finite_f32 (a ∷ b ∷ c ∷ d ∷ bs) = is_finite_f32 (le_value (a ∷ b ∷ c ∷ d ∷ [])) && finite_f32 bs
finite_f32 _ = true

abbrev pub finite_f16 : Bytes → Bool
finite_f16 (a ∷ b ∷ bs) = is_finite_f16 (le_value (a ∷ b ∷ [])) && finite_f16 bs
finite_f16 _ = true

unfoldable pub validate_finite : Bytes → ℕ → Result (Unit {0})
validate_finite payload dtype =
    if (if dtype == 1 then finite_f32 payload else finite_f16 payload)
    then ok tt
    else err non_finite

-- `strip_prefix("sha256://")`, and the prefix of a checksum.
abbrev pub reference_prefix : Bytes
reference_prefix = 115 ∷ 104 ∷ 97 ∷ 50 ∷ 53 ∷ 54 ∷ 58 ∷ 47 ∷ 47 ∷ []

abbrev pub checksum_prefix : Bytes
checksum_prefix = 115 ∷ 104 ∷ 97 ∷ 50 ∷ 53 ∷ 54 ∷ 58 ∷ []

abbrev pub strip_prefix : Bytes → Bytes → Option Bytes
strip_prefix [] s = some s
strip_prefix (p ∷ ps) [] = none
strip_prefix (p ∷ ps) (c ∷ cs) = if p == c then strip_prefix ps cs else none

abbrev pub is_lower_hex : ℕ → Bool
is_lower_hex b = within 48 57 b || within 97 102 b

unfoldable pub digest_of : Bytes → Bytes → Result Bytes
digest_of tensor_ref checksum = elim (strip_prefix reference_prefix tensor_ref) [
  | none ↦ err unsupported_reference
  | some digest ↦
      if not (length digest == 64)
        || any (λ b. not (is_lower_hex b)) digest
        || not (same_bytes checksum (checksum_prefix ++ digest))
      then err invalid_descriptor
      else ok digest
]

abbrev pub token_limit : ℕ
token_limit = 1000000

abbrev pub byte_limit : ℕ
byte_limit = 1073741824

-- The totals so far and with one more candidate.
unfoldable pub add_totals : ℕ → ℕ → ℕ → ℕ → Result (ℕ × ℕ)
add_totals total_tokens total_bytes rows bytes =
    if leb usize_mod (total_tokens + rows)
    then err token_overflow
    else if leb usize_mod (total_bytes + bytes)
    then err byte_overflow
    else if ltb token_limit (total_tokens + rows) || ltb byte_limit (total_bytes + bytes)
    then err exceeds_limits
    else ok (total_tokens + rows, total_bytes + bytes)

-- One round of the loop over the candidates.
unfoldable pub candidate : Bytes → ℕ → ℕ → List ℕ → ℕ → ℕ → Read (Descriptor × ℕ × ℕ)
unfolding unsigned any text digest_of tensor_bytes add_totals
candidate contract dimension dtype seen total_tokens total_bytes = do
  candidate_id ← unsigned 4
  rows ← unsigned 4
  reference_bytes ← unsigned 4
  checksum_bytes ← unsigned 4
  bail_if (any (λ n. n == candidate_id) seen) duplicate_candidate
  tensor_ref ← text reference_bytes 4096
  checksum ← text checksum_bytes 512
  digest ← lift (digest_of tensor_ref checksum)
  bytes ← lift (tensor_bytes rows dimension dtype)
  totals ← lift (add_totals total_tokens total_bytes rows bytes)
  pure (
    record {
      candidate_id = candidate_id;
      contract = contract;
      digest = digest;
      rows = rows;
      dimension = dimension;
      dtype = dtype;
    },
    totals.0,
    totals.1,
  )

unfoldable pub candidates : ℕ → Bytes → ℕ → ℕ → List ℕ → ℕ → ℕ → Read (List Descriptor)
unfolding candidate
candidates zero contract dimension dtype seen total_tokens total_bytes = pure []
candidates (suc count) contract dimension dtype seen total_tokens total_bytes =
    candidate contract dimension dtype seen total_tokens total_bytes >>= λ one.
    candidates count contract dimension dtype (one.0.candidate_id ∷ seen) one.1 one.2 >>= λ rest.
    pure (one.0 ∷ rest)

-- "__default__"
abbrev pub default_tenant : Bytes
default_tenant = 95 ∷ 95 ∷ 100 ∷ 101 ∷ 102 ∷ 97 ∷ 117 ∷ 108 ∷ 116 ∷ 95 ∷ 95 ∷ []

abbrev pub is_scheduled : ℕ → Bool
is_scheduled version = version == version_scheduled_external

-- The priority, with the bias of an `i32`, the timeout and the length of the tenant's name.
unfoldable pub schedule : ℕ → Read (ℕ × ℕ × ℕ)
unfolding signed unsigned
schedule version =
    if is_scheduled version
    then (signed >>= λ priority. unsigned 4 >>= λ timeout_ms.
        unsigned 4 >>= λ tenant_bytes. pure (priority, timeout_ms, tenant_bytes))
    else pure (2147483648, 0, 0)

abbrev pub priority_in_range : ℕ → Bool
priority_in_range = within 2147483548 2147483748

unfoldable pub tenant_of : ℕ → ℕ → Read Bytes
unfolding text
tenant_of version tenant_bytes =
    if is_scheduled version then text tenant_bytes 256 else pure default_tenant

-- The body, from the reader's start to its end.
unfoldable pub body : ℕ → ℕ → Read Request
unfolding unsigned schedule tenant_of text tensor_bytes take_bytes validate_finite candidates finish
body version request_id = do
  dimension ← unsigned 4
  query_rows ← unsigned 4
  candidate_count ← unsigned 4
  dtype ← unsigned 1
  scoring ← unsigned 1
  reserved ← unsigned 2
  contract_bytes ← unsigned 4
  bail_if (not (scoring == 1) || not (reserved == 0)) unsupported_scoring
  bail_if (ltb 65536 candidate_count) too_many_candidates
  scheduling ← schedule version
  bail_if (not (priority_in_range scheduling.0)) invalid_priority
  bail_if (is_scheduled version && not (within 1 600000 scheduling.1)) invalid_timeout
  contract ← text contract_bytes 512
  tenant ← tenant_of version scheduling.2
  query_bytes ← lift (tensor_bytes query_rows dimension dtype)
  query ← take_bytes query_bytes
  lift (validate_finite query dtype)
  candidates ← candidates candidate_count contract dimension dtype [] query_rows query_bytes
  finish
  pure (record {
    protocol_version = version;
    request_id = request_id;
    tenant = tenant;
    priority = scheduling.0;
    timeout_ms = scheduling.1;
    query_rows = query_rows;
    dimension = dimension;
    dtype = dtype;
    query = query;
    candidates = candidates;
  })

abbrev pub field : Bytes → ℕ → ℕ → ℕ
field frame start count = le_value (take count (drop start frame))

abbrev pub answer : {A : Type 0} → Result (A × Reader) → Result A
answer (ok (a, r)) = ok a
answer (err e) = err e

unfoldable pub parse : Bytes → Result Request
unfolding body le_value
parse frame =
    let version = field frame 4 2 in
    if ltb (length frame) header_bytes
    then err truncated_header
    else if not (same_bytes (take 4 frame) magic)
    then err invalid_magic
    else if not (version == version_external || version == version_scheduled_external)
        || not (field frame 6 2 == 1)
    then err unsupported_version
    else if not (field frame 16 8 == length frame - header_bytes)
    then err length_mismatch
    else answer
        (body version (field frame 8 8) (record { bytes = drop header_bytes frame; offset = 0 }))

-- A response's header.
unfoldable pub response_header : ℕ → ℕ → ℕ → Bytes
unfolding le_bytes
response_header version request_id body_bytes =
    magic
    ++ (le_bytes 2 version ++ (le_bytes 2 2 ++ (le_bytes 8 request_id ++ le_bytes 8 body_bytes)))

-- A candidate's number and the bits of its score.
unfoldable pub entries : List (ℕ × ℕ) → Bytes
unfolding le_bytes
entries [] = []
entries ((candidate_id, score) ∷ rest) =
    le_bytes 4 candidate_id ++ (le_bytes 4 score ++ entries rest)

unfoldable pub success : ℕ → ℕ → List (ℕ × ℕ) → Bytes
unfolding response_header entries le_bytes
success version request_id results =
    response_header version request_id (8 + length results * 8)
    ++ (le_bytes 4 0 ++ (le_bytes 4 (length results) ++ entries results))

unfoldable pub failure : ℕ → ℕ → ℕ → Bytes → Bytes
unfolding response_header le_bytes
failure version request_id status message =
    let sent = take (min (length message) 65536) message in
    response_header version request_id (8 + length sent)
    ++ (le_bytes 4 (max status 1) ++ (le_bytes 4 (length sent) ++ sent))
