-- ===== src/Extension/Client.antt =====
-- src/index/vchordrq/scanners/maxsim/gpu.rs: the end of the wire that is in the extension. This file has
-- the errors, `Cursor` and the response; Client/Request.antt has the request. A byte is a number below
-- 256, and a `BinaryHeap` that is only filled is the list of what is in it.
pub mod Cursors
pub mod Replies
pub mod Decoding
pub mod Accepted
pub mod Request
pub mod Encoder
pub mod Batches
pub mod Written
pub mod Frames
pub mod Requests
pub mod Queries
pub mod Parsed
pub mod Identity
pub mod Agreement
mod Tests
use vector_chord.Base.{
  ℕ, zero, suc, ◌+◌, ◌-◌, ◌%◌, Bool, true, false, not, Option, none, some, List, [], ◌∷◌, length,
  take, drop, get_elem?, get_or, set, replicate, leb, ltb, ◌==◌, if◌then◌else◌,
}
use vector_chord.Base.Vecs.{any}
use vector_chord.Distance.{from_f32, sign_bit}
use vector_chord.Tilemaxsimd.Protocol.{Bytes, usize_mod, le_value, chars}
use vector_chord.Tilemaxsimd.Protocol.Frame.{same_bytes, magic, header_bytes, is_finite_f32}

-- What `RerankError::Protocol` says.
pub data Fault : Type 0 where
  offset_overflow truncated_message trailing_bytes invalid_magic unsupported_version : Fault
  unexpected_kind request_id_mismatch length_mismatch remote_too_large remote_not_utf8 : Fault
  partial_result_set unknown_candidate duplicate_candidate non_finite invalid_length : Fault

pub data RerankError : Type 0 where
  tensor_mismatch unsupported_tensor_kind request_too_large : RerankError
  invalid_contract invalid_reference invalid_checksum invalid_scheduling panicked : RerankError
  protocol : Fault → RerankError
  remote : Bytes → RerankError
  model_contract_mismatch : RerankError
  registry transport : Bytes → RerankError

pub data Outcome {ℓ} (A : Type ℓ) : Type ℓ where
  ok : A → Outcome A
  err : RerankError → Outcome A

-- A place of a row: block and offset.
abbrev pub HeapKey : Type 0
HeapKey = ℕ × ℕ × ℕ

pub record Cursor : Type 0 where
  pub bytes : Bytes
  pub offset : ℕ

abbrev pub Reading {ℓ} : Type ℓ → Type ℓ
Reading A = Cursor → Outcome (A × Cursor)

abbrev pub then_reading {ℓ κ} :
    {A : Type ℓ} {B : Type κ} → Outcome (A × Cursor) → (A → Reading B) → Outcome (B × Cursor)
then_reading (ok (a, c)) f = f a c
then_reading (err e) f = err e

infix 20 ◌>>=◌
abbrev pub ◌>>=◌ {ℓ κ} : {A : Type ℓ} {B : Type κ} → Reading A → (A → Reading B) → Reading B
(m >>= f) c = then_reading (m c) f

infix 20 ◌>>◌
abbrev pub ◌>>◌ {ℓ κ} : {A : Type ℓ} {B : Type κ} → Reading A → Reading B → Reading B
(m >> k) c = then_reading (m c) (λ a. k)

abbrev pub pure {ℓ} : {A : Type ℓ} → A → Reading A
pure a c = ok (a, c)

abbrev pub fail_if : Bool → Fault → Reading (Unit {0})
fail_if true e c = err (protocol e)
fail_if false e c = ok (tt, c)

pub cursor_bytes : ℕ → Reading Bytes
cursor_bytes count c =
    let end = c.offset + count in
    if leb usize_mod end
    then err (protocol offset_overflow)
    else if ltb (length c.bytes) end
    then err (protocol truncated_message)
    else ok (take count (drop c.offset c.bytes), record c { offset = end })

-- `u16`, `u32` and `u64`, by their number of bytes.
pub cursor_uint : ℕ → Reading ℕ
unfolding cursor_bytes le_value
cursor_uint count = do bytes ← cursor_bytes count; pure (le_value bytes)

pub cursor_finish : Reading (Unit {0})
cursor_finish c = if c.offset == length c.bytes then ok (tt, c) else err (protocol trailing_bytes)

-- `-similarity` on the bits of a float: the sign is flipped.
abbrev pub negate : ℕ → ℕ
negate bits = (bits + sign_bit) % 4294967296

-- `heap_keys.get(candidate_id)`
pub key_of : List HeapKey → ℕ → Reading HeapKey
key_of keys id c = elim (get_elem? keys id) [
  | none ↦ err (protocol unknown_candidate)
  | some key ↦ ok (key, c)
]

-- What a response has said so far: which candidates, and the distance of each.
pub record Scores : Type 0 where
  pub seen : List Bool
  pub results : List (ℕ × HeapKey)

-- One round of the loop over the results.
pub read_score : List HeapKey → Scores → Reading Scores
unfolding cursor_uint key_of from_f32
read_score keys s = do
  candidate_id ← cursor_uint 4
  key ← key_of keys candidate_id
  fail_if (get_or s.seen candidate_id false) duplicate_candidate
  similarity ← cursor_uint 4
  fail_if (not (is_finite_f32 similarity)) non_finite
  pure (record {
    seen = set s.seen candidate_id true;
    results = (from_f32 (negate similarity), key) ∷ s.results;
  })

pub read_scores : ℕ → List HeapKey → Scores → Reading Scores
unfolding read_score
read_scores zero keys s = pure s
read_scores (suc count) keys s = read_score keys s >>= λ t. read_scores count keys t

abbrev pub no_scores : List HeapKey → Scores
no_scores keys = record { seen = replicate (length keys) false; results = [] }

abbrev pub max_remote_error_bytes : ℕ
max_remote_error_bytes = 65536

-- `from_utf8` of the message, the end of the frame, and the error.
pub refused : Option (List ℕ) → Bytes → Reading (List (ℕ × HeapKey))
unfolding cursor_finish
refused none message = λ c. err (protocol remote_not_utf8)
refused (some cs) message = cursor_finish >>= λ u c. err (remote message)

pub remote_failure : Bytes → Reading (List (ℕ × HeapKey))
unfolding refused chars
remote_failure message = refused (chars 0 0 0 0 message) message

-- A status that is not zero: the daemon's message.
pub read_failure : Reading (List (ℕ × HeapKey))
unfolding cursor_uint cursor_bytes remote_failure
read_failure = do
  length ← cursor_uint 4
  fail_if (ltb max_remote_error_bytes length) remote_too_large
  message ← cursor_bytes length
  remote_failure message

-- The scores of every candidate.
pub read_results : List HeapKey → Reading (List (ℕ × HeapKey))
unfolding cursor_uint read_scores cursor_finish any
read_results keys = do
  result_count ← cursor_uint 4
  fail_if (not (result_count == length keys)) partial_result_set
  s ← read_scores result_count keys (no_scores keys)
  cursor_finish
  fail_if (any not s.seen) partial_result_set
  pure (s.results)

-- The header, and the body by its status.
pub read_response : ℕ → ℕ → List HeapKey → Reading (List (ℕ × HeapKey))
unfolding cursor_bytes cursor_uint read_failure read_results
read_response expected_version request_id keys c =
    (do
      found ← cursor_bytes 4
      fail_if (not (same_bytes found magic)) invalid_magic
      version ← cursor_uint 2
      fail_if (not (version == expected_version)) unsupported_version
      kind ← cursor_uint 2
      fail_if (not (kind == 2)) unexpected_kind
      id ← cursor_uint 8
      fail_if (not (id == request_id)) request_id_mismatch
      body_len ← cursor_uint 8
      fail_if (not (body_len == length c.bytes - header_bytes)) length_mismatch
      status ← cursor_uint 4
      if status == 0 then read_results keys else read_failure)
      c

abbrev pub answer : {A : Type 0} → Outcome (A × Cursor) → Outcome A
answer (ok (a, c)) = ok a
answer (err e) = err e

pub decode_response_for_version : Bytes → ℕ → ℕ → List HeapKey → Outcome (List (ℕ × HeapKey))
unfolding read_response
decode_response_for_version frame expected_version request_id keys =
    answer (read_response expected_version request_id keys (record { bytes = frame; offset = 0 }))
