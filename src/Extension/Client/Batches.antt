-- ===== src/Extension/Client/Batches.antt =====
-- src/index/vchordrq/scanners/maxsim/gpu.rs: `collect_external_batch`, the descriptors of one request of a
-- query. The source of descriptors is a parameter, a function of the candidate and of a state; an
-- error ends the query, and what it leaves behind is left out.
pub mod Feeds
pub mod Progress
pub mod Whole
mod Tests
use vector_chord.Base.{
  ℕ, zero, suc, ◌+◌, ◌*◌, max, Bool, true, false, ◌||◌, Option, none, some, List, [], ◌∷◌, ◌++◌,
  length, ltb,
}
use vector_chord.Tilemaxsimd.Protocol.{Bytes}
use vector_chord.Tilemaxsimd.Protocol.Frame.{header_bytes}
use vector_chord.Extension.Client.{
  Outcome, ok, err, request_too_large, HeapKey, decode_response_for_version,
}
use vector_chord.Extension.Client.Request.{
  ◌>>=◌, ◌>>◌, refuse_if, u32_of, checked, TensorDtype, OwnedVector, Scheduling,
  ExternalTensorDescriptor, tensor_metadata, tensor_bytes, validate_request_identity,
  validate_external_for_request,
}
use vector_chord.Extension.Client.Encoder.{Limits, encode_external_descriptors}

-- The sizes that the limits bound.
pub record Totals : Type 0 where
  pub total_tokens : ℕ
  pub declared_tensor_bytes : ℕ
  pub frame_bytes : ℕ

abbrev pub tenant_bytes : Option Scheduling → ℕ
tenant_bytes none = 0
tenant_bytes (some s) = length s.tenant

abbrev pub fixed_bytes : Option Scheduling → ℕ
fixed_bytes none = 44
fixed_bytes (some s) = 56

pub external_request_base_bytes : Bytes → Option Scheduling → ℕ → Outcome ℕ
external_request_base_bytes contract scheduling query_bytes = do
  named ← checked (fixed_bytes scheduling + length contract)
  tenanted ← checked (named + tenant_bytes scheduling)
  checked (tenanted + query_bytes)

pub exceeds : Limits → Totals → Bool
exceeds limits t =
    ltb limits.max_batch_tokens t.total_tokens
    || ltb limits.max_batch_bytes t.declared_tensor_bytes
    || ltb limits.max_batch_bytes t.frame_bytes

-- The sizes with one descriptor more.
pub add_descriptor : ℕ → TensorDtype → ExternalTensorDescriptor → Totals → Outcome Totals
unfolding validate_external_for_request tensor_bytes
add_descriptor dimension dtype d t = do
  validate_external_for_request d dimension dtype
  next_tokens ← checked (t.total_tokens + d.rows)
  bytes ← tensor_bytes d.rows dimension dtype
  next_declared_bytes ← checked (t.declared_tensor_bytes + bytes)
  named ← checked (16 + length d.tensor_ref)
  descriptor_frame_bytes ← checked (named + length d.checksum)
  next_frame_bytes ← checked (t.frame_bytes + descriptor_frame_bytes)
  ok (record {
    total_tokens = next_tokens;
    declared_tensor_bytes = next_declared_bytes;
    frame_bytes = next_frame_bytes;
  })

module _ {C S : Type 0} (fetch : C → S → Outcome (Option ExternalTensorDescriptor × S)) where
  -- What is left of the candidates, the state of the source, and a descriptor that did not fit.
  pub record Feed : Type 0 where
    pub pending : Option ExternalTensorDescriptor
    pub candidates : List C
    pub source : S

  -- The inner loop, to the first candidate that has a descriptor.
  pub fetch_next : List C → S → Outcome (Option ExternalTensorDescriptor × Feed)
  fetch_next [] s = ok (none, record { pending = none; candidates = []; source = s })
  fetch_next (c ∷ cs) s = fetch c s >>= λ r. elim r.0 [
    | none ↦ fetch_next cs r.1
    | some d ↦ ok (some d, record { pending = none; candidates = cs; source = r.1 })
  ]

  pub take_next : Feed → Outcome (Option ExternalTensorDescriptor × Feed)
  unfolding fetch_next
  take_next feed = elim feed.pending [
    | some d ↦ ok (some d, record feed { pending = none })
    | none ↦ fetch_next feed.candidates feed.source
  ]

  -- What does not fit waits for the next batch, unless nothing did.
  pub close :
      List ExternalTensorDescriptor
      → ExternalTensorDescriptor
      → Feed
      → Outcome (List ExternalTensorDescriptor × Feed)
  close [] d feed = err request_too_large
  close (b ∷ batch) d feed = ok (b ∷ batch, record feed { pending = some d })

  -- The loop, with room for so many descriptors.
  pub collect_loop :
      Limits
      → ℕ
      → TensorDtype
      → ℕ
      → Totals
      → List ExternalTensorDescriptor
      → Feed
      → Outcome (List ExternalTensorDescriptor × Feed)
  unfolding take_next close add_descriptor exceeds
  collect_loop limits dimension dtype zero t batch feed = ok (batch, feed)
  collect_loop limits dimension dtype (suc room) t batch feed = take_next feed >>= λ r. elim r.0 [
    | none ↦ ok (batch, r.1)
    | some d ↦ add_descriptor dimension dtype d t >>= λ next. elim (exceeds limits next) [
      | true ↦ close batch d r.1
      | false ↦ collect_loop limits dimension dtype room next (batch ++ d ∷ []) r.1
    ]
  ]

  pub collect_external_batch :
      Bytes
      → List OwnedVector
      → Limits
      → Option Scheduling
      → Feed
      → Outcome (List ExternalTensorDescriptor × Feed)
  unfolding collect_loop exceeds external_request_base_bytes validate_request_identity
      tensor_metadata tensor_bytes
  collect_external_batch contract query limits scheduling feed = do
    validate_request_identity contract scheduling
    metadata ← tensor_metadata query
    query_rows ← u32_of (length query)
    query_bytes ← tensor_bytes query_rows metadata.1 metadata.0
    base ← external_request_base_bytes contract scheduling query_bytes
    let start : Totals = record {
      total_tokens = length query;
      declared_tensor_bytes = query_bytes;
      frame_bytes = base;
    }
    refuse_if (exceeds limits start) request_too_large
    collect_loop limits metadata.1 metadata.0 65536 start [] feed

-- A query in batches. The clock, the numbers of the requests, the transport and the consumer of the
-- results are parameters, functions of the state of the world `W`.
pub record World (W : Type 0) : Type 0 where
  -- `Instant::now().checked_add(self.timeout)`, which may overflow
  pub deadline : W → Outcome W
  -- `remaining_logical_timeout`
  pub remaining : W → Outcome (ℕ × W)
  pub next_request_id : W → ℕ × W
  pub round_trip : Bytes → ℕ → ℕ → W → Outcome (Bytes × W)
  pub consume : List (ℕ × HeapKey) → W → Outcome W

-- The bytes that a response may have.
pub max_response_bytes : ℕ → Outcome ℕ
max_response_bytes keys = do
  key_bytes ← checked (keys * 8)
  size ← checked (header_bytes + 8 + key_bytes)
  ok (max size (header_bytes + 8 + 65536))

module _ {W : Type 0} (world : World W) (contract : Bytes) (query : List OwnedVector)
    (limits : Limits) (scheduling : Option Scheduling) where
  -- One batch, from its request to its results.
  pub exchange : List ExternalTensorDescriptor → W → Outcome W
  unfolding max_response_bytes
  exchange descriptors w = do
    (remaining, w1) ← world.remaining w
    let (request_id, w2) = world.next_request_id w1
    encoded ←
        encode_external_descriptors request_id contract query descriptors limits scheduling
          remaining
    limit ← max_response_bytes (length encoded.heap_keys)
    (left, w3) ← world.remaining w2
    (response, w4) ← world.round_trip encoded.frame left limit w3
    results ← decode_response_for_version response encoded.version request_id encoded.heap_keys
    world.consume results w4

  module _ {C S : Type 0} (fetch : C → S → Outcome (Option ExternalTensorDescriptor × S)) where
    -- `none` if the fuel is not enough.
    pub rerank_loop : ℕ → Feed fetch → W → Outcome (Option W)
    unfolding exchange collect_external_batch
    rerank_loop zero feed w = ok none
    rerank_loop (suc fuel) feed w =
        collect_external_batch fetch contract query limits scheduling feed >>= λ r. elim r.0 [
          | [] ↦ ok (some w)
          | d ∷ ds ↦ exchange (d ∷ ds) w >>= λ next. rerank_loop fuel r.1 next
        ]

    pub rerank_batches : ℕ → Feed fetch → W → Outcome (Option W)
    unfolding rerank_loop
    rerank_batches fuel feed w = world.deadline w >>= rerank_loop fuel feed
