-- ===== src/Extension/Client/Batches/Tests.antt =====
-- Three candidates, one of them without a tensor, in two batches of one descriptor.
use vector_chord.Base.{
  ℕ, zero, suc, ◌+◌, ◌-◌, ◌*◌, ◌≤◌, ◌≡◌, ◌≢◌, Option, none, some, List, [], ◌∷◌, ◌++◌, length,
  replicate, arith, refl,
}
use vector_chord.Base.Vecs.{any}
use vector_chord.Tilemaxsimd.Protocol.{Bytes, chars}
use vector_chord.Tilemaxsimd.Protocol.Frame.{reference_prefix, checksum_prefix, success}
use vector_chord.Extension.Client.{Outcome, ok, decode_response_for_version}
use vector_chord.Extension.Client.Request.{
  TensorDtype, f16, OwnedVector, vecf16, ExternalTensorDescriptor, tensor_metadata, tensor_bytes,
  scalar_bytes, validate_request_identity, validate_external_for_request,
}
use vector_chord.Extension.Client.Encoder.{Limits, encode_external_descriptors}
use vector_chord.Extension.Client.Batches.{
  World, Feed, external_request_base_bytes, exceeds, add_descriptor, fetch_next, take_next, close,
  collect_loop, collect_external_batch, max_response_bytes, exchange, rerank_loop, rerank_batches,
}
use vector_chord.Extension.Client.Batches.Feeds.{Gives, ended, further}
use vector_chord.Extension.Client.Batches.Progress.{
  rows_in, framed_in, collect_external_batch-IsTaken,
}
use vector_chord.Extension.Client.Batches.Whole.{flat, Exchanged, rerank_batches-IsComplete}

abbrev zeros : Bytes
zeros = replicate 64 48

abbrev contract : Bytes
contract = 109 ∷ []

abbrev query : List OwnedVector
query = vecf16 (15360 ∷ 0 ∷ []) ∷ []

abbrev tensor : ℕ → ExternalTensorDescriptor
tensor key = record {
  heap_key = (0, 7, key);
  tensor_ref = reference_prefix ++ zeros;
  rows = 3;
  dimension = 2;
  dtype = f16;
  checksum = checksum_prefix ++ zeros;
}

abbrev limits : Limits
limits = record { max_batch_tokens = 5; max_batch_bytes = 100000 }

-- The candidate 0 has no tensor. The state counts what was fetched.
abbrev fetch : ℕ → ℕ → Outcome (Option ExternalTensorDescriptor × ℕ)
fetch zero s = ok (none, s + 1)
fetch (suc n) s = ok (some (tensor (suc n)), s + 1)

abbrev start : Feed fetch
start = record { pending = none; candidates = 4 ∷ 0 ∷ 6 ∷ []; source = 0 }

start-Gives : Gives fetch start (tensor 4 ∷ tensor 6 ∷ [])
unfolding fetch_next take_next
start-Gives = further refl (further refl (ended refl))

first :
    (feed : Feed fetch) × (collect_external_batch fetch contract query limits none start
      ≡ ok (tensor 4 ∷ [], feed))
unfolding fetch_next take_next close collect_loop add_descriptor exceeds external_request_base_bytes
    collect_external_batch validate_request_identity validate_external_for_request tensor_bytes
    tensor_metadata any chars
first = (_, refl)

collect_external_batch-IsTaken_example :
    (left : List ExternalTensorDescriptor) × (tensor 4 ∷ tensor 6 ∷ [] ≡ (tensor 4 ∷ []) ++ left)
    × Gives fetch first.0 left
    × (length (tensor 4 ∷ []) ≡ 0 → left ≡ [])
    × (length (tensor 4 ∷ []) ≤ 65536)
    × (length query + rows_in (tensor 4 ∷ []) ≤ 5)
    × (dtype : TensorDtype) × (dimension : ℕ) × (tensor_metadata query ≡ ok (dtype, dimension))
    × (44 + 1 + 0 + length query * dimension * scalar_bytes dtype + framed_in (tensor 4 ∷ [])
        ≤ 100000)
collect_external_batch-IsTaken_example =
    collect_external_batch-IsTaken fetch contract query limits none start (tensor 4 ∷ tensor 6 ∷ [])
      (tensor 4 ∷ []) first.0 start-Gives first.1

-- The state is the number of the next request; the daemon answers with the score 1.0.
abbrev world : World ℕ
world = record {
  deadline = λ w. ok w;
  remaining = λ w. ok (250, w);
  next_request_id = λ w. (w, w + 1);
  round_trip = λ frame left limit w. ok (success 2 (w - 1) ((0, 1065353216) ∷ []), w);
  consume = λ results w. ok w;
}

two_requests : rerank_batches world contract query limits none fetch 3 start 9 ≡ ok (some 11)
unfolding fetch_next take_next close collect_loop add_descriptor exceeds external_request_base_bytes
    collect_external_batch validate_request_identity validate_external_for_request tensor_bytes
    tensor_metadata any chars max_response_bytes exchange rerank_batches rerank_loop
    encode_external_descriptors success decode_response_for_version
two_requests = refl

rerank_batches-IsComplete_example :
    (rerank_batches world contract query limits none fetch 3 start 9 ≢ ok none)
    × ((end : ℕ)
        → rerank_batches world contract query limits none fetch 3 start 9 ≡ ok (some end)
        → (begin : ℕ) × (◌≡◌ {A = Outcome ℕ} (ok 9) (ok begin))
          × (bs : List (List ExternalTensorDescriptor)) × (flat bs ≡ tensor 4 ∷ tensor 6 ∷ [])
          × Exchanged world contract query limits none bs begin end)
rerank_batches-IsComplete_example =
    rerank_batches-IsComplete world contract query limits none fetch 3 start
      (tensor 4 ∷ tensor 6 ∷ []) 9 start-Gives (omega arith)
