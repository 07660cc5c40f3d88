-- ===== src/Extension/Client/Tests.antt =====
-- Two rows, whose scores 2.0 and -1.0 come back in the other order.
use vector_chord.Base.{
  ℕ, drop, ◌≡◌, Option, none, some, List, [], ◌∷◌, ◌++◌, replicate, map, All, arith, refl,
}
use mathlib.Core.List.{Perm}
use vector_chord.Tilemaxsimd.Protocol.{Result, Bytes, chars}
use vector_chord.Tilemaxsimd.Protocol.Frame.{
  reference_prefix, checksum_prefix, parse, success, failure,
}
use vector_chord.Extension.Client.{
  HeapKey, ok, err, protocol, remote, remote_not_utf8, decode_response_for_version,
}
use vector_chord.Extension.Client.Request.{
  TensorDtype, f16, OwnedVector, vecf16, Scheduling, ExternalTensorDescriptor, EncodedRequest,
  tensor_metadata,
}
use vector_chord.Extension.Client.Encoder.{Limits, encode_external_descriptors}
use vector_chord.Extension.Client.Agreement.{requested, parse-encode}
use vector_chord.Extension.Client.Replies.{scored, IsScore, IsDistinct}
use vector_chord.Extension.Client.Decoding.{sent, decode-success, decode-failure}
use vector_chord.Extension.Client.Accepted.{listed, IsFiniteDistance, decode_response-Covers}

abbrev rows : List HeapKey
rows = (0, 7, 1) ∷ (0, 7, 2) ∷ []

abbrev scores : List (ℕ × ℕ)
scores = (1, 1073741824) ∷ (0, 3212836864) ∷ []

scores-IsScore : All (IsScore rows) scores
scores-IsScore = ground arith

scores-IsDistinct : IsDistinct scores
scores-IsDistinct = ground arith

-- 1.0 and -2.0 as distances.
abbrev distances : List (ℕ × HeapKey)
distances = (1065353216, (0, 7, 1)) ∷ (3221225471, (0, 7, 2)) ∷ []

decoded : decode_response_for_version (success 3 9 scores) 3 9 rows ≡ ok distances
unfolding decode_response_for_version success
decoded = refl

decode-success_example :
    (l : List (ℕ × HeapKey)) × (decode_response_for_version (success 3 9 scores) 3 9 rows ≡ ok l)
    × Perm l (map (scored rows) scores)
decode-success_example =
    decode-success rows scores (omega arith) refl scores-IsScore scores-IsDistinct 3 9 (omega arith)
      (omega arith)

-- "full"
abbrev message : Bytes
message = 102 ∷ 117 ∷ 108 ∷ 108 ∷ []

decode-failure_example :
    ((cs : List ℕ)
      → chars 0 0 0 0 (sent message) ≡ some cs
      → decode_response_for_version (failure 3 9 2 message) 3 9 rows ≡ err (remote (sent message)))
    × (chars 0 0 0 0 (sent message) ≡ none
        → decode_response_for_version (failure 3 9 2 message) 3 9 rows
          ≡ err (protocol remote_not_utf8))
decode-failure_example = decode-failure 3 9 2 message rows (omega arith) (omega arith) (omega arith)

decode_response-Covers_example :
    Perm (map (λ (r : ℕ × HeapKey). r.1) distances) rows
    × All IsFiniteDistance distances
    × Perm distances (map (scored rows) (listed 2 (drop 32 (success 3 9 scores))))
decode_response-Covers_example =
    decode_response-Covers (success 3 9 scores) 3 9 rows distances decoded

-- A request for one candidate, with a tenant.
abbrev zeros : Bytes
zeros = replicate 64 48

abbrev contract : Bytes
contract = 109 ∷ []

abbrev query : List OwnedVector
query = vecf16 (15360 ∷ 0 ∷ []) ∷ []

abbrev asked : List ExternalTensorDescriptor
asked =
    record {
      heap_key = (0, 7, 1);
      tensor_ref = reference_prefix ++ zeros;
      rows = 3;
      dimension = 2;
      dtype = f16;
      checksum = checksum_prefix ++ zeros;
    }
    ∷ []

abbrev limits : Limits
limits = record { max_batch_tokens = 1000; max_batch_bytes = 100000 }

abbrev scheduling : Option Scheduling
scheduling = some (record { tenant = 116 ∷ []; priority = 2147483653 })

made :
    (enc : EncodedRequest) × (encode_external_descriptors 9 contract query asked limits scheduling
        250
      ≡ ok enc)
unfolding encode_external_descriptors chars
made = (_, refl)

parse-encode_example :
    (dtype : TensorDtype) × (dimension : ℕ) × (tensor_metadata query ≡ ok (dtype, dimension))
    × (parse made.0.frame
        ≡ Result.ok (requested 9 contract query asked scheduling 250 dtype dimension))
unfolding chars
parse-encode_example =
    parse-encode 9 contract query asked limits scheduling 250 (omega arith) (omega arith) (refl, tt)
      made.0 (omega arith) (_, refl) (_, refl) (omega arith) (ground arith) made.1
