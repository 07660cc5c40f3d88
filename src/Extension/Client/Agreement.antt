-- ===== src/Extension/Client/Agreement.antt =====
-- Both ends of the wire together: `parse` of services/tilemaxsimd/src/protocol.rs on the frames of
-- `encode_external_descriptors`.
use vector_chord.Base.{
  ℕ, ◌+◌, ◌-◌, ◌*◌, ◌<◌, ◌≤◌, ◌≡◌, true, false, not, ◌&&◌, ◌||◌, Option, none, some, List, [], ◌++◌,
  length, take, drop, All, ltb, ◌==◌, arith, refl, ap, ◌∙◌, subst,
}
use mathlib.Core.List.{append_assoc, append-nil}
use vector_chord.Tilemaxsimd.Protocol.{
  Result, Bytes, usize_mod, le_bytes, Request, Reader, take_bytes, within,
}
use vector_chord.Tilemaxsimd.Protocol.Words.{le_value-le_bytes}
use vector_chord.Tilemaxsimd.Protocol.Readers.{IsBefore, advance, bytes_step, uint_step, finish_lem}
use vector_chord.Tilemaxsimd.Protocol.Texts.{text_step}
use vector_chord.Tilemaxsimd.Protocol.Frame.{
  body, parse, priority_in_range, token_limit, byte_limit, field, is_scheduled, same_bytes, magic,
  answer,
}
use vector_chord.Extension.Client.{Outcome}
use vector_chord.Extension.Client.Request.{
  TensorDtype, f32, f16, dtype_code, scalar_bytes, OwnedVector, Scheduling,
  ExternalTensorDescriptor, EncodedRequest, tensor_metadata,
}
use vector_chord.Extension.Client.Encoder.{Limits, version_of, encode_external_descriptors}
use vector_chord.Extension.Client.Written.{query_bytes, scheduling_bytes, tenant_bytes}
use vector_chord.Extension.Client.Frames.{Checked, items_bytes, head_bytes}
use vector_chord.Extension.Client.Requests.{rest_bytes, encode-IsRequest}
use vector_chord.Extension.Client.Queries.{
  IsFiniteVector, IsServed, IsQuery, tensor_metadata-IsQuery,
}
use vector_chord.Extension.Client.Parsed.{
  tensor_bytes-code, IsAddressed, described_all, candidates_lem,
}
use vector_chord.Extension.Client.Identity.{
  IsUtf8, IsUtf8Tenant, tenant_name, priority_of, timeout_of, IsIdentity, validate-IsIdentity,
  clamp_bounds, schedule_step, tenant_step,
}

-- The request that the daemon makes of a frame.
abbrev pub requested :
    ℕ
    → Bytes
    → List OwnedVector
    → List ExternalTensorDescriptor
    → Option Scheduling
    → ℕ
    → TensorDtype
    → ℕ
    → Request
requested id contract query ds s timeout dtype dimension = record {
  protocol_version = version_of s;
  request_id = id;
  tenant = tenant_name s;
  priority = priority_of s;
  timeout_ms = timeout_of s timeout;
  query_rows = length query;
  dimension = dimension;
  dtype = dtype_code dtype;
  query = query_bytes query;
  candidates = described_all contract dimension dtype 0 ds;
}

priority_of-in_range :
    (contract : Bytes) (s : Option Scheduling)
    → IsIdentity contract s
    → priority_in_range (priority_of s) ≡ true
priority_of-in_range contract none i = refl
priority_of-in_range contract (some s) i = (i.tenant_text s refl).3

timeout_of-in_range :
    (s : Option Scheduling) (timeout : ℕ)
    → (is_scheduled (version_of s) && not (within 1 600000 (timeout_of s timeout))) ≡ false
timeout_of-in_range none timeout = refl
timeout_of-in_range (some s) timeout = ground (arith, clamp_bounds timeout)

not_more : (n : ℕ) → n ≤ 65536 → ltb 65536 n ≡ false
not_more n h = ground arith

-- `bytes_step` for a count that is known otherwise.
count_step :
    (x rest : Bytes) (n : ℕ) {r : Reader}
    → length x ≡ n
    → IsBefore (x ++ rest) r
    → (take_bytes n r ≡ Result.ok (x, advance n r)) × IsBefore rest (advance n r)
count_step x rest n {r} p b =
    subst (λ k. (take_bytes k r ≡ Result.ok (x, advance k r)) × IsBefore rest (advance k r)) p
      (bytes_step x rest b)

code_is_byte : (dtype : TensorDtype) → dtype_code dtype < 256
code_is_byte f32 = omega arith
code_is_byte f16 = omega arith

-- What `parse` does once the header is right.
parse_fields :
    (frame : Bytes) (version id : ℕ)
    → 24 ≤ length frame
    → same_bytes (take 4 frame) magic ≡ true
    → field frame 4 2 ≡ version
    → (version == 2 || version == 3) ≡ true
    → field frame 6 2 ≡ 1
    → field frame 8 8 ≡ id
    → field frame 16 8 ≡ length frame - 24
    → parse frame ≡ answer (body version id (record { bytes = drop 24 frame; offset = 0 }))
unfolding parse
parse_fields frame version id l m v known k i n =
    let long : ltb (length frame) 24 ≡ false = ground arith in
    let same : (length frame - 24 == length frame - 24) ≡ true = ground arith in
    rw (long, m, v, known, k, i, n, same) refl

version_known : (s : Option Scheduling) → (version_of s == 2 || version_of s == 3) ≡ true
version_known none = refl
version_known (some s) = refl

version_small : (s : Option Scheduling) → version_of s < 65536
version_small none = omega arith
version_small (some s) = omega arith

parse_head :
    (version id dimension rows count : ℕ) (rest : Bytes)
    → version < 65536
    → id < 18446744073709551616
    → 12 + length rest < 18446744073709551616
    → (version == 2 || version == 3) ≡ true
    → parse (head_bytes version id (12 + length rest) dimension rows count rest)
      ≡ answer (
          body version id (record {
            bytes = le_bytes 4 dimension ++ (le_bytes 4 rows ++ (le_bytes 4 count ++ rest));
            offset = 0;
          }))
unfolding le_bytes
parse_head version id dimension rows count rest v i n known =
    parse_fields (head_bytes version id (12 + length rest) dimension rows count rest) version id
      (omega arith) refl (le_value-le_bytes 2 version v) known (le_value-le_bytes 2 1 (omega arith))
      (le_value-le_bytes 8 id i) (le_value-le_bytes 8 (12 + length rest) n ∙ omega arith)

length-head :
    (dimension rows count : ℕ) (rest : Bytes)
    → length (le_bytes 4 dimension ++ (le_bytes 4 rows ++ (le_bytes 4 count ++ rest)))
      ≡ 12 + length rest
unfolding le_bytes
length-head dimension rows count rest = omega arith

module _ (id : ℕ) (contract : Bytes) (query : List OwnedVector) (ds : List ExternalTensorDescriptor)
    (limits : Limits) (s : Option Scheduling) (timeout : ℕ)
    (tokens : limits.max_batch_tokens ≤ token_limit) (bytes : limits.max_batch_bytes ≤ byte_limit)
    (a : All IsAddressed ds) where
  body_lem :
      (dtype : TensorDtype) (dimension : ℕ) {r : Reader}
      → IsIdentity contract s
      → IsQuery dtype dimension query
      → length query < 4294967296
      → length query * dimension * scalar_bytes dtype < usize_mod
      → length ds ≤ 65536
      → Checked limits dimension dtype
          (length query)
          (length query * dimension * scalar_bytes dtype)
          ds
      → IsBefore
          (le_bytes 4 dimension
            ++ (le_bytes 4 (length query)
                ++ (le_bytes 4 (length ds)
                    ++ rest_bytes id contract query ds limits s timeout dtype)))
          r
      → (r' : Reader) × (body (version_of s) id r
          ≡ Result.ok (requested id contract query ds s timeout dtype dimension, r'))
  unfolding body
  body_lem dtype dimension {r} i q rows size few c b0 =
      let (ct, cp, cm) = i.contract_text in
      let (e1, b1) = uint_step 4 dimension _ (omega (arith, q.few_columns)) b0 in
      let (e2, b2) = uint_step 4 (length query) _ (omega arith) b1 in
      let (e3, b3) = uint_step 4 (length ds) _ (omega arith) b2 in
      let b3' : IsBefore
          (le_bytes 1 (dtype_code dtype)
            ++ (le_bytes 1 1
                ++ (le_bytes 2 0
                    ++ (le_bytes 4 (length contract)
                        ++ (scheduling_bytes s timeout
                            ++ (contract
                                ++ (tenant_bytes s
                                    ++ (query_bytes query ++ (items_bytes 0 ds ++ [])))))))))
          (advance 4 (advance 4 (advance 4 r))) =
        subst (λ l. IsBefore l (advance 4 (advance 4 (advance 4 r))))
          (simp (append_assoc, append-nil)) b3 in
      let (e4, b4) = uint_step 1 (dtype_code dtype) _ (omega (arith, code_is_byte dtype)) b3' in
      let (e5, b5) = uint_step 1 1 _ (omega arith) b4 in
      let (e6, b6) = uint_step 2 0 _ (omega arith) b5 in
      let (e7, b7) = uint_step 4 (length contract) _ (omega arith) b6 in
      let (r8, b8, e8) = schedule_step contract s timeout _ i b7 in
      let (e9, b9) = text_step contract 512 _ ct cp cm b8 in
      let (r10, b10, e10) = tenant_step contract s _ i b9 in
      let e11 =
        tensor_bytes-code (length query) dimension dtype q.some_rows q.some_columns q.few_columns
          size in
      let (e12, b12) =
        count_step (query_bytes query) _ (length query * dimension * scalar_bytes dtype) q.size
          b10 in
      let (r13, b13, e13) =
        candidates_lem contract dimension dtype q.some_columns q.few_columns limits 0 (length query)
          (length query * dimension * scalar_bytes dtype) [] ds [] tokens bytes (omega arith) tt a c
          b12 in
      let n3 : ltb 65536 (length ds) ≡ false = not_more (length ds) few in
      (
        r13,
        rw
            (
              e1,
              e2,
              e3,
              e4,
              e5,
              e6,
              e7,
              n3,
              e8,
              priority_of-in_range contract s i,
              timeout_of-in_range s timeout,
              e9,
              e10,
              e11,
              e12,
              q.finite,
              e13,
              finish_lem r13 b13,
            )
            refl,
      )

  -- A frame that the extension makes is accepted by the daemon, which reads from it the request that the
  -- extension was asked for: same query, same candidates in their order, same tenant and priority. This
  -- holds where the limits are such as the daemon grants, the references name the digests of their
  -- checksums, the contract and the tenant are UTF-8, the request number is a `u64`, and the vectors of
  -- the query are of a dimension that the daemon serves, 1 to 60000, and have finite values only.
  pub parse-encode :
      (enc : EncodedRequest)
      → id < 18446744073709551616
      → IsUtf8 contract
      → IsUtf8Tenant s
      → All IsServed query
      → All IsFiniteVector query
      → encode_external_descriptors id contract query ds limits s timeout ≡ Outcome.ok enc
      → (dtype : TensorDtype) × (dimension : ℕ) × (tensor_metadata query
          ≡ Outcome.ok (dtype, dimension))
        × (parse enc.frame ≡ Result.ok (requested id contract query ds s timeout dtype dimension))
  parse-encode enc small u v served finite e =
      let q = encode-IsRequest id contract query ds limits s timeout enc e in
      let identity = validate-IsIdentity contract s u v q.identity in
      let known = tensor_metadata-IsQuery q.dtype q.dimension query q.metadata served finite in
      let rest = rest_bytes id contract query ds limits s timeout q.dtype in
      let head : Bytes =
        le_bytes 4 q.dimension ++ (le_bytes 4 (length query) ++ (le_bytes 4 (length ds) ++ rest)) in
      let size : length head ≡ 12 + length rest =
        length-head q.dimension (length query) (length ds) rest in
      let start : Reader = record { bytes = head; offset = 0 } in
      let short : 36 + length rest ≤ 1073741824 = omega (arith, q.short) in
      let before : IsBefore head start = record {
        ahead = refl;
        inside = omega arith;
        short = omega arith;
      } in
      let (r, parsed) =
        body_lem q.dtype q.dimension identity known q.rows q.size q.few q.checks before in
      (
        q.dtype,
        q.dimension,
        q.metadata,
        ap parse q.layout
            ∙ parse_head (version_of s) id q.dimension (length query) (length ds) rest
                (version_small s) small (omega arith) (version_known s)
            ∙ ap answer parsed,
      )
