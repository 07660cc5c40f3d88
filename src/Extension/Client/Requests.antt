-- ===== src/Extension/Client/Requests.antt =====
-- The frame of a whole request, and what has been checked of it.
use vector_chord.Base.{
  ℕ, ◌+◌, ◌*◌, ◌<◌, ◌≤◌, ◌≡◌, Option, List, [], ◌++◌, length, ltb, arith, refl, sym, ap, ◌∙◌, subst,
  map, length-map,
}
use mathlib.Core.List.{append_assoc}
use vector_chord.Tilemaxsimd.Protocol.{Bytes, usize_mod, le_bytes}
use vector_chord.Extension.Client.{request_too_large, ok, HeapKey}
use vector_chord.Extension.Client.Request.{
  u32_of, TensorDtype, OwnedVector, scalar_bytes, Scheduling, ExternalTensorDescriptor,
  EncodedRequest, tensor_metadata, tensor_bytes, validate_request_identity,
}
use vector_chord.Extension.Client.Encoder.{
  BoundedWriter, patch_header, Progress, encode_loop, Limits, version_of, preamble,
  encode_external_descriptors,
}
use vector_chord.Extension.Client.Written.{
  >>=-ok, refuse_if-ok, u32_of-ok, Writes, join-Writes, fixed_bytes, preamble-Leaves,
}
use vector_chord.Extension.Client.Frames.{
  not-ltb, ok-injective, head_bytes, blank_bytes, patch_header-ok, Checked, items_bytes,
  tensor_bytes-ok, encode_loop-ok,
}

module _ (id : ℕ) (contract : Bytes) (query : List OwnedVector) (ds : List ExternalTensorDescriptor)
    (limits : Limits) (s : Option Scheduling) (timeout : ℕ) where
  -- The body behind its three first numbers.
  abbrev pub rest_bytes : TensorDtype → Bytes
  rest_bytes dtype = fixed_bytes dtype contract s timeout query ++ items_bytes 0 ds

  pub record IsRequest (enc : EncodedRequest) : Type 0 where
    pub dtype : TensorDtype
    pub dimension : ℕ
    pub metadata : tensor_metadata query ≡ ok (dtype, dimension)
    pub identity : validate_request_identity contract s ≡ ok tt
    pub rows : length query < 4294967296
    pub size : length query * dimension * scalar_bytes dtype < usize_mod
    pub checks :
        Checked limits dimension dtype
          (length query)
          (length query * dimension * scalar_bytes dtype)
          ds
    pub few : length ds ≤ 65536
    pub layout :
        enc.frame
        ≡ head_bytes
            (version_of s)
            id
            (12 + length (rest_bytes dtype))
            dimension
            (length query)
            (length ds)
            (rest_bytes dtype)
    pub short : 36 + length (rest_bytes dtype) ≤ limits.max_batch_bytes
    pub keys : enc.heap_keys ≡ map (λ (d : ExternalTensorDescriptor). d.heap_key) ds
    pub version : enc.version ≡ version_of s

  length-blank :
      (dimension rows : ℕ) (rest : Bytes)
      → length (blank_bytes dimension rows rest) ≡ 36 + length rest
  unfolding le_bytes
  length-blank dimension rows rest = omega arith

  blank-append :
      (dimension rows : ℕ) (x y : Bytes)
      → blank_bytes dimension rows x ++ y ≡ blank_bytes dimension rows (x ++ y)
  blank-append dimension rows x y = simp append_assoc

  pub encode-IsRequest :
      (enc : EncodedRequest)
      → encode_external_descriptors id contract query ds limits s timeout ≡ ok enc
      → IsRequest enc
  unfolding encode_external_descriptors
  encode-IsRequest enc e =
      let (u, identity, f1) = >>=-ok (validate_request_identity contract s) _ enc e in
      let ((dtype, dimension), metadata, f2) = >>=-ok (tensor_metadata query) _ enc f1 in
      let (rows, e3, f3) = >>=-ok (u32_of (length query)) _ enc f2 in
      let (b3, q3) = u32_of-ok (length query) rows e3 in
      let (t4, f4) =
        refuse_if-ok (ltb limits.max_batch_tokens (length query)) request_too_large _ enc f3 in
      let (declared, e5, f5) = >>=-ok (tensor_bytes rows dimension dtype) _ enc f4 in
      let (q5, b5) = tensor_bytes-ok rows dimension dtype declared e5 in
      let (t6, f6) =
        refuse_if-ok (ltb limits.max_batch_bytes declared) request_too_large _ enc f5 in
      let empty : BoundedWriter = record { bytes = []; limit = limits.max_batch_bytes } in
      let (w, e7, f7) =
        >>=-ok (preamble dimension rows dtype contract s timeout query empty) _ enc f6 in
      let (t8, f8) = refuse_if-ok (ltb 65536 (length ds)) request_too_large _ enc f7 in
      let before : Progress = record {
        writer = w;
        total_tokens = length query;
        declared_tensor_bytes = declared;
        heap_keys = [];
      } in
      let (p, e9, f9) = >>=-ok (encode_loop limits dimension dtype ds before) _ enc f8 in
      let all = encode_loop-ok limits dimension dtype ds before p e9 in
      let (count, e10, f10) = >>=-ok (u32_of (length p.heap_keys)) _ enc f9 in
      let (b10, q10) = u32_of-ok (length p.heap_keys) count e10 in
      let (done, e11, f11) = >>=-ok (patch_header (version_of s) id count p.writer) _ enc f10 in
      let same_rows : length query * dimension * scalar_bytes dtype ≡ declared =
        sym (q5 ∙ ap (λ n. n * dimension * scalar_bytes dtype) q3) in
      let first : Writes
          (blank_bytes dimension (length query) (fixed_bytes dtype contract s timeout query)) empty
          w =
        subst
          (λ n.
            Writes (blank_bytes dimension n (fixed_bytes dtype contract s timeout query)) empty w)
          q3 ((preamble-Leaves dimension rows dtype contract s timeout query).apply empty w e7) in
      let both =
        join-Writes
          (blank_bytes dimension (length query) (fixed_bytes dtype contract s timeout query))
          (items_bytes 0 ds) first all.written in
      let content : p.writer.bytes ≡ blank_bytes dimension (length query) (rest_bytes dtype) =
        both.content
        ∙ blank-append dimension (length query) (fixed_bytes dtype contract s timeout query)
            (items_bytes 0 ds) in
      let counted : count ≡ length ds =
        q10
        ∙ ap (λ (l : List HeapKey). length l) all.keys
        ∙ length-map ds (λ (d : ExternalTensorDescriptor). d.heap_key) in
      subst IsRequest (ok-injective f11) (record {
        dtype = dtype;
        dimension = dimension;
        metadata = metadata;
        identity = identity;
        rows = b3;
        size = subst (λ n. n < usize_mod) (sym same_rows) (subst (λ n. n < usize_mod) refl b5);
        checks =
            subst (λ n. Checked limits dimension dtype (length query) n ds) (sym same_rows)
              all.checks;
        few = not-ltb 65536 (length ds) t8;
        layout =
            subst
              (λ n.
                done.bytes
                ≡ head_bytes (version_of s) id (12 + length (rest_bytes dtype)) dimension
                    (length query) n (rest_bytes dtype))
              counted
              (patch_header-ok (version_of s) id count dimension (length query) (rest_bytes dtype)
                p.writer done content e11);
        short =
            subst (λ n. n ≤ limits.max_batch_bytes)
              (ap (λ (b : Bytes). length b) content
                ∙ length-blank dimension (length query) (rest_bytes dtype))
              (subst (λ n. length p.writer.bytes ≤ n) both.kept (both.within (omega arith)));
        keys = all.keys;
        version = refl;
      })
