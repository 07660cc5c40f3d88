-- ===== src/Extension/Client/Frames.antt =====
-- The frame that `encode_external_descriptors` makes, where it makes one, and what it has checked.
use vector_chord.Base.{
  ℕ, suc, ◌+◌, ◌-◌, ◌*◌, ◌<◌, ◌≤◌, ◌≡◌, false, List, [], ◌∷◌, ◌++◌, length, take, drop, replicate,
  ltb, arith, refl, sym, ap, ◌∙◌, subst, map, length-append,
}
use mathlib.Core.List.{append_assoc, append-nil}
use vector_chord.Tilemaxsimd.Protocol.{Bytes, usize_mod, le_bytes}
use vector_chord.Tilemaxsimd.Protocol.Frame.{magic, header_bytes}
use vector_chord.Extension.Client.{
  request_too_large, protocol, invalid_length, Outcome, ok, HeapKey,
}
use vector_chord.Extension.Client.Request.{
  u32_of, checked, TensorDtype, scalar_bytes, ExternalTensorDescriptor, tensor_bytes,
  validate_external_for_request,
}
use vector_chord.Extension.Client.Encoder.{
  BoundedWriter, patch, patch_header, Progress, put_descriptor, encode_descriptor, encode_loop,
  Limits,
}
use vector_chord.Extension.Client.Written.{
  >>=-ok, refuse_if-ok, u32_of-ok, checked-ok, Writes, join-Writes, descriptor_bytes,
  put_descriptor-Leaves,
}

patch-ok :
    (offset : ℕ) (x : Bytes) (w w' : BoundedWriter)
    → patch offset x w ≡ ok w'
    → w'.bytes ≡ take offset w.bytes ++ (x ++ drop (offset + length x) w.bytes)
unfolding patch
patch-ok offset x w w' e = ground arith

-- A frame up to the candidates' count, with a header or with zeros for it.
abbrev pub head_bytes : ℕ → ℕ → ℕ → ℕ → ℕ → ℕ → Bytes → Bytes
head_bytes version id size dimension rows count rest =
    magic
    ++ (le_bytes 2 version
        ++ (le_bytes 2 1
            ++ (le_bytes 8 id
                ++ (le_bytes 8 size
                    ++ (le_bytes 4 dimension ++ (le_bytes 4 rows ++ (le_bytes 4 count ++ rest)))))))

abbrev pub blank_bytes : ℕ → ℕ → Bytes → Bytes
blank_bytes dimension rows rest =
    replicate 24 0 ++ (le_bytes 4 dimension ++ (le_bytes 4 rows ++ (le_bytes 4 0 ++ rest)))

pub patch_header-ok :
    (version id count dimension rows : ℕ) (rest : Bytes) (w w' : BoundedWriter)
    → w.bytes ≡ blank_bytes dimension rows rest
    → patch_header version id count w ≡ ok w'
    → w'.bytes ≡ head_bytes version id (12 + length rest) dimension rows count rest
unfolding patch_header le_bytes
patch_header-ok version id count dimension rows rest w w' h e =
    let (w0, e0, f0) = >>=-ok (patch 32 (le_bytes 4 count) w) _ w' e in
    let b0 =
      patch-ok 32 (le_bytes 4 count) w w0 e0
      ∙ ap (λ (b : Bytes). take 32 b ++ (le_bytes 4 count ++ drop 36 b)) h in
    let (t, f) =
      refuse_if-ok (ltb (length w0.bytes) header_bytes) (protocol invalid_length) _ w' f0 in
    let (w1, e1, f1) = >>=-ok (patch 0 magic w0) _ w' f in
    let b1 = patch-ok 0 magic w0 w1 e1 ∙ ap (λ (b : Bytes). magic ++ drop 4 b) b0 in
    let (w2, e2, f2) = >>=-ok (patch 4 (le_bytes 2 version) w1) _ w' f1 in
    let b2 =
      patch-ok 4 (le_bytes 2 version) w1 w2 e2
      ∙ ap (λ (b : Bytes). take 4 b ++ (le_bytes 2 version ++ drop 6 b)) b1 in
    let (w3, e3, f3) = >>=-ok (patch 6 (le_bytes 2 1) w2) _ w' f2 in
    let b3 =
      patch-ok 6 (le_bytes 2 1) w2 w3 e3
      ∙ ap (λ (b : Bytes). take 6 b ++ (le_bytes 2 1 ++ drop 8 b)) b2 in
    let (w4, e4, f4) = >>=-ok (patch 8 (le_bytes 8 id) w3) _ w' f3 in
    let b4 =
      patch-ok 8 (le_bytes 8 id) w3 w4 e4
      ∙ ap (λ (b : Bytes). take 8 b ++ (le_bytes 8 id ++ drop 16 b)) b3 in
    let size : length w0.bytes - header_bytes ≡ 12 + length rest =
      ap (λ (b : Bytes). length b - 24) b0 ∙ omega arith in
    patch-ok 16 (le_bytes 8 (length w0.bytes - header_bytes)) w4 w' f4
    ∙ ap (λ (b : Bytes). take 16 b ++ (le_bytes 8 (length w0.bytes - header_bytes) ++ drop 24 b)) b4
    ∙ ap (λ n. head_bytes version id n dimension rows count rest) size

-- What the loop has checked: every descriptor, and the totals after each of them.
abbrev pub Checked : Limits → ℕ → TensorDtype → ℕ → ℕ → List ExternalTensorDescriptor → Type 0
Checked limits dimension dtype tokens bytes [] = Unit {0}
Checked limits dimension dtype tokens bytes (d ∷ ds) =
    (validate_external_for_request d dimension dtype ≡ ok tt)
    × (d.rows * dimension * scalar_bytes dtype < usize_mod)
    × (tokens + d.rows ≤ limits.max_batch_tokens)
    × (bytes + d.rows * dimension * scalar_bytes dtype ≤ limits.max_batch_bytes)
    × Checked limits dimension dtype (tokens + d.rows)
        (bytes + d.rows * dimension * scalar_bytes dtype) ds

-- The candidates' bytes, numbered from the first on.
abbrev pub items_bytes : ℕ → List ExternalTensorDescriptor → Bytes
items_bytes id [] = []
items_bytes id (d ∷ ds) = descriptor_bytes id d ++ items_bytes (suc id) ds

pub tensor_bytes-ok :
    (rows dimension : ℕ) (dtype : TensorDtype) (n : ℕ)
    → tensor_bytes rows dimension dtype ≡ ok n
    → (n ≡ rows * dimension * scalar_bytes dtype) × (n < usize_mod)
unfolding tensor_bytes
tensor_bytes-ok rows dimension dtype n e =
    let (k, e1, f1) = >>=-ok (checked (rows * dimension)) _ n e in
    let (b1, q1) = checked-ok (rows * dimension) k e1 in
    let (b2, q2) = checked-ok (k * scalar_bytes dtype) n f1 in
    (q2 ∙ ap (λ j. j * scalar_bytes dtype) q1, subst (λ j. j < usize_mod) (sym q2) b2)

pub not-ltb : (a b : ℕ) → ltb a b ≡ false → b ≤ a
not-ltb a b e = ground arith

pub ok-injective : {A : Type 0} {a b : A} → Outcome.ok a ≡ ok b → a ≡ b
ok-injective {A} {a} {b} e = cc

-- One candidate of the loop.
record Encoded (limits : Limits) (dimension : ℕ) (dtype : TensorDtype)
    (d : ExternalTensorDescriptor) (p q : Progress) : Type 0 where
  valid : validate_external_for_request d dimension dtype ≡ ok tt
  size : d.rows * dimension * scalar_bytes dtype < usize_mod
  tokens : q.total_tokens ≡ p.total_tokens + d.rows
  few_tokens : q.total_tokens ≤ limits.max_batch_tokens
  bytes :
      q.declared_tensor_bytes ≡ p.declared_tensor_bytes + d.rows * dimension * scalar_bytes dtype
  few_bytes : q.declared_tensor_bytes ≤ limits.max_batch_bytes
  pub written : Writes (descriptor_bytes (length p.heap_keys) d) p.writer q.writer
  pub keys : q.heap_keys ≡ p.heap_keys ++ d.heap_key ∷ []

encode_descriptor-ok :
    (limits : Limits) (dimension : ℕ) (dtype : TensorDtype) (d : ExternalTensorDescriptor)
    (p q : Progress)
    → encode_descriptor limits dimension dtype d p ≡ ok q
    → Encoded limits dimension dtype d p q
unfolding encode_descriptor
encode_descriptor-ok limits dimension dtype d p q e =
    let (u, valid, f1) = >>=-ok (validate_external_for_request d dimension dtype) _ q e in
    let (tokens, e2, f2) = >>=-ok (checked (p.total_tokens + d.rows)) _ q f1 in
    let (b2, q2) = checked-ok _ tokens e2 in
    let (few, f3) = refuse_if-ok (ltb limits.max_batch_tokens tokens) request_too_large _ q f2 in
    let (bytes, e4, f4) = >>=-ok (tensor_bytes d.rows dimension dtype) _ q f3 in
    let (q4, b4) = tensor_bytes-ok d.rows dimension dtype bytes e4 in
    let (declared, e5, f5) = >>=-ok (checked (p.declared_tensor_bytes + bytes)) _ q f4 in
    let (b5, q5) = checked-ok _ declared e5 in
    let (less, f6) = refuse_if-ok (ltb limits.max_batch_bytes declared) request_too_large _ q f5 in
    let (id, e7, f7) = >>=-ok (u32_of (length p.heap_keys)) _ q f6 in
    let (b7, q7) = u32_of-ok _ id e7 in
    let (w, e8, f8) = >>=-ok (put_descriptor id d p.writer) _ q f7 in
    let made : q ≡ record {
      writer = w;
      total_tokens = tokens;
      declared_tensor_bytes = declared;
      heap_keys = p.heap_keys ++ d.heap_key ∷ [];
    } =
      sym (ok-injective f8) in
    subst (Encoded limits dimension dtype d p) (sym made) (record {
      valid = valid;
      size = subst (λ n. n < usize_mod) q4 b4;
      tokens = q2;
      few_tokens = not-ltb limits.max_batch_tokens tokens few;
      bytes = q5 ∙ ap (λ n. p.declared_tensor_bytes + n) q4;
      few_bytes = not-ltb limits.max_batch_bytes declared less;
      written =
          (put_descriptor-Leaves (length p.heap_keys) d).apply p.writer w
            (subst (λ n. put_descriptor n d p.writer ≡ ok w) q7 e8);
      keys = refl;
    })

subst2-Checked :
    (limits : Limits) (dimension : ℕ) (dtype : TensorDtype) (ds : List ExternalTensorDescriptor)
    {t t' b b' : ℕ}
    → t ≡ t'
    → b ≡ b'
    → Checked limits dimension dtype t b ds
    → Checked limits dimension dtype t' b' ds
subst2-Checked limits dimension dtype ds {t} {t'} {b} {b'} p q c =
    subst (λ k. Checked limits dimension dtype t' k ds) q
      (subst (λ k. Checked limits dimension dtype k b ds) p c)

pub record EncodedAll (limits : Limits) (dimension : ℕ) (dtype : TensorDtype)
    (ds : List ExternalTensorDescriptor) (p q : Progress) : Type 0 where
  pub checks : Checked limits dimension dtype p.total_tokens p.declared_tensor_bytes ds
  pub written : Writes (items_bytes (length p.heap_keys) ds) p.writer q.writer
  pub keys : q.heap_keys ≡ p.heap_keys ++ map (λ (d : ExternalTensorDescriptor). d.heap_key) ds

pub encode_loop-ok :
    (limits : Limits) (dimension : ℕ) (dtype : TensorDtype) (ds : List ExternalTensorDescriptor)
    (p q : Progress)
    → encode_loop limits dimension dtype ds p ≡ ok q
    → EncodedAll limits dimension dtype ds p q
unfolding encode_loop
encode_loop-ok limits dimension dtype [] p q e =
    subst (EncodedAll limits dimension dtype [] p) (ok-injective e) (record {
      checks = tt;
      written = record { content = sym (append-nil p.writer.bytes); kept = refl; within = λ h. h };
      keys = sym (append-nil p.heap_keys);
    })
encode_loop-ok limits dimension dtype (d ∷ ds) p q e =
    let (r, e1, f1) = >>=-ok (encode_descriptor limits dimension dtype d p) _ q e in
    let one = encode_descriptor-ok limits dimension dtype d p r e1 in
    let all = encode_loop-ok limits dimension dtype ds r q f1 in
    let n : length r.heap_keys ≡ suc (length p.heap_keys) =
      ap (λ (l : List HeapKey). length l) one.keys
      ∙ omega (arith, length-append {0} p.heap_keys (d.heap_key ∷ [])) in
    record {
      checks = (
        one.valid,
        one.size,
        subst (λ k. k ≤ limits.max_batch_tokens) one.tokens one.few_tokens,
        subst (λ k. k ≤ limits.max_batch_bytes) one.bytes one.few_bytes,
        subst2-Checked limits dimension dtype ds one.tokens one.bytes all.checks,
      );
      written =
          join-Writes (descriptor_bytes (length p.heap_keys) d)
            (items_bytes (suc (length p.heap_keys)) ds) one.written
            (subst (λ k. Writes (items_bytes k ds) r.writer q.writer) n all.written);
      keys =
          all.keys
          ∙ ap (λ l. l ++ map (λ (d : ExternalTensorDescriptor). d.heap_key) ds) one.keys
          ∙ append_assoc p.heap_keys (d.heap_key ∷ [])
              (map (λ (d : ExternalTensorDescriptor). d.heap_key) ds);
    }
