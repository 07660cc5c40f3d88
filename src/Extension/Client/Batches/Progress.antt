-- ===== src/Extension/Client/Batches/Progress.antt =====
-- A batch takes the next descriptors in order and within the limits, and something unless nothing is left.
use mathlib.Core.List.{append-nil, append_assoc}
use vector_chord.Base.{
  ℕ, zero, suc, ◌+◌, ◌*◌, ◌≤◌, ◌≡◌, false, Bool-cases, inl, inr, Option, none, some, List, [], ◌∷◌,
  ◌++◌, length, length-append, arith, refl, sym, ap, ◌∙◌, subst,
}
use vector_chord.Tilemaxsimd.Protocol.{Bytes}
use vector_chord.Extension.Client.{Outcome, ok, request_too_large}
use vector_chord.Extension.Client.Frames.{ok-injective, tensor_bytes-ok}
use vector_chord.Extension.Client.Written.{>>=-ok, checked-ok, refuse_if-ok, u32_of-ok}
use vector_chord.Extension.Client.Request.{
  checked, u32_of, tensor_metadata, validate_request_identity, scalar_bytes, tensor_bytes,
  validate_external_for_request, TensorDtype, OwnedVector, Scheduling, ExternalTensorDescriptor,
}
use vector_chord.Extension.Client.Encoder.{Limits}
use vector_chord.Extension.Client.Batches.{
  Totals, fixed_bytes, tenant_bytes, external_request_base_bytes, exceeds, add_descriptor, Feed,
  close, collect_loop, collect_external_batch,
}
use vector_chord.Extension.Client.Batches.Feeds.{
  Gives, ended, further, take_next-ended, take_next-none_pending, put_back,
}

abbrev pub rows_in : List ExternalTensorDescriptor → ℕ
rows_in [] = 0
rows_in (d ∷ ds) = d.rows + rows_in ds

-- The bytes of descriptors in a frame.
abbrev pub framed_in : List ExternalTensorDescriptor → ℕ
framed_in [] = 0
framed_in (d ∷ ds) = 16 + length d.tensor_ref + length d.checksum + framed_in ds

add_descriptor-sizes :
    (dimension : ℕ) (dtype : TensorDtype) (d : ExternalTensorDescriptor) (t next : Totals)
    → add_descriptor dimension dtype d t ≡ ok next
    → (next.total_tokens ≡ t.total_tokens + d.rows)
      × (next.frame_bytes ≡ t.frame_bytes + (16 + length d.tensor_ref + length d.checksum))
unfolding add_descriptor
add_descriptor-sizes dimension dtype d t next e =
    let (_, _, e1) = >>=-ok (validate_external_for_request d dimension dtype) _ next e in
    let (tokens, h, e2) = >>=-ok (checked (t.total_tokens + d.rows)) _ next e1 in
    let (bytes, _, e3) = >>=-ok (tensor_bytes d.rows dimension dtype) _ next e2 in
    let (declared, _, e4) = >>=-ok (checked (t.declared_tensor_bytes + bytes)) _ next e3 in
    let (named, k, e5) = >>=-ok (checked (16 + length d.tensor_ref)) _ next e4 in
    let (framed, m, e6) = >>=-ok (checked (named + length d.checksum)) _ next e5 in
    let (frame, n, e7) = >>=-ok (checked (t.frame_bytes + framed)) _ next e6 in
    let made = ok-injective e7 in
    (
      ap (λ (x : Totals). x.total_tokens) (sym made) ∙ (checked-ok _ tokens h).1,
      ap (λ (x : Totals). x.frame_bytes) (sym made)
          ∙ omega (
            arith,
            (checked-ok _ named k).1,
            (checked-ok _ framed m).1,
            (checked-ok _ frame n).1,
          ),
    )

within :
    (limits : Limits) (t : Totals)
    → exceeds limits t ≡ false
    → (t.total_tokens ≤ limits.max_batch_tokens) × (t.frame_bytes ≤ limits.max_batch_bytes)
unfolding exceeds
within limits t x = (ground arith, ground arith)

module _ {C S : Type 0} (fetch : C → S → Outcome (Option ExternalTensorDescriptor × S)) where
  -- What a batch, after the descriptors of `before`, has taken of `ds`; `t` are the sizes before it.
  pub record IsTaken (limits : Limits) (t : Totals)
      (ds before batch : List ExternalTensorDescriptor) (feed : Feed fetch) : Type 0 where
    pub taken : List ExternalTensorDescriptor
    pub left : List ExternalTensorDescriptor
    pub in_order : ds ≡ taken ++ left
    pub after : batch ≡ before ++ taken
    pub gives : Gives fetch feed left
    pub some_or_all : length batch ≡ 0 → left ≡ []
    pub few : length batch ≤ 65536
    pub tokens : t.total_tokens + rows_in taken ≤ limits.max_batch_tokens
    pub frame : t.frame_bytes + framed_in taken ≤ limits.max_batch_bytes

  close-IsTaken :
      (limits : Limits) (t : Totals) (before batch : List ExternalTensorDescriptor)
      (d : ExternalTensorDescriptor) (ds : List ExternalTensorDescriptor) (next feed : Feed fetch)
      → next.pending ≡ none
      → Gives fetch next ds
      → exceeds limits t ≡ false
      → length before ≤ 65536
      → close fetch before d next ≡ ok (batch, feed)
      → IsTaken limits t (d ∷ ds) before batch feed
  unfolding close
  close-IsTaken limits t [] batch d ds next feed p g x l e = absurd (ground arith)
  close-IsTaken limits t (b ∷ before) batch d ds next feed p g x l e =
      let made = ok-injective e in
      let closed : IsTaken limits t (d ∷ ds) (b ∷ before) (b ∷ before)
          (record next { pending = some d }) =
        record {
          taken = [];
          left = d ∷ ds;
          in_order = refl;
          after = sym (append-nil (b ∷ before));
          gives = further (put_back fetch next d p) g;
          some_or_all = λ h. absurd (omega arith);
          few = l;
          tokens = omega (arith, (within limits t x).0);
          frame = omega (arith, (within limits t x).1);
        } in
      subst
        (λ (r : List ExternalTensorDescriptor × Feed fetch).
          IsTaken limits t (d ∷ ds) (b ∷ before) r.0 r.1)
        made closed

  collect_loop-IsTaken :
      (limits : Limits) (dimension : ℕ) (dtype : TensorDtype) (room : ℕ) (t : Totals)
      (before : List ExternalTensorDescriptor) (start : Feed fetch)
      (ds batch : List ExternalTensorDescriptor) (feed : Feed fetch)
      → length before + room ≡ 65536
      → exceeds limits t ≡ false
      → Gives fetch start ds
      → collect_loop fetch limits dimension dtype room t before start ≡ ok (batch, feed)
      → IsTaken limits t ds before batch feed
  unfolding collect_loop
  collect_loop-IsTaken limits dimension dtype zero t before start ds batch feed l x g e =
      let full : IsTaken limits t ds before before start = record {
        taken = [];
        left = ds;
        in_order = refl;
        after = sym (append-nil before);
        gives = g;
        some_or_all = λ h. absurd (omega (arith, l, h));
        few = omega (arith, l);
        tokens = omega (arith, (within limits t x).0);
        frame = omega (arith, (within limits t x).1);
      } in
      subst (λ (r : List ExternalTensorDescriptor × Feed fetch). IsTaken limits t ds before r.0 r.1)
        (ok-injective e) full
  collect_loop-IsTaken limits dimension dtype (suc room) t before start ds batch feed l x
        (Gives.ended {end = end} h) e =
      let all : IsTaken limits t [] before before end = record {
        taken = [];
        left = [];
        in_order = refl;
        after = sym (append-nil before);
        gives = ended (take_next-ended fetch start end h);
        some_or_all = λ h. refl;
        few = omega (arith, l);
        tokens = omega (arith, (within limits t x).0);
        frame = omega (arith, (within limits t x).1);
      } in
      subst (λ (r : List ExternalTensorDescriptor × Feed fetch). IsTaken limits t [] before r.0 r.1)
        (ok-injective (rw h at e)) all
  collect_loop-IsTaken limits dimension dtype (suc room) t before start ds batch feed l x
        (Gives.further {next = next} {d = d} {ds = rest} h g) e =
      let (t', e1, e2) = >>=-ok (add_descriptor dimension dtype d t) _ (batch, feed) (rw h at e) in
      let (q, f) = add_descriptor-sizes dimension dtype d t t' e1 in
      elim (Bool-cases (exceeds limits t')) [
        | inl y ↦
            close-IsTaken limits t before batch d rest next feed
              (take_next-none_pending fetch start next d h) g x (omega (arith, l)) (rw y at e2)
        | inr y ↦
            let v =
              collect_loop-IsTaken limits dimension dtype room t' (before ++ d ∷ []) next rest batch
                feed (omega (arith, l, length-append before (d ∷ []))) y g (rw y at e2) in
            record {
              taken = d ∷ v.taken;
              left = v.left;
              in_order = ap (◌∷◌ d) v.in_order;
              after = v.after ∙ append_assoc before (d ∷ []) v.taken;
              gives = v.gives;
              some_or_all = v.some_or_all;
              few = v.few;
              tokens = omega (arith, v.tokens, q);
              frame = omega (arith, v.frame, f);
            }
      ]

  -- A batch that is collected is the next descriptors of the feed, in order, and the feed gives the rest
  -- afterwards. It is empty only if nothing is left. It has at most 65536 descriptors, and with the query
  -- their tokens and the bytes of their frame are within the limits.
  pub collect_external_batch-IsTaken :
      (contract : Bytes) (query : List OwnedVector) (limits : Limits)
      (scheduling : Option Scheduling) (start : Feed fetch)
      (ds batch : List ExternalTensorDescriptor) (feed : Feed fetch)
      → Gives fetch start ds
      → collect_external_batch fetch contract query limits scheduling start ≡ ok (batch, feed)
      → (left : List ExternalTensorDescriptor) × (ds ≡ batch ++ left)
        × Gives fetch feed left
        × (length batch ≡ 0 → left ≡ [])
        × (length batch ≤ 65536)
        × (length query + rows_in batch ≤ limits.max_batch_tokens)
        × (dtype : TensorDtype) × (dimension : ℕ) × (tensor_metadata query ≡ ok (dtype, dimension))
        × (fixed_bytes scheduling
              + length contract
              + tenant_bytes scheduling
              + length query * dimension * scalar_bytes dtype
              + framed_in batch
            ≤ limits.max_batch_bytes)
  unfolding collect_external_batch external_request_base_bytes
  collect_external_batch-IsTaken contract query limits scheduling start ds batch feed g e =
      let (_, _, e1) = >>=-ok (validate_request_identity contract scheduling) _ (batch, feed) e in
      let (m, made, e2) = >>=-ok (tensor_metadata query) _ (batch, feed) e1 in
      let (rows, h3, e3) = >>=-ok (u32_of (length query)) _ (batch, feed) e2 in
      let (bytes, h4, e4) = >>=-ok (tensor_bytes rows m.1 m.0) _ (batch, feed) e3 in
      let (base, h5, e5) =
        >>=-ok (external_request_base_bytes contract scheduling bytes) _ (batch, feed) e4 in
      let begin : Totals = record {
        total_tokens = length query;
        declared_tensor_bytes = bytes;
        frame_bytes = base;
      } in
      let (x, e6) = refuse_if-ok (exceeds limits begin) request_too_large _ (batch, feed) e5 in
      let v = collect_loop-IsTaken limits m.1 m.0 65536 begin [] start ds batch feed refl x g e6 in
      let (named, h7, e7) = >>=-ok (checked (fixed_bytes scheduling + length contract)) _ base h5 in
      let (tenanted, h8, e8) = >>=-ok (checked (named + tenant_bytes scheduling)) _ base e7 in
      let sized : bytes ≡ length query * m.1 * scalar_bytes m.0 =
        (tensor_bytes-ok rows m.1 m.0 bytes h4).0
        ∙ ap (λ n. n * m.1 * scalar_bytes m.0) (u32_of-ok (length query) rows h3).1 in
      let q : batch ≡ v.taken = v.after in
      (
        v.left,
        v.in_order ∙ ap (λ l. l ++ v.left) (sym q),
        v.gives,
        v.some_or_all,
        v.few,
        omega (arith, v.tokens, ap rows_in q),
        m.0,
        m.1,
        made,
        omega (
          arith,
          v.frame,
          ap framed_in q,
          (checked-ok _ named h7).1,
          (checked-ok _ tenanted h8).1,
          (checked-ok _ base e8).1,
          sized,
        ),
      )
