-- ===== src/Extension/Client/Parsed.antt =====
-- The candidates of a frame of the extension, as `parse` of services/tilemaxsimd/src/protocol.rs reads
-- them.
use vector_chord.Base.{
  ℕ, suc, ◌+◌, ◌*◌, ◌<◌, ◌≤◌, ◌≡◌, Bool, true, false, not, ◌||◌, Option, none, some, List, [], ◌∷◌,
  ◌++◌, length, drop, All, ltb, ◌==◌, arith, refl, sym, ap, ◌∙◌, subst,
}
use mathlib.Core.List.{append_assoc}
use vector_chord.Base.Vecs.{any}
use vector_chord.Tilemaxsimd.Protocol.{Result, Bytes, usize_mod, le_bytes, Descriptor, Reader}
use vector_chord.Tilemaxsimd.Protocol.Readers.{IsBefore, uint_step}
use vector_chord.Tilemaxsimd.Protocol.Texts.{IsText, IsPrinted, ascii-IsText, text_step}
use vector_chord.Tilemaxsimd.Protocol.Frame as Frame
use vector_chord.Tilemaxsimd.Protocol.Frame.{
  reference_prefix, checksum_prefix, strip_prefix, is_lower_hex, same_bytes, digest_of, add_totals,
  candidate, candidates, token_limit, byte_limit,
}
use vector_chord.Extension.Client.{Outcome, tensor_mismatch, invalid_checksum, invalid_reference}
use vector_chord.Extension.Client.Request.{
  TensorDtype, f32, f16, dtype_code, same_dtype, scalar_bytes, ExternalTensorDescriptor,
  validate_external_for_request, is_digest, has_control, refuse_if,
}
use vector_chord.Extension.Client.Encoder.{Limits}
use vector_chord.Extension.Client.Written.{refuse_if-ok, descriptor_bytes}
use vector_chord.Extension.Client.Frames.{Checked, items_bytes}

-- The daemon's size of a tensor is the extension's.
pub tensor_bytes-code :
    (rows dimension : ℕ) (dtype : TensorDtype)
    → 0 < rows
    → 0 < dimension
    → dimension ≤ 60000
    → rows * dimension * scalar_bytes dtype < usize_mod
    → Frame.tensor_bytes rows dimension (dtype_code dtype)
      ≡ Result.ok (rows * dimension * scalar_bytes dtype)
unfolding Frame.tensor_bytes
tensor_bytes-code rows dimension f32 r d m h = ground arith
tensor_bytes-code rows dimension f16 r d m h = ground arith

-- The digest that a checksum names, and a reference that names it too.
abbrev pub digest : ExternalTensorDescriptor → Bytes
digest d = drop 7 d.checksum

abbrev pub IsAddressed : ExternalTensorDescriptor → Type 0
IsAddressed d = d.tensor_ref ≡ reference_prefix ++ digest d

-- What the extension has checked of a descriptor.
record IsValid (d : ExternalTensorDescriptor) : Type 0 where
  some_rows : 0 < d.rows
  few_rows : d.rows ≤ 65536
  prefix : d.checksum ≡ checksum_prefix ++ digest d
  digits : length (digest d) ≡ 64
  hexadecimal : any (λ b. not (is_lower_hex b)) (digest d) ≡ false

strip_prefix-some : (p s t : Bytes) → strip_prefix p s ≡ some t → s ≡ p ++ t
strip_prefix-some [] s t e = ground arith
strip_prefix-some (c ∷ p) [] t e = absurd (ground arith)
strip_prefix-some (c ∷ p) (b ∷ s) t e = ground (arith, strip_prefix-some p s t)

is_digest-some :
    (o : Option Bytes)
    → is_digest o ≡ true
    → (t : Bytes) × (o ≡ some t) × (length t ≡ 64) × (any (λ b. not (is_lower_hex b)) t ≡ false)
is_digest-some none e = absurd (ground arith)
is_digest-some (some t) e = (t, refl, ground arith, ground arith)

first_checks :
    (rows dimension : ℕ) (a b c : Bool)
    → (rows == 0 || ltb 65536 rows || a || b || c) ≡ false
    → (0 < rows) × (rows ≤ 65536)
first_checks rows dimension a b c e = (ground arith, ground arith)

second_half : (a b : Bool) → (a || not b) ≡ false → b ≡ true
second_half a b e = ground arith

validate-IsValid :
    (d : ExternalTensorDescriptor) (dimension : ℕ) (dtype : TensorDtype)
    → validate_external_for_request d dimension dtype ≡ Outcome.ok tt
    → IsValid d
unfolding validate_external_for_request
validate-IsValid d dimension dtype e =
    let (a, f) =
      refuse_if-ok
        (d.rows == 0
          || ltb 65536 d.rows
          || ltb 60000 dimension
          || not (d.dimension == dimension)
          || not (same_dtype d.dtype dtype))
        tensor_mismatch _ tt e in
    let (b, g) =
      refuse_if-ok
        (length d.tensor_ref == 0 || ltb 4096 (length d.tensor_ref) || has_control d.tensor_ref)
        invalid_reference
        (refuse_if
          (ltb 512 (length d.checksum) || not (is_digest (strip_prefix checksum_prefix d.checksum)))
          invalid_checksum)
        tt f in
    let c : (ltb 512 (length d.checksum)
          || not (is_digest (strip_prefix checksum_prefix d.checksum)))
        ≡ false =
      refused
        (ltb 512 (length d.checksum) || not (is_digest (strip_prefix checksum_prefix d.checksum)))
        g in
    let (t, s, n, h) =
      is_digest-some (strip_prefix checksum_prefix d.checksum)
        (second_half (ltb 512 (length d.checksum)) _ c) in
    let p : d.checksum ≡ checksum_prefix ++ t = strip_prefix-some checksum_prefix d.checksum t s in
    let q : t ≡ digest d = sym (ap (λ (l : Bytes). drop 7 l) p) in
    let (r1, r2) =
      first_checks d.rows dimension (ltb 60000 dimension) (not (d.dimension == dimension))
        (not (same_dtype d.dtype dtype)) a in
    record {
      some_rows = r1;
      few_rows = r2;
      prefix = p ∙ ap (λ l. checksum_prefix ++ l) q;
      digits = subst (λ l. length l ≡ 64) q n;
      hexadecimal = subst (λ l. any (λ b. not (is_lower_hex b)) l ≡ false) q h;
    }
  where
    refused : (t : Bool) → refuse_if t invalid_checksum ≡ Outcome.ok tt → t ≡ false
    refused t x = ground arith

hexadecimal-IsPrinted : (s : Bytes) → any (λ b. not (is_lower_hex b)) s ≡ false → All IsPrinted s
unfolding any
hexadecimal-IsPrinted [] e = tt
hexadecimal-IsPrinted (c ∷ cs) e =
    ((ground arith, ground arith), hexadecimal-IsPrinted cs (ground arith))

same_bytes_self : (s : Bytes) → same_bytes s s ≡ true
same_bytes_self [] = refl
same_bytes_self (c ∷ cs) = let e : (c == c) ≡ true = ground arith in rw e (same_bytes_self cs)

reference-IsPrinted : (t : Bytes) → All IsPrinted t → All IsPrinted (reference_prefix ++ t)
reference-IsPrinted t a = ground arith

checksum-IsPrinted : (t : Bytes) → All IsPrinted t → All IsPrinted (checksum_prefix ++ t)
checksum-IsPrinted t a = ground arith

digest_of_lem :
    (d : ExternalTensorDescriptor)
    → IsValid d
    → IsAddressed d
    → digest_of d.tensor_ref d.checksum ≡ Result.ok (digest d)
unfolding digest_of
digest_of_lem d v a =
    let n : (length (digest d) == 64) ≡ true = rw (v.digits) refl in
    let s : same_bytes d.checksum (checksum_prefix ++ digest d) ≡ true =
      subst (λ c. same_bytes c (checksum_prefix ++ digest d) ≡ true) (sym v.prefix)
        (same_bytes_self (checksum_prefix ++ digest d)) in
    rw a (rw (n, v.hexadecimal, s) refl)

add_totals_lem :
    (tokens bytes rows size : ℕ)
    → tokens + rows ≤ token_limit
    → bytes + size ≤ byte_limit
    → add_totals tokens bytes rows size ≡ Result.ok (tokens + rows, bytes + size)
unfolding add_totals
add_totals_lem tokens bytes rows size t b = ground arith

new_number : (seen : List ℕ) (id : ℕ) → All (λ n. n < id) seen → any (λ n. n == id) seen ≡ false
unfolding any
new_number [] id a = refl
new_number (n ∷ ns) id (p, a) = ground (arith, new_number ns id a)

earlier : (id : ℕ) (seen : List ℕ) → All (λ n. n < id) seen → All (λ n. n < suc id) seen
earlier id [] a = tt
earlier id (n ∷ ns) (p, a) = (omega arith, earlier id ns a)

-- The candidate that the daemon makes of a descriptor.
abbrev pub described : Bytes → ℕ → TensorDtype → ℕ → ExternalTensorDescriptor → Descriptor
described contract dimension dtype id d = record {
  candidate_id = id;
  contract = contract;
  digest = digest d;
  rows = d.rows;
  dimension = dimension;
  dtype = dtype_code dtype;
}

abbrev pub described_all :
    Bytes → ℕ → TensorDtype → ℕ → List ExternalTensorDescriptor → List Descriptor
described_all contract dimension dtype id [] = []
described_all contract dimension dtype id (d ∷ ds) =
    described contract dimension dtype id d ∷ described_all contract dimension dtype (suc id) ds

module _ (contract : Bytes) (dimension : ℕ) (dtype : TensorDtype) (some_columns : 0 < dimension)
    (few_columns : dimension ≤ 60000) where
  candidate_lem :
      (id tokens bytes : ℕ) (seen : List ℕ) (d : ExternalTensorDescriptor) (rest : Bytes)
      {r : Reader}
      → id < 65536
      → All (λ n. n < id) seen
      → IsValid d
      → IsAddressed d
      → d.rows * dimension * scalar_bytes dtype < usize_mod
      → tokens + d.rows ≤ token_limit
      → bytes + d.rows * dimension * scalar_bytes dtype ≤ byte_limit
      → IsBefore (descriptor_bytes id d ++ rest) r
      → (r' : Reader) × IsBefore rest r'
        × (candidate contract dimension (dtype_code dtype) seen tokens bytes r
            ≡ Result.ok (
              (
                described contract dimension dtype id d,
                tokens + d.rows,
                bytes + d.rows * dimension * scalar_bytes dtype,
              ),
              r',
            ))
  unfolding candidate
  candidate_lem id tokens bytes seen d rest {r} i s v a z t b before =
      let n : length d.tensor_ref ≡ 73 = rw a (omega (arith, v.digits)) in
      let m : length d.checksum ≡ 71 = rw (v.prefix) (omega (arith, v.digits)) in
      let printed = hexadecimal-IsPrinted (digest d) v.hexadecimal in
      let t1 : IsText d.tensor_ref =
        subst IsText (sym a) (ascii-IsText _ (reference-IsPrinted (digest d) printed)) in
      let t2 : IsText d.checksum =
        subst IsText (sym v.prefix) (ascii-IsText _ (checksum-IsPrinted (digest d) printed)) in
      let ahead : IsBefore
          (le_bytes 4 id
            ++ (le_bytes 4 d.rows
                ++ (le_bytes 4 (length d.tensor_ref)
                    ++ (le_bytes 4 (length d.checksum) ++ (d.tensor_ref ++ (d.checksum ++ rest))))))
          r =
        subst (λ l. IsBefore l r) (simp append_assoc) before in
      let (e1, b1) = uint_step 4 id _ (omega arith) ahead in
      let (e2, b2) = uint_step 4 d.rows _ (omega (arith, v.few_rows)) b1 in
      let (e3, b3) = uint_step 4 (length d.tensor_ref) _ (omega arith) b2 in
      let (e4, b4) = uint_step 4 (length d.checksum) _ (omega arith) b3 in
      let (e5, b5) =
        text_step d.tensor_ref 4096 (d.checksum ++ rest) t1 (omega arith) (omega arith) b4 in
      let (e6, b6) = text_step d.checksum 512 rest t2 (omega arith) (omega arith) b5 in
      (
        _,
        b6,
        rw
            (
              e1,
              e2,
              e3,
              e4,
              new_number seen id s,
              e5,
              e6,
              digest_of_lem d v a,
              tensor_bytes-code d.rows dimension dtype v.some_rows some_columns few_columns z,
              add_totals_lem tokens bytes d.rows (d.rows * dimension * scalar_bytes dtype) t b,
            )
            refl,
      )

  pub candidates_lem :
      (limits : Limits) (id tokens bytes : ℕ) (seen : List ℕ) (ds : List ExternalTensorDescriptor)
      (rest : Bytes) {r : Reader}
      → limits.max_batch_tokens ≤ token_limit
      → limits.max_batch_bytes ≤ byte_limit
      → id + length ds ≤ 65536
      → All (λ n. n < id) seen
      → All IsAddressed ds
      → Checked limits dimension dtype tokens bytes ds
      → IsBefore (items_bytes id ds ++ rest) r
      → (r' : Reader) × IsBefore rest r'
        × (candidates (length ds) contract dimension (dtype_code dtype) seen tokens bytes r
            ≡ Result.ok (described_all contract dimension dtype id ds, r'))
  unfolding candidates
  candidates_lem limits id tokens bytes seen [] rest {r} lt lb n s a c before = (r, before, refl)
  candidates_lem limits id tokens bytes seen (d ∷ ds) rest {r} lt lb n s (a, as') (v, z, t, b, c)
        before =
      let before' : IsBefore (descriptor_bytes id d ++ (items_bytes (suc id) ds ++ rest)) r =
        subst (λ l. IsBefore l r)
          (append_assoc (descriptor_bytes id d) (items_bytes (suc id) ds) rest) before in
      let (r1, b1, e1) =
        candidate_lem id tokens bytes seen d (items_bytes (suc id) ds ++ rest) (omega arith) s
          (validate-IsValid d dimension dtype v) a z (omega arith) (omega arith) before' in
      let (r2, b2, e2) =
        candidates_lem limits (suc id) (tokens + d.rows)
          (bytes + d.rows * dimension * scalar_bytes dtype) (id ∷ seen) ds rest lt lb (omega arith)
          (omega arith, earlier id seen s) as' c b1 in
      (r2, b2, rw (e1, e2) refl)
