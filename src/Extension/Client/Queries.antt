-- ===== src/Extension/Client/Queries.antt =====
-- The query of a request as bytes, and as the daemon sees it.
use vector_chord.Base.{
  ℕ, ◌*◌, ◌<◌, ◌≤◌, ◌≡◌, Bool, true, false, not, ◌||◌, List, [], ◌∷◌, ◌++◌, length, All, ◌==◌,
  arith, refl, ap, ◌∙◌, subst, length-append,
}
use vector_chord.Tilemaxsimd.Protocol.{Result, Bytes, le_value, le_bytes}
use vector_chord.Tilemaxsimd.Protocol.Words.{length-le_bytes, le_value-le_bytes}
use vector_chord.Tilemaxsimd.Protocol.Frame.{
  is_finite_f32, is_finite_f16, finite_f32, finite_f16, validate_finite,
}
use vector_chord.Extension.Client.{tensor_mismatch, ok}
use vector_chord.Extension.Client.Request.{
  TensorDtype, f32, f16, dtype_code, same_dtype, OwnedVector, vecf32, vecf16, rabitq8, rabitq4, dim,
  dtype_of, check_matches, tensor_metadata, scalar_bytes,
}
use vector_chord.Extension.Client.Written.{
  >>=-ok, refuse_if-ok, value_bytes, vector_bytes, query_bytes,
}
use vector_chord.Extension.Client.Frames.{ok-injective}

-- Numbers of that many bits, none of them an infinity or a NaN.
abbrev pub IsFiniteVector : OwnedVector → Type 0
IsFiniteVector (vecf32 xs) = All (λ x. (x < 4294967296) × (is_finite_f32 x ≡ true)) xs
IsFiniteVector (vecf16 xs) = All (λ x. (x < 65536) × (is_finite_f16 x ≡ true)) xs
IsFiniteVector _ = Unit {0}

length-value_bytes : (size : ℕ) (xs : List ℕ) → length (value_bytes size xs) ≡ length xs * size
unfolding value_bytes
length-value_bytes size [] = omega arith
length-value_bytes size (x ∷ xs) = omega (
  arith,
  length-append {0} (le_bytes size x) (value_bytes size xs),
  length-le_bytes size x,
  length-value_bytes size xs,
)

-- Each vector of a query has the dimension and the type of the first.
abbrev Same : TensorDtype → ℕ → List OwnedVector → Type 0
Same dtype dimension vs = All (λ v. (dtype_of v ≡ ok dtype) × (dim v ≡ dimension)) vs

dtype_eq : (a b : TensorDtype) → same_dtype a b ≡ true → a ≡ b
dtype_eq f32 f32 e = refl
dtype_eq f16 f16 e = refl
dtype_eq f32 f16 e = absurd (ground arith)
dtype_eq f16 f32 e = absurd (ground arith)

both : (a : Bool) (m n : ℕ) → (not a || not (m == n)) ≡ false → (a ≡ true) × (m ≡ n)
both a m n e = (ground arith, ground arith)

check_matches-Same :
    (dtype : TensorDtype) (dimension : ℕ) (vs : List OwnedVector)
    → check_matches dtype dimension vs ≡ ok tt
    → Same dtype dimension vs
unfolding check_matches
check_matches-Same dtype dimension [] e = tt
check_matches-Same dtype dimension (v ∷ vs) e =
    let (found, e1, f1) = >>=-ok (dtype_of v) _ tt e in
    let (t, f2) =
      refuse_if-ok (not (same_dtype found dtype) || not (dim v == dimension)) tensor_mismatch _ tt
        f1 in
    let (p, q) = both (same_dtype found dtype) (dim v) dimension t in
    (
      (subst (λ d. dtype_of v ≡ ok d) (dtype_eq found dtype p) e1, q),
      check_matches-Same dtype dimension vs f2,
    )

length-vector_bytes :
    (dtype : TensorDtype) (v : OwnedVector)
    → dtype_of v ≡ ok dtype
    → length (vector_bytes v) ≡ dim v * scalar_bytes dtype
length-vector_bytes f32 (vecf32 xs) e = length-value_bytes 4 xs
length-vector_bytes f16 (vecf16 xs) e = length-value_bytes 2 xs
length-vector_bytes f32 (vecf16 xs) e = absurd (ground arith)
length-vector_bytes f16 (vecf32 xs) e = absurd (ground arith)
length-vector_bytes d (rabitq8 n) e = absurd (ground arith)
length-vector_bytes d (rabitq4 n) e = absurd (ground arith)

length-query_bytes :
    (dtype : TensorDtype) (dimension : ℕ) (vs : List OwnedVector)
    → Same dtype dimension vs
    → length (query_bytes vs) ≡ length vs * dimension * scalar_bytes dtype
unfolding query_bytes
length-query_bytes dtype dimension [] s = omega arith
length-query_bytes dtype dimension (v ∷ vs) ((p, q), s) =
    length-append (vector_bytes v) (query_bytes vs)
    ∙ grind (arith, length-vector_bytes dtype v p, length-query_bytes dtype dimension vs s)

finite_f32-values :
    (xs : List ℕ) (rest : Bytes)
    → IsFiniteVector (vecf32 xs)
    → finite_f32 (value_bytes 4 xs ++ rest) ≡ finite_f32 rest
unfolding value_bytes le_bytes
finite_f32-values [] rest a = refl
finite_f32-values (x ∷ xs) rest ((l, f), a) =
    let e : is_finite_f32 (le_value (le_bytes 4 x)) ≡ true = rw (le_value-le_bytes 4 x l) f in
    rw e (finite_f32-values xs rest a)

finite_f16-values :
    (xs : List ℕ) (rest : Bytes)
    → IsFiniteVector (vecf16 xs)
    → finite_f16 (value_bytes 2 xs ++ rest) ≡ finite_f16 rest
unfolding value_bytes le_bytes
finite_f16-values [] rest a = refl
finite_f16-values (x ∷ xs) rest ((l, f), a) =
    let e : is_finite_f16 (le_value (le_bytes 2 x)) ≡ true = rw (le_value-le_bytes 2 x l) f in
    rw e (finite_f16-values xs rest a)

finite_f32-query :
    (dimension : ℕ) (vs : List OwnedVector)
    → Same f32 dimension vs
    → All IsFiniteVector vs
    → finite_f32 (query_bytes vs) ≡ true
unfolding query_bytes
finite_f32-query dimension [] s a = refl
finite_f32-query dimension (vecf32 xs ∷ vs) (p, s) (f, a) =
    finite_f32-values xs (query_bytes vs) f ∙ finite_f32-query dimension vs s a
finite_f32-query dimension (vecf16 xs ∷ vs) ((p, q), s) (f, a) = absurd (ground arith)
finite_f32-query dimension (rabitq8 n ∷ vs) ((p, q), s) (f, a) = absurd (ground arith)
finite_f32-query dimension (rabitq4 n ∷ vs) ((p, q), s) (f, a) = absurd (ground arith)

finite_f16-query :
    (dimension : ℕ) (vs : List OwnedVector)
    → Same f16 dimension vs
    → All IsFiniteVector vs
    → finite_f16 (query_bytes vs) ≡ true
unfolding query_bytes
finite_f16-query dimension [] s a = refl
finite_f16-query dimension (vecf16 xs ∷ vs) (p, s) (f, a) =
    finite_f16-values xs (query_bytes vs) f ∙ finite_f16-query dimension vs s a
finite_f16-query dimension (vecf32 xs ∷ vs) ((p, q), s) (f, a) = absurd (ground arith)
finite_f16-query dimension (rabitq8 n ∷ vs) ((p, q), s) (f, a) = absurd (ground arith)
finite_f16-query dimension (rabitq4 n ∷ vs) ((p, q), s) (f, a) = absurd (ground arith)

validate_finite-query :
    (dtype : TensorDtype) (dimension : ℕ) (vs : List OwnedVector)
    → Same dtype dimension vs
    → All IsFiniteVector vs
    → validate_finite (query_bytes vs) (dtype_code dtype) ≡ Result.ok tt
unfolding validate_finite
validate_finite-query f32 dimension vs s a = rw (finite_f32-query dimension vs s a) refl
validate_finite-query f16 dimension vs s a = rw (finite_f16-query dimension vs s a) refl

-- The dimensions that the daemon serves.
abbrev pub IsServed : OwnedVector → Type 0
IsServed v = (0 < dim v) × (dim v ≤ 60000)

-- What a query is that has a type and a dimension.
pub record IsQuery (dtype : TensorDtype) (dimension : ℕ) (vs : List OwnedVector) : Type 0 where
  pub some_rows : 0 < length vs
  pub some_columns : 0 < dimension
  pub few_columns : dimension ≤ 60000
  pub size : length (query_bytes vs) ≡ length vs * dimension * scalar_bytes dtype
  pub finite : validate_finite (query_bytes vs) (dtype_code dtype) ≡ Result.ok tt

pub tensor_metadata-IsQuery :
    (dtype : TensorDtype) (dimension : ℕ) (vs : List OwnedVector)
    → tensor_metadata vs ≡ ok (dtype, dimension)
    → All IsServed vs
    → All IsFiniteVector vs
    → IsQuery dtype dimension vs
unfolding tensor_metadata
tensor_metadata-IsQuery dtype dimension [] e a f = absurd (ground arith)
tensor_metadata-IsQuery dtype dimension (v ∷ vs) e (p, a) f =
    let (found, e1, f1) = >>=-ok (dtype_of v) _ (dtype, dimension) e in
    let (u, e2, f2) = >>=-ok (check_matches found (dim v) (v ∷ vs)) _ (dtype, dimension) f1 in
    let made : (found, dim v) ≡ (dtype, dimension) = ok-injective f2 in
    let s : Same dtype dimension (v ∷ vs) =
      subst (λ (m : TensorDtype × ℕ). Same m.0 m.1 (v ∷ vs)) made
        (check_matches-Same found (dim v) (v ∷ vs) e2) in
    let d : dim v ≡ dimension = ap (λ (m : TensorDtype × ℕ). m.1) made in
    record {
      some_rows = omega arith;
      some_columns = subst (λ n. 0 < n) d p.0;
      few_columns = subst (λ n. n ≤ 60000) d p.1;
      size = length-query_bytes dtype dimension (v ∷ vs) s;
      finite = validate_finite-query dtype dimension (v ∷ vs) s f;
    }
