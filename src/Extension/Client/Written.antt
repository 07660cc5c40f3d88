-- ===== src/Extension/Client/Written.antt =====
-- What the writes of a request leave in the writer, where they succeed.
use vector_chord.Base.{
  ℕ, ◌<◌, ◌≤◌, ◌≡◌, Bool, true, false, Option, none, some, List, [], ◌∷◌, ◌++◌, length, replicate,
  arith, refl, sym, ap, ◌∙◌, subst, length-append,
}
use mathlib.Core.List.{append_assoc, append-nil}
use vector_chord.Tilemaxsimd.Protocol.{Bytes, usize_mod, le_bytes}
use vector_chord.Extension.Client.{RerankError, Outcome, ok, err}
use vector_chord.Extension.Client.Request.{
  ◌>>=◌, ◌>>◌, refuse_if, u32_of, checked, TensorDtype, f32, f16, dtype_code, OwnedVector, vecf32,
  vecf16, rabitq8, rabitq4, Scheduling, ExternalTensorDescriptor,
}
use vector_chord.Extension.Client.Encoder.{
  BoundedWriter, Write, ◌▷◌, put, put_zeros, put_values, put_vector, encode_tensor_values, i32_bits,
  clamp_timeout, put_scheduling, put_tenant, preamble, put_descriptor,
}

pub >>=-ok :
    {A B : Type 0} (m : Outcome A) (f : A → Outcome B) (b : B)
    → (m >>= f) ≡ ok b
    → (a : A) × (m ≡ ok a) × (f a ≡ ok b)
>>=-ok (ok a) f b e = (a, refl, e)
>>=-ok (err x) f b e = absurd (ground arith)

pub refuse_if-ok :
    {B : Type 0} (t : Bool) (x : RerankError) (m : Outcome B) (b : B)
    → (refuse_if t x >> m) ≡ ok b
    → (t ≡ false) × (m ≡ ok b)
refuse_if-ok true x m b e = absurd (ground arith)
refuse_if-ok false x m b e = (refl, e)

pub u32_of-ok : (n m : ℕ) → u32_of n ≡ ok m → (n < 4294967296) × (m ≡ n)
u32_of-ok n m e = (ground arith, ground arith)

pub checked-ok : (n m : ℕ) → checked n ≡ ok m → (n < usize_mod) × (m ≡ n)
checked-ok n m e = (ground arith, ground arith)

-- A write that succeeds has put these bytes behind those there were, within the limit.
pub record Writes (x : Bytes) (w w' : BoundedWriter) : Type 0 where
  pub content : w'.bytes ≡ w.bytes ++ x
  pub kept : w'.limit ≡ w.limit
  pub within : length w.bytes ≤ w.limit → length w'.bytes ≤ w'.limit

put-Writes : (x : Bytes) (w w' : BoundedWriter) → put x w ≡ ok w' → Writes x w w'
unfolding put
put-Writes x w w' e = record {
  content = ground arith;
  kept = ground arith;
  within = λ h. ground (arith, length-append w.bytes x);
}

nothing-Writes : (w w' : BoundedWriter) → ok w ≡ ok w' → Writes [] w w'
nothing-Writes w w' e =
    let p : w ≡ w' = ground arith in
    subst (λ v. Writes [] w v) p
      (record { content = sym (append-nil w.bytes); kept = refl; within = λ h. h })

pub join-Writes :
    (x y : Bytes) {w v u : BoundedWriter} → Writes x w v → Writes y v u → Writes (x ++ y) w u
join-Writes x y {w} a b = record {
  content = b.content ∙ ap (λ l. l ++ y) a.content ∙ append_assoc w.bytes x y;
  kept = b.kept ∙ a.kept;
  within = λ h. b.within (a.within h);
}

-- A write that always leaves these bytes.
pub record Leaves (x : Bytes) (m : Write) : Type 0 where
  pub apply : (w w' : BoundedWriter) → m w ≡ ok w' → Writes x w w'

pub put-Leaves : (x : Bytes) → Leaves x (put x)
put-Leaves x = record { apply = put-Writes x }

pub nothing-Leaves : Leaves [] ok
nothing-Leaves = record { apply = nothing-Writes }

pub ▷-Leaves : {x y : Bytes} {m k : Write} → Leaves x m → Leaves y k → Leaves (x ++ y) (m ▷ k)
▷-Leaves {x} {y} {m} {k} a b = record {
  apply = λ w w' e.
      let (v, e1, e2) = >>=-ok (m w) k w' e in join-Writes x y (a.apply w v e1) (b.apply v w' e2);
}

-- The numbers of a vector, each in so many bytes.
unfoldable pub value_bytes : ℕ → List ℕ → Bytes
value_bytes size [] = []
value_bytes size (x ∷ xs) = le_bytes size x ++ value_bytes size xs

put_values-Leaves : (size : ℕ) (xs : List ℕ) → Leaves (value_bytes size xs) (put_values size xs)
unfolding put_values value_bytes
put_values-Leaves size [] = nothing-Leaves
put_values-Leaves size (x ∷ xs) =
    ▷-Leaves (put-Leaves (le_bytes size x)) (put_values-Leaves size xs)

abbrev pub vector_bytes : OwnedVector → Bytes
vector_bytes (vecf32 xs) = value_bytes 4 xs
vector_bytes (vecf16 xs) = value_bytes 2 xs
vector_bytes _ = []

unfoldable pub query_bytes : List OwnedVector → Bytes
query_bytes [] = []
query_bytes (v ∷ vs) = vector_bytes v ++ query_bytes vs

mismatch-Leaves : (x : Bytes) (e : RerankError) → Leaves x (λ w. err e)
mismatch-Leaves x e = record { apply = λ w w' p. absurd (ground arith) }

put_vector-Leaves :
    (dtype : TensorDtype) (v : OwnedVector) → Leaves (vector_bytes v) (put_vector dtype v)
unfolding put_vector put_values
put_vector-Leaves f32 (vecf32 xs) = put_values-Leaves 4 xs
put_vector-Leaves f16 (vecf16 xs) = put_values-Leaves 2 xs
put_vector-Leaves f32 (vecf16 xs) = mismatch-Leaves _ _
put_vector-Leaves f32 (rabitq8 n) = mismatch-Leaves _ _
put_vector-Leaves f32 (rabitq4 n) = mismatch-Leaves _ _
put_vector-Leaves f16 (vecf32 xs) = mismatch-Leaves _ _
put_vector-Leaves f16 (rabitq8 n) = mismatch-Leaves _ _
put_vector-Leaves f16 (rabitq4 n) = mismatch-Leaves _ _

encode_tensor_values-Leaves :
    (dtype : TensorDtype) (vs : List OwnedVector)
    → Leaves (query_bytes vs) (encode_tensor_values dtype vs)
unfolding encode_tensor_values query_bytes
encode_tensor_values-Leaves dtype [] = nothing-Leaves
encode_tensor_values-Leaves dtype (v ∷ vs) =
    ▷-Leaves (put_vector-Leaves dtype v) (encode_tensor_values-Leaves dtype vs)

abbrev pub tenant_bytes : Option Scheduling → Bytes
tenant_bytes none = []
tenant_bytes (some s) = s.tenant

abbrev pub scheduling_bytes : Option Scheduling → ℕ → Bytes
scheduling_bytes none timeout = []
scheduling_bytes (some s) timeout =
    le_bytes 4 (i32_bits s.priority)
    ++ (le_bytes 4 (clamp_timeout timeout) ++ le_bytes 4 (length s.tenant))

put_tenant-Leaves : (s : Option Scheduling) → Leaves (tenant_bytes s) (put_tenant s)
unfolding put_tenant
put_tenant-Leaves none = nothing-Leaves
put_tenant-Leaves (some s) = put-Leaves s.tenant

-- A number that is checked to have 32 bits first.
u32_of-Leaves :
    (x : Bytes) (n : ℕ) (m : ℕ → Write)
    → (n < 4294967296 → Leaves x (m n))
    → Leaves x (λ w. u32_of n >>= λ k. m k w)
u32_of-Leaves x n m h = record {
  apply = λ w w' e.
      let (k, e1, e2) = >>=-ok (u32_of n) (λ k. m k w) w' e in
      let (b, q) = u32_of-ok n k e1 in (h b).apply w w' (subst (λ j. m j w ≡ ok w') q e2);
}

put_scheduling-Leaves :
    (s : Option Scheduling) (timeout : ℕ)
    → Leaves (scheduling_bytes s timeout) (put_scheduling s timeout)
unfolding put_scheduling
put_scheduling-Leaves none timeout = nothing-Leaves
put_scheduling-Leaves (some s) timeout =
    u32_of-Leaves _ (clamp_timeout timeout)
      (λ ms w. u32_of (length s.tenant) >>= λ n.
        (put (le_bytes 4 (i32_bits s.priority)) ▷ put (le_bytes 4 ms) ▷ put (le_bytes 4 n)) w)
      (λ _.
        u32_of-Leaves _ (length s.tenant)
          (λ n.
            put (le_bytes 4 (i32_bits s.priority))
            ▷ put (le_bytes 4 (clamp_timeout timeout))
            ▷ put (le_bytes 4 n))
          (λ _. ▷-Leaves (put-Leaves (le_bytes 4 (i32_bits s.priority))) (
            ▷-Leaves (put-Leaves (le_bytes 4 (clamp_timeout timeout)))
              (put-Leaves (le_bytes 4 (length s.tenant))))))

-- The body up to the candidates, behind the header and the three first numbers.
abbrev pub fixed_bytes : TensorDtype → Bytes → Option Scheduling → ℕ → List OwnedVector → Bytes
fixed_bytes dtype contract s timeout query =
    le_bytes 1 (dtype_code dtype)
    ++ (le_bytes 1 1
        ++ (le_bytes 2 0
            ++ (le_bytes 4 (length contract)
                ++ (scheduling_bytes s timeout
                    ++ (contract ++ (tenant_bytes s ++ query_bytes query))))))

pub preamble-Leaves :
    (dimension rows : ℕ) (dtype : TensorDtype) (contract : Bytes) (s : Option Scheduling)
    (timeout : ℕ) (query : List OwnedVector)
    → Leaves
        (replicate 24 0
          ++ (le_bytes 4 dimension
              ++ (le_bytes 4 rows ++ (le_bytes 4 0 ++ fixed_bytes dtype contract s timeout query))))
        (preamble dimension rows dtype contract s timeout query)
unfolding preamble put_zeros
preamble-Leaves dimension rows dtype contract s timeout query =
    u32_of-Leaves _ (length contract)
      (λ n.
        put (replicate 24 0)
        ▷ put (le_bytes 4 dimension)
        ▷ put (le_bytes 4 rows)
        ▷ put (le_bytes 4 0)
        ▷ put (le_bytes 1 (dtype_code dtype))
        ▷ put (le_bytes 1 1)
        ▷ put (le_bytes 2 0)
        ▷ put (le_bytes 4 n)
        ▷ put_scheduling s timeout
        ▷ put contract
        ▷ put_tenant s
        ▷ encode_tensor_values dtype query)
      (λ _. ▷-Leaves (put-Leaves (replicate 24 0)) (
        ▷-Leaves (put-Leaves (le_bytes 4 dimension)) (
          ▷-Leaves (put-Leaves (le_bytes 4 rows)) (
            ▷-Leaves (put-Leaves (le_bytes 4 0)) (
              ▷-Leaves (put-Leaves (le_bytes 1 (dtype_code dtype))) (
                ▷-Leaves (put-Leaves (le_bytes 1 1)) (
                  ▷-Leaves (put-Leaves (le_bytes 2 0)) (
                    ▷-Leaves (put-Leaves (le_bytes 4 (length contract))) (
                      ▷-Leaves (put_scheduling-Leaves s timeout) (
                        ▷-Leaves (put-Leaves contract) (
                          ▷-Leaves (put_tenant-Leaves s)
                            (encode_tensor_values-Leaves dtype query))))))))))))

abbrev pub descriptor_bytes : ℕ → ExternalTensorDescriptor → Bytes
descriptor_bytes id d =
    le_bytes 4 id
    ++ (le_bytes 4 d.rows
        ++ (le_bytes 4 (length d.tensor_ref)
            ++ (le_bytes 4 (length d.checksum) ++ (d.tensor_ref ++ d.checksum))))

pub put_descriptor-Leaves :
    (id : ℕ) (d : ExternalTensorDescriptor) → Leaves (descriptor_bytes id d) (put_descriptor id d)
unfolding put_descriptor
put_descriptor-Leaves id d =
    u32_of-Leaves _ (length d.tensor_ref)
      (λ r w. u32_of (length d.checksum) >>= λ k.
        (put (le_bytes 4 id)
            ▷ put (le_bytes 4 d.rows)
            ▷ put (le_bytes 4 r)
            ▷ put (le_bytes 4 k)
            ▷ put d.tensor_ref
            ▷ put d.checksum)
          w)
      (λ _.
        u32_of-Leaves _ (length d.checksum)
          (λ k.
            put (le_bytes 4 id)
            ▷ put (le_bytes 4 d.rows)
            ▷ put (le_bytes 4 (length d.tensor_ref))
            ▷ put (le_bytes 4 k)
            ▷ put d.tensor_ref
            ▷ put d.checksum)
          (λ _. ▷-Leaves (put-Leaves (le_bytes 4 id)) (
            ▷-Leaves (put-Leaves (le_bytes 4 d.rows)) (
              ▷-Leaves (put-Leaves (le_bytes 4 (length d.tensor_ref))) (
                ▷-Leaves (put-Leaves (le_bytes 4 (length d.checksum)))
                  (▷-Leaves (put-Leaves d.tensor_ref) (put-Leaves d.checksum)))))))
