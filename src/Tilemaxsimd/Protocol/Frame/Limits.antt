-- ===== src/Tilemaxsimd/Protocol/Frame/Limits.antt =====
-- What a request is that `parse` lets through.
use vector_chord.Base.{
  ℕ, zero, suc, ◌+◌, ◌*◌, ◌≤◌, ◌<◌, ◌≡◌, ◌≢◌, ◌⊎◌, inl, inr, Bool, true, false, not, List, [], ◌∷◌,
  length, drop, length-take, length-drop, All, ◌==◌, if◌then◌else◌, arith, refl, ap, subst,
  Option-cases,
}
use vector_chord.Base.Vecs.{any}
use vector_chord.Tilemaxsimd.Protocol.{
  Error, duplicate_candidate, Result, ok, err, Bytes, Descriptor, Reader, Read, then_read, pure,
  bail_if, lift, take_bytes, unsigned, text,
}
use vector_chord.Tilemaxsimd.Protocol.Frame.{
  tensor_bytes, digest_of, add_totals, token_limit, byte_limit, candidate, candidates, is_lower_hex,
  strip_prefix, reference_prefix,
}

-- What a chain of steps has done when it has succeeded.
pub then_read-ok :
    {A B R : Type 0} (m : Result (A × Reader)) (f : A → Read B) (b : B) (s : Reader)
    → then_read m f ≡ ok (b, s)
    → ((a : A) (r : Reader) → m ≡ ok (a, r) → f a r ≡ ok (b, s) → R)
    → R
then_read-ok (ok (a, r)) f b s e k = k a r refl e
then_read-ok (err x) f b s e k = absurd (ground arith)

pub bail_if-ok :
    (c : Bool) (x : Error) (r s : Reader) (u : Unit {0})
    → bail_if c x r ≡ ok (u, s)
    → (c ≡ false) × (r ≡ s)
bail_if-ok true x r s u e = absurd (ground arith)
bail_if-ok false x r s u e = (refl, ground arith)

pub lift-ok :
    {A : Type 0} (m : Result A) (r s : Reader) (a : A) → lift m r ≡ ok (a, s) → (m ≡ ok a) × (r ≡ s)
lift-ok (ok b) r s a e = (ground arith, ground arith)
lift-ok (err x) r s a e = absurd (ground arith)

pub take_bytes-ok :
    (count : ℕ) (r s : Reader) (bs : Bytes)
    → take_bytes count r ≡ ok (bs, s)
    → (length bs ≡ count)
      × (s.offset ≡ r.offset + count)
      × (s.bytes ≡ r.bytes)
      × (s.offset ≤ length r.bytes)
unfolding take_bytes
take_bytes-ok count r s bs e =
    ground (arith, length-take count (drop r.offset r.bytes), length-drop r.offset r.bytes)

-- The bytes of a tensor.
pub scalar : ℕ → ℕ
scalar dtype = if dtype == 1 then 4 else 2

-- Its type and shape are among those served.
pub record IsTensor (rows dimension dtype bytes : ℕ) : Type 0 where
  pub known : (dtype ≡ 1) ⊎ (dtype ≡ 2)
  pub some_rows : 0 < rows
  pub some_columns : 0 < dimension
  pub few_columns : dimension ≤ 60000
  pub size : bytes ≡ rows * dimension * scalar dtype

pub tensor_bytes-ok :
    (rows dimension dtype bytes : ℕ)
    → tensor_bytes rows dimension dtype ≡ ok bytes
    → IsTensor rows dimension dtype bytes
unfolding tensor_bytes scalar
tensor_bytes-ok rows dimension dtype bytes e = record {
  known = ground arith;
  some_rows = ground arith;
  some_columns = ground arith;
  few_columns = ground arith;
  size = ground arith;
}

-- A candidate's tensor has a shape that is served, and is named by a digest of 64 hexadecimal digits.
pub record IsSound (dimension dtype : ℕ) (d : Descriptor) : Type 0 where
  pub same_columns : d.dimension ≡ dimension
  pub same_type : d.dtype ≡ dtype
  pub digits : length d.digest ≡ 64
  pub hexadecimal : All (λ b. is_lower_hex b ≡ true) d.digest
  pub tensor : IsTensor d.rows dimension dtype (d.rows * dimension * scalar dtype)

any-false :
    (p : ℕ → Bool) (xs : List ℕ) → any (λ b. not (p b)) xs ≡ false → All (λ b. p b ≡ true) xs
unfolding any
any-false p [] e = tt
any-false p (x ∷ xs) e = (ground arith, any-false p xs (ground arith))

not_seen : (n : ℕ) (xs : List ℕ) → any (λ m. m == n) xs ≡ false → All (λ m. m ≢ n) xs
unfolding any
not_seen n [] e = tt
not_seen n (x ∷ xs) e = ((λ p. ground arith), not_seen n xs (ground arith))

digest_of-ok :
    (reference checksum digest : Bytes)
    → digest_of reference checksum ≡ ok digest
    → (length digest ≡ 64) × All (λ b. is_lower_hex b ≡ true) digest
unfolding digest_of
digest_of-ok reference checksum digest e =
    elim (Option-cases (strip_prefix reference_prefix reference)) [
      | inl n ↦ absurd (ground arith)
      | inr (d, s) ↦
          let same : d ≡ digest = ground arith in
          (ground arith, any-false is_lower_hex digest (ground arith))
    ]

add_totals-ok :
    (tokens bytes rows size : ℕ) (t : ℕ × ℕ)
    → add_totals tokens bytes rows size ≡ ok t
    → (t.0 ≡ tokens + rows) × (t.1 ≡ bytes + size) × (t.0 ≤ token_limit) × (t.1 ≤ byte_limit)
unfolding add_totals
add_totals-ok tokens bytes rows size t e = ground arith

-- What a candidate that is read satisfies.
record IsRead (contract : Bytes) (dimension dtype : ℕ) (seen : List ℕ) (tokens bytes : ℕ)
    (d : Descriptor) (t u : ℕ) : Type 0 where
  pub sound : IsSound dimension dtype d
  pub new : All (λ m. m ≢ d.candidate_id) seen
  pub tokens_after : t ≡ tokens + d.rows
  pub bytes_after : u ≡ bytes + d.rows * dimension * scalar dtype
  pub few_tokens : t ≤ token_limit
  pub few_bytes : u ≤ byte_limit

IsRead-of :
    (contract : Bytes) (dimension dtype : ℕ) (seen : List ℕ) (tokens bytes id rows size : ℕ)
    (reference checksum digest : Bytes) (totals : ℕ × ℕ)
    → any (λ n. n == id) seen ≡ false
    → digest_of reference checksum ≡ ok digest
    → tensor_bytes rows dimension dtype ≡ ok size
    → add_totals tokens bytes rows size ≡ ok totals
    → IsRead contract dimension dtype seen tokens bytes
        (record {
          candidate_id = id;
          contract = contract;
          digest = digest;
          rows = rows;
          dimension = dimension;
          dtype = dtype;
        })
        totals.0
        totals.1
IsRead-of contract dimension dtype seen tokens bytes id rows size reference checksum digest totals n
      g h t =
    let sums = add_totals-ok tokens bytes rows size totals t in
    let tensor = tensor_bytes-ok rows dimension dtype size h in
    let hex = digest_of-ok reference checksum digest g in
    record {
      sound = record {
        same_columns = refl;
        same_type = refl;
        digits = hex.0;
        hexadecimal = hex.1;
        tensor = subst (IsTensor rows dimension dtype) (tensor.size) tensor;
      };
      new = not_seen id seen n;
      tokens_after = sums.0;
      bytes_after = omega (arith, sums.1, tensor.size);
      few_tokens = sums.2;
      few_bytes = sums.3;
    }

pub pure-ok : {A : Type 0} (a : A) (r s : Reader) (b : A) → pure a r ≡ ok (b, s) → a ≡ b
pure-ok a r s b e = ground arith

candidate-IsRead :
    (contract : Bytes) (dimension dtype : ℕ) (seen : List ℕ) (tokens bytes : ℕ) (r s : Reader)
    (d : Descriptor × ℕ × ℕ)
    → candidate contract dimension dtype seen tokens bytes r ≡ ok (d, s)
    → IsRead contract dimension dtype seen tokens bytes d.0 d.1 d.2
unfolding candidate
candidate-IsRead contract dimension dtype seen tokens bytes r s d e =
    then_read-ok (unsigned 4 r) _ d s e (λ id r1 e1 f1.
      then_read-ok (unsigned 4 r1) _ d s f1 (λ rows r2 e2 f2.
        then_read-ok (unsigned 4 r2) _ d s f2 (λ rb r3 e3 f3.
          then_read-ok (unsigned 4 r3) _ d s f3 (λ cb r4 e4 f4.
            then_read-ok (bail_if (any (λ n. n == id) seen) duplicate_candidate r4) _ d s f4
              (λ u r5 e5 f5. then_read-ok (text rb 4096 r5) _ d s f5 (λ reference r6 e6 f6.
                then_read-ok (text cb 512 r6) _ d s f6 (λ checksum r7 e7 f7.
                  then_read-ok (lift (digest_of reference checksum) r7) _ d s f7 (λ digest r8 e8 f8.
                    then_read-ok (lift (tensor_bytes rows dimension dtype) r8) _ d s f8
                      (λ size r9 e9 f9.
                        then_read-ok (lift (add_totals tokens bytes rows size) r9) _ d s f9
                          (λ totals r10 e10 f10.
                            subst
                              (λ z. IsRead contract dimension dtype seen tokens bytes z.0 z.1 z.2)
                              (pure-ok _ r10 s d f10)
                              (IsRead-of contract dimension dtype seen tokens bytes id rows size
                                reference checksum digest totals (bail_if-ok _ _ _ _ _ e5).0
                                (lift-ok _ _ _ _ e8).0 (lift-ok _ _ _ _ e9).0
                                (lift-ok _ _ _ _ e10).0)))))))))))

-- No two candidates of a list have the same number.
pub IsDistinct : List Descriptor → Type 0
IsDistinct [] = Unit {0}
IsDistinct (d ∷ ds) = All (λ e. d.candidate_id ≢ e.candidate_id) ds × IsDistinct ds

pub total_rows : List Descriptor → ℕ
total_rows [] = 0
total_rows (d ∷ ds) = d.rows + total_rows ds

pub total_size : List Descriptor → ℕ
unfolding scalar
total_size [] = 0
total_size (d ∷ ds) = d.rows * d.dimension * scalar d.dtype + total_size ds

pub record AreRead (dimension dtype count : ℕ) (seen : List ℕ) (tokens bytes : ℕ)
    (ds : List Descriptor) : Type 0 where
  pub all : length ds ≡ count
  pub sound : All (IsSound dimension dtype) ds
  pub distinct : IsDistinct ds
  pub new : All (λ d. All (λ m. m ≢ d.candidate_id) seen) ds
  pub few_tokens : (tokens ≤ token_limit) ⊎ (0 < count) → tokens + total_rows ds ≤ token_limit
  pub few_bytes : (bytes ≤ byte_limit) ⊎ (0 < count) → bytes + total_size ds ≤ byte_limit

heads :
    (n : ℕ) (seen : List ℕ) (ds : List Descriptor)
    → All (λ d. All (λ m. m ≢ d.candidate_id) (n ∷ seen)) ds
    → All (λ e. n ≢ e.candidate_id) ds × All (λ d. All (λ m. m ≢ d.candidate_id) seen) ds
heads n seen [] a = (tt, tt)
heads n seen (d ∷ ds) ((p, q), a) = let (b, c) = heads n seen ds a in ((p, b), (q, c))

AreRead-cons :
    (contract : Bytes) (dimension dtype count : ℕ) (seen : List ℕ) (tokens bytes : ℕ)
    (d : Descriptor × ℕ × ℕ) (ds : List Descriptor)
    → IsRead contract dimension dtype seen tokens bytes d.0 d.1 d.2
    → AreRead dimension dtype count (d.0.candidate_id ∷ seen) d.1 d.2 ds
    → AreRead dimension dtype (suc count) seen tokens bytes (d.0 ∷ ds)
unfolding IsDistinct total_rows total_size
AreRead-cons contract dimension dtype count seen tokens bytes d ds i a =
    let (apart, new) = heads d.0.candidate_id seen ds a.new in
    record {
      all = ap suc a.all;
      sound = (i.sound, a.sound);
      distinct = (apart, a.distinct);
      new = (i.new, new);
      few_tokens = λ h. omega (arith, a.few_tokens (inl i.few_tokens), i.tokens_after);
      few_bytes = λ h. ground (
        arith,
        a.few_bytes (inl i.few_bytes),
        i.bytes_after,
        i.sound.same_columns,
        i.sound.same_type,
      );
    }

pub candidates-AreRead :
    (count : ℕ) (contract : Bytes) (dimension dtype : ℕ) (seen : List ℕ) (tokens bytes : ℕ)
    (r s : Reader) (ds : List Descriptor)
    → candidates count contract dimension dtype seen tokens bytes r ≡ ok (ds, s)
    → AreRead dimension dtype count seen tokens bytes ds
unfolding candidates IsDistinct total_rows total_size
candidates-AreRead zero contract dimension dtype seen tokens bytes r s [] e = record {
  all = refl;
  sound = tt;
  distinct = tt;
  new = tt;
  few_tokens = λ h. ground arith;
  few_bytes = λ h. ground arith;
}
candidates-AreRead zero contract dimension dtype seen tokens bytes r s (d ∷ ds) e =
    absurd (ground arith)
candidates-AreRead (suc count) contract dimension dtype seen tokens bytes r s ds e =
    then_read-ok (candidate contract dimension dtype seen tokens bytes r) _ ds s e (λ one r1 e1 f1.
      then_read-ok
        (candidates count contract dimension dtype (one.0.candidate_id ∷ seen) one.1 one.2 r1) _ ds
        s f1
        (λ rest r2 e2 f2.
          subst (AreRead dimension dtype (suc count) seen tokens bytes) (pure-ok _ r2 s ds f2) (
            AreRead-cons contract dimension dtype count seen tokens bytes one rest
              (candidate-IsRead contract dimension dtype seen tokens bytes r r1 one e1)
              (candidates-AreRead count contract dimension dtype (one.0.candidate_id ∷ seen) one.1
                one.2 r1 r2 rest e2))))
