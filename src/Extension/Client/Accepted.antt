-- ===== src/Extension/Client/Accepted.antt =====
-- What any response is that the extension accepts, whoever wrote it.
use vector_chord.Base.{
  ℕ, zero, suc, ◌+◌, ◌-◌, ◌≡◌, ◌++◌, take, drop, drop_add, Bool, true, false, not, Option, none,
  some, List, [], ◌∷◌, length, get_elem?, get_or, set, replicate, map, if_elim, length-set,
  length-replicate, All, arith, refl, sym, ap, ◌∙◌, subst, ◌==◌, ltb,
}
use mathlib.Core.List.{Perm, perm_middle, append-nil}
use mathlib.Core.List.Perm as Perm
use vector_chord.Base.Vecs.{any}
use vector_chord.Distance.{from_f32}
use vector_chord.Tilemaxsimd.Protocol.{Bytes, chars, le_value}
use vector_chord.Tilemaxsimd.Protocol.Frame.{is_finite_f32, same_bytes, magic, header_bytes}
use vector_chord.Extension.Client.Replies.{scored}
use vector_chord.Extension.Client.{
  Fault, remote_too_large, invalid_magic, unsupported_version, unexpected_kind, request_id_mismatch,
  length_mismatch, max_remote_error_bytes, Cursor, Outcome, ok, err, remote, refused, Reading,
  then_reading, fail_if, cursor_bytes, cursor_uint, cursor_finish, negate, key_of, HeapKey, Scores,
  no_scores, read_score, read_scores, read_results, read_failure, remote_failure, read_response,
  answer, decode_response_for_version,
}

-- What a chain of steps has done when it has succeeded.
then_reading-ok :
    {A B : Type 0} (m : Outcome (A × Cursor)) (f : A → Reading B) (b : B) (d : Cursor)
    → then_reading m f ≡ ok (b, d)
    → (a : A) × (c : Cursor) × (m ≡ ok (a, c)) × (f a c ≡ ok (b, d))
then_reading-ok (ok (a, c)) f b d e = (a, c, refl, e)
then_reading-ok (err x) f b d e = absurd (ground arith)

fail_if-ok :
    {B : Type 0} (t : Bool) (x : Fault) (c : Cursor) (f : Unit {0} → Reading B) (b : B) (d : Cursor)
    → then_reading (fail_if t x c) f ≡ ok (b, d)
    → (t ≡ false) × (f tt c ≡ ok (b, d))
fail_if-ok true x c f b d e = absurd (ground arith)
fail_if-ok false x c f b d e = (refl, e)

key_of-ok :
    (keys : List HeapKey) (id : ℕ) (c d : Cursor) (key : HeapKey)
    → key_of keys id c ≡ ok (key, d)
    → get_elem? keys id ≡ some key
unfolding key_of
key_of-ok keys id c d key e = ground arith

key_of-same :
    (keys : List HeapKey) (id : ℕ) (c d : Cursor) (key : HeapKey)
    → key_of keys id c ≡ ok (key, d)
    → (d ≡ c) × (get_or keys id (0, 0, 0) ≡ key)
unfolding key_of
key_of-same keys id c d key e = (ground arith, get_or-key keys id key (key_of-ok keys id c d key e))
  where
    get_or-key :
        (ks : List HeapKey) (i : ℕ) (k : HeapKey)
        → get_elem? ks i ≡ some k
        → get_or ks i (0, 0, 0) ≡ k
    get_or-key [] i k h = absurd (ground arith)
    get_or-key (x ∷ ks) zero k h = ground arith
    get_or-key (x ∷ ks) (suc i) k h = get_or-key ks i k h

-- The cursor stands at that place of the frame.
record IsAt (frame : Bytes) (place : ℕ) (c : Cursor) : Type 0 where
  whole : c.bytes ≡ frame
  at : c.offset ≡ place

bytes-IsAt :
    (frame : Bytes) (place count : ℕ) (c d : Cursor) (x : Bytes)
    → IsAt frame place c
    → cursor_bytes count c ≡ ok (x, d)
    → IsAt frame (place + count) d × (x ≡ take count (drop place frame))
unfolding cursor_bytes
bytes-IsAt frame place count c d x v e =
    let here : d ≡ record c { offset = c.offset + count } = ground arith in
    let read : x ≡ take count (drop c.offset c.bytes) = ground arith in
    (
      record {
        whole = ap (λ (k : Cursor). k.bytes) here ∙ v.whole;
        at = ap (λ (k : Cursor). k.offset) here ∙ ap (λ n. n + count) v.at;
      },
      read
          ∙ ap (λ n. take count (drop n c.bytes)) v.at
          ∙ ap (λ b. take count (drop place b)) v.whole,
    )

uint-IsAt :
    (frame : Bytes) (place count : ℕ) (c d : Cursor) (n : ℕ)
    → IsAt frame place c
    → cursor_uint count c ≡ ok (n, d)
    → IsAt frame (place + count) d × (n ≡ le_value (take count (drop place frame)))
unfolding cursor_uint
uint-IsAt frame place count c d n v e =
    let (x, c1, e1, f1) = then_reading-ok (cursor_bytes count c) _ n d e in
    let (w, q) = bytes-IsAt frame place count c c1 x v e1 in
    (subst (IsAt frame (place + count)) (ground arith) w, (ground arith) ∙ ap le_value q)

fail_if-IsAt :
    (frame : Bytes) (place : ℕ) (t : Bool) (x : Fault) (c d : Cursor) (u : Unit {0})
    → IsAt frame place c
    → fail_if t x c ≡ ok (u, d)
    → IsAt frame place d
fail_if-IsAt frame place true x c d u v e = absurd (ground arith)
fail_if-IsAt frame place false x c d u v e = subst (IsAt frame place) (ground arith) v

-- The candidates and the bits of their scores, as so many are listed in bytes.
abbrev pub listed : ℕ → Bytes → List (ℕ × ℕ)
listed zero b = []
listed (suc count) b = (le_value (take 4 b), le_value (take 4 (drop 4 b))) ∷ listed count (drop 8 b)

-- The keys of the candidates that are marked.
abbrev marked : List HeapKey → List Bool → List HeapKey
marked [] bs = []
marked (k ∷ ks) [] = []
marked (k ∷ ks) (true ∷ bs) = k ∷ marked ks bs
marked (k ∷ ks) (false ∷ bs) = marked ks bs

marked-replicate : (keys : List HeapKey) → marked keys (replicate (length keys) false) ≡ []
marked-replicate [] = refl
marked-replicate (k ∷ ks) = marked-replicate ks

marked-all :
    (keys : List HeapKey) (bs : List Bool)
    → length bs ≡ length keys
    → any not bs ≡ false
    → marked keys bs ≡ keys
unfolding any
marked-all [] bs l h = refl
marked-all (k ∷ ks) [] l h = absurd (omega arith)
marked-all (k ∷ ks) (true ∷ bs) l h = ap (◌∷◌ k) (marked-all ks bs (omega arith) h)
marked-all (k ∷ ks) (false ∷ bs) l h = absurd (ground arith)

marked-set :
    (keys : List HeapKey) (bs : List Bool) (id : ℕ) (key : HeapKey)
    → length bs ≡ length keys
    → get_elem? keys id ≡ some key
    → get_or bs id false ≡ false
    → Perm (marked keys (set bs id true)) (key ∷ marked keys bs)
marked-set [] bs id key l e h = absurd (ground arith)
marked-set (k ∷ ks) [] id key l e h = absurd (omega arith)
marked-set (k ∷ ks) (true ∷ bs) zero key l e h = absurd (ground arith)
marked-set (k ∷ ks) (false ∷ bs) zero key l e h =
    subst (λ q. Perm (k ∷ marked ks bs) (q ∷ marked ks bs)) (ground arith)
      (Perm.refl (k ∷ marked ks bs))
marked-set (k ∷ ks) (true ∷ bs) (suc id) key l e h =
    Perm.trans (Perm.cons k (marked-set ks bs id key (omega arith) e h))
      (Perm.swap key k (marked ks bs))
marked-set (k ∷ ks) (false ∷ bs) (suc id) key l e h = marked-set ks bs id key (omega arith) e h

-- The distance is a finite score with the other sign.
abbrev pub IsFiniteDistance : ℕ × HeapKey → Type 0
IsFiniteDistance r =
    (similarity : ℕ) × (is_finite_f32 similarity ≡ true) × (r.0 ≡ from_f32 (negate similarity))

-- What has been read: a distance for each candidate that is marked.
record IsRead (keys : List HeapKey) (s : Scores) : Type 0 where
  size : length s.seen ≡ length keys
  once : Perm (map (λ (r : ℕ × HeapKey). r.1) s.results) (marked keys s.seen)
  finite : All IsFiniteDistance s.results

no_scores-IsRead : (keys : List HeapKey) → IsRead keys (no_scores keys)
no_scores-IsRead keys = record {
  size = length-replicate (length keys) false;
  once = subst (λ l. Perm [] l) (sym (marked-replicate keys)) (Perm.refl []);
  finite = tt;
}

read_score-IsRead :
    (keys : List HeapKey) (s t : Scores) (c d : Cursor)
    → read_score keys s c ≡ ok (t, d)
    → IsRead keys s
    → IsRead keys t
unfolding read_score
read_score-IsRead keys s t c d e v =
    let (id, c1, e1, f1) = then_reading-ok (cursor_uint 4 c) _ t d e in
    let (key, c2, e2, f2) = then_reading-ok (key_of keys id c1) _ t d f1 in
    let (n, f3) = fail_if-ok (get_or s.seen id false) _ c2 _ t d f2 in
    let (q, c3, e3, f4) = then_reading-ok (cursor_uint 4 c2) _ t d f3 in
    let (m, f5) = fail_if-ok (not (is_finite_f32 q)) _ c3 _ t d f4 in
    let g : is_finite_f32 q ≡ true = ground arith in
    let same : t
        ≡ record { seen = set s.seen id true; results = (from_f32 (negate q), key) ∷ s.results } =
      ground arith in
    subst (IsRead keys) (sym same) (record {
      size = length-set s.seen id true ∙ v.size;
      once =
          Perm.trans (Perm.cons key v.once)
            (Perm.symm (marked-set keys s.seen id key v.size (key_of-ok keys id c1 c2 key e2) n));
      finite = ((q, g, refl), v.finite);
    })

read_scores-IsRead :
    (count : ℕ) (keys : List HeapKey) (s t : Scores) (c d : Cursor)
    → read_scores count keys s c ≡ ok (t, d)
    → IsRead keys s
    → IsRead keys t
unfolding read_scores
read_scores-IsRead zero keys s t c d e v = subst (IsRead keys) (ground arith) v
read_scores-IsRead (suc count) keys s t c d e v =
    let (u, c1, e1, f1) = then_reading-ok (read_score keys s c) _ t d e in
    read_scores-IsRead count keys u t c1 d f1 (read_score-IsRead keys s u c c1 e1 v)

-- One score is that of the next eight bytes.
read_score-listed :
    (frame : Bytes) (place : ℕ) (keys : List HeapKey) (s t : Scores) (c d : Cursor)
    → IsAt frame place c
    → read_score keys s c ≡ ok (t, d)
    → IsAt frame (place + 8) d
      × (t.results
          ≡ scored keys
              (le_value (take 4 (drop place frame)), le_value (take 4 (drop 4 (drop place frame))))
            ∷ s.results)
unfolding read_score
read_score-listed frame place keys s t c d v e =
    let (id, c1, e1, f1) = then_reading-ok (cursor_uint 4 c) _ t d e in
    let (v1, q1) = uint-IsAt frame place 4 c c1 id v e1 in
    let (key, c2, e2, f2) = then_reading-ok (key_of keys id c1) _ t d f1 in
    let (same, found) = key_of-same keys id c1 c2 key e2 in
    let (n, f3) = fail_if-ok (get_or s.seen id false) _ c2 _ t d f2 in
    let (q, c3, e3, f4) = then_reading-ok (cursor_uint 4 c2) _ t d f3 in
    let (v3, q3) =
      uint-IsAt frame (place + 4) 4 c2 c3 q (subst (IsAt frame (place + 4)) (sym same) v1) e3 in
    let (m, f5) = fail_if-ok (not (is_finite_f32 q)) _ c3 _ t d f4 in
    let made : t.results ≡ (from_f32 (negate q), key) ∷ s.results = ground arith in
    let last : c3 ≡ d = ground arith in
    (
      subst (λ k. IsAt frame k d) (omega arith) (subst (IsAt frame (place + 4 + 4)) last v3),
      made
          ∙ ap (λ n. (from_f32 (negate n), key) ∷ s.results)
              (q3 ∙ ap (λ b. le_value (take 4 b)) (drop_add place 4 frame))
          ∙ ap
              (λ k.
                (from_f32 (negate (le_value (take 4 (drop 4 (drop place frame))))), k) ∷ s.results)
              (sym found ∙ ap (λ i. get_or keys i (0, 0, 0)) q1),
    )

read_scores-listed :
    (frame : Bytes) (place count : ℕ) (keys : List HeapKey) (s t : Scores) (c d : Cursor)
    → IsAt frame place c
    → read_scores count keys s c ≡ ok (t, d)
    → Perm t.results (map (scored keys) (listed count (drop place frame)) ++ s.results)
unfolding read_scores
read_scores-listed frame place zero keys s t c d v e =
    let same : s ≡ t = ground arith in
    subst (λ (u : Scores). Perm u.results s.results) same (Perm.refl s.results)
read_scores-listed frame place (suc count) keys s t c d v e =
    let (u, c1, e1, f1) = then_reading-ok (read_score keys s c) _ t d e in
    let (w, q) = read_score-listed frame place keys s u c c1 v e1 in
    let rest = map (scored keys) (listed count (drop 8 (drop place frame))) in
    let p = read_scores-listed frame (place + 8) count keys u t c1 d w f1 in
    Perm.trans
      (subst (λ b. Perm t.results (map (scored keys) (listed count b) ++ u.results))
        (drop_add place 8 frame) p)
      (subst
        (λ l. Perm (rest ++ l) (
          scored keys
            (le_value (take 4 (drop place frame)), le_value (take 4 (drop 4 (drop place frame))))
          ∷ (rest ++ s.results)))
        (sym q) (perm_middle rest s.results))

-- Every row has one distance, that of its score in the frame, whose list is at byte 32.
abbrev pub Covers : Bytes → List HeapKey → List (ℕ × HeapKey) → Type 0
Covers frame keys l =
    Perm (map (λ (r : ℕ × HeapKey). r.1) l) keys
    × All IsFiniteDistance l
    × Perm l (map (scored keys) (listed (length keys) (drop 32 frame)))

read_results-Covers :
    (frame : Bytes) (keys : List HeapKey) (l : List (ℕ × HeapKey)) (c d : Cursor)
    → IsAt frame 28 c
    → read_results keys c ≡ ok (l, d)
    → Covers frame keys l
unfolding read_results
read_results-Covers frame keys l c d w e =
    let (n, c1, e1, f1) = then_reading-ok (cursor_uint 4 c) _ l d e in
    let (m, f2) = fail_if-ok (not (n == length keys)) _ c1 _ l d f1 in
    let (s, c2, e2, f3) = then_reading-ok (read_scores n keys (no_scores keys) c1) _ l d f2 in
    let (u, c3, e3, f4) = then_reading-ok (cursor_finish c2) _ l d f3 in
    let (q, f5) = fail_if-ok (any not s.seen) _ c3 _ l d f4 in
    let (w1, _) = uint-IsAt frame 28 4 c c1 n w e1 in
    let counted : n ≡ length keys = ground arith in
    let read = read_scores-listed frame 32 n keys (no_scores keys) s c1 c2 w1 e2 in
    let v = read_scores-IsRead n keys (no_scores keys) s c1 c2 e2 (no_scores-IsRead keys) in
    let same : s.results ≡ l = ground arith in
    subst (Covers frame keys) same (
      subst (λ k. Perm (map (λ (r : ℕ × HeapKey). r.1) s.results) k)
          (marked-all keys s.seen v.size q) v.once,
      v.finite,
      subst (λ k. Perm s.results (map (scored keys) (listed k (drop 32 frame)))) counted
          (subst (Perm s.results) (append-nil (map (scored keys) (listed n (drop 32 frame)))) read),
    )

refused-ne-ok :
    (o : Option (List ℕ)) (message : Bytes) (l : List (ℕ × HeapKey)) (c d : Cursor)
    → refused o message c ≡ ok (l, d)
    → ⊥
unfolding refused
refused-ne-ok none message l c d e = ground arith
refused-ne-ok (some cs) message l c d e =
    let (u, c1, e1, f1) = then_reading-ok (cursor_finish c) (λ u c. err (remote message)) l d e in
    ground arith

remote_failure-ne-ok :
    (message : Bytes) (l : List (ℕ × HeapKey)) (c d : Cursor)
    → remote_failure message c ≡ ok (l, d)
    → ⊥
unfolding remote_failure
remote_failure-ne-ok message l c d e = refused-ne-ok (chars 0 0 0 0 message) message l c d e

-- A result of which nothing is known but this, where there is one.
record Gives {B : Type 0} (P : B → Type 0) (m : Outcome (B × Cursor)) : Type 0 where
  apply : (b : B) (d : Cursor) → m ≡ ok (b, d) → P b

Gives-then :
    {A B : Type 0} {P : B → Type 0} (m : Outcome (A × Cursor)) (f : A → Reading B)
    → ((a : A) (c : Cursor) → m ≡ ok (a, c) → Gives P (f a c))
    → Gives P (then_reading m f)
Gives-then m f h = record {
  apply = λ b d e. let (a, c, e1, e2) = then_reading-ok m f b d e in (h a c e1).apply b d e2;
}

read_failure-Gives : (P : List (ℕ × HeapKey) → Type 0) (c : Cursor) → Gives P (read_failure c)
unfolding read_failure
read_failure-Gives P c = Gives-then (cursor_uint 4 c) _ λ n c1 e1.
    Gives-then (fail_if (ltb max_remote_error_bytes n) remote_too_large c1) _ λ u c2 e2.
      Gives-then (cursor_bytes n c2) _
        λ message c3 e3. record { apply = λ l d e. absurd (remote_failure-ne-ok message l c3 d e) }

module _ (frame : Bytes) {B : Type 0} {P : B → Type 0} (place : ℕ) {c : Cursor}
    (v : IsAt frame place c) where
  -- The steps of a reader, with the place where each stands.
  then_bytes :
      (count : ℕ) (f : Bytes → Reading B)
      → ((x : Bytes) (d : Cursor) → IsAt frame (place + count) d → Gives P (f x d))
      → Gives P (then_reading (cursor_bytes count c) f)
  then_bytes count f h =
      Gives-then (cursor_bytes count c) f λ x d e. h x d (bytes-IsAt frame place count c d x v e).0

  then_uint :
      (count : ℕ) (f : ℕ → Reading B)
      → ((n : ℕ) (d : Cursor) → IsAt frame (place + count) d → Gives P (f n d))
      → Gives P (then_reading (cursor_uint count c) f)
  then_uint count f h =
      Gives-then (cursor_uint count c) f λ n d e. h n d (uint-IsAt frame place count c d n v e).0

  then_check :
      (t : Bool) (x : Fault) (f : Unit {0} → Reading B)
      → ((u : Unit {0}) (d : Cursor) → IsAt frame place d → Gives P (f u d))
      → Gives P (then_reading (fail_if t x c) f)
  then_check t x f h =
      Gives-then (fail_if t x c) f λ u d e. h u d (fail_if-IsAt frame place t x c d u v e)

read_response-Gives :
    (frame : Bytes) (version id : ℕ) (keys : List HeapKey) (c : Cursor)
    → IsAt frame 0 c
    → Gives (Covers frame keys) (read_response version id keys c)
unfolding read_response
read_response-Gives frame version id keys c v = then_bytes frame 0 v 4 _ λ found c1 v1.
    then_check frame 4 v1 (not (same_bytes found magic)) invalid_magic _ λ u1 c2 v2.
      then_uint frame 4 v2 2 _ λ n c3 v3.
        then_check frame 6 v3 (not (n == version)) unsupported_version _ λ u2 c4 v4.
          then_uint frame 6 v4 2 _ λ k c5 v5.
            then_check frame 8 v5 (not (k == 2)) unexpected_kind _ λ u3 c6 v6.
              then_uint frame 8 v6 8 _ λ i c7 v7.
                then_check frame 16 v7 (not (i == id)) request_id_mismatch _ λ u4 c8 v8.
                  then_uint frame 16 v8 8 _ λ size c9 v9.
                    then_check frame 24 v9 (not (size == length c.bytes - header_bytes))
                      length_mismatch _
                      λ u5 c10 v10. then_uint frame 24 v10 4 _ λ status c11 v11.
                        if_elim
                          (λ (r : Reading (List (ℕ × HeapKey))). Gives (Covers frame keys) (r c11))
                          (status == 0) {x = read_results keys} {y = read_failure}
                          (λ z. record {
                            apply = λ l d e. read_results-Covers frame keys l c11 d v11 e;
                          })
                          (λ z. read_failure-Gives (Covers frame keys) c11)

answer-ok :
    {A : Type 0} (m : Outcome (A × Cursor)) (a : A)
    → answer m ≡ ok a
    → (d : Cursor) × (m ≡ ok (a, d))
answer-ok (ok (b, d)) a e = (d, ground arith)
answer-ok (err x) a e = absurd (ground arith)

-- A response that the extension accepts, whatever frame it is, gives each row of the request exactly one
-- distance. The distances are, in some order, those of the scores that the frame lists from byte 32 on
-- for the candidates of the request: each is a finite score with the other sign, for the row of its
-- candidate.
pub decode_response-Covers :
    (frame : Bytes) (version id : ℕ) (keys : List HeapKey) (l : List (ℕ × HeapKey))
    → decode_response_for_version frame version id keys ≡ ok l
    → Perm (map (λ (r : ℕ × HeapKey). r.1) l) keys
      × All IsFiniteDistance l
      × Perm l (map (scored keys) (listed (length keys) (drop 32 frame)))
unfolding decode_response_for_version
decode_response-Covers frame version id keys l e =
    let (d, f) =
      answer-ok (read_response version id keys (record { bytes = frame; offset = 0 })) l e in
    (read_response-Gives frame version id keys (record { bytes = frame; offset = 0 })
        (record { whole = refl; at = refl })).apply
      l d f
