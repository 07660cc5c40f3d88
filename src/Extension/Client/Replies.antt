-- ===== src/Extension/Client/Replies.antt =====
-- What the extension makes of the daemon's frames: `success` and `failure` of
-- services/tilemaxsimd/src/protocol.rs, read by `decode_response_for_version`.
use vector_chord.Base.{
  ℕ, zero, suc, ◌+◌, ◌-◌, ◌^◌, ◌<◌, ◌≡◌, ◌≢◌, Bool, true, false, not, List, [], ◌∷◌, ◌++◌, length,
  length-append, length-set, get_or, set, replicate, All, arith, refl, ap, ◌∙◌, subst, ◌==◌,
  if◌then◌else◌,
}
use mathlib.Core.List.{append_assoc, map, Perm, perm_middle}
use mathlib.Core.List.Perm as Perm
use vector_chord.Base.Vecs.{any}
use vector_chord.Distance.{from_f32}
use vector_chord.Tilemaxsimd.Protocol.{Bytes, usize_mod, le_bytes}
use vector_chord.Tilemaxsimd.Protocol.Words.{length-le_bytes}
use vector_chord.Tilemaxsimd.Protocol.Frame.{
  magic, response_header, entries, is_finite_f32, header_bytes,
}
use vector_chord.Extension.Client.{
  negate, key_of, Cursor, ok, Reading, then_reading, cursor_uint, read_response, read_results,
  read_failure, HeapKey, Scores, read_scores, read_score,
}
use vector_chord.Extension.Client.Cursors.{IsBefore, advance, bytes_step, uint_step}

pub ==_self : (n : ℕ) → (n == n) ≡ true
==_self n = ground arith

header_fields :
    (version id size : ℕ) (body : Bytes)
    → response_header version id size ++ body
      ≡ magic
        ++ (le_bytes 2 version ++ (le_bytes 2 2 ++ (le_bytes 8 id ++ (le_bytes 8 size ++ body))))
unfolding response_header
header_fields version id size body = simp append_assoc

pub length-header :
    (version id size : ℕ) (body : Bytes)
    → length (response_header version id size ++ body) ≡ 24 + length body
length-header version id size body = rw header_fields (
    omega (
      arith,
      length-append {0} (le_bytes 2 version)
          (le_bytes 2 2 ++ (le_bytes 8 id ++ (le_bytes 8 size ++ body))),
      length-append {0} (le_bytes 2 2) (le_bytes 8 id ++ (le_bytes 8 size ++ body)),
      length-append {0} (le_bytes 8 id) (le_bytes 8 size ++ body),
      length-append {0} (le_bytes 8 size) body,
      length-le_bytes,
    ))

abbrev pub start : Bytes → Cursor
start frame = record { bytes = frame; offset = 0 }

-- The rest of a response behind its header.
abbrev pub after_header : List HeapKey → Reading (List (ℕ × HeapKey))
after_header keys c =
    then_reading (cursor_uint 4 c)
      (λ status. if status == 0 then read_results keys else read_failure)

module _ (version id : ℕ) (body : Bytes) (keys : List HeapKey) (v : version < 256 ^ 2)
    (i : id < 256 ^ 8) (l : 24 + length body < usize_mod) where
  abbrev pub frame : Bytes
  frame = response_header version id (length body) ++ body

  abbrev from_size : Bytes
  from_size = le_bytes 8 (length body) ++ body

  abbrev from_id : Bytes
  from_id = le_bytes 8 id ++ from_size

  abbrev from_kind : Bytes
  from_kind = le_bytes 2 2 ++ from_id

  abbrev from_version : Bytes
  from_version = le_bytes 2 version ++ from_kind

  start-IsBefore : IsBefore (magic ++ from_version) (start frame)
  start-IsBefore = record {
    ahead = header_fields version id (length body) body;
    inside = omega arith;
    short = omega (arith, length-header version id (length body) body);
  }

  pub read_header :
      (c : Cursor) × IsBefore body c
      × (read_response version id keys (start frame) ≡ after_header keys c)
  unfolding read_response
  read_header =
      let (e1, b1) = bytes_step magic from_version start-IsBefore in
      let (e2, b2) = uint_step 2 version from_kind v b1 in
      let (e3, b3) = uint_step 2 2 from_id (omega arith) b2 in
      let (e4, b4) = uint_step 8 id from_size i b3 in
      let (e5, b5) = uint_step 8 (length body) body (omega arith) b4 in
      let n : (length body == length frame - header_bytes) ≡ true =
        ground (arith, length-header version id (length body) body) in
      (advance 24 (start frame), b5, rw (e1, e2, ==_self version, e3, e4, ==_self id, e5, n) refl)

-- The candidates that have no score yet.
abbrev pub unseen : List Bool → ℕ
unseen [] = 0
unseen (true ∷ bs) = unseen bs
unseen (false ∷ bs) = suc (unseen bs)

pub unseen-replicate : (n : ℕ) → unseen (replicate n false) ≡ n
unseen-replicate zero = refl
unseen-replicate (suc n) = ap suc (unseen-replicate n)

unseen-set :
    (i : ℕ) (bs : List Bool)
    → i < length bs
    → get_or bs i false ≡ false
    → suc (unseen (set bs i true)) ≡ unseen bs
unseen-set i [] h e = elim h [ ]
unseen-set zero (true ∷ bs) h e = absurd (ground arith)
unseen-set zero (false ∷ bs) h e = refl
unseen-set (suc i) (true ∷ bs) h e = unseen-set i bs (omega arith) e
unseen-set (suc i) (false ∷ bs) h e = ap suc (unseen-set i bs (omega arith) e)

pub unseen-zero : (bs : List Bool) → unseen bs ≡ 0 → any not bs ≡ false
unfolding any
unseen-zero [] e = refl
unseen-zero (true ∷ bs) e = unseen-zero bs e
unseen-zero (false ∷ bs) e = absurd (omega arith)

pub get_or-replicate : (n i : ℕ) → get_or (replicate n false) i false ≡ false
get_or-replicate zero i = refl
get_or-replicate (suc n) zero = refl
get_or-replicate (suc n) (suc i) = get_or-replicate n i

get_or-set_ne :
    (bs : List Bool) (i j : ℕ) → j ≢ i → get_or (set bs i true) j false ≡ get_or bs j false
get_or-set_ne [] i j h = refl
get_or-set_ne (b ∷ bs) zero zero h = absurd (h refl)
get_or-set_ne (b ∷ bs) zero (suc j) h = refl
get_or-set_ne (b ∷ bs) (suc i) zero h = refl
get_or-set_ne (b ∷ bs) (suc i) (suc j) h = get_or-set_ne bs i j (λ e. h (ap suc e))

-- No candidate is listed twice.
abbrev pub IsDistinct : List (ℕ × ℕ) → Type 0
IsDistinct [] = Unit {0}
IsDistinct (r ∷ rs) = All (λ (q : ℕ × ℕ). q.0 ≢ r.0) rs × IsDistinct rs

-- A candidate of the request, and the bits of a finite score.
abbrev pub IsScore : List HeapKey → ℕ × ℕ → Type 0
IsScore keys r = (r.0 < length keys) × (r.1 < 4294967296) × (is_finite_f32 r.1 ≡ true)

-- What the extension keeps of a score: the distance, which is the score with the other sign, and the row.
abbrev pub scored : List HeapKey → ℕ × ℕ → ℕ × HeapKey
scored keys r = (from_f32 (negate r.1), get_or keys r.0 (0, 0, 0))

key_of_lem :
    (keys : List HeapKey) (i : ℕ) (c : Cursor)
    → i < length keys
    → key_of keys i c ≡ ok (get_or keys i (0, 0, 0), c)
unfolding key_of
key_of_lem [] i c h = elim h [ ]
key_of_lem (k ∷ keys) zero c h = refl
key_of_lem (k ∷ keys) (suc i) c h = key_of_lem keys i c (omega arith)

still_unseen :
    (bs : List Bool) (id : ℕ) (rs : List (ℕ × ℕ))
    → All (λ (q : ℕ × ℕ). q.0 ≢ id) rs
    → All (λ (q : ℕ × ℕ). get_or bs q.0 false ≡ false) rs
    → All (λ (q : ℕ × ℕ). get_or (set bs id true) q.0 false ≡ false) rs
still_unseen bs id [] d a = tt
still_unseen bs id (r ∷ rs) (n, d) (e, a) =
    (get_or-set_ne bs id r.0 n ∙ e, still_unseen bs id rs d a)

module _ (keys : List HeapKey) (k : length keys < 4294967296) where
  read_score_lem :
      (r : ℕ × ℕ) (tail : Bytes) (s : Scores) {c : Cursor}
      → IsScore keys r
      → get_or s.seen r.0 false ≡ false
      → IsBefore (le_bytes 4 r.0 ++ (le_bytes 4 r.1 ++ tail)) c
      → (read_score keys s c
          ≡ ok (
            record { seen = set s.seen r.0 true; results = scored keys r ∷ s.results },
            advance 4 (advance 4 c),
          ))
        × IsBefore tail (advance 4 (advance 4 c))
  unfolding read_score
  read_score_lem r tail s {c} (i, l, f) n b =
      let (e1, b1) = uint_step 4 r.0 (le_bytes 4 r.1 ++ tail) (omega arith) b in
      let (e2, b2) = uint_step 4 r.1 tail (omega arith) b1 in
      (rw (e1, key_of_lem keys r.0 (advance 4 c) i, n, e2, f) refl, b2)

  pub read_scores_lem :
      (rs : List (ℕ × ℕ)) (tail : Bytes) (s : Scores) {c : Cursor}
      → length s.seen ≡ length keys
      → All (IsScore keys) rs
      → IsDistinct rs
      → All (λ (q : ℕ × ℕ). get_or s.seen q.0 false ≡ false) rs
      → IsBefore (entries rs ++ tail) c
      → (t : Scores) × (d : Cursor) × (read_scores (length rs) keys s c ≡ ok (t, d))
        × IsBefore tail d
        × (unseen t.seen + length rs ≡ unseen s.seen)
        × Perm t.results (map (scored keys) rs ++ s.results)
  unfolding read_scores entries
  read_scores_lem [] tail s {c} z a d n b = (s, c, refl, b, omega arith, Perm.refl s.results)
  read_scores_lem (r ∷ rs) tail s {c} z (a, as') (d, ds) (n, ns) b =
      let b' : IsBefore (le_bytes 4 r.0 ++ (le_bytes 4 r.1 ++ (entries rs ++ tail))) c =
        subst (λ l. IsBefore l c) (simp append_assoc) b in
      let (e, b2) = read_score_lem r (entries rs ++ tail) s a n b' in
      let s' : Scores = record {
        seen = set s.seen r.0 true;
        results = scored keys r ∷ s.results;
      } in
      let (t, c', e', bt, u, p) =
        read_scores_lem rs tail s' (length-set s.seen r.0 true ∙ z) as' ds
          (still_unseen s.seen r.0 rs d ns) b2 in
      (
        t,
        c',
        rw e e',
        bt,
        omega (arith, unseen-set r.0 s.seen (omega arith) n),
        Perm.trans p (perm_middle (map (scored keys) rs) s.results),
      )
