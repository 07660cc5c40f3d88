-- ===== src/Extension/Client/Decoding.antt =====
-- Both ends of the wire together: the frames of services/tilemaxsimd/src/protocol.rs as
-- `decode_response_for_version` reads them.
use vector_chord.Base.{
  ℕ, ◌+◌, ◌*◌, ◌<◌, ◌≤◌, ◌≡◌, true, false, none, some, List, [], ◌∷◌, ◌++◌, length, take, min, max,
  map, length-append, length-take, length-replicate, All, arith, refl, sym, subst, ltb, ◌==◌,
  get_or, replicate,
}
use mathlib.Core.List.{append-nil, Perm}
use vector_chord.Tilemaxsimd.Protocol.{Bytes, le_bytes, chars}
use vector_chord.Tilemaxsimd.Protocol.Words.{length-le_bytes}
use vector_chord.Tilemaxsimd.Protocol.Frame.{entries, success, failure}
use vector_chord.Extension.Client.{
  Cursor, ok, err, protocol, remote, remote_not_utf8, read_results, read_failure, remote_failure,
  refused, HeapKey, no_scores, decode_response_for_version,
}
use vector_chord.Extension.Client.Cursors.{
  IsBefore, advance, bytes_step, uint_step, cursor_finish_lem,
}
use vector_chord.Extension.Client.Replies.{
  read_header, read_scores_lem, ==_self, unseen-replicate, unseen-zero, get_or-replicate, IsScore,
  IsDistinct, scored,
}

length-entries : (rs : List (ℕ × ℕ)) → length (entries rs) ≡ length rs * 8
unfolding entries
length-entries [] = refl
length-entries (r ∷ rs) = omega (
  arith,
  length-append {0} (le_bytes 4 r.0) (le_bytes 4 r.1 ++ entries rs),
  length-append {0} (le_bytes 4 r.1) (entries rs),
  length-le_bytes,
  length-entries rs,
)

none_seen :
    (keys : List HeapKey) (rs : List (ℕ × ℕ))
    → All (λ (q : ℕ × ℕ). get_or (replicate (length keys) false) q.0 false ≡ false) rs
none_seen keys [] = tt
none_seen keys (r ∷ rs) = (get_or-replicate (length keys) r.0, none_seen keys rs)

module _ (keys : List HeapKey) (rs : List (ℕ × ℕ)) (k : length keys ≤ 65536)
    (n : length rs ≡ length keys) (a : All (IsScore keys) rs) (d : IsDistinct rs) where
  read_results_lem :
      {c : Cursor}
      → IsBefore (le_bytes 4 (length rs) ++ entries rs) c
      → (l : List (ℕ × HeapKey)) × (e : Cursor) × (read_results keys c ≡ ok (l, e))
        × Perm l (map (scored keys) rs)
  unfolding read_results
  read_results_lem {c} b =
      let (e1, b1) = uint_step 4 (length rs) (entries rs) (omega arith) b in
      let b1' : IsBefore (entries rs ++ []) (advance 4 c) =
        subst (λ l. IsBefore l (advance 4 c)) (sym (append-nil (entries rs))) b1 in
      let (t, c', e, b2, u, p) =
        read_scores_lem keys (omega arith) rs [] (no_scores keys)
          (length-replicate (length keys) false) a d (none_seen keys rs) b1' in
      let q : (length rs == length keys) ≡ true = rw n (==_self (length keys)) in
      let z = unseen-zero t.seen (omega (arith, unseen-replicate (length keys))) in
      (
        t.results,
        c',
        rw (e1, q, e, cursor_finish_lem c' b2, z) refl,
        subst (λ l. Perm t.results l) (append-nil (map (scored keys) rs)) p,
      )

  -- The daemon's answer to a request of the extension, with a finite score for each of its candidates in
  -- any order, is read as the distance of each candidate's row, which is its score with the other sign.
  pub decode-success :
      (version id : ℕ)
      → version < 65536
      → id < 18446744073709551616
      → (l : List (ℕ × HeapKey)) × (decode_response_for_version
            (success version id rs)
            version
            id
            keys
          ≡ ok l)
        × Perm l (map (scored keys) rs)
  unfolding success decode_response_for_version
  decode-success version id v i =
      let body : Bytes = le_bytes 4 0 ++ (le_bytes 4 (length rs) ++ entries rs) in
      let size : length body ≡ 8 + length rs * 8 = omega (
        arith,
        length-append {0} (le_bytes 4 0) (le_bytes 4 (length rs) ++ entries rs),
        length-append {0} (le_bytes 4 (length rs)) (entries rs),
        length-le_bytes,
        length-entries rs,
      ) in
      let (c, b, e) = read_header version id body keys v i (omega arith) in
      let (e1, b1) = uint_step 4 0 (le_bytes 4 (length rs) ++ entries rs) (omega arith) b in
      let (l, c', e2, p) = read_results_lem b1 in (l, rw (← size, e, e1, e2) refl, p)

-- The first 64 KiB of a message.
abbrev pub sent : Bytes → Bytes
sent message = take (min (length message) 65536) message

length-sent : (message : Bytes) → length (sent message) ≤ 65536
length-sent message = omega (arith, length-take (min (length message) 65536) message)

read_failure_lem :
    (keys : List HeapKey) (message : Bytes) {c : Cursor}
    → IsBefore (le_bytes 4 (length (sent message)) ++ sent message) c
    → (d : Cursor) × IsBefore [] d × (read_failure c ≡ remote_failure (sent message) d)
unfolding read_failure
read_failure_lem keys message {c} b =
    let short = length-sent message in
    let (e1, b1) = uint_step 4 (length (sent message)) (sent message) (omega arith) b in
    let b1' : IsBefore (sent message ++ []) (advance 4 c) =
      subst (λ l. IsBefore l (advance 4 c)) (sym (append-nil (sent message))) b1 in
    let (e2, b2) = bytes_step (sent message) [] b1' in
    let q : ltb 65536 (length (sent message)) ≡ false = ground arith in
    (advance (length (sent message)) (advance 4 c), b2, rw (e1, q, e2) refl)

remote_failure-some :
    (message : Bytes) (cs : List ℕ) (c : Cursor)
    → IsBefore [] c
    → chars 0 0 0 0 message ≡ some cs
    → remote_failure message c ≡ err (remote message)
unfolding remote_failure refused
remote_failure-some message cs c b u = rw (u, refused) (rw (cursor_finish_lem c b) refl)

remote_failure-none :
    (message : Bytes) (c : Cursor)
    → chars 0 0 0 0 message ≡ none
    → remote_failure message c ≡ err (protocol remote_not_utf8)
unfolding remote_failure refused
remote_failure-none message c u = rw (u, refused) refl

-- The daemon's refusal of a request is read as its message, cut after 64 KiB, where what is left of the
-- message is UTF-8, and as a fault of the protocol where the cut has broken a character.
pub decode-failure :
    (version id status : ℕ) (message : Bytes) (keys : List HeapKey)
    → version < 65536
    → id < 18446744073709551616
    → status < 4294967296
    → ((cs : List ℕ)
        → chars 0 0 0 0 (sent message) ≡ some cs
        → decode_response_for_version (failure version id status message) version id keys
          ≡ err (remote (sent message)))
      × (chars 0 0 0 0 (sent message) ≡ none
          → decode_response_for_version (failure version id status message) version id keys
            ≡ err (protocol remote_not_utf8))
unfolding failure decode_response_for_version
decode-failure version id status message keys v i s =
    let m = sent message in
    let body : Bytes = le_bytes 4 (max status 1) ++ (le_bytes 4 (length m) ++ m) in
    let short = length-sent message in
    let size : length body ≡ 8 + length m = omega (
      arith,
      length-append {0} (le_bytes 4 (max status 1)) (le_bytes 4 (length m) ++ m),
      length-append {0} (le_bytes 4 (length m)) m,
      length-le_bytes,
    ) in
    let (c, b, e) = read_header version id body keys v i (omega arith) in
    let (e1, b1) = uint_step 4 (max status 1) (le_bytes 4 (length m) ++ m) (omega arith) b in
    let nonzero : (max status 1 == 0) ≡ false = ground arith in
    let (d, b2, e2) = read_failure_lem keys message b1 in
    (
      λ cs u. rw (← size, e, e1, nonzero, e2, remote_failure-some m cs d b2 u) refl,
      λ u. rw (← size, e, e1, nonzero, e2, remote_failure-none m d u) refl,
    )
