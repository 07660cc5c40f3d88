-- ===== src/Tilemaxsimd/Protocol/Frame/Accepted.antt =====
-- The request that `parse` answers, field by field.
use vector_chord.Base.{
  ℕ, ◌+◌, ◌-◌, ◌≤◌, ◌<◌, ◌≡◌, ◌⊎◌, inr, Bool, true, false, not, ◌&&◌, ◌||◌, List, [], length, drop,
  take, All, ltb, ◌==◌, if◌then◌else◌, arith, refl, sym, subst,
}
use vector_chord.Tilemaxsimd.Protocol.{
  Error, truncated_header, invalid_magic, unsupported_version, length_mismatch, unsupported_scoring,
  too_many_candidates, invalid_priority, invalid_timeout, Result, ok, err, Bytes, Descriptor,
  Request, Reader, bail_if, lift, take_bytes, unsigned, text, finish, within,
}
use vector_chord.Tilemaxsimd.Protocol.Frame.{
  tensor_bytes, validate_finite, token_limit, byte_limit, candidates, is_scheduled, schedule,
  priority_in_range, tenant_of, body, field, answer, parse, version_external,
  version_scheduled_external, header_bytes, same_bytes, magic,
}
use vector_chord.Tilemaxsimd.Protocol.Frame.Limits.{
  then_read-ok, bail_if-ok, lift-ok, pure-ok, take_bytes-ok, tensor_bytes-ok, candidates-AreRead,
  AreRead, IsSound, IsDistinct, IsTensor, total_rows, total_size,
}

-- A request that the engine can score.
pub record IsAccepted (r : Request) : Type 0 where
  pub version : (r.protocol_version ≡ 2) ⊎ (r.protocol_version ≡ 3)
  -- from -100 to 100, with the bias of an `i32`
  pub priority : (2147483548 ≤ r.priority) × (r.priority ≤ 2147483748)
  pub timeout : r.protocol_version ≡ 3 → (1 ≤ r.timeout_ms) × (r.timeout_ms ≤ 600000)
  pub query : IsTensor r.query_rows r.dimension r.dtype (length r.query)
  pub few : length r.candidates ≤ 65536
  pub sound : All (IsSound r.dimension r.dtype) r.candidates
  pub distinct : IsDistinct r.candidates
  pub few_tokens : 0 < length r.candidates → r.query_rows + total_rows r.candidates ≤ token_limit
  pub few_bytes : 0 < length r.candidates → length r.query + total_size r.candidates ≤ byte_limit

finish-ok : (r s : Reader) (u : Unit {0}) → finish r ≡ ok (u, s) → r.offset ≡ length r.bytes
unfolding finish
finish-ok r s u e = ground arith

module _ (version request_id dimension query_rows count dtype : ℕ) (scheduling : ℕ × ℕ × ℕ)
    (tenant query : Bytes) (size : ℕ) (ds : List Descriptor) where
  abbrev made : Request
  made = record {
    protocol_version = version;
    request_id = request_id;
    tenant = tenant;
    priority = scheduling.0;
    timeout_ms = scheduling.1;
    query_rows = query_rows;
    dimension = dimension;
    dtype = dtype;
    query = query;
    candidates = ds;
  }

  made-IsAccepted :
      (version ≡ 2) ⊎ (version ≡ 3)
      → ltb 65536 count ≡ false
      → not (priority_in_range scheduling.0) ≡ false
      → (is_scheduled version && not (within 1 600000 scheduling.1)) ≡ false
      → tensor_bytes query_rows dimension dtype ≡ ok size
      → length query ≡ size
      → AreRead dimension dtype count [] query_rows size ds
      → IsAccepted made
  made-IsAccepted v few pri time h l a = record {
    version = v;
    priority = ground arith;
    timeout = λ p. ground arith;
    query =
        subst (IsTensor query_rows dimension dtype) (sym l)
          (tensor_bytes-ok query_rows dimension dtype size h);
    few = ground (arith, a.all);
    sound = a.sound;
    distinct = a.distinct;
    few_tokens = λ p. a.few_tokens (inr (omega (arith, a.all, p)));
    few_bytes = λ p. omega (arith, l, a.few_bytes (inr (omega (arith, a.all, p))));
  }

body-IsAccepted :
    (version request_id : ℕ) (r s : Reader) (q : Request)
    → (version ≡ 2) ⊎ (version ≡ 3)
    → body version request_id r ≡ ok (q, s)
    → IsAccepted q
unfolding body
body-IsAccepted version request_id r s q v e =
    then_read-ok (unsigned 4 r) _ q s e (λ dimension r1 e1 f1.
      then_read-ok (unsigned 4 r1) _ q s f1 (λ query_rows r2 e2 f2.
        then_read-ok (unsigned 4 r2) _ q s f2 (λ count r3 e3 f3.
          then_read-ok (unsigned 1 r3) _ q s f3 (λ dtype r4 e4 f4.
            then_read-ok (unsigned 1 r4) _ q s f4 (λ scoring r5 e5 f5.
              then_read-ok (unsigned 2 r5) _ q s f5 (λ reserved r6 e6 f6.
                then_read-ok (unsigned 4 r6) _ q s f6 (λ contract_bytes r7 e7 f7.
                  then_read-ok
                    (bail_if (not (scoring == 1) || not (reserved == 0)) unsupported_scoring r7) _ q
                    s f7
                    (λ u8 r8 e8 f8.
                      then_read-ok (bail_if (ltb 65536 count) too_many_candidates r8) _ q s f8
                        (λ u9 r9 e9 f9.
                          then_read-ok (schedule version r9) _ q s f9 (λ scheduling r10 e10 f10.
                            then_read-ok
                              (bail_if (not (priority_in_range scheduling.0)) invalid_priority r10)
                              _ q s f10
                              (λ u11 r11 e11 f11.
                                then_read-ok
                                  (bail_if
                                    (is_scheduled version && not (within 1 600000 scheduling.1))
                                    invalid_timeout r11)
                                  _ q s f11
                                  (λ u12 r12 e12 f12.
                                    then_read-ok (text contract_bytes 512 r12) _ q s f12
                                      (λ contract r13 e13 f13.
                                        then_read-ok (tenant_of version scheduling.2 r13) _ q s f13
                                          (λ tenant r14 e14 f14.
                                            then_read-ok
                                              (lift (tensor_bytes query_rows dimension dtype) r14) _
                                              q s f14
                                              (λ size r15 e15 f15.
                                                then_read-ok (take_bytes size r15) _ q s f15
                                                  (λ query r16 e16 f16.
                                                    then_read-ok
                                                      (lift (validate_finite query dtype) r16) _ q s
                                                      f16
                                                      (λ u17 r17 e17 f17.
                                                        then_read-ok
                                                          (candidates count contract dimension dtype
                                                            [] query_rows size r17)
                                                          _ q s f17
                                                          (λ ds r18 e18 f18.
                                                            then_read-ok (finish r18) _ q s f18
                                                            (λ u19 r19 e19 f19.
                                                            subst IsAccepted (pure-ok _ r19 s q f19)
                                                            (made-IsAccepted version request_id
                                                            dimension query_rows count dtype
                                                            scheduling tenant query size ds v
                                                            (bail_if-ok _ _ _ _ _ e9).0
                                                            (bail_if-ok _ _ _ _ _ e11).0
                                                            (bail_if-ok _ _ _ _ _ e12).0
                                                            (lift-ok _ _ _ _ e15).0
                                                            (take_bytes-ok size r15 r16 query e16).0
                                                            (candidates-AreRead count contract
                                                            dimension dtype [] query_rows size r17
                                                            r18 ds e18)))))))))))))))))))))

guard-ok :
    (c : Bool) (x : Error) (m : Result Request) (q : Request)
    → (if c then err x else m) ≡ ok q
    → (c ≡ false) × (m ≡ ok q)
guard-ok true x m q e = absurd (ground arith)
guard-ok false x m q e = (refl, e)

is_version : (v : ℕ) (k : Bool) → (not (v == 2 || v == 3) || k) ≡ false → (v ≡ 2) ⊎ (v ≡ 3)
is_version v k e = ground arith

answer-ok :
    (m : Result (Request × Reader)) (q : Request) → answer m ≡ ok q → (s : Reader) × (m ≡ ok (q, s))
answer-ok (ok (p, s)) q h = (s, ground arith)
answer-ok (err x) q h = absurd (ground arith)

-- A request that `parse` answers is of version 2 or 3, with a priority from -100 to 100 and, in version
-- 3, a timeout from 1 to 600000 milliseconds. Its query has the bytes of its shape. It has at most
-- 65536 candidates of the query's dimension and type, with different numbers and with digests of 64
-- hexadecimal digits; where there is one, the tokens and the bytes of all are within the limits.
pub parse-IsAccepted : (frame : Bytes) (q : Request) → parse frame ≡ ok q → IsAccepted q
unfolding parse
parse-IsAccepted frame q e =
    let start : Reader = record { bytes = drop header_bytes frame; offset = 0 } in
    let (long, f) = guard-ok (ltb (length frame) header_bytes) truncated_header _ q e in
    let (marked, g) = guard-ok (not (same_bytes (take 4 frame) magic)) invalid_magic _ q f in
    let (versioned, h) =
      guard-ok
        (not (field frame 4 2 == version_external || field frame 4 2 == version_scheduled_external)
          || not (field frame 6 2 == 1))
        unsupported_version _ q g in
    let (measured, i) =
      guard-ok (not (field frame 16 8 == length frame - header_bytes)) length_mismatch _ q h in
    let (s, read) = answer-ok (body (field frame 4 2) (field frame 8 8) start) q i in
    body-IsAccepted (field frame 4 2) (field frame 8 8) start s q
      (is_version (field frame 4 2) (not (field frame 6 2 == 1)) versioned) read
