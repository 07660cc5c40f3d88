-- ===== src/Tilemaxsimd/Permits/Bytes.antt =====
-- The bytes that are out stay within the maximum, whatever steps of other threads come between.
use vector_chord.Base.{
  ℕ, ◌+◌, ◌-◌, ◌%◌, ◌≤◌, ◌<◌, ◌≡◌, ◌↔◌, true, false, List, [], ◌∷◌, ◌++◌, arith, refl, ap, sym,
  subst,
}
use vector_chord.Tilemaxsimd.Allocator.{usize_mod}
use vector_chord.Tilemaxsimd.Permits.{
  ByteAdmission, reserve, count_inflight, count_rejected, give_back, uncount_inflight, new_bytes,
}

-- The permits by their bytes: granted and not yet in the gauge, in use, and given back but still in the
-- gauge. A call of `try_acquire` that is granted is `granted` and then `counted`, one that is refused
-- `refused` and then `rejected`; a drop is `returned` and then `uncounted`.
pub data History (maximum : ℕ) : List ℕ → List ℕ → List ℕ → ByteAdmission → Type 0 where
  started : History maximum [] [] [] (new_bytes maximum)
  granted :
      (fresh held leaving : List ℕ) (a b : ByteAdmission) (bytes : ℕ)
      → History maximum fresh held leaving a
      → reserve bytes a ≡ (true, b)
      → History maximum (bytes ∷ fresh) held leaving b
  counted :
      (before after held leaving : List ℕ) (a : ByteAdmission) (bytes : ℕ)
      → History maximum (before ++ bytes ∷ after) held leaving a
      → History maximum (before ++ after) (bytes ∷ held) leaving (count_inflight bytes a)
  refused :
      (fresh held leaving : List ℕ) (a b : ByteAdmission) (bytes : ℕ)
      → History maximum fresh held leaving a
      → reserve bytes a ≡ (false, b)
      → History maximum fresh held leaving b
  rejected :
      (fresh held leaving : List ℕ) (a : ByteAdmission)
      → History maximum fresh held leaving a
      → History maximum fresh held leaving (count_rejected a)
  returned :
      (fresh before after leaving : List ℕ) (a : ByteAdmission) (bytes : ℕ)
      → History maximum fresh (before ++ bytes ∷ after) leaving a
      → History maximum fresh (before ++ after) (bytes ∷ leaving) (give_back bytes a)
  uncounted :
      (fresh held before after : List ℕ) (a : ByteAdmission) (bytes : ℕ)
      → History maximum fresh held (before ++ bytes ∷ after) a
      → History maximum fresh held (before ++ after) (uncount_inflight bytes a)

abbrev pub total : List ℕ → ℕ
total [] = 0
total (b ∷ bs) = b + total bs

total-middle : (xs ys : List ℕ) (b : ℕ) → total (xs ++ b ∷ ys) ≡ b + total (xs ++ ys)
total-middle [] ys b = refl
total-middle (x ∷ xs) ys b = omega (arith, total-middle xs ys b)

-- The books of the bytes.
pub record IsBalanced (maximum : ℕ) (fresh held leaving : List ℕ) (a : ByteAdmission) : Type 0 where
  pub same : a.maximum ≡ maximum
  pub used : a.used ≡ total fresh + total held
  pub within : a.used ≤ maximum
  pub gauge : a.inflight_request_bytes ≡ (total held + total leaving) % usize_mod

reserve-cases :
    (bytes : ℕ) (a : ByteAdmission)
    → a.maximum < usize_mod
    → ((b : ByteAdmission)
        → reserve bytes a ≡ (true, b)
        → (a.used + bytes ≤ a.maximum) × (b ≡ record a { used = a.used + bytes }))
      × ((b : ByteAdmission) → reserve bytes a ≡ (false, b) → b ≡ a)
      × (a.used + bytes ≤ a.maximum → (reserve bytes a).0 ≡ true)
unfolding reserve
reserve-cases bytes a m =
    (λ b e. (ground arith, ground arith), λ b e. ground arith, λ h. ground arith)

taken_away :
    (n b : ℕ) → ((b + n) % usize_mod + (usize_mod - b % usize_mod)) % usize_mod ≡ n % usize_mod
taken_away n b = omega arith

module _ (maximum : ℕ) (small : maximum < usize_mod) where
  History-IsBalanced :
      (fresh held leaving : List ℕ) (a : ByteAdmission)
      → History maximum fresh held leaving a
      → IsBalanced maximum fresh held leaving a
  unfolding new_bytes count_inflight count_rejected give_back uncount_inflight
  History-IsBalanced _ _ _ _ started = record {
    same = refl;
    used = refl;
    within = omega arith;
    gauge = refl;
  }
  History-IsBalanced _ _ _ b (granted fresh held leaving a _ bytes h e) =
      let v = History-IsBalanced fresh held leaving a h in
      let (fits, made) = (reserve-cases bytes a (omega (arith, v.same, small))).0 b e in
      subst (IsBalanced maximum (bytes ∷ fresh) held leaving) (sym made) (record {
        same = v.same;
        used = omega (arith, v.used);
        within = omega (arith, fits, v.same);
        gauge = v.gauge;
      })
  History-IsBalanced _ _ _ _ (counted before after held leaving a bytes h) =
      let v = History-IsBalanced (before ++ bytes ∷ after) held leaving a h in
      let t = total-middle before after bytes in
      record {
        same = v.same;
        used = omega (arith, v.used, t);
        within = v.within;
        gauge = omega (arith, v.gauge);
      }
  History-IsBalanced _ _ _ b (refused fresh held leaving a _ bytes h e) =
      let v = History-IsBalanced fresh held leaving a h in
      subst (IsBalanced maximum fresh held leaving)
        (sym ((reserve-cases bytes a (omega (arith, v.same, small))).1 b e)) v
  History-IsBalanced _ _ _ _ (rejected fresh held leaving a h) =
      let v = History-IsBalanced fresh held leaving a h in
      record { same = v.same; used = v.used; within = v.within; gauge = v.gauge }
  History-IsBalanced _ _ _ _ (returned fresh before after leaving a bytes h) =
      let v = History-IsBalanced fresh (before ++ bytes ∷ after) leaving a h in
      let t = total-middle before after bytes in
      let less : (a.used + (usize_mod - bytes % usize_mod)) % usize_mod
          ≡ total fresh + total (before ++ after) =
        omega (arith, v.used, v.within, small, t) in
      record {
        same = v.same;
        used = less;
        within = omega (arith, less, v.used, v.within, t);
        gauge = omega (arith, v.gauge, t);
      }
  History-IsBalanced _ _ _ _ (uncounted fresh held before after a bytes h) =
      let v = History-IsBalanced fresh held (before ++ bytes ∷ after) a h in
      record {
        same = v.same;
        used = v.used;
        within = v.within;
        gauge = omega (arith, v.gauge, total-middle before after bytes);
      }

  -- Whatever the threads do, step by step in any order, under a maximum that is a `usize`: `used` is the
  -- sum of the bytes that are granted and not given back, which never is above the maximum, and the
  -- gauge is the sum of those that it has counted and not uncounted, modulo 2 ^ 64. While no call is
  -- between its two steps, the gauge shows `used`. A request is granted just if its bytes fit.
  pub bytes_balance :
      (fresh held leaving : List ℕ) (a : ByteAdmission)
      → History maximum fresh held leaving a
      → IsBalanced maximum fresh held leaving a
        × (fresh ≡ [] → leaving ≡ [] → a.inflight_request_bytes ≡ a.used)
        × ((bytes : ℕ) → ((reserve bytes a).0 ≡ true) ↔ (a.used + bytes ≤ maximum))
  bytes_balance fresh held leaving a h =
      let v = History-IsBalanced fresh held leaving a h in
      (
        v,
        λ p q. omega (arith, v.gauge, v.used, v.within, small, ap total p, ap total q),
        λ bytes.
            let (sound, _, fits) = reserve-cases bytes a (omega (arith, v.same, small)) in
            (
              λ e. omega (
                arith,
                (sound (reserve bytes a).1 (ap (λ b. (b, (reserve bytes a).1)) e)).0,
                v.same,
              ),
              λ l. fits (omega (arith, l, v.same)),
            ),
      )
