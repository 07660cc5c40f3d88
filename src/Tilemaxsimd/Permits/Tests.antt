-- ===== src/Tilemaxsimd/Permits/Tests.antt =====
-- Two permits of one tenant, and bytes of 1000.
use vector_chord.Base.{ℕ, true, false, List, ◌↔◌, ◌+◌, ◌≤◌, ◌≡◌, none, [], ◌∷◌, arith, refl}
use vector_chord.Base.HashMap
use vector_chord.Base.Text.{string_discrete}
use vector_chord.Tilemaxsimd.Permits.{
  PendingAdmission, new, try_acquire, drop_permit, ByteAdmission, reserve, count_inflight,
  give_back, new_bytes,
}
use vector_chord.Tilemaxsimd.Permits.Bytes.{
  IsBalanced, granted, counted, returned, started, bytes_balance,
}
use vector_chord.Tilemaxsimd.Permits.Limits.{
  Reachable, acquired, dropped, IsWithin, Reachable-IsWithin,
}

abbrev one : PendingAdmission
one = (try_acquire "a" (new 4 2)).1

abbrev two : PendingAdmission
two = (try_acquire "a" one).1

first : try_acquire "a" (new 4 2) ≡ (none, one)
unfolding try_acquire new HashMap.get
first = refl

second : try_acquire "a" one ≡ (none, two)
unfolding try_acquire new HashMap.get HashMap.insert string_discrete
second = refl

Reachable-IsWithin_example : IsWithin 4 2 ("a" ∷ []) (drop_permit "a" two)
Reachable-IsWithin_example =
    Reachable-IsWithin 4 2 (omega arith) (omega arith) ("a" ∷ []) (drop_permit "a" two) (
      dropped ("a" ∷ []) [] two "a" (
        acquired ("a" ∷ []) one two "a" (acquired [] (new 4 2) one "a" Reachable.started first)
          second))

-- One request of 300 bytes is in use, and one of 200 has been granted and given back.
abbrev first_grant : ByteAdmission
first_grant = (reserve 300 (new_bytes 1000)).1

abbrev second_grant : ByteAdmission
second_grant = (reserve 200 (count_inflight 300 first_grant)).1

first_granted : reserve 300 (new_bytes 1000) ≡ (true, first_grant)
unfolding reserve new_bytes
first_granted = refl

second_granted : reserve 200 (count_inflight 300 first_grant) ≡ (true, second_grant)
unfolding reserve new_bytes count_inflight
second_granted = refl

-- One more request would not fit.
too_many : reserve 701 (count_inflight 300 first_grant) ≡ (false, count_inflight 300 first_grant)
unfolding reserve new_bytes count_inflight
too_many = refl

abbrev given_back : ByteAdmission
given_back = give_back 200 (count_inflight 200 second_grant)

bytes_balance_example :
    IsBalanced 1000 [] (300 ∷ []) (200 ∷ []) given_back
    × (◌≡◌ {A = List ℕ} [] []
        → ◌≡◌ {A = List ℕ} (200 ∷ []) []
        → given_back.inflight_request_bytes ≡ given_back.used)
    × ((bytes : ℕ) → ((reserve bytes given_back).0 ≡ true) ↔ (given_back.used + bytes ≤ 1000))
bytes_balance_example = bytes_balance 1000 (omega arith) [] (300 ∷ []) (200 ∷ []) given_back (
    returned [] [] (300 ∷ []) [] (count_inflight 200 second_grant) 200 (
      counted [] [] (300 ∷ []) [] second_grant 200 (
        granted [] (300 ∷ []) [] (count_inflight 300 first_grant) second_grant 200
          (counted [] [] [] [] first_grant 300
            (granted [] [] [] (new_bytes 1000) first_grant 300 started first_granted))
          second_granted)))
