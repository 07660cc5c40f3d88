-- ===== src/Base/BTreeMap.antt =====
-- Rust's `BTreeMap<usize, V>`: an association list in ascending key order. A `BTreeSet<usize>` is
-- one with `Unit` for its values.
use Prim.Native.Nat.{ℕ, suc, ◌+◌, ◌≤◌, ◌<◌}
use mathlib.Core.Path.{◌≡◌, refl}
use mathlib.Core.Bool.{Bool, true, false}
use mathlib.Core.Option.{Option, none, some}
use mathlib.Core.List.{List, [], ◌∷◌}
use native.Mathlib.Omega.{arith}
use vector_chord.Base.Tests.{ltb, leb, ◌==◌, if◌then◌else◌}

abbrev pub BTreeMap {ℓ} : Type ℓ → Type ℓ
BTreeMap V = List (ℕ × V)

abbrev pub BTreeSet : Type 0
BTreeSet = BTreeMap (Unit {0})

module _ {ℓ} {V : Type ℓ} where
  unfoldable pub get : ℕ → BTreeMap V → Option V
  get k [] = none
  get k ((j, v) ∷ m) = if j == k then some v else get k m

  unfoldable pub insert : ℕ → V → BTreeMap V → BTreeMap V
  insert k v [] = (k, v) ∷ []
  insert k v ((j, w) ∷ m) =
      if k == j then (k, v) ∷ m else if ltb k j then (k, v) ∷ (j, w) ∷ m else (j, w) ∷ insert k v m

  unfoldable pub remove : ℕ → BTreeMap V → BTreeMap V
  remove k [] = []
  remove k ((j, w) ∷ m) = if j == k then m else (j, w) ∷ remove k m

  -- `range(r..).next()`
  unfoldable pub first_from : ℕ → BTreeMap V → Option (ℕ × V)
  first_from r [] = none
  first_from r ((k, v) ∷ m) = if leb r k then some (k, v) else first_from r m

  abbrev or_else : Option (ℕ × V) → Option (ℕ × V) → Option (ℕ × V)
  or_else none o = o
  or_else (some p) o = some p

  -- `range(..r).next_back()`
  unfoldable pub last_below : ℕ → BTreeMap V → Option (ℕ × V)
  last_below r [] = none
  last_below r ((k, v) ∷ m) = if ltb k r then or_else (last_below r m) (some (k, v)) else none

  -- `last_key_value()`
  unfoldable pub last_key_value : BTreeMap V → Option (ℕ × V)
  last_key_value [] = none
  last_key_value ((k, v) ∷ m) = or_else (last_key_value m) (some (k, v))

  unfoldable pub is_empty : BTreeMap V → Bool
  is_empty [] = true
  is_empty (e ∷ m) = false

  -- Keys ascend strictly, from `n` on.
  abbrev pub Above : ℕ → BTreeMap V → Type 0
  Above n [] = Unit {0}
  Above n ((k, v) ∷ m) = (n ≤ k) × Above (suc k) m

  abbrev pub IsSorted : BTreeMap V → Type 0
  IsSorted m = Above 0 m

module _ {ℓ} {V : Type ℓ} where
  pub Above-mono : (n k : ℕ) (m : BTreeMap V) → k ≤ n → Above n m → Above k m
  Above-mono n k [] h s = tt
  Above-mono n k ((j, v) ∷ m) h s = (omega arith, s.1)

  pub get_below : (n k : ℕ) (m : BTreeMap V) → Above n m → k < n → get k m ≡ none
  unfolding get
  get_below n k [] s h = refl
  get_below n k ((j, v) ∷ m) s h = ground (arith, get_below (suc j) k m s.1)

  pub get-insert :
      (j k : ℕ) (v : V) (m : BTreeMap V)
      → get j (insert k v m) ≡ (if k == j then some v else get j m)
  unfolding get insert
  get-insert j k v [] = ground arith
  get-insert j k v ((i, w) ∷ m) = ground (arith, get-insert j k v m)

  pub get-remove-Above :
      (n j k : ℕ) (m : BTreeMap V)
      → Above n m
      → get j (remove k m) ≡ (if k == j then none else get j m)
  unfolding get remove
  get-remove-Above n j k [] s = ground arith
  get-remove-Above n j k ((i, w) ∷ m) s =
      ground (arith, get-remove-Above (suc i) j k m s.1, get_below (suc i) j m s.1)

  pub get-remove :
      (j k : ℕ) (m : BTreeMap V)
      → IsSorted m
      → get j (remove k m) ≡ (if k == j then none else get j m)
  get-remove j k m s = get-remove-Above 0 j k m s

  insert-Above : (n k : ℕ) (v : V) (m : BTreeMap V) → Above n m → n ≤ k → Above n (insert k v m)
  unfolding insert
  insert-Above n k v [] s h = (h, tt)
  insert-Above n k v ((i, w) ∷ m) s h =
      ground (arith, insert-Above (suc i) k v m s.1, Above-mono (suc i) (suc k) m)

  pub insert-IsSorted : (k : ℕ) (v : V) (m : BTreeMap V) → IsSorted m → IsSorted (insert k v m)
  insert-IsSorted k v m s = insert-Above 0 k v m s (omega arith)

  remove-Above : (n k : ℕ) (m : BTreeMap V) → Above n m → Above n (remove k m)
  unfolding remove
  remove-Above n k [] s = tt
  remove-Above n k ((i, w) ∷ m) s =
      ground (arith, remove-Above (suc i) k m s.1, Above-mono (suc i) n m)

  pub remove-IsSorted : (k : ℕ) (m : BTreeMap V) → IsSorted m → IsSorted (remove k m)
  remove-IsSorted k m s = remove-Above 0 k m s

  -- The least key from `r` on, if there is one.
  pub first_from-some :
      (n r k : ℕ) (v : V) (m : BTreeMap V)
      → Above n m
      → first_from r m ≡ some (k, v)
      → (get k m ≡ some v) × (r ≤ k) × (n ≤ k)
  unfolding first_from get
  first_from-some n r k v [] s e = absurd (ground arith)
  first_from-some n r k v ((i, w) ∷ m) s e = ground (arith, first_from-some (suc i) r k v m s.1)

  pub first_from-least :
      (n r k : ℕ) (v : V) (j : ℕ) (w : V) (m : BTreeMap V)
      → Above n m
      → first_from r m ≡ some (k, v)
      → get j m ≡ some w
      → r ≤ j
      → k ≤ j
  unfolding first_from get
  first_from-least n r k v j w [] s e g h = absurd (ground arith)
  first_from-least n r k v j w ((i, u) ∷ m) s e g h =
      ground (arith, first_from-least (suc i) r k v j w m s.1, get_below (suc i) j m s.1)

  pub first_from-none :
      (r j : ℕ) (w : V) (m : BTreeMap V) → first_from r m ≡ none → get j m ≡ some w → j < r
  unfolding first_from get
  first_from-none r j w [] e g = absurd (ground arith)
  first_from-none r j w ((i, u) ∷ m) e g = ground (arith, first_from-none r j w m)

  pub last_below-some :
      (n r k : ℕ) (v : V) (m : BTreeMap V)
      → Above n m
      → last_below r m ≡ some (k, v)
      → (get k m ≡ some v) × (k < r) × (n ≤ k)
  unfolding last_below get
  last_below-some n r k v [] s e = absurd (ground arith)
  last_below-some n r k v ((i, u) ∷ m) s e = ground (arith, last_below-some (suc i) r k v m s.1)

  pub last_below-none :
      (n r j : ℕ) (w : V) (m : BTreeMap V)
      → Above n m
      → last_below r m ≡ none
      → get j m ≡ some w
      → r ≤ j
  unfolding last_below get
  last_below-none n r j w [] s e g = absurd (ground arith)
  last_below-none n r j w ((i, u) ∷ m) s e g =
      ground (arith, last_below-none (suc i) r j w m s.1, get_below (suc i) j m s.1)

  pub last_below-greatest :
      (n r k : ℕ) (v : V) (j : ℕ) (w : V) (m : BTreeMap V)
      → Above n m
      → last_below r m ≡ some (k, v)
      → get j m ≡ some w
      → j < r
      → j ≤ k
  unfolding last_below get
  last_below-greatest n r k v j w [] s e g h = absurd (ground arith)
  last_below-greatest n r k v j w ((i, u) ∷ m) s e g h = ground (
    arith,
    last_below-greatest (suc i) r k v j w m s.1,
    last_below-none (suc i) r j w m s.1,
    last_below-some (suc i) r k v m s.1,
    get_below (suc i) j m s.1,
  )

  pub last_key_value-some :
      (n k : ℕ) (v : V) (m : BTreeMap V)
      → Above n m
      → last_key_value m ≡ some (k, v)
      → (get k m ≡ some v) × (n ≤ k)
  unfolding last_key_value get
  last_key_value-some n k v [] s e = absurd (ground arith)
  last_key_value-some n k v ((i, u) ∷ m) s e = ground (arith, last_key_value-some (suc i) k v m s.1)

  pub last_key_value-none : (j : ℕ) (m : BTreeMap V) → last_key_value m ≡ none → get j m ≡ none
  unfolding last_key_value get
  last_key_value-none j [] e = refl
  last_key_value-none j ((i, u) ∷ m) e = ground arith

  pub last_key_value-greatest :
      (n k : ℕ) (v : V) (j : ℕ) (w : V) (m : BTreeMap V)
      → Above n m
      → last_key_value m ≡ some (k, v)
      → get j m ≡ some w
      → j ≤ k
  unfolding last_key_value get
  last_key_value-greatest n k v j w [] s e g = absurd (ground arith)
  last_key_value-greatest n k v j w ((i, u) ∷ m) s e g = ground (
    arith,
    last_key_value-greatest (suc i) k v j w m s.1,
    last_key_value-none j m,
    last_key_value-some (suc i) k v m s.1,
    get_below (suc i) j m s.1,
  )

  pub is_empty-get : (m : BTreeMap V) (j : ℕ) → is_empty m ≡ true → get j m ≡ none
  unfolding is_empty get
  is_empty-get [] j e = refl
  is_empty-get (p ∷ m) j e = absurd (ground arith)

  pub not-is_empty :
      (m : BTreeMap V) → is_empty m ≡ false → (k : ℕ) × (v : V) × (first_from 0 m ≡ some (k, v))
  unfolding is_empty first_from
  not-is_empty [] e = absurd (ground arith)
  not-is_empty ((k, v) ∷ m) e = (k, v, ground arith)

-- The sum of the values.
unfoldable pub sum : BTreeMap ℕ → ℕ
sum [] = 0
sum ((k, v) ∷ m) = v + sum m

pub sum-insert : (k v : ℕ) (m : BTreeMap ℕ) → get k m ≡ none → sum (insert k v m) ≡ v + sum m
unfolding sum insert get
sum-insert k v [] e = refl
sum-insert k v ((i, u) ∷ m) e = ground (arith, sum-insert k v m)

pub sum-remove : (k v : ℕ) (m : BTreeMap ℕ) → get k m ≡ some v → v + sum (remove k m) ≡ sum m
unfolding sum remove get
sum-remove k v [] e = absurd (ground arith)
sum-remove k v ((i, u) ∷ m) e = ground (arith, sum-remove k v m)
