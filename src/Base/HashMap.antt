-- ===== src/Base/HashMap.antt =====
-- Rust's `HashMap<K, V>`: an association list. Its order stands for the iteration order, which Rust
-- leaves open; a theorem holds of every list, hence of every order.
use Prim.Native.Nat.{ℕ, suc, ◌+◌, ◌≤◌}
use mathlib.Core.Path.{◌≡◌, refl}
use mathlib.Core.Logic.{◌≢◌, ite}
use mathlib.Core.Option.{Option, none, some}
use mathlib.Core.List.{List, [], ◌∷◌}
use native.Mathlib.Omega.{arith}
use vector_chord.Base.Lists.{length}

abbrev pub HashMap {ℓ} : Type ℓ → Type ℓ → Type ℓ
HashMap K V = List (K × V)

module _ {ℓ} {K V : Type ℓ} (dec : Discrete K) where
  unfoldable pub get : K → HashMap K V → Option V
  get k [] = none
  get k ((j, v) ∷ m) = ite (dec j k) (some v) (get k m)

  unfoldable pub insert : K → V → HashMap K V → HashMap K V
  insert k v [] = (k, v) ∷ []
  insert k v ((j, w) ∷ m) = ite (dec j k) ((j, v) ∷ m) ((j, w) ∷ insert k v m)

  unfoldable pub remove : K → HashMap K V → HashMap K V
  remove k [] = []
  remove k ((j, w) ∷ m) = ite (dec j k) m ((j, w) ∷ remove k m)

  -- No key stands twice.
  abbrev pub IsDistinct : HashMap K V → Type ℓ
  IsDistinct [] = Unit
  IsDistinct ((k, v) ∷ m) = (get k m ≡ none) × IsDistinct m

  pub get-insert :
      (j k : K) (v : V) (m : HashMap K V) → get j (insert k v m) ≡ ite (dec k j) (some v) (get j m)
  unfolding get insert
  get-insert j k v [] = refl
  get-insert j k v ((i, w) ∷ m) = ground (arith, get-insert j k v m)

  pub get-remove_ne : (j k : K) (m : HashMap K V) → k ≢ j → get j (remove k m) ≡ get j m
  unfolding get remove
  get-remove_ne j k [] h = refl
  get-remove_ne j k ((i, w) ∷ m) h = ground (arith, get-remove_ne j k m h)

  pub get-remove_self : (k : K) (m : HashMap K V) → IsDistinct m → get k (remove k m) ≡ none
  unfolding get remove
  get-remove_self k [] d = refl
  get-remove_self k ((i, w) ∷ m) d = ground (arith, get-remove_self k m d.1)

  pub insert-IsDistinct :
      (k : K) (v : V) (m : HashMap K V) → IsDistinct m → IsDistinct (insert k v m)
  unfolding insert get
  insert-IsDistinct k v [] d = (refl, d)
  insert-IsDistinct k v ((i, w) ∷ m) d =
      ground (arith, insert-IsDistinct k v m d.1, get-insert i k v m)

  pub remove-IsDistinct : (k : K) (m : HashMap K V) → IsDistinct m → IsDistinct (remove k m)
  unfolding remove get
  remove-IsDistinct k [] d = d
  remove-IsDistinct k ((i, w) ∷ m) d =
      ground (arith, remove-IsDistinct k m d.1, get-remove_ne i k m)

  pub length-remove :
      (k : K) (v : V) (m : HashMap K V) → get k m ≡ some v → length m ≡ suc (length (remove k m))
  unfolding get remove
  length-remove k v [] e = absurd (ground arith)
  length-remove k v ((i, u) ∷ m) e = ground (arith, length-remove k v m)

-- A sum over the entries of a map.
module _ {ℓ} {K V : Type ℓ} (weight : K → V → ℕ) where
  unfoldable pub sum : HashMap K V → ℕ
  sum [] = 0
  sum ((k, v) ∷ m) = weight k v + sum m

module _ {K V : Type 0} (dec : Discrete K) (weight : K → V → ℕ) where
  pub sum-insert_new :
      (k : K) (v : V) (m : HashMap K V)
      → get dec k m ≡ none
      → sum weight (insert dec k v m) ≡ weight k v + sum weight m
  unfolding sum insert get
  sum-insert_new k v [] e = refl
  sum-insert_new k v ((i, u) ∷ m) e = ground (arith, sum-insert_new k v m)

  pub sum-insert_old :
      (k : K) (v w : V) (m : HashMap K V)
      → get dec k m ≡ some w
      → sum weight (insert dec k v m) + weight k w ≡ weight k v + sum weight m
  unfolding sum insert get
  sum-insert_old k v w [] e = absurd (ground arith)
  sum-insert_old k v w ((i, u) ∷ m) e = ground (arith, sum-insert_old k v w m)

  pub sum-remove :
      (k : K) (v : V) (m : HashMap K V)
      → get dec k m ≡ some v
      → weight k v + sum weight (remove dec k m) ≡ sum weight m
  unfolding sum remove get
  sum-remove k v [] e = absurd (ground arith)
  sum-remove k v ((i, u) ∷ m) e = ground (arith, sum-remove k v m)

  pub weight-le-sum :
      (k : K) (v : V) (m : HashMap K V) → get dec k m ≡ some v → weight k v ≤ sum weight m
  unfolding sum get
  weight-le-sum k v [] e = absurd (ground arith)
  weight-le-sum k v ((i, u) ∷ m) e = ground (arith, weight-le-sum k v m)
