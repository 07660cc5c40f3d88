-- ===== src/Tilemaxsimd/HostCache/Tests.antt =====
-- A host cache of 100 bytes, of which a tenant may hold half.
use Prim.Native.String.{String}
use vector_chord.Base.{ℕ, ◌≤◌, ◌<◌, ◌≡◌, [], ◌∷◌, length, arith, refl}
use vector_chord.Base.HashMap
use vector_chord.Base.Float.{whole}
use vector_chord.Tilemaxsimd.HostCache.{Cache, new, returned, put}
use vector_chord.Tilemaxsimd.HostCache.Removal.{IsValid}
use vector_chord.Tilemaxsimd.HostCache.Insertion.{IsCurrent, put-IsValid}

abbrev no_hash : ℕ → String → ℕ
no_hash row key = 0

abbrev empty : Cache whole
empty = new whole 100 50

empty-IsValid : IsValid whole empty
unfolding new HashMap.sum HashMap.get
empty-IsValid = record {
  small = omega arith;
  keys_once = tt;
  tenants_once = tt;
  total = refl;
  books = λ t. refl;
  room = omega arith;
  shares = λ t. omega arith;
}

put-IsValid_example :
    (d : Cache whole) × (put whole no_hash "a" "k" (1 ∷ 2 ∷ 3 ∷ []) empty ≡ returned d)
    × IsValid whole d
    × (0 < empty.maximum_bytes
        → length {A = ℕ} (1 ∷ 2 ∷ 3 ∷ []) ≤ empty.maximum_bytes
        → IsCurrent whole "k" (1 ∷ 2 ∷ 3 ∷ []) d)
put-IsValid_example = put-IsValid whole no_hash "a" "k" (1 ∷ 2 ∷ 3 ∷ []) empty empty-IsValid
