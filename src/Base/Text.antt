-- ===== src/Base/Text.antt =====
-- Equality of strings is decidable, so strings can be keys of a map.
use Prim.Native.String.{String}
use mathlib.Core.Path.{◌≡◌, refl}
use mathlib.Core.Bool.{Bool, true, false}
use native.Mathlib.Omega.{arith}
use text.Mathlib.Text.{◌==◌}
use text.Mathlib.TextEquality.{eq_iff}

differ : (s t : String) → (s == t) ≡ false → ¬ (s ≡ t)
differ s t e h = ground (arith, (eq_iff s t).1 h)

decided : (s t : String) (b : Bool) → (s == t) ≡ b → Dec (s ≡ t)
unfolding differ
decided s t true e = yes ((eq_iff s t).0 e)
decided s t false e = no (differ s t e)

unfoldable pub string_discrete : Discrete String
unfolding decided
string_discrete s t = decided s t (s == t) refl
