-- ===== src/Distance/Tests.antt =====
-- The distances of 1.0 and of -2.0.
use vector_chord.Base.{◌<◌, ◌≡◌, ◌↔◌, arith}
use vector_chord.Distance.{from_f32, to_f32, signed}
use vector_chord.Distance.Order.{IsLess, to_f32-from_f32, from_f32-IsLess}

to_f32-from_f32_example :
    (to_f32 (from_f32 3221225472) ≡ 3221225472)
    × (from_f32 (to_f32 3221225472) ≡ 3221225472)
    × (from_f32 3221225472 < 4294967296)
to_f32-from_f32_example = to_f32-from_f32 3221225472 (omega arith)

from_f32-IsLess_example :
    (signed (from_f32 3221225472) < signed (from_f32 1065353216)) ↔ IsLess 3221225472 1065353216
from_f32-IsLess_example = from_f32-IsLess 3221225472 1065353216 (omega arith) (omega arith)
