-- ===== src/Vector/Bvect/Tests.antt =====
-- Vectors of 66 bits.
use vector_chord.Base.{◌≡◌, ◌&&◌, ◌||◌, true, some, [], ◌∷◌, arith, refl}
use vector_chord.Base.Digits.{exclusive}
use vector_chord.Vector.Bvect.{
  Bvect, get, zip_words, vector_xor, new_checked, operator_and, operator_or, operator_xor,
}
use vector_chord.Vector.Bvect.Operators.{IsValid, IsBitwise, operators-IsBitwise}

abbrev left : Bvect
left = record { dim = 66; words = 12 ∷ 3 ∷ [] }

abbrev right : Bvect
right = record { dim = 66; words = 10 ∷ 1 ∷ [] }

left-IsValid : IsValid left
left-IsValid = record {
  dim_in_range = (omega arith, omega arith);
  long = refl;
  in_words = (omega arith, (omega arith, tt));
  padding = λ n. omega arith;
}

right-IsValid : IsValid right
right-IsValid = record {
  dim_in_range = (omega arith, omega arith);
  long = refl;
  in_words = (omega arith, (omega arith, tt));
  padding = λ n. omega arith;
}

xored : operator_xor left right ≡ some (record { dim = 66; words = 6 ∷ 2 ∷ [] })
unfolding operator_xor vector_xor zip_words new_checked
xored = refl

last_bit : get left 65 ≡ some true
unfolding get
last_bit = refl

operators-IsBitwise_example :
    IsBitwise ◌&&◌ left right (operator_and left right)
    × IsBitwise ◌||◌ left right (operator_or left right)
    × IsBitwise exclusive left right (operator_xor left right)
operators-IsBitwise_example = operators-IsBitwise left right left-IsValid right-IsValid
