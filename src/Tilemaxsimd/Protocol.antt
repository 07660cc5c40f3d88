-- ===== src/Tilemaxsimd/Protocol.antt =====
-- services/tilemaxsimd/src/protocol.rs: the frames between the index and the daemon. A byte is a
-- number below 256, and a string the list of its UTF-8 bytes. An `i32` i is the number i + 2 ^ 31.
pub mod Words
pub mod Readers
pub mod Texts
pub mod Frame
use vector_chord.Base.{
  ℕ, zero, suc, ◌+◌, ◌-◌, ◌*◌, ◌/◌, ◌%◌, min, max, Bool, true, false, not, ◌&&◌, ◌||◌, Option, none,
  some, List, [], ◌∷◌, ◌++◌, length, take, drop, leb, ltb, ◌==◌, if◌then◌else◌,
}

pub data Error : Type 0 where
  request_overflow truncated_request truncated_header invalid_length not_utf8 control_characters :
      Error
  trailing_bytes unsupported_dtype invalid_shape shape_too_large non_finite invalid_magic : Error
  unsupported_version length_mismatch unsupported_scoring too_many_candidates invalid_priority :
      Error
  invalid_timeout duplicate_candidate unsupported_reference invalid_descriptor token_overflow :
      Error
  byte_overflow exceeds_limits : Error

pub data Result {ℓ} (A : Type ℓ) : Type ℓ where
  ok : A → Result A
  err : Error → Result A

abbrev pub usize_mod : ℕ
usize_mod = 18446744073709551616

abbrev pub Bytes : Type 0
Bytes = List ℕ

pub record Descriptor : Type 0 where
  pub candidate_id : ℕ
  pub contract : Bytes
  pub digest : Bytes
  pub rows : ℕ
  pub dimension : ℕ
  pub dtype : ℕ

pub record Request : Type 0 where
  pub protocol_version : ℕ
  pub request_id : ℕ
  pub tenant : Bytes
  pub priority : ℕ
  pub timeout_ms : ℕ
  pub query_rows : ℕ
  pub dimension : ℕ
  pub dtype : ℕ
  pub query : Bytes
  pub candidates : List Descriptor

pub record Reader : Type 0 where
  pub bytes : Bytes
  pub offset : ℕ

-- A step of the reader, with `?` between the steps.
abbrev pub Read {ℓ} : Type ℓ → Type ℓ
Read A = Reader → Result (A × Reader)

abbrev pub then_read {ℓ κ} :
    {A : Type ℓ} {B : Type κ} → Result (A × Reader) → (A → Read B) → Result (B × Reader)
then_read (ok (a, r)) f = f a r
then_read (err e) f = err e

infix 20 ◌>>=◌
abbrev pub ◌>>=◌ {ℓ κ} : {A : Type ℓ} {B : Type κ} → Read A → (A → Read B) → Read B
(m >>= f) r = then_read (m r) f

infix 20 ◌>>◌
abbrev pub ◌>>◌ {ℓ κ} : {A : Type ℓ} {B : Type κ} → Read A → Read B → Read B
(m >> k) r = then_read (m r) (λ a. k)

abbrev pub pure {ℓ} : {A : Type ℓ} → A → Read A
pure a r = ok (a, r)

-- `bail!` under a condition, and a result that does not touch the reader.
abbrev pub bail_if : Bool → Error → Read (Unit {0})
bail_if true e r = err e
bail_if false e r = ok (tt, r)

abbrev pub lift {ℓ} : {A : Type ℓ} → Result A → Read A
lift (ok a) r = ok (a, r)
lift (err e) r = err e

pub take_bytes : ℕ → Read Bytes
take_bytes count r =
    let end = r.offset + count in
    if leb usize_mod end
    then err request_overflow
    else if ltb (length r.bytes) end
    then err truncated_request
    else ok (take count (drop r.offset r.bytes), record r { offset = end })

-- `from_le_bytes`
unfoldable pub le_value : Bytes → ℕ
le_value [] = 0
le_value (b ∷ bs) = b + 256 * le_value bs

-- `to_le_bytes` of a number of that many bytes
unfoldable pub le_bytes : ℕ → ℕ → Bytes
le_bytes zero n = []
le_bytes (suc k) n = n % 256 ∷ le_bytes k (n / 256)

-- An unsigned integer of that many bytes.
unfoldable pub unsigned : ℕ → Read ℕ
unfolding take_bytes le_value
unsigned count = do bytes ← take_bytes count; pure (le_value bytes)

-- A signed one, with its bias.
unfoldable pub signed : Read ℕ
unfolding unsigned
signed = do n ← unsigned 4; pure ((n + 2147483648) % 4294967296)

abbrev pub within : ℕ → ℕ → ℕ → Bool
within low high n = leb low n && leb n high

abbrev push_char : ℕ → Option (List ℕ) → Option (List ℕ)
push_char c none = none
push_char c (some cs) = some (c ∷ cs)

-- What the first byte of a longer character says: how many bytes follow, the bounds of the next one,
-- and the bits that the character starts with.
abbrev pub lead : ℕ → Option (ℕ × ℕ × ℕ × ℕ)
lead b =
    if within 194 223 b
    then some (1, 128, 191, b - 192)
    else if b == 224
    then some (2, 160, 191, 0)
    else if b == 237
    then some (2, 128, 159, 13)
    else if within 225 239 b
    then some (2, 128, 191, b - 224)
    else if b == 240
    then some (3, 144, 191, 0)
    else if within 241 243 b
    then some (3, 128, 191, b - 240)
    else if b == 244
    then some (3, 128, 143, 4)
    else none

-- `from_utf8`: the characters of the bytes. `more` continuation bytes are to come, the next of them
-- from `low` to `high`, for a character that starts with the bits `start`.
unfoldable pub chars : (more low high start : ℕ) → Bytes → Option (List ℕ)
chars zero low high start [] = some []
chars (suc more) low high start [] = none
chars zero low high start (b ∷ bs) = elim (ltb b 128) [
  | true ↦ push_char b (chars 0 0 0 0 bs)
  | false ↦ elim (lead b) [ none ↦ none | some (m, l, h, s) ↦ chars m l h s bs ]
]
chars (suc zero) low high start (b ∷ bs) = elim (within low high b) [
  | true ↦ push_char (start * 64 + (b - 128)) (chars 0 0 0 0 bs)
  | false ↦ none
]
chars (suc (suc more)) low high start (b ∷ bs) = elim (within low high b) [
  | true ↦ chars (suc more) 128 191 (start * 64 + (b - 128)) bs
  | false ↦ none
]

abbrev pub is_control : ℕ → Bool
is_control c = ltb c 32 || within 127 159 c

abbrev pub any_control : List ℕ → Bool
any_control [] = false
any_control (c ∷ cs) = is_control c || any_control cs

pub check_text : Bytes → Result Bytes
unfolding chars
check_text bytes = elim (chars 0 0 0 0 bytes) [
  | none ↦ err not_utf8
  | some cs ↦ if any_control cs then err control_characters else ok bytes
]

pub text : ℕ → ℕ → Read Bytes
unfolding take_bytes check_text
text count maximum = do
  bail_if (count == 0 || ltb maximum count) invalid_length
  bytes ← take_bytes count
  lift (check_text bytes)

pub finish : Read (Unit {0})
finish r = if r.offset == length r.bytes then ok (tt, r) else err trailing_bytes
