-- ===== src/Cdr/De.antt =====
-- aimdb-cdr/src/de.rs, with `from_bytes` of lib.rs.
pub mod RoundTrip
pub mod Shaped
pub mod Reading
pub mod Bounds
use aimdb.Prelude.{
  ℕ, zero, suc, ◌+◌, ◌*◌, ◌-◌, List, [], ◌∷◌, ◌++◌, Bool, true, false, ◌&&◌, Option, none, some,
  length, take, drop, ltb, leb, ◌==◌, if◌then◌else◌, Str,
}
use aimdb.Cdr.{
  Width, one, two, four, eight, size_of, Unsupported, Value, bool, number, text, byte_string, unit,
  newtype, seq, tuple, Values, end, element, Error, unexpected_eof, invalid_utf8, missing_nul,
  invalid_header, invalid_bool, unsupported, Result, ok, err, and_then, padding,
}

mutual
  pub data Shape : Type 0 where
    bool_shape : Shape
    number_shape : Width → Shape
    text_shape : Shape
    bytes_shape : Shape
    unit_shape : Shape
    newtype_shape : Shape → Shape
    seq_shape : Shape → Shape
    tuple_shape : Shapes → Shape
    unmapped_shape : Unsupported → Shape

  pub data Shapes : Type 0 where
    no_shape : Shapes
    shape : Shape → Shapes → Shapes

pub record Deserializer : Type 0 where
  pub input : Str
  pub pos : ℕ
  pub big_endian : Bool

unfoldable pub remaining : Deserializer → ℕ
remaining d = length d.input - d.pos

-- `checked_add` fails only where the slice would be out of range as well.
unfoldable pub take_bytes : Deserializer → ℕ → Result (Str × Deserializer)
take_bytes d len =
    if ltb (length d.input) (d.pos + len)
    then err unexpected_eof
    else ok (take len (drop d.pos d.input), record d { pos = d.pos + len })

unfoldable pub align : Deserializer → ℕ → Result Deserializer
align d alignment = and_then (take_bytes d (padding d.pos alignment)) (λ (bytes, e). ok e)

unfoldable pub primitive : Deserializer → ℕ → Result (Str × Deserializer)
primitive d n = and_then (align d n) (λ e. take_bytes e n)

abbrev pub from_le_bytes : Str → ℕ
from_le_bytes [] = 0
from_le_bytes (b ∷ bs) = b + 256 * from_le_bytes bs

abbrev pub from_be_bytes : ℕ → Str → ℕ
from_be_bytes acc [] = acc
from_be_bytes acc (b ∷ bs) = from_be_bytes (acc * 256 + b) bs

abbrev pub from_bytes_as : Bool → Str → ℕ
from_bytes_as true bs = from_be_bytes 0 bs
from_bytes_as false bs = from_le_bytes bs

-- `read_u8` is not aligned and has one byte only.
unfoldable pub read_number : Deserializer → Width → Result (ℕ × Deserializer)
read_number d one = and_then (take_bytes d 1) (λ (bytes, e). ok (from_le_bytes bytes, e))
read_number d two =
    and_then (primitive d 2) (λ (bytes, e). ok (from_bytes_as d.big_endian bytes, e))
read_number d four =
    and_then (primitive d 4) (λ (bytes, e). ok (from_bytes_as d.big_endian bytes, e))
read_number d eight =
    and_then (primitive d 8) (λ (bytes, e). ok (from_bytes_as d.big_endian bytes, e))

unfoldable pub read_length : Deserializer → Result (ℕ × Deserializer)
unfolding read_number
read_length d =
    and_then (read_number d four)
      (λ (len, e). if ltb (remaining e) len then err unexpected_eof else ok (len, e))

-- UTF-8 as `core::str::from_utf8` accepts it: the ranges that the next bytes have to lie in.
abbrev pub cont : ℕ × ℕ
cont = (0x80, 0xBF)

unfoldable pub after_lead : ℕ → Option (List (ℕ × ℕ))
after_lead b =
    if ltb b 0x80
    then some []
    else if ltb b 0xC2
    then none
    else if ltb b 0xE0
    then some (cont ∷ [])
    else if b == 0xE0
    then some ((0xA0, 0xBF) ∷ cont ∷ [])
    else if b == 0xED
    then some ((0x80, 0x9F) ∷ cont ∷ [])
    else if ltb b 0xF0
    then some (cont ∷ cont ∷ [])
    else if b == 0xF0
    then some ((0x90, 0xBF) ∷ cont ∷ cont ∷ [])
    else if ltb b 0xF4
    then some (cont ∷ cont ∷ cont ∷ [])
    else if b == 0xF4
    then some ((0x80, 0x8F) ∷ cont ∷ cont ∷ [])
    else none

unfoldable pub is_utf8 : List (ℕ × ℕ) → Str → Bool
is_utf8 [] [] = true
is_utf8 (range ∷ ranges) [] = false
is_utf8 ((low, high) ∷ ranges) (b ∷ s) = leb low b && leb b high && is_utf8 ranges s
is_utf8 [] (b ∷ s) = elim (after_lead b) [ none ↦ false | some ranges ↦ is_utf8 ranges s ]

unfoldable pub check_text : Str → Deserializer → Result (Str × Deserializer)
check_text v d = if is_utf8 [] v then ok (v, d) else err invalid_utf8

-- `split_at(len - 1)` of the bytes taken: the last one has to be zero.
unfoldable pub checked_split : Str → Str → Deserializer → Result (Str × Deserializer)
unfolding check_text
checked_split v (zero ∷ []) d = check_text v d
checked_split v _ d = err missing_nul

unfoldable pub checked_text : ℕ → Str → Deserializer → Result (Str × Deserializer)
unfolding checked_split
checked_text len bytes d = checked_split (take (len - 1) bytes) (drop (len - 1) bytes) d

unfoldable pub text_of_length : ℕ → Deserializer → Result (Str × Deserializer)
unfolding checked_text
text_of_length zero d = ok ([], d)
text_of_length (suc n) d =
    and_then (take_bytes d (suc n)) (λ (bytes, e). checked_text (suc n) bytes e)

unfoldable pub read_text : Deserializer → Result (Str × Deserializer)
unfolding text_of_length read_length
read_text d = and_then (read_length d) (λ (len, e). text_of_length len e)

unfoldable pub bool_of_byte : ℕ → Result Value
bool_of_byte zero = ok (bool false)
bool_of_byte (suc zero) = ok (bool true)
bool_of_byte (suc (suc n)) = err (invalid_bool (suc (suc n)))

unfoldable pub count_of : Values → ℕ
count_of end = 0
count_of (element v vs) = suc (count_of vs)

-- `Elements` with `left` elements to go, read by a visitor that takes each of them.
unfoldable pub elements :
    ℕ
    → (Deserializer → Result (Value × Deserializer))
    → Deserializer
    → Result (Values × Deserializer)
elements zero read d = ok (end, d)
elements (suc left) read d =
    and_then (read d) (λ (v, e). and_then (elements left read e) (λ (vs, f). ok (element v vs, f)))

unfoldable mutual
  unfolding elements read_text read_number read_length bool_of_byte

  -- The methods of `serde::Deserializer`, as the shape calls them.
  pub deserialize : Shape → Deserializer → Result (Value × Deserializer)
  deserialize bool_shape d =
      and_then (read_number d one) (λ (b, e). and_then (bool_of_byte b) (λ v. ok (v, e)))
  deserialize (number_shape w) d = and_then (read_number d w) (λ (v, e). ok (number w v, e))
  deserialize text_shape d = and_then (read_text d) (λ (v, e). ok (text v, e))
  deserialize bytes_shape d =
      and_then (read_length d)
        (λ (len, e). and_then (take_bytes e len) (λ (v, f). ok (byte_string v, f)))
  deserialize unit_shape d = ok (unit, d)
  deserialize (newtype_shape sh) d = and_then (deserialize sh d) (λ (v, e). ok (newtype v, e))
  deserialize (seq_shape sh) d = and_then (read_length d) (λ (len, e).
      and_then (elements len (deserialize sh) e) (λ (vs, f). ok (seq (some len) vs, f)))
  deserialize (tuple_shape shs) d = and_then (deserialize_all shs d) (λ (vs, e). ok (tuple vs, e))
  deserialize (unmapped_shape kind) d = err (unsupported kind)

  pub deserialize_all : Shapes → Deserializer → Result (Values × Deserializer)
  deserialize_all no_shape d = ok (end, d)
  deserialize_all (shape sh shs) d =
      and_then (deserialize sh d)
        (λ (v, e). and_then (deserialize_all shs e) (λ (vs, f). ok (element v vs, f)))

pub value_of : Result (Value × Deserializer) → Result Value
value_of r = and_then r (λ (v, d). ok v)

pub from_bytes : Shape → Str → Result Value
unfolding value_of
from_bytes sh (zero ∷ suc zero ∷ o0 ∷ o1 ∷ body) =
    value_of (deserialize sh (record { input = body; pos = 0; big_endian = false }))
from_bytes sh (zero ∷ zero ∷ o0 ∷ o1 ∷ body) =
    value_of (deserialize sh (record { input = body; pos = 0; big_endian = true }))
from_bytes sh (h0 ∷ h1 ∷ o0 ∷ o1 ∷ body) = err (invalid_header h0 h1)
from_bytes sh _ = err unexpected_eof
