-- ===== src/Cdr/Ser.antt =====
-- aimdb-cdr/src/ser.rs, with `to_vec` and `to_slice` of lib.rs.
pub mod Wire
use aimdb.Prelude.{
  ℕ, zero, suc, ◌+◌, ◌^◌, ◌-◌, List, [], ◌∷◌, ◌++◌, Bool, true, false, Option, none, some, length,
  ltb, leb, if◌then◌else◌, Str,
}
use aimdb.Cdr.{
  Width, four, size_of, Value, bool, number, text, byte_string, unit, newtype, seq, tuple, unmapped,
  Values, end, element, Error, buffer_too_small, length_overflow, unknown_length, unsupported,
  Result, ok, err, and_then, header_le, header_len, padding, zeros, to_le_bytes,
}

-- `limit` is the length of a `SliceWriter`'s buffer; a `Vec` has none.
pub record Serializer : Type 0 where
  pub out : Str
  pub pos : ℕ
  pub limit : Option ℕ

pub has_room : Option ℕ → ℕ → Bool
has_room none len = true
has_room (some n) len = leb len n

pub write : Serializer → Str → Result Serializer
unfolding has_room
write s bytes =
    if has_room s.limit (length s.out + length bytes)
    then ok (record s { out = s.out ++ bytes; pos = s.pos + length bytes })
    else err buffer_too_small

pub align : Serializer → ℕ → Result Serializer
align s alignment = write s (zeros (padding s.pos alignment))

pub primitive : Serializer → ℕ → Str → Result Serializer
primitive s n bytes = and_then (align s n) (λ t. write t bytes)

pub write_length : Serializer → ℕ → Result Serializer
write_length s len =
    if ltb (2 ^ 32 - 1) len then err length_overflow else primitive s 4 (to_le_bytes 4 len)

abbrev pub bool_byte : Bool → ℕ
bool_byte false = 0
bool_byte true = 1

pub seq_length : Serializer → Option ℕ → Result Serializer
seq_length s none = err unknown_length
seq_length s (some len) = write_length s len

unfoldable mutual
  unfolding seq_length

  -- The methods of `serde::Serializer`, as the value calls them.
  pub serialize : Value → Serializer → Result Serializer
  serialize (bool b) s = write s (bool_byte b ∷ [])
  serialize (number w v) s = primitive s (size_of w) (to_le_bytes (size_of w) v)
  serialize (text v) s =
      and_then (write_length s (length v + 1)) (λ t. and_then (write t v) (λ u. write u (0 ∷ [])))
  serialize (byte_string v) s = and_then (write_length s (length v)) (λ t. write t v)
  serialize unit s = ok s
  serialize (newtype v) s = serialize v s
  serialize (seq len vs) s = and_then (seq_length s len) (λ t. serialize_elements vs t)
  serialize (tuple vs) s = serialize_elements vs s
  serialize (unmapped kind) s = err (unsupported kind)

  pub serialize_elements : Values → Serializer → Result Serializer
  serialize_elements end s = ok s
  serialize_elements (element v vs) s = and_then (serialize v s) (λ t. serialize_elements vs t)

pub to_vec : Value → Result Str
to_vec v =
    and_then (serialize v (record { out = header_le; pos = 0; limit = none })) (λ s. ok s.out)

-- With a buffer of `n` bytes: how many are used, and what they are.
pub to_slice : Value → ℕ → Result (ℕ × Str)
to_slice v n =
    if ltb n header_len
    then err buffer_too_small
    else and_then (serialize v (record { out = []; pos = 0; limit = some (n - header_len) }))
        (λ s. ok (header_len + s.pos, header_le ++ s.out))
