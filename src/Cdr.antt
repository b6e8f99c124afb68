-- ===== src/Cdr.antt =====
-- aimdb-cdr/src: CDR over the data model of serde. A value is what a `Serialize` implementation calls
-- the serializer with, and a shape is what a `Deserialize` implementation asks the deserializer for;
-- a sequence, tuple or struct is the list of its elements. Numbers stand for their bits, so that the
-- signed integers and floats of a width are read and written as the unsigned one is.
pub mod Ser
pub mod De
mod Tests
use aimdb.Prelude.{ℕ, zero, suc, ◌+◌, ◌*◌, ◌/◌, ◌%◌, ◌-◌, List, [], ◌∷◌, ◌++◌, Bool, Option, Str}

pub data Width : Type 0 where
  one two four eight : Width

abbrev pub size_of : Width → ℕ
size_of one = 1
size_of two = 2
size_of four = 4
size_of eight = 8

-- The kinds with no CDR mapping.
pub data Unsupported : Type 0 where
  char option enum map display : Unsupported

mutual
  pub data Value : Type 0 where
    bool : Bool → Value
    number : Width → ℕ → Value
    text : Str → Value
    byte_string : Str → Value
    unit : Value
    newtype : Value → Value
    seq : Option ℕ → Values → Value
    tuple : Values → Value
    unmapped : Unsupported → Value

  pub data Values : Type 0 where
    end : Values
    element : Value → Values → Values

pub data Error : Type 0 where
  buffer_too_small unexpected_eof invalid_utf8 missing_nul length_overflow unknown_length : Error
  invalid_header : ℕ → ℕ → Error
  invalid_bool : ℕ → Error
  unsupported : Unsupported → Error

pub data Result (A : Type 0) : Type 0 where
  ok : A → Result A
  err : Error → Result A

-- The `?` operator.
abbrev pub and_then : {A B : Type 0} → Result A → (A → Result B) → Result B
and_then (ok a) f = f a
and_then (err e) f = err e

abbrev pub header_le : Str
header_le = 0x00 ∷ 0x01 ∷ 0x00 ∷ 0x00 ∷ []

abbrev pub header_len : ℕ
header_len = 4

abbrev pub padding : ℕ → ℕ → ℕ
padding pos alignment = (alignment - pos % alignment) % alignment

abbrev pub zeros : ℕ → Str
zeros zero = []
zeros (suc n) = 0 ∷ zeros n

-- `to_le_bytes` of `n` bytes.
abbrev pub to_le_bytes : ℕ → ℕ → Str
to_le_bytes zero v = []
to_le_bytes (suc n) v = v % 256 ∷ to_le_bytes n (v / 256)
