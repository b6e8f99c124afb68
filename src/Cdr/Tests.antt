-- ===== src/Cdr/Tests.antt =====
-- Examples for the codec: a struct of a flag, a name and a sequence of 16-bit numbers.
use aimdb.Prelude.{
  ◌≡◌, refl, [], ◌∷◌, ◌++◌, true, false, some, length, leb, if◌then◌else◌, arith, Str,
}
use aimdb.Cdr.{two, Value, bool, number, text, seq, tuple, end, element, ok, err, buffer_too_small}
use aimdb.Cdr.Ser.{to_vec, to_slice}
use aimdb.Cdr.Ser.Wire.{wire, IsEncodable, to_slice-to_vec}
use aimdb.Cdr.De.{
  Shape, bool_shape, number_shape, text_shape, seq_shape, tuple_shape, no_shape, shape,
  Deserializer, take_bytes, align, primitive, is_utf8, after_lead, count_of, deserialize,
  from_bytes, remaining,
}
use aimdb.Cdr.De.Reading.{from_bytes-to_vec}
use aimdb.Cdr.De.Shaped.{
  HasShape, is_bool, is_number, is_text, is_seq, is_tuple, no_more, one_more, no_field, field,
}
use aimdb.Cdr.De.Bounds.{Advances, deserialize-IsInside}

abbrev sample : Value
sample = tuple (
    element (bool true) (
      element (text (b'o' ∷ b'k' ∷ []))
        (element (seq (some 2) (element (number two 258) (element (number two 7) end))) end)))

abbrev sample_shape : Shape
sample_shape =
    tuple_shape
      (shape bool_shape (shape text_shape (shape (seq_shape (number_shape two)) no_shape)))

-- Padding stands before the length of the text and before that of the sequence.
abbrev sample_bytes : Str
sample_bytes =
    1 ∷ 0 ∷ 0 ∷ 0 ∷ 3 ∷ 0 ∷ 0 ∷ 0 ∷ b'o' ∷ b'k' ∷ 0 ∷ 0 ∷ 2 ∷ 0 ∷ 0 ∷ 0 ∷ 2 ∷ 1 ∷ 7 ∷ 0 ∷ []

sample-wire : wire sample 0 ≡ sample_bytes
unfolding wire
sample-wire = refl

sample-HasShape : HasShape sample_shape sample
unfolding is_utf8 count_of after_lead
sample-HasShape = is_tuple (
    field is_bool (
      field (is_text refl) (
        field
          (is_seq tt
            (one_more (is_number (omega arith)) (one_more (is_number (omega arith)) no_more)))
          no_field)))

abbrev sample_fits : IsEncodable sample
sample_fits = (tt, (omega arith, ((omega arith, (tt, (tt, tt))), tt)))

from_bytes-to_vec_example :
    (bytes : Str) × (to_vec sample ≡ ok bytes)
    × ((rest : Str) → from_bytes sample_shape (bytes ++ rest) ≡ ok sample)
from_bytes-to_vec_example = from_bytes-to_vec sample-HasShape sample_fits

to_slice-to_vec_example :
    (out : Str) × (to_vec sample ≡ ok out)
    × (to_slice sample 20
        ≡ (if leb (length out) 20 then ok (length out, out) else err buffer_too_small))
to_slice-to_vec_example = to_slice-to_vec sample 20 sample_fits

-- Three bytes are left behind the value.
abbrev longer : Deserializer
longer = record { input = sample_bytes ++ (9 ∷ 9 ∷ 9 ∷ []); pos = 0; big_endian = false }

-- The value is read, up to byte 20 of 23.
deserialize-IsInside_example : Advances longer (ok (sample, record longer { pos = 20 }))
unfolding deserialize take_bytes align primitive is_utf8 remaining after_lead
deserialize-IsInside_example = deserialize-IsInside sample_shape longer (omega arith)
