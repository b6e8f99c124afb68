-- ===== src/Cdr/De/Shaped.antt =====
-- Which values have a shape, and that their encodings are as long as de.rs expects of them.
use aimdb.Prelude.{
  ℕ, ◌+◌, ◌^◌, ◌≤◌, ◌<◌, ◌≡◌, ◌⊎◌, inl, inr, [], ◌∷◌, ◌++◌, Bool, true, some, length, length-append,
  arith, Str,
}
use aimdb.Cdr.{
  Width, four, one, two, eight, size_of, Value, bool, number, text, byte_string, unit, newtype, seq,
  tuple, Values, end, element, zeros, padding, to_le_bytes,
}
use aimdb.Cdr.Ser.Wire.{length_bytes, wire, wire_elements}
use aimdb.Cdr.De.{
  Shape, bool_shape, number_shape, text_shape, bytes_shape, unit_shape, newtype_shape, seq_shape,
  tuple_shape, unmapped_shape, Shapes, no_shape, shape, is_utf8, count_of,
}
use aimdb.Cdr.De.RoundTrip.{length-to_le_bytes}

-- Every value of the shape takes at least a byte.
abbrev mutual
  pub TakesBytes : Shape → Type 0
  TakesBytes unit_shape = ⊥
  TakesBytes (newtype_shape sh) = TakesBytes sh
  TakesBytes (tuple_shape shs) = AnyTakesBytes shs
  TakesBytes (unmapped_shape kind) = ⊥
  TakesBytes _ = Unit {0}

  pub AnyTakesBytes : Shapes → Type 0
  AnyTakesBytes no_shape = ⊥
  AnyTakesBytes (shape sh shs) = TakesBytes sh ⊎ AnyTakesBytes shs

mutual
  pub data HasShape : Shape → Value → Type 0 where
    is_bool : {b : Bool} → HasShape bool_shape (bool b)
    is_number : {w : Width} {v : ℕ} → v < 256 ^ size_of w → HasShape (number_shape w) (number w v)
    is_text : {v : Str} → is_utf8 [] v ≡ true → HasShape text_shape (text v)
    is_byte_string : {v : Str} → HasShape bytes_shape (byte_string v)
    is_unit : HasShape unit_shape unit
    is_newtype : {sh : Shape} {v : Value} → HasShape sh v → HasShape (newtype_shape sh) (newtype v)
    is_seq :
        {sh : Shape} {vs : Values}
        → TakesBytes sh
        → HaveShape sh vs
        → HasShape (seq_shape sh) (seq (some (count_of vs)) vs)
    is_tuple :
        {shs : Shapes} {vs : Values} → HaveShapes shs vs → HasShape (tuple_shape shs) (tuple vs)

  -- The elements of a sequence, all of one shape.
  pub data HaveShape : Shape → Values → Type 0 where
    no_more : {sh : Shape} → HaveShape sh end
    one_more :
        {sh : Shape} {v : Value} {vs : Values}
        → HasShape sh v
        → HaveShape sh vs
        → HaveShape sh (element v vs)

  -- The fields of a tuple or struct.
  pub data HaveShapes : Shapes → Values → Type 0 where
    no_field : HaveShapes no_shape end
    field :
        {sh : Shape} {shs : Shapes} {v : Value} {vs : Values}
        → HasShape sh v
        → HaveShapes shs vs
        → HaveShapes (shape sh shs) (element v vs)

pub size_of-pos : (w : Width) → 0 < size_of w
size_of-pos one = omega arith
size_of-pos two = omega arith
size_of-pos four = omega arith
size_of-pos eight = omega arith

pub length-length_bytes : (pos n : ℕ) → 4 ≤ length (length_bytes pos n)
length-length_bytes pos n =
    omega (arith, length-append (zeros (padding pos 4)) (to_le_bytes 4 n), length-to_le_bytes 4 n)

mutual
  unfolding wire

  wire-TakesBytes :
      {sh : Shape} {v : Value} (pos : ℕ) → HasShape sh v → TakesBytes sh → 0 < length (wire v pos)
  wire-TakesBytes pos (is_bool) t = omega arith
  wire-TakesBytes pos (is_number {w} {v} h) t = omega (
    arith,
    length-append (zeros (padding pos (size_of w))) (to_le_bytes (size_of w) v),
    length-to_le_bytes (size_of w) v,
    size_of-pos w,
  )
  wire-TakesBytes pos (is_text {v} u) t = omega (
    arith,
    length-append (length_bytes pos (length v + 1)) (v ++ (0 ∷ [])),
    length-length_bytes pos (length v + 1),
  )
  wire-TakesBytes pos (is_byte_string {v}) t =
      omega
        (arith, length-append (length_bytes pos (length v)) v, length-length_bytes pos (length v))
  wire-TakesBytes pos (is_unit) t = absurd t
  wire-TakesBytes pos (is_newtype h) t = wire-TakesBytes pos h t
  wire-TakesBytes pos (is_seq {sh} {vs} ts hs) t =
      let head = length_bytes pos (count_of vs) in
      omega (
        arith,
        length-append head (wire_elements vs (pos + length head)),
        length-length_bytes pos (count_of vs),
      )
  wire-TakesBytes pos (is_tuple hs) t = wire_elements-AnyTakesBytes pos hs t

  wire_elements-AnyTakesBytes :
      {shs : Shapes} {vs : Values} (pos : ℕ)
      → HaveShapes shs vs
      → AnyTakesBytes shs
      → 0 < length (wire_elements vs pos)
  wire_elements-AnyTakesBytes pos no_field t = absurd t
  wire_elements-AnyTakesBytes pos (field {sh} {shs} {v} {vs} h hs) t =
      let whole = length-append (wire v pos) (wire_elements vs (pos + length (wire v pos))) in
      elim t [
        | inl first ↦ omega (arith, whole, wire-TakesBytes pos h first)
        | inr later ↦
            omega (arith, whole, wire_elements-AnyTakesBytes (pos + length (wire v pos)) hs later)
      ]

pub count_of-wire :
    {sh : Shape} {vs : Values} (pos : ℕ)
    → TakesBytes sh
    → HaveShape sh vs
    → count_of vs ≤ length (wire_elements vs pos)
unfolding count_of wire
count_of-wire pos t no_more = omega arith
count_of-wire pos t (one_more {v = v} {vs = vs} h hs) = omega (
  arith,
  wire-TakesBytes pos h t,
  count_of-wire (pos + length (wire v pos)) t hs,
  length-append (wire v pos) (wire_elements vs (pos + length (wire v pos))),
)
