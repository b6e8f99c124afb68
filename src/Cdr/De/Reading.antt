-- ===== src/Cdr/De/Reading.antt =====
-- A value that `to_vec` wrote is what `from_bytes` reads, for the shape that the value has.
use aimdb.Prelude.{
  ℕ, suc, ◌+◌, ◌^◌, ◌-◌, ◌≤◌, ◌<◌, ◌≡◌, refl, sym, ap, ◌∙◌, [], ◌∷◌, ◌++◌, append_assoc, Bool, true,
  false, some, length, length-append, take, drop, ltb, if◌then◌else◌, arith, Str,
}
use aimdb.Cdr.{
  four, Value, bool, number, text, byte_string, unit, newtype, seq, tuple, Values, end, element,
  unexpected_eof, Result, ok, err, and_then, header_le,
}
use aimdb.Cdr.Ser.{bool_byte, to_vec}
use aimdb.Cdr.Ser.Wire.{length_bytes, wire, wire_elements, IsEncodable, AreEncodable, to_vec-wire}
use aimdb.Cdr.De.{
  Shape, Shapes, Deserializer, remaining, take_bytes, from_le_bytes, read_length, is_utf8,
  check_text, checked_split, checked_text, text_of_length, read_text, bool_of_byte, count_of,
  elements, deserialize, deserialize_all, value_of, from_bytes,
}
use aimdb.Cdr.De.RoundTrip.{
  At, advanced, advanced-At, advanced-append, take_bytes-append, take-length-append,
  drop-length-append, read_number-bytes,
}
use aimdb.Cdr.De.Shaped.{
  HasShape, is_bool, is_number, is_text, is_byte_string, is_unit, is_newtype, is_seq, is_tuple,
  HaveShape, no_more, one_more, HaveShapes, no_field, field, count_of-wire,
}

read_length-bytes :
    (d : Deserializer) (len : ℕ) (rest : Str)
    → len < 2 ^ 32
    → len ≤ length rest
    → At d (length_bytes d.pos len ++ rest)
    → read_length d ≡ ok (len, advanced d (length_bytes d.pos len))
unfolding read_length remaining
read_length-bytes d len rest small fits at =
    let head = length_bytes d.pos len in
    let enough : ltb (length d.input - (d.pos + length head)) len ≡ false =
      ground
        (arith, ap length at.1, at.2, length-append at.0 (head ++ rest), length-append head rest) in
    ap
      (λ r.
        and_then {B = ℕ × Deserializer} r
          (λ (len, e). if ltb (remaining e) len then err unexpected_eof else ok (len, e)))
      (read_number-bytes d four len rest (omega arith) at)
    ∙ rw enough refl

checked_text-append :
    (d : Deserializer) (v : Str)
    → is_utf8 [] v ≡ true
    → checked_text (suc (length v)) (v ++ (0 ∷ [])) d ≡ ok (v, d)
unfolding checked_text checked_split check_text
checked_text-append d v u =
    let k : suc (length v) - 1 ≡ length v = omega arith in
    let last : drop (suc (length v) - 1) (v ++ (0 ∷ [])) ≡ 0 ∷ [] =
      ap (λ n. drop n (v ++ (0 ∷ []))) k ∙ drop-length-append v (0 ∷ []) in
    let all : take (suc (length v) - 1) (v ++ (0 ∷ [])) ≡ v =
      ap (λ n. take n (v ++ (0 ∷ []))) k ∙ take-length-append v (0 ∷ []) in
    rw (last, all) (rw u refl)

text_of_length-bytes :
    (d : Deserializer) (v rest : Str)
    → is_utf8 [] v ≡ true
    → At d ((v ++ (0 ∷ [])) ++ rest)
    → text_of_length (suc (length v)) d ≡ ok (v, advanced d (v ++ (0 ∷ [])))
unfolding text_of_length checked_text check_text
text_of_length-bytes d v rest u at =
    ap
      (λ r.
        and_then {B = Str × Deserializer} r (λ (bytes, e). checked_text (suc (length v)) bytes e))
      (take_bytes-append d (suc (length v)) (v ++ (0 ∷ [])) rest at
        (omega (arith, length-append v (0 ∷ []))))
    ∙ checked_text-append (advanced d (v ++ (0 ∷ []))) v u

-- The bytes of two parts, regrouped.
regrouped : (d : Deserializer) (a b rest : Str) → At d ((a ++ b) ++ rest) → At d (a ++ (b ++ rest))
regrouped d a b rest at = (at.0, at.1 ∙ ap (λ s. at.0 ++ s) (append_assoc a b rest), at.2, at.3)

read_text-bytes :
    (d : Deserializer) (v rest : Str)
    → length v + 1 < 2 ^ 32
    → is_utf8 [] v ≡ true
    → At d ((length_bytes d.pos (length v + 1) ++ (v ++ (0 ∷ []))) ++ rest)
    → read_text d ≡ ok (v, advanced d (length_bytes d.pos (length v + 1) ++ (v ++ (0 ∷ []))))
unfolding read_text
read_text-bytes d v rest small u at =
    let head = length_bytes d.pos (length v + 1) in
    let body = v ++ (0 ∷ []) in
    let at' = regrouped d head body rest at in
    let one_more_byte : length v + 1 ≡ suc (length v) = omega arith in
    ap (λ r. and_then {B = Str × Deserializer} r (λ (len, e). text_of_length len e))
      (read_length-bytes d (length v + 1) (body ++ rest) small
        (omega (arith, length-append body rest, length-append v (0 ∷ []))) at')
    ∙ ap (λ n. text_of_length n (advanced d head)) one_more_byte
    ∙ text_of_length-bytes (advanced d head) v rest u (advanced-At d head (body ++ rest) at')
    ∙ ap (λ e. ok (v, e)) (advanced-append d head body)

advanced-nil : (d : Deserializer) → advanced d [] ≡ d
advanced-nil d = ap (λ n. record d { pos = n }) add_zero
  where
    add_zero : d.pos + 0 ≡ d.pos
    add_zero = omega arith

bool_of_byte-bool_byte :
    (b : Bool) (e : Deserializer)
    → and_then {B = Value × Deserializer}
        (bool_of_byte (from_le_bytes (bool_byte b ∷ [])))
        (λ v. ok (v, e))
      ≡ ok (bool b, e)
unfolding bool_of_byte
bool_of_byte-bool_byte true e = refl
bool_of_byte-bool_byte false e = refl

-- One element, and those behind it.
element_step :
    (r : Result (Value × Deserializer)) (more : Deserializer → Result (Values × Deserializer))
    (d : Deserializer) (a b : Str) (v : Value) (vs : Values)
    → r ≡ ok (v, advanced d a)
    → more (advanced d a) ≡ ok (vs, advanced (advanced d a) b)
    → and_then {B = Values × Deserializer} r
        (λ (v, e). and_then {B = Values × Deserializer} (more e) (λ (vs, f). ok (element v vs, f)))
      ≡ ok (element v vs, advanced d (a ++ b))
element_step r more d a b v vs first rest =
    ap
      (λ r.
        and_then {B = Values × Deserializer} r (λ (v, e).
          and_then {B = Values × Deserializer} (more e) (λ (vs, f). ok (element v vs, f))))
      first
    ∙ ap (λ r. and_then {B = Values × Deserializer} r (λ (vs, f). ok (element v vs, f))) rest
    ∙ ap (λ e. ok (element v vs, e)) (advanced-append d a b)

mutual
  unfolding deserialize elements wire count_of read_length

  deserialize-wire :
      {sh : Shape} {v : Value} (d : Deserializer) (rest : Str)
      → HasShape sh v
      → IsEncodable v
      → At d (wire v d.pos ++ rest)
      → deserialize sh d ≡ ok (v, advanced d (wire v d.pos))
  deserialize-wire d rest (is_bool {b}) enc at =
      ap
        (λ r.
          and_then {B = Value × Deserializer}
            (and_then {B = ℕ × Deserializer} r (λ (bytes, e). ok (from_le_bytes bytes, e)))
            (λ (b, e). and_then {B = Value × Deserializer} (bool_of_byte b) (λ v. ok (v, e))))
        (take_bytes-append d 1 (bool_byte b ∷ []) rest at refl)
      ∙ bool_of_byte-bool_byte b (advanced d (bool_byte b ∷ []))
  deserialize-wire d rest (is_number {w} {v} h) enc at =
      ap (λ r. and_then {B = Value × Deserializer} r (λ (v, e). ok (number w v, e)))
        (read_number-bytes d w v rest h at)
  deserialize-wire d rest (is_text {v} u) enc at =
      ap (λ r. and_then {B = Value × Deserializer} r (λ (v, e). ok (text v, e)))
        (read_text-bytes d v rest enc u at)
  deserialize-wire d rest (is_byte_string {v}) enc at =
      let head = length_bytes d.pos (length v) in
      let at' = regrouped d head v rest at in
      ap
        (λ r. and_then {B = Value × Deserializer} r (λ (len, e).
          and_then {B = Value × Deserializer} (take_bytes e len) (λ (v, f). ok (byte_string v, f))))
        (read_length-bytes d (length v) (v ++ rest) enc (omega (arith, length-append v rest)) at')
      ∙ ap (λ r. and_then {B = Value × Deserializer} r (λ (v, f). ok (byte_string v, f)))
          (take_bytes-append (advanced d head) (length v) v rest
            (advanced-At d head (v ++ rest) at') refl)
      ∙ ap (λ e. ok (byte_string v, e)) (advanced-append d head v)
  deserialize-wire d rest is_unit enc at = ap (λ e. ok (unit, e)) (sym (advanced-nil d))
  deserialize-wire d rest (is_newtype h) enc at =
      ap (λ r. and_then {B = Value × Deserializer} r (λ (v, e). ok (newtype v, e)))
        (deserialize-wire d rest h enc at)
  deserialize-wire d rest (is_seq {sh} {vs} t hs) enc at =
      let head = length_bytes d.pos (count_of vs) in
      let body = wire_elements vs (d.pos + length head) in
      let at' = regrouped d head body rest at in
      ap
        (λ r. and_then {B = Value × Deserializer} r (λ (len, e).
          and_then {B = Value × Deserializer} (elements len (deserialize sh) e)
            (λ (vs, f). ok (seq (some len) vs, f))))
        (read_length-bytes d (count_of vs) (body ++ rest) enc.0
          (omega (arith, length-append body rest, count_of-wire (d.pos + length head) t hs)) at')
      ∙ ap
          (λ r.
            and_then {B = Value × Deserializer} r
              (λ (vs', f). ok (seq (some (count_of vs)) vs', f)))
          (elements-wire (advanced d head) rest hs enc.1 (advanced-At d head (body ++ rest) at'))
      ∙ ap (λ e. ok (seq (some (count_of vs)) vs, e)) (advanced-append d head body)
  deserialize-wire d rest (is_tuple {shs} {vs} hs) enc at =
      ap (λ r. and_then {B = Value × Deserializer} r (λ (vs, e). ok (tuple vs, e)))
        (deserialize_all-wire d rest hs enc at)

  elements-wire :
      {sh : Shape} {vs : Values} (d : Deserializer) (rest : Str)
      → HaveShape sh vs
      → AreEncodable vs
      → At d (wire_elements vs d.pos ++ rest)
      → elements (count_of vs) (deserialize sh) d ≡ ok (vs, advanced d (wire_elements vs d.pos))
  elements-wire d rest no_more enc at = ap (λ e. ok (end, e)) (sym (advanced-nil d))
  elements-wire d rest (one_more {sh} {v} {vs} h hs) enc at =
      let a = wire v d.pos in
      let b = wire_elements vs (d.pos + length a) in
      let at' = regrouped d a b rest at in
      element_step (deserialize sh d) (elements (count_of vs) (deserialize sh)) d a b v vs
        (deserialize-wire d (b ++ rest) h enc.0 at')
        (elements-wire (advanced d a) rest hs enc.1 (advanced-At d a (b ++ rest) at'))

  deserialize_all-wire :
      {shs : Shapes} {vs : Values} (d : Deserializer) (rest : Str)
      → HaveShapes shs vs
      → AreEncodable vs
      → At d (wire_elements vs d.pos ++ rest)
      → deserialize_all shs d ≡ ok (vs, advanced d (wire_elements vs d.pos))
  deserialize_all-wire d rest no_field enc at = ap (λ e. ok (end, e)) (sym (advanced-nil d))
  deserialize_all-wire d rest (field {sh} {shs} {v} {vs} h hs) enc at =
      let a = wire v d.pos in
      let b = wire_elements vs (d.pos + length a) in
      let at' = regrouped d a b rest at in
      element_step (deserialize sh d) (deserialize_all shs) d a b v vs
        (deserialize-wire d (b ++ rest) h enc.0 at')
        (deserialize_all-wire (advanced d a) rest hs enc.1 (advanced-At d a (b ++ rest) at'))

-- A value with a mapping, of the shape asked for, whose sequences hold elements of at least a byte, is
-- written by `to_vec` and read back whole by `from_bytes`, whatever bytes follow.
pub from_bytes-to_vec :
    {sh : Shape} {v : Value}
    → HasShape sh v
    → IsEncodable v
    → (bytes : Str) × (to_vec v ≡ ok bytes) × ((rest : Str) → from_bytes sh (bytes ++ rest) ≡ ok v)
unfolding from_bytes value_of
from_bytes-to_vec {sh} {v} h enc = (
  header_le ++ wire v 0,
  to_vec-wire v enc,
  λ rest.
      ap (λ r. and_then {B = Value} r (λ (v, d). ok v))
        (deserialize-wire (record { input = wire v 0 ++ rest; pos = 0; big_endian = false }) rest h
          enc ([], refl, refl, refl)),
)
