-- ===== src/Cdr/Ser/Wire.antt =====
-- What the serializer writes, as one function of the value and the position.
use aimdb.Prelude.{
  ℕ, ◌+◌, ◌^◌, ◌-◌, ◌≤◌, ◌<◌, ◌≡◌, refl, ap, ◌∙◌, [], ◌∷◌, ◌++◌, append_assoc, append-nil, true,
  false, Option, none, some, length, length-append, ltb, leb, if◌then◌else◌, arith, Bool-cases, inl,
  inr, Str,
}
use aimdb.Cdr.{
  size_of, Value, bool, number, text, byte_string, unit, newtype, seq, tuple, unmapped, Values, end,
  element, buffer_too_small, Result, ok, err, and_then, header_le, header_len, padding, zeros,
  to_le_bytes,
}
use aimdb.Cdr.Ser.{
  Serializer, has_room, write, align, primitive, write_length, bool_byte, seq_length, serialize,
  serialize_elements, to_vec, to_slice,
}

abbrev pub aligned : ℕ → ℕ → Str → Str
aligned pos n bytes = zeros (padding pos n) ++ bytes

abbrev pub length_bytes : ℕ → ℕ → Str
length_bytes pos len = aligned pos 4 (to_le_bytes 4 len)

-- The head of a sequence, and what follows it.
abbrev pub behind : Str → ℕ → (ℕ → Str) → Str
behind head pos rest = head ++ rest (pos + length head)

unfoldable mutual
  pub wire : Value → ℕ → Str
  wire (bool b) pos = bool_byte b ∷ []
  wire (number w v) pos = aligned pos (size_of w) (to_le_bytes (size_of w) v)
  wire (text v) pos = length_bytes pos (length v + 1) ++ (v ++ (0 ∷ []))
  wire (byte_string v) pos = length_bytes pos (length v) ++ v
  wire unit pos = []
  wire (newtype v) pos = wire v pos
  wire (seq none vs) pos = []
  wire (seq (some len) vs) pos = behind (length_bytes pos len) pos (λ p. wire_elements vs p)
  wire (tuple vs) pos = wire_elements vs pos
  wire (unmapped kind) pos = []

  pub wire_elements : Values → ℕ → Str
  wire_elements end pos = []
  wire_elements (element v vs) pos = behind (wire v pos) pos (λ p. wire_elements vs p)

-- Every kind has a mapping and every length is known and fits a `u32`.
abbrev mutual
  pub IsEncodable : Value → Type 0
  IsEncodable (text v) = length v + 1 < 2 ^ 32
  IsEncodable (byte_string v) = length v < 2 ^ 32
  IsEncodable (newtype v) = IsEncodable v
  IsEncodable (seq none vs) = ⊥
  IsEncodable (seq (some len) vs) = (len < 2 ^ 32) × AreEncodable vs
  IsEncodable (tuple vs) = AreEncodable vs
  IsEncodable (unmapped kind) = ⊥
  IsEncodable _ = Unit {0}

  pub AreEncodable : Values → Type 0
  AreEncodable end = Unit {0}
  AreEncodable (element v vs) = IsEncodable v × AreEncodable vs

has_room_le :
    (limit : Option ℕ) (m n : ℕ) → m ≤ n → has_room limit m ≡ false → has_room limit n ≡ false
unfolding has_room
has_room_le none m n l h = h
has_room_le (some k) m n l h = ground arith

add_assoc : (m n k : ℕ) → m + n + k ≡ m + (n + k)
add_assoc m n k = omega arith

add_zero : (m : ℕ) → m + 0 ≡ m
add_zero m = omega arith

-- What is written so far has room.
abbrev pub IsWithin : Serializer → Type 0
IsWithin s = has_room s.limit (length s.out) ≡ true

-- Writing twice is writing once.
write_then :
    (s : Serializer) (a b : Str) (f : Serializer → Result Serializer)
    → ((t : Serializer) → IsWithin t → t.pos ≡ s.pos + length a → f t ≡ write t b)
    → and_then (write s a) f ≡ write s (a ++ b)
unfolding write
write_then s a b f h = elim (Bool-cases (has_room s.limit (length s.out + length a))) [
  | inl room ↦ rw room (
      h (record s { out = s.out ++ a; pos = s.pos + length a }) (rw (length-append s.out a) room)
        refl
      ∙ rw (append_assoc s.out a b, length-append s.out a, length-append a b)
          (rw
            (add_assoc (length s.out) (length a) (length b), add_assoc s.pos (length a) (length b))
            refl))
  | inr full ↦
      rw
        (
          full,
          has_room_le s.limit (length s.out + length a) (length s.out + length (a ++ b))
              (omega (arith, length-append a b)) full,
        )
        refl
]

write_nil : (s : Serializer) → IsWithin s → ok s ≡ write s []
unfolding write
write_nil s room = rw (append-nil s.out, add_zero (length s.out), add_zero s.pos) (rw room refl)

primitive-write :
    (s : Serializer) (n : ℕ) (bytes : Str) → primitive s n bytes ≡ write s (aligned s.pos n bytes)
unfolding primitive align
primitive-write s n bytes =
    write_then s (zeros (padding s.pos n)) bytes (λ t. write t bytes) (λ t w q. refl)

write_length-write :
    (s : Serializer) (len : ℕ)
    → len < 2 ^ 32
    → write_length s len ≡ write s (length_bytes s.pos len)
unfolding write_length
write_length-write s len h =
    let small : ltb (2 ^ 32 - 1) len ≡ false = ground arith in
    rw small (primitive-write s 4 (to_le_bytes 4 len))

mutual
  unfolding serialize wire seq_length

  -- The serializer writes `wire` of the value at its position, all of it or, where that has no room,
  -- reports so.
  pub serialize-wire :
      (v : Value) (s : Serializer)
      → IsEncodable v
      → IsWithin s
      → serialize v s ≡ write s (wire v s.pos)
  serialize-wire (bool b) s ok_v w = refl
  serialize-wire (number n v) s ok_v w = primitive-write s (size_of n) (to_le_bytes (size_of n) v)
  serialize-wire (text v) s ok_v w =
      ap (λ r. and_then r (λ t. and_then (write t v) (λ u. write u (0 ∷ []))))
        (write_length-write s (length v + 1) ok_v)
      ∙ write_then s (length_bytes s.pos (length v + 1)) (v ++ (0 ∷ [])) _
          (λ t w' q. write_then t v (0 ∷ []) (λ u. write u (0 ∷ [])) (λ u w'' q'. refl))
  serialize-wire (byte_string v) s ok_v w =
      ap (λ r. and_then r (λ t. write t v)) (write_length-write s (length v) ok_v)
      ∙ write_then s (length_bytes s.pos (length v)) v (λ t. write t v) (λ t w' q. refl)
  serialize-wire unit s ok_v w = write_nil s w
  serialize-wire (newtype v) s ok_v w = serialize-wire v s ok_v w
  serialize-wire (seq none vs) s ok_v w = absurd ok_v
  serialize-wire (seq (some len) vs) s ok_v w =
      ap (λ r. and_then r (serialize_elements vs)) (write_length-write s len ok_v.0)
      ∙ write_then s (length_bytes s.pos len) _ (serialize_elements vs) (λ t w' q.
        serialize_elements-wire vs t ok_v.1 w' ∙ ap (λ p. write t (wire_elements vs p)) q)
  serialize-wire (tuple vs) s ok_v w = serialize_elements-wire vs s ok_v w
  serialize-wire (unmapped kind) s ok_v w = absurd ok_v

  serialize_elements-wire :
      (vs : Values) (s : Serializer)
      → AreEncodable vs
      → IsWithin s
      → serialize_elements vs s ≡ write s (wire_elements vs s.pos)
  serialize_elements-wire end s ok_vs w = write_nil s w
  serialize_elements-wire (element v vs) s ok_vs w =
      ap (λ r. and_then r (serialize_elements vs)) (serialize-wire v s ok_vs.0 w)
      ∙ write_then s (wire v s.pos) _ (serialize_elements vs) (λ t w' q.
        serialize_elements-wire vs t ok_vs.1 w' ∙ ap (λ p. write t (wire_elements vs p)) q)

-- A value with a mapping is written to a vector whole, behind the header.
pub to_vec-wire : (v : Value) → IsEncodable v → to_vec v ≡ ok (header_le ++ wire v 0)
unfolding to_vec write has_room
to_vec-wire v ok_v =
    ap (λ r. and_then r (λ s. ok s.out))
      (serialize-wire v (record { out = header_le; pos = 0; limit = none }) ok_v refl)

-- Into a slice of `n` bytes goes what goes into a vector, if `n` is enough for all of it; else the
-- slice is reported too small.
to_slice-wire :
    (v : Value) (n : ℕ)
    → IsEncodable v
    → to_slice v n ≡ (
        if leb (header_len + length (wire v 0)) n
        then ok (header_len + length (wire v 0), header_le ++ wire v 0)
        else err buffer_too_small)
unfolding to_slice write has_room
to_slice-wire v n ok_v = elim (Bool-cases (ltb n header_len)) [
  | inl short ↦ rw short (ground arith)
  | inr long ↦
      let s : Serializer = record { out = []; pos = 0; limit = some (n - header_len) } in
      rw long (
        ap (λ r. and_then r (λ s. ok (header_len + s.pos, header_le ++ s.out)))
          (serialize-wire v s ok_v (ground arith))
        ∙ ground arith)
]

length-header_le : (bytes : Str) → length (header_le ++ bytes) ≡ header_len + length bytes
length-header_le bytes = length-append header_le bytes

-- A value whose kinds have mappings and whose lengths are known and fit a u32 is written to a vector, and
-- to_slice puts the same bytes into a slice and returns their number, if the slice holds all of them; else
-- it reports the slice too small.
pub to_slice-to_vec :
    (v : Value) (n : ℕ)
    → IsEncodable v
    → (out : Str) × (to_vec v ≡ ok out)
      × (to_slice v n ≡ (if leb (length out) n then ok (length out, out) else err buffer_too_small))
to_slice-to_vec v n ok_v = (
  header_le ++ wire v 0,
  to_vec-wire v ok_v,
  rw (length-header_le (wire v 0)) (to_slice-wire v n ok_v),
)
