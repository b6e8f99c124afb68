-- ===== src/Cdr/De/Bounds.antt =====
-- The deserializer stays within its input, on every input and for every shape.
use aimdb.Prelude.{
  ℕ, zero, suc, ◌+◌, ◌-◌, ◌≤◌, ◌≡◌, refl, ◌∙◌, [], ◌∷◌, length, take, drop, ltb, arith, Bool-cases,
  inl, inr, Str,
}
use aimdb.Cdr.{Width, one, two, four, eight, Value, Result, ok, err, and_then, padding}
use aimdb.Cdr.De.{
  Shape, bool_shape, number_shape, text_shape, bytes_shape, unit_shape, newtype_shape, seq_shape,
  tuple_shape, unmapped_shape, Shapes, no_shape, shape, Deserializer, remaining, take_bytes, align,
  primitive, read_number, read_length, is_utf8, check_text, checked_split, checked_text,
  text_of_length, read_text, bool_of_byte, elements, deserialize, deserialize_all,
}

abbrev pub IsInside : Deserializer → Type 0
IsInside d = d.pos ≤ length d.input

-- The same input, the position moved forward and still inside; an error says nothing.
abbrev pub Advances : {A : Type 0} → Deserializer → Result (A × Deserializer) → Type 0
Advances d (ok (a, e)) = (e.input ≡ d.input) × (d.pos ≤ e.pos) × IsInside e
Advances d (err error) = Unit {0}

Advances-from :
    {A : Type 0} (d e : Deserializer) (r : Result (A × Deserializer))
    → e.input ≡ d.input
    → d.pos ≤ e.pos
    → Advances e r
    → Advances d r
Advances-from d e (err error) same on h = tt
Advances-from d e (ok (a, e')) same on (same', on', inside') = (same' ∙ same, omega arith, inside')

Advances-then :
    {A B : Type 0} (d : Deserializer) (r : Result (A × Deserializer))
    (f : A × Deserializer → Result (B × Deserializer))
    → Advances d r
    → ((a : A) (e : Deserializer) → IsInside e → Advances e (f (a, e)))
    → Advances d (and_then r f)
Advances-then d (err error) f h k = tt
Advances-then d (ok (a, e)) f (same, on, inside) k =
    Advances-from d e (f (a, e)) same on (k a e inside)

take_bytes-Advances : (d : Deserializer) (n : ℕ) → IsInside d → Advances d (take_bytes d n)
unfolding take_bytes
take_bytes-Advances d n inside = elim (Bool-cases (ltb (length d.input) (d.pos + n))) [
  | inl beyond ↦ rw beyond tt
  | inr within ↦ rw within (refl, omega arith, ground arith)
]

primitive-Advances : (d : Deserializer) (n : ℕ) → IsInside d → Advances d (primitive d n)
unfolding primitive align take_bytes
primitive-Advances d n inside = elim (Bool-cases (ltb (length d.input) (d.pos + padding d.pos n))) [
  | inl beyond ↦ rw beyond tt
  | inr within ↦
      rw within
        let e : Deserializer = record d { pos = d.pos + padding d.pos n } in
          Advances-from d e (take_bytes e n) refl (omega arith)
            (take_bytes-Advances e n (ground arith))
]

read_number-Advances : (d : Deserializer) (w : Width) → IsInside d → Advances d (read_number d w)
unfolding read_number
read_number-Advances d one inside =
    Advances-then d _ _ (take_bytes-Advances d 1 inside) (λ a e i. (refl, omega arith, i))
read_number-Advances d two inside =
    Advances-then d _ _ (primitive-Advances d 2 inside) (λ a e i. (refl, omega arith, i))
read_number-Advances d four inside =
    Advances-then d _ _ (primitive-Advances d 4 inside) (λ a e i. (refl, omega arith, i))
read_number-Advances d eight inside =
    Advances-then d _ _ (primitive-Advances d 8 inside) (λ a e i. (refl, omega arith, i))

read_length-Advances : (d : Deserializer) → IsInside d → Advances d (read_length d)
unfolding read_length
read_length-Advances d inside = Advances-then d _ _ (read_number-Advances d four inside) (λ len e i.
    elim (Bool-cases (ltb (remaining e) len)) [
      | inl more ↦ rw more tt
      | inr fits ↦ rw fits (refl, omega arith, i)
    ])

check_text-Advances : (v : Str) (d : Deserializer) → IsInside d → Advances d (check_text v d)
unfolding check_text
check_text-Advances v d i = elim (Bool-cases (is_utf8 [] v)) [
  | inl good ↦ rw good (refl, omega arith, i)
  | inr bad ↦ rw bad tt
]

checked_split-Advances :
    (v nul : Str) (d : Deserializer) → IsInside d → Advances d (checked_split v nul d)
unfolding checked_split
checked_split-Advances v [] d i = tt
checked_split-Advances v (suc n ∷ s) d i = tt
checked_split-Advances v (zero ∷ []) d i = check_text-Advances v d i
checked_split-Advances v (zero ∷ b ∷ s) d i = tt

checked_text-Advances :
    (n : ℕ) (bytes : Str) (d : Deserializer) → IsInside d → Advances d (checked_text n bytes d)
unfolding checked_text
checked_text-Advances n bytes d i =
    checked_split-Advances (take (n - 1) bytes) (drop (n - 1) bytes) d i

text_of_length-Advances : (n : ℕ) (d : Deserializer) → IsInside d → Advances d (text_of_length n d)
unfolding text_of_length
text_of_length-Advances zero d i = (refl, omega arith, i)
text_of_length-Advances (suc n) d i =
    Advances-then d _ _ (take_bytes-Advances d (suc n) i)
      (λ bytes e i'. checked_text-Advances (suc n) bytes e i')

read_text-Advances : (d : Deserializer) → IsInside d → Advances d (read_text d)
unfolding read_text
read_text-Advances d i =
    Advances-then d _ _ (read_length-Advances d i) (λ len e i'. text_of_length-Advances len e i')

elements-Advances :
    (n : ℕ) (read : Deserializer → Result (Value × Deserializer)) (d : Deserializer)
    → ((e : Deserializer) → IsInside e → Advances e (read e))
    → IsInside d
    → Advances d (elements n read d)
unfolding elements
elements-Advances zero read d h i = (refl, omega arith, i)
elements-Advances (suc n) read d h i = Advances-then d _ _ (h d i) (λ v e i'.
    Advances-then e _ _ (elements-Advances n read e h i') (λ vs f i''. (refl, omega arith, i'')))

bool-Advances :
    (b : ℕ) (e : Deserializer)
    → IsInside e
    → Advances {A = Value} e (and_then (bool_of_byte b) (λ v. ok (v, e)))
unfolding bool_of_byte
bool-Advances zero e i = (refl, omega arith, i)
bool-Advances (suc zero) e i = (refl, omega arith, i)
bool-Advances (suc (suc n)) e i = tt

mutual
  unfolding deserialize

  deserialize-Advances :
      (sh : Shape) (d : Deserializer) → IsInside d → Advances d (deserialize sh d)
  deserialize-Advances bool_shape d i =
      Advances-then d _ _ (read_number-Advances d one i) (λ b e i'. bool-Advances b e i')
  deserialize-Advances (number_shape w) d i =
      Advances-then d _ _ (read_number-Advances d w i) (λ v e i'. (refl, omega arith, i'))
  deserialize-Advances text_shape d i =
      Advances-then d _ _ (read_text-Advances d i) (λ v e i'. (refl, omega arith, i'))
  deserialize-Advances bytes_shape d i = Advances-then d _ _ (read_length-Advances d i) (λ len e i'.
      Advances-then e _ _ (take_bytes-Advances e len i') (λ v f i''. (refl, omega arith, i'')))
  deserialize-Advances unit_shape d i = (refl, omega arith, i)
  deserialize-Advances (newtype_shape sh) d i =
      Advances-then d _ _ (deserialize-Advances sh d i) (λ v e i'. (refl, omega arith, i'))
  deserialize-Advances (seq_shape sh) d i =
      Advances-then d _ _ (read_length-Advances d i) (λ len e i'.
        Advances-then e _ _ (elements-Advances len (deserialize sh) e (deserialize-Advances sh) i')
          (λ vs f i''. (refl, omega arith, i'')))
  deserialize-Advances (tuple_shape shs) d i =
      Advances-then d _ _ (deserialize_all-Advances shs d i) (λ vs e i'. (refl, omega arith, i'))
  deserialize-Advances (unmapped_shape kind) d i = tt

  deserialize_all-Advances :
      (shs : Shapes) (d : Deserializer) → IsInside d → Advances d (deserialize_all shs d)
  deserialize_all-Advances no_shape d i = (refl, omega arith, i)
  deserialize_all-Advances (shape sh shs) d i =
      Advances-then d _ _ (deserialize-Advances sh d i) (λ v e i'.
        Advances-then e _ _ (deserialize_all-Advances shs e i')
          (λ vs f i''. (refl, omega arith, i'')))

-- On every input and for every shape, where the deserializer reads a value it has kept its input and
-- moved its position forward, and not behind the input's end.
pub deserialize-IsInside :
    (sh : Shape) (d : Deserializer) → IsInside d → Advances d (deserialize sh d)
deserialize-IsInside sh d inside = deserialize-Advances sh d inside
