-- ===== src/Cdr/De/RoundTrip.antt =====
-- What the serializer wrote, the deserializer reads back.
use aimdb.Prelude.{
  ℕ, zero, suc, ◌+◌, ◌/◌, ◌^◌, ◌<◌, ◌≡◌, refl, sym, ap, ◌∙◌, [], ◌∷◌, ◌++◌, append_assoc, false,
  length, length-append, take, drop, ltb, arith, Str,
}
use aimdb.Cdr.{Width, one, two, four, eight, size_of, ok, and_then, padding, zeros, to_le_bytes}
use aimdb.Cdr.Ser.Wire.{aligned}
use aimdb.Cdr.De.{
  Deserializer, take_bytes, align, primitive, from_le_bytes, from_bytes_as, read_number,
}

-- `rest` is still to read.
abbrev pub At : Deserializer → Str → Type 0
At d rest =
    (before : Str) × (d.input ≡ before ++ rest) × (d.pos ≡ length before) × (d.big_endian ≡ false)

abbrev pub advanced : Deserializer → Str → Deserializer
advanced d bytes = record d { pos = d.pos + length bytes }

pub take-length-append : (a b : Str) → take (length a) (a ++ b) ≡ a
take-length-append [] b = refl
take-length-append (x ∷ a) b = ap (λ r. x ∷ r) (take-length-append a b)

pub drop-length-append : (a b : Str) → drop (length a) (a ++ b) ≡ b
drop-length-append [] b = refl
drop-length-append (x ∷ a) b = drop-length-append a b

pub advanced-At : (d : Deserializer) (a b : Str) → At d (a ++ b) → At (advanced d a) b
advanced-At d a b (before, q, p, e) =
    (before ++ a, q ∙ sym (append_assoc before a b), omega (arith, p, length-append before a), e)

add_assoc : (m n k : ℕ) → m + n + k ≡ m + (n + k)
add_assoc m n k = omega arith

pub advanced-append :
    (d : Deserializer) (a b : Str) → advanced (advanced d a) b ≡ advanced d (a ++ b)
advanced-append d a b =
    ap (λ n. record d { pos = n })
      (add_assoc d.pos (length a) (length b) ∙ ap (λ n. d.pos + n) (sym (length-append a b)))

pub take_bytes-append :
    (d : Deserializer) (n : ℕ) (a b : Str)
    → At d (a ++ b)
    → n ≡ length a
    → take_bytes d n ≡ ok (a, advanced d a)
unfolding take_bytes
take_bytes-append d n a b (before, q, p, e) l =
    let fits : ltb (length d.input) (d.pos + length a) ≡ false =
      ground (arith, ap length q, length-append before (a ++ b), length-append a b, p) in
    let taken : take (length a) (drop d.pos d.input) ≡ a =
      ap (λ k. take (length a) (drop k d.input)) p
      ∙ ap (λ s. take (length a) (drop (length before) s)) q
      ∙ ap (take (length a)) (drop-length-append before (a ++ b))
      ∙ take-length-append a b in
    rw l (rw fits (ap (λ s. ok (s, advanced d a)) taken))

length-zeros : (n : ℕ) → length (zeros n) ≡ n
length-zeros zero = refl
length-zeros (suc n) = ap suc (length-zeros n)

primitive-aligned :
    (d : Deserializer) (n : ℕ) (bytes rest : Str)
    → length bytes ≡ n
    → At d (aligned d.pos n bytes ++ rest)
    → primitive d n ≡ ok (bytes, advanced d (aligned d.pos n bytes))
unfolding primitive align
primitive-aligned d n bytes rest l at =
    let pad = zeros (padding d.pos n) in
    let at' : At d (pad ++ (bytes ++ rest)) =
      (at.0, at.1 ∙ ap (λ s. at.0 ++ s) (append_assoc pad bytes rest), at.2, at.3) in
    ap (λ r. and_then (and_then r (λ (skipped, e). ok e)) (λ e. take_bytes e n))
      (take_bytes-append d (padding d.pos n) pad (bytes ++ rest) at'
        (sym (length-zeros (padding d.pos n))))
    ∙ take_bytes-append (advanced d pad) n bytes rest (advanced-At d pad (bytes ++ rest) at')
        (sym l)
    ∙ ap (λ e. ok (bytes, e)) (advanced-append d pad bytes)

pub length-to_le_bytes : (n v : ℕ) → length (to_le_bytes n v) ≡ n
length-to_le_bytes zero v = refl
length-to_le_bytes (suc n) v = ap suc (length-to_le_bytes n (v / 256))

from_le_bytes-to_le_bytes : (n v : ℕ) → v < 256 ^ n → from_le_bytes (to_le_bytes n v) ≡ v
from_le_bytes-to_le_bytes zero v h = omega arith
from_le_bytes-to_le_bytes (suc n) v h =
    let small : v / 256 < 256 ^ n = omega arith in
    omega (arith, from_le_bytes-to_le_bytes n (v / 256) small)

read_aligned :
    (d : Deserializer) (n v : ℕ) (rest : Str)
    → v < 256 ^ n
    → At d (aligned d.pos n (to_le_bytes n v) ++ rest)
    → and_then {B = ℕ × Deserializer}
        (primitive d n)
        (λ (bytes, e). ok (from_bytes_as d.big_endian bytes, e))
      ≡ ok (v, advanced d (aligned d.pos n (to_le_bytes n v)))
read_aligned d n v rest h at =
    ap (λ r. and_then r (λ (bytes, e). ok (from_bytes_as d.big_endian bytes, e)))
      (primitive-aligned d n (to_le_bytes n v) rest (length-to_le_bytes n v) at)
    ∙ ap
        (λ b.
          ok (from_bytes_as b (to_le_bytes n v), advanced d (aligned d.pos n (to_le_bytes n v))))
        at.3
    ∙ ap (λ k. ok (k, advanced d (aligned d.pos n (to_le_bytes n v))))
        (from_le_bytes-to_le_bytes n v h)

pub read_number-bytes :
    (d : Deserializer) (w : Width) (v : ℕ) (rest : Str)
    → v < 256 ^ size_of w
    → At d (aligned d.pos (size_of w) (to_le_bytes (size_of w) v) ++ rest)
    → read_number d w ≡ ok (v, advanced d (aligned d.pos (size_of w) (to_le_bytes (size_of w) v)))
unfolding read_number
read_number-bytes d two v rest h at = read_aligned d 2 v rest h at
read_number-bytes d four v rest h at = read_aligned d 4 v rest h at
read_number-bytes d eight v rest h at = read_aligned d 8 v rest h at
read_number-bytes d one v rest h at =
    let none_skipped : padding d.pos 1 ≡ 0 = omega arith in
    ap (λ r. and_then r (λ (bytes, e). ok (from_le_bytes bytes, e)))
      (take_bytes-append d 1 (aligned d.pos 1 (to_le_bytes 1 v)) rest at (rw none_skipped refl))
    ∙ ap (λ k. ok (k, advanced d (aligned d.pos 1 (to_le_bytes 1 v))))
        (rw none_skipped (from_le_bytes-to_le_bytes 1 v h))
