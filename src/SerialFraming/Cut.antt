-- ===== src/SerialFraming/Cut.antt =====
-- Where the first delimiter of a text lies.
use aimdb.Prelude.{
  ℕ, suc, ◌≡◌, refl, ap, false, ◌||◌, [], ◌∷◌, ◌++◌, none, some, length, take, drop, arith, Str,
  contains, position,
}
use aimdb.SerialFraming.{delim}

pub contains-append : (b : ℕ) (s t : Str) → contains b (s ++ t) ≡ (contains b s || contains b t)
unfolding contains
contains-append b [] t = refl
contains-append b (c ∷ s) t = ground (arith, contains-append b s t)

pub position-none : (b : ℕ) (s : Str) → contains b s ≡ false → position b s ≡ none
unfolding contains position
position-none b [] h = refl
position-none b (c ∷ s) h = ground (arith, position-none b s)

pub position-first :
    (e s : Str) → contains delim e ≡ false → position delim (e ++ (delim ∷ s)) ≡ some (length e)
unfolding contains position
position-first [] s h = refl
position-first (c ∷ e) s h = ground (arith, position-first e s)

pub take-length : (e s : Str) → take (length e) (e ++ s) ≡ e
take-length [] s = refl
take-length (c ∷ e) s = ap (λ r. c ∷ r) (take-length e s)

pub drop-length : (b : ℕ) (e s : Str) → drop (suc (length e)) (e ++ (b ∷ s)) ≡ s
drop-length b [] s = refl
drop-length b (c ∷ e) s = drop-length b e s

-- Of a text up to the first delimiter and behind it, a beginning `b` ends before the delimiter, or
-- holds it.
pub data Cut (e s b rest : Str) : Type 0 where
  before : (r : Str) → e ≡ b ++ r → rest ≡ r ++ (delim ∷ s) → Cut e s b rest
  beyond : (b' : Str) → b ≡ e ++ (delim ∷ b') → b' ++ rest ≡ s → Cut e s b rest

pub cut : (e s b rest : Str) → b ++ rest ≡ e ++ (delim ∷ s) → Cut e s b rest
cut e s [] rest h = before e refl h
cut [] s (c ∷ b) rest h = beyond b (cc h) (cc h)
cut (d ∷ e) s (c ∷ b) rest h = elim (cut e s b rest (cc h)) [
  | before r p q ↦ before r (cc (h, p)) q
  | beyond b' p q ↦ beyond b' (cc (h, p)) q
]
