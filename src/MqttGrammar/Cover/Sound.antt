-- ===== src/MqttGrammar/Cover/Sound.antt =====
-- `covers` of aimdb-mqtt-connector/src/grammar.rs: a filter that covers another matches all that it
-- matches, and covering is reflexive and transitive.
use aimdb.Prelude.{
  ◌≡◌, refl, sym, ap, ◌∙◌, List, [], ◌∷◌, ◌||◌, Bool, true, false, none, arith, Bool-cases, inl,
  inr, Str, str_eq, str_eq→eq, str_eq_refl, if◌then◌else◌, split, starts_with, subst,
}
use aimdb.MqttGrammar.{slash, plus, hash, dollar, Level, literal, single, multi}
use aimdb.MqttGrammar.Match.{cut}
use aimdb.MqttGrammar.Match.Rules.{Matches, Visible, rest_levels, split-cut, cut-dollar}
use aimdb.MqttGrammar.Cover.{covers_levels, covers}

-- A level of a subscribed filter, as the broker reads it.
abbrev pub read_level : Str → Level
read_level t =
    if str_eq t plus then single none else if str_eq t hash then multi none else literal t

abbrev pub read : List Str → List Level
read [] = []
read (t ∷ ts) = read_level t ∷ read ts

-- A filter that is subscribed matches a topic.
abbrev pub FilterMatches : Str → Str → Type 0
FilterMatches f topic =
    Matches (read (split slash f)) (split slash topic) × Visible (read (split slash f)) topic

-- The three ways to read a level.
data Reading (t : Str) : Level → Type 0 where
  as_hash : str_eq t plus ≡ false → str_eq t hash ≡ true → Reading t (multi none)
  as_plus : str_eq t plus ≡ true → str_eq t hash ≡ false → Reading t (single none)
  as_literal : str_eq t plus ≡ false → str_eq t hash ≡ false → Reading t (literal t)

plus-hash : (t : Str) → str_eq t plus ≡ true → str_eq t hash ≡ false
unfolding str_eq
plus-hash [] h = cc
plus-hash (c ∷ t) h = ground arith

read_level-Reading : (t : Str) → Reading t (read_level t)
read_level-Reading t = elim (Bool-cases (str_eq t plus)) [
  | inl p ↦ rw p (as_plus p (plus-hash t p))
  | inr p ↦ elim (Bool-cases (str_eq t hash)) [
    | inl h ↦ rw p (rw h (as_hash p h))
    | inr h ↦ rw p (rw h (as_literal p h))
  ]
]

hash-dollar : (t : Str) → str_eq t hash ≡ true → starts_with dollar t ≡ false
unfolding str_eq starts_with
hash-dollar [] h = cc
hash-dollar (c ∷ t) h = ground arith

plus-dollar : (t : Str) → str_eq t plus ≡ true → starts_with dollar t ≡ false
unfolding str_eq starts_with
plus-dollar [] h = cc
plus-dollar (c ∷ t) h = ground arith

pub covers_levels_refl : (first : Bool) (a : List Str) → covers_levels first a a ≡ true
unfolding covers_levels
covers_levels_refl first [] = refl
covers_levels_refl first (x ∷ a) =
    ground
      (arith, covers_levels_refl false a, str_eq_refl x, plus-hash x, hash-dollar x, plus-dollar x)

-- What covering at one level comes to.
module _ (first : Bool) (x y : Str) (a b : List Str)
    (c : covers_levels first (x ∷ a) (y ∷ b) ≡ true) where
  covers-later : str_eq x hash ≡ false → covers_levels false a b ≡ true
  unfolding covers_levels
  covers-later h = ground arith

  covers-plus : str_eq x plus ≡ true → str_eq y hash ≡ false
  unfolding covers_levels
  covers-plus p = ground (arith, plus-hash x)

  covers-literal : str_eq x plus ≡ false → str_eq x hash ≡ false → x ≡ y
  unfolding covers_levels
  covers-literal p h = ground (arith, str_eq→eq x y)

  covers_any_first : covers_levels false (x ∷ a) (y ∷ b) ≡ true
  unfolding covers_levels
  covers_any_first = ground arith

abbrev SoundFor : List Str → List Str → Type 0
SoundFor a b = (ts : List Str) → Matches (read b) ts → Matches (read a) ts

later_step :
    (x y : Str) (a b ts : List Str) {l m : Level}
    → Reading x l
    → Reading y m
    → covers_levels false (x ∷ a) (y ∷ b) ≡ true
    → (covers_levels false a b ≡ true → SoundFor a b)
    → Matches (m ∷ read b) ts
    → Matches (l ∷ read a) ts
later_step x y a b ts (as_hash p h) r c ih mt = tt
later_step x y a b ts (as_plus p h) (as_hash q g) c ih mt =
    absurd (cc (sym (covers-plus false x y a b c p) ∙ g))
later_step x y a b [] (as_plus p h) (as_plus q g) c ih mt = mt
later_step x y a b (t ∷ ts) (as_plus p h) (as_plus q g) c ih mt =
    ih (covers-later false x y a b c h) ts mt
later_step x y a b [] (as_plus p h) (as_literal q g) c ih mt = mt
later_step x y a b (t ∷ ts) (as_plus p h) (as_literal q g) c ih mt =
    ih (covers-later false x y a b c h) ts mt.1
later_step x y a b ts (as_literal p h) (as_hash q g) c ih mt =
    absurd (cc (sym h ∙ ap (λ s. str_eq s hash) (covers-literal false x y a b c p h) ∙ g))
later_step x y a b ts (as_literal p h) (as_plus q g) c ih mt =
    absurd (cc (sym p ∙ ap (λ s. str_eq s plus) (covers-literal false x y a b c p h) ∙ q))
later_step x y a b [] (as_literal p h) (as_literal q g) c ih mt = mt
later_step x y a b (t ∷ ts) (as_literal p h) (as_literal q g) c ih mt =
    (covers-literal false x y a b c p h ∙ mt.0, ih (covers-later false x y a b c h) ts mt.1)

covers_hash_rest :
    (x : Str) (a ts : List Str) {l : Level}
    → Reading x l
    → str_eq x hash ≡ true
    → Matches (l ∷ read a) ts
covers_hash_rest x a ts (as_hash p h) e = tt
covers_hash_rest x a ts (as_plus p h) e = absurd (cc (sym h ∙ e))
covers_hash_rest x a ts (as_literal p h) e = absurd (cc (sym h ∙ e))

later_sound : (a b : List Str) → covers_levels false a b ≡ true → SoundFor a b
unfolding covers_levels
later_sound [] [] c ts m = m
later_sound [] (y ∷ b) c ts m = absurd (cc c)
later_sound (x ∷ a) [] c ts m = covers_hash_rest x a ts (read_level-Reading x) c
later_sound (x ∷ a) (y ∷ b) c ts m =
    later_step x y a b ts (read_level-Reading x) (read_level-Reading y) c (later_sound a b) m

pub covers_levels_trans :
    (first : Bool) (a b c : List Str)
    → covers_levels first a b ≡ true
    → covers_levels first b c ≡ true
    → covers_levels first a c ≡ true
unfolding covers_levels
covers_levels_trans first [] [] [] p q = refl
covers_levels_trans first [] [] (z ∷ c) p q = q
covers_levels_trans first [] (y ∷ b) c p q = absurd (cc p)
covers_levels_trans first (x ∷ a) [] [] p q = p
covers_levels_trans first (x ∷ a) [] (z ∷ c) p q = absurd (cc q)
covers_levels_trans first (x ∷ a) (y ∷ b) [] p q = ground (arith, str_eq→eq x y, plus-hash x)
covers_levels_trans first (x ∷ a) (y ∷ b) (z ∷ c) p q = ground (
  arith,
  covers_levels_trans false a b c,
  str_eq→eq x y,
  str_eq→eq y z,
  str_eq_refl x,
  plus-hash x,
  plus-hash y,
)

covers-dollar :
    (x y : Str) (a b : List Str)
    → covers_levels true (x ∷ a) (y ∷ b) ≡ true
    → (str_eq x hash || str_eq x plus) ≡ true
    → starts_with dollar y ≡ false
unfolding covers_levels
covers-dollar x y a b c w = ground (arith, plus-hash x, hash-dollar y)

Visible-step :
    (x y t topic : Str) (a b ts : List Str) {l m : Level}
    → Reading x l
    → Reading y m
    → starts_with dollar t ≡ starts_with dollar topic
    → covers_levels true (x ∷ a) (y ∷ b) ≡ true
    → Matches (m ∷ read b) (t ∷ ts)
    → Visible (m ∷ read b) topic
    → Visible (l ∷ read a) topic
Visible-step x y t topic a b ts (as_literal p h) r same c mt v = tt
Visible-step x y t topic a b ts (as_hash p h) (as_hash q g) same c mt v = v
Visible-step x y t topic a b ts (as_hash p h) (as_plus q g) same c mt v = v
Visible-step x y t topic a b ts (as_hash p h) (as_literal q g) same c mt v =
    sym same ∙ ap (starts_with dollar) (sym mt.0) ∙ covers-dollar x y a b c (ground arith)
Visible-step x y t topic a b ts (as_plus p h) (as_hash q g) same c mt v = v
Visible-step x y t topic a b ts (as_plus p h) (as_plus q g) same c mt v = v
Visible-step x y t topic a b ts (as_plus p h) (as_literal q g) same c mt v =
    sym same ∙ ap (starts_with dollar) (sym mt.0) ∙ covers-dollar x y a b c (ground arith)

levels_sound :
    (topic t : Str) (a b ts : List Str)
    → starts_with dollar t ≡ starts_with dollar topic
    → covers_levels true a b ≡ true
    → Matches (read b) (t ∷ ts)
    → Visible (read b) topic
    → Matches (read a) (t ∷ ts) × Visible (read a) topic
unfolding covers_levels
levels_sound topic t [] [] ts same c m v = (m, tt)
levels_sound topic t [] (y ∷ b) ts same c m v = absurd (cc c)
levels_sound topic t (x ∷ a) [] ts same c m v = absurd m
levels_sound topic t (x ∷ a) (y ∷ b) ts same c m v = (
  later_sound (x ∷ a) (y ∷ b) (covers_any_first true x y a b c) (t ∷ ts) m,
  Visible-step x y t topic a b ts (read_level-Reading x) (read_level-Reading y) same c m v,
)

-- If `covers` says that one filter covers another, then it matches every topic that the other
-- matches, by the rules of MQTT.
pub covers_sound :
    (a b topic : Str) → covers a b ≡ true → FilterMatches b topic → FilterMatches a topic
unfolding covers
covers_sound a b topic c (m, v) =
    subst (λ ts. Matches (read (split slash a)) ts × Visible (read (split slash a)) topic)
      (sym (split-cut topic))
      (levels_sound topic (cut topic).0 (split slash a) (split slash b) (rest_levels (cut topic).1)
        (cut-dollar topic) c (subst (Matches (read (split slash b))) (split-cut topic) m) v)

pub covers_refl : (a : Str) → covers a a ≡ true
unfolding covers
covers_refl a = covers_levels_refl true (split slash a)

pub covers_trans : (a b c : Str) → covers a b ≡ true → covers b c ≡ true → covers a c ≡ true
unfolding covers
covers_trans a b c p q =
    covers_levels_trans true (split slash a) (split slash b) (split slash c) p q
