-- ===== src/MqttGrammar/Compile/Clean.antt =====
-- The levels that the compilation of a pattern makes: no slash and no wildcard in a literal.
use aimdb.Prelude.{
  ℕ, suc, ◌<◌, ◌≡◌, refl, ap, ◌∙◌, List, [], ◌∷◌, ◌++◌, ◌||◌, Bool, true, false, Option, none, some,
  length, length-append, arith, All, Bool-cases, inl, inr, Str, str_eq, contains, split, cons_head,
  subst, ◌==◌,
}
use aimdb.TopicPattern.{PatternPart, text, capture}
use aimdb.MqttGrammar.{slash, plus, hash, Level, literal, single, multi}
use aimdb.MqttGrammar.Compile.{
  RawLevel, Compiled, ok, err, unless_err, empty_level, modify_last, push_str, add_segments,
  add_text, has_capture, set_capture, raw_levels, uncaptured, level_of, check_last, to_levels,
}

-- A text of one level.
abbrev pub OneLevel : Str → Type 0
OneLevel t = contains slash t ≡ false

contains-append : (b : ℕ) (s t : Str) → contains b (s ++ t) ≡ (contains b s || contains b t)
unfolding contains
contains-append b [] t = refl
contains-append b (c ∷ s) t = ground (arith, contains-append b s t)

cons_head-OneLevel :
    (c : ℕ) (ts : List Str) → (c == slash) ≡ false → All OneLevel ts → All OneLevel (cons_head c ts)
unfolding contains cons_head
cons_head-OneLevel c [] h a = (rw h refl, tt)
cons_head-OneLevel c (t ∷ ts) h (at, a) = (rw h at, a)

split-OneLevel : (t : Str) → All OneLevel (split slash t)
unfolding contains split
split-OneLevel [] = (refl, tt)
split-OneLevel (c ∷ t) = elim (Bool-cases (c == slash)) [
  | inl e ↦ rw e (refl, split-OneLevel t)
  | inr e ↦ rw e (cons_head-OneLevel c (split slash t) e (split-OneLevel t))
]

pub record IsClean (raw : List RawLevel) : Type 0 where
  pub texts : All (λ (r : RawLevel). OneLevel r.text) raw
  pub some_level : 0 < length raw

module _ (f : RawLevel → RawLevel) where
  length-modify_last : (raw : List RawLevel) → length (modify_last f raw) ≡ length raw
  unfolding modify_last
  length-modify_last [] = refl
  length-modify_last (r ∷ []) = refl
  length-modify_last (r ∷ s ∷ raw) = ap suc (length-modify_last (s ∷ raw))

  modify_last-texts :
      (raw : List RawLevel)
      → ((r : RawLevel) → OneLevel r.text → OneLevel (f r).text)
      → All (λ (r : RawLevel). OneLevel r.text) raw
      → All (λ (r : RawLevel). OneLevel r.text) (modify_last f raw)
  unfolding modify_last
  modify_last-texts [] keep a = tt
  modify_last-texts (r ∷ []) keep (ar, a) = (keep r ar, tt)
  modify_last-texts (r ∷ s ∷ raw) keep (ar, a) = (ar, modify_last-texts (s ∷ raw) keep a)

  modify_last-IsClean :
      (raw : List RawLevel)
      → ((r : RawLevel) → OneLevel r.text → OneLevel (f r).text)
      → IsClean raw
      → IsClean (modify_last f raw)
  modify_last-IsClean raw keep clean = record {
    texts = modify_last-texts raw keep clean.texts;
    some_level = omega (arith, clean.some_level, length-modify_last raw);
  }

push_str-IsClean :
    (s : Str) (raw : List RawLevel)
    → OneLevel s
    → IsClean raw
    → IsClean (modify_last (push_str s) raw)
unfolding push_str
push_str-IsClean s raw one clean =
    modify_last-IsClean (push_str s) raw (λ r h. contains-append slash r.text s ∙ ground arith)
      clean

snoc_empty-texts :
    (raw : List RawLevel)
    → All (λ (r : RawLevel). OneLevel r.text) raw
    → All (λ (r : RawLevel). OneLevel r.text) (raw ++ (empty_level ∷ []))
unfolding contains
snoc_empty-texts [] a = (refl, tt)
snoc_empty-texts (r ∷ raw) (ar, a) = (ar, snoc_empty-texts raw a)

snoc_empty-IsClean : (raw : List RawLevel) → IsClean raw → IsClean (raw ++ (empty_level ∷ []))
snoc_empty-IsClean raw clean = record {
  texts = snoc_empty-texts raw clean.texts;
  some_level = omega (arith, length-append raw (empty_level ∷ []));
}

add_segments-IsClean :
    (ss : List Str) (raw : List RawLevel)
    → All OneLevel ss
    → IsClean raw
    → IsClean (add_segments ss raw)
unfolding add_segments
add_segments-IsClean [] raw a clean = clean
add_segments-IsClean (s ∷ ss) raw (one, a) clean =
    add_segments-IsClean ss (modify_last (push_str s) (raw ++ (empty_level ∷ []))) a
      (push_str-IsClean s (raw ++ (empty_level ∷ [])) one (snoc_empty-IsClean raw clean))

add_text-IsClean :
    (ss : List Str) (raw : List RawLevel)
    → All OneLevel ss
    → IsClean raw
    → IsClean (add_text ss raw)
unfolding add_text
add_text-IsClean [] raw a clean = clean
add_text-IsClean (s ∷ ss) raw (one, a) clean =
    add_segments-IsClean ss (modify_last (push_str s) raw) a (push_str-IsClean s raw one clean)

set_capture-IsClean :
    (n : ℕ) (m : Bool) (raw : List RawLevel)
    → IsClean raw
    → IsClean (modify_last (set_capture n m) raw)
unfolding set_capture
set_capture-IsClean n m raw clean = modify_last-IsClean (set_capture n m) raw (λ r h. h) clean

pub raw_levels-IsClean :
    (parts : List PatternPart) (n : ℕ) (raw raw' : List RawLevel)
    → raw_levels parts n raw ≡ ok raw'
    → IsClean raw
    → IsClean raw'
unfolding raw_levels
raw_levels-IsClean [] n raw raw' e clean = let same : raw ≡ raw' = cc e in subst IsClean same clean
raw_levels-IsClean (text t ∷ parts) n raw raw' e clean =
    raw_levels-IsClean parts n (add_text (split slash t) raw) raw' e
      (add_text-IsClean (split slash t) raw (split-OneLevel t) clean)
raw_levels-IsClean (capture name m ∷ parts) n raw raw' e clean =
    elim (Bool-cases (has_capture raw)) [
      | inl two ↦ absurd (cc (rw two at e))
      | inr free ↦
          raw_levels-IsClean parts (suc n) (modify_last (set_capture n m) raw) raw' (rw free at e)
            (set_capture-IsClean n m raw clean)
    ]

-- A literal level, as the broker reads it too.
abbrev pub IsWell : Level → Type 0
IsWell (literal t) = OneLevel t × (str_eq t plus ≡ false) × (str_eq t hash ≡ false)
IsWell (single c) = Unit {0}
IsWell (multi c) = Unit {0}

module _ (t s : Str) (e : uncaptured t ≡ ok (literal s)) where
  literal_same : t ≡ s
  unfolding uncaptured
  literal_same = ground arith

  literal-plus : str_eq t plus ≡ false
  unfolding uncaptured
  literal-plus = ground arith

  literal-hash : str_eq t hash ≡ false
  unfolding uncaptured
  literal-hash = ground arith

uncaptured-IsWell : (t : Str) (l : Level) → OneLevel t → uncaptured t ≡ ok l → IsWell l
unfolding uncaptured
uncaptured-IsWell t (single c) one e = tt
uncaptured-IsWell t (multi c) one e = tt
uncaptured-IsWell t (literal s) one e =
    subst (λ q. IsWell (literal q)) (literal_same t s e)
      (one, literal-plus t s e, literal-hash t s e)

level_of-IsWell :
    (t : Str) (c : Option (ℕ × Bool)) (l : Level) → OneLevel t → level_of t c ≡ ok l → IsWell l
unfolding level_of
level_of-IsWell t none l one e = uncaptured-IsWell t l one e
level_of-IsWell [] (some (n, false)) l one e =
    let same : single (some n) ≡ l = cc e in subst IsWell same tt
level_of-IsWell [] (some (n, true)) l one e =
    let same : multi (some n) ≡ l = cc e in subst IsWell same tt
level_of-IsWell (b ∷ t) (some (n, m)) l one e = absurd (cc e)

check_last-same : (l l' : Level) (raw : List RawLevel) → check_last l raw ≡ ok l' → l ≡ l'
unfolding check_last
check_last-same (literal t) l' raw e = cc e
check_last-same (single c) l' raw e = cc e
check_last-same (multi c) l' [] e = cc e
check_last-same (multi c) l' (r ∷ raw) e = absurd (cc e)

pub made_in_steps :
    {A B : Type 0} (next : A → Compiled B) (first : Compiled A) {result : B}
    → unless_err next first ≡ ok result
    → (made : A) × (first ≡ ok made) × (next made ≡ ok result)
made_in_steps next (err reason) e = absurd (cc e)
made_in_steps next (ok made) e = (made, refl, e)

pub to_levels-IsWell :
    (raw : List RawLevel) (ls : List Level)
    → to_levels raw ≡ ok ls
    → All (λ (r : RawLevel). OneLevel r.text) raw
    → All IsWell ls × (length ls ≡ length raw)
unfolding to_levels
to_levels-IsWell [] ls e a =
    let same : [] ≡ ls = cc e in subst (λ ls'. All IsWell ls' × (length ls' ≡ 0)) same (tt, refl)
to_levels-IsWell (r ∷ raw) ls e (one, a) =
    let (l, el, e1) = made_in_steps _ (level_of r.text r.capture) e in
    let (l', el', e2) = made_in_steps _ (check_last l raw) e1 in
    let (ls', els, e3) = made_in_steps _ (to_levels raw) e2 in
    let same : l' ∷ ls' ≡ ls = cc e3 in
    let (wells, lengths) = to_levels-IsWell raw ls' els a in
    let well =
      subst IsWell (check_last-same l l' raw el') (level_of-IsWell r.text r.capture l one el) in
    subst (λ m. All IsWell m × (length m ≡ suc (length raw))) same ((well, wells), ap suc lengths)
