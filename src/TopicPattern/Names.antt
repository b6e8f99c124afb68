-- ===== src/TopicPattern/Names.antt =====
-- The captures of an accepted pattern: their names and their number.
use aimdb.Prelude.{
  ℕ, zero, suc, ◌+◌, ◌≤◌, ◌≡◌, refl, sym, subst, ◌∙◌, List, [], ◌∷◌, ◌++◌, append_assoc, append-nil,
  Bool, true, false, Option, none, some, length, ◌==◌, arith, Bool-cases, Option-cases, inl, inr,
  Str,
}
use aimdb.TopicPattern.{
  max_captures, PatternPart, text, capture, Parsed, ok, err, close_brace, Cut, find_brace, name_of,
  all_name_bytes, has_capture, is_empty, check_name, push_text, Round, done, failed, go, captured,
  closed, opened, parse_loop, parse,
}

-- A capture that may stand behind the parts seen.
abbrev pub IsNew : List PatternPart → PatternPart → Type 0
IsNew seen (text t) = Unit {0}
IsNew seen (capture name multi) =
    (is_empty name ≡ false) × (all_name_bytes name ≡ true) × (has_capture name seen ≡ false)

abbrev pub AreNew : List PatternPart → List PatternPart → Type 0
AreNew seen [] = Unit {0}
AreNew seen (p ∷ parts) = IsNew seen p × AreNew (seen ++ (p ∷ [])) parts

abbrev pub captures_of : List PatternPart → ℕ
captures_of [] = 0
captures_of (text t ∷ parts) = captures_of parts
captures_of (capture name multi ∷ parts) = suc (captures_of parts)

abbrev pub IsValid : List PatternPart → Type 0
IsValid parts = AreNew [] parts × (captures_of parts ≤ max_captures)

AreNew-append :
    (seen parts : List PatternPart) (p : PatternPart)
    → AreNew seen parts
    → IsNew (seen ++ parts) p
    → AreNew seen (parts ++ (p ∷ []))
AreNew-append seen [] p h n = (subst (λ ps. IsNew ps p) (append-nil seen) n, tt)
AreNew-append seen (q ∷ parts) p h n = (
  h.0,
  AreNew-append (seen ++ (q ∷ [])) parts p h.1
      (subst (λ ps. IsNew ps p) (sym (append_assoc seen (q ∷ []) parts)) n),
)

captures_of-append :
    (parts : List PatternPart) (p : PatternPart)
    → captures_of (parts ++ (p ∷ [])) ≡ captures_of parts + captures_of (p ∷ [])
captures_of-append [] (text t) = refl
captures_of-append [] (capture name multi) = refl
captures_of-append (text t ∷ parts) p = captures_of-append parts p
captures_of-append (capture name multi ∷ parts) p = omega (arith, captures_of-append parts p)

-- The parts so far, with the count that the loop keeps.
Counted : List PatternPart → ℕ → Type 0
Counted parts captures =
    AreNew [] parts × (captures_of parts ≡ captures) × (captures ≤ max_captures)

push_text-Counted :
    (parts : List PatternPart) (s : Str) (captures : ℕ)
    → Counted parts captures
    → Counted (push_text parts s) captures
unfolding Counted push_text
push_text-Counted parts [] captures h = h
push_text-Counted parts (c ∷ s) captures (new, n, le) = (
  AreNew-append [] parts (text (c ∷ s)) new tt,
  omega (arith, captures_of-append parts (text (c ∷ s))),
  le,
)

has_capture-push_text :
    (name : Str) (parts : List PatternPart) (s : Str)
    → has_capture name (push_text parts s) ≡ has_capture name parts
unfolding push_text has_capture
has_capture-push_text name parts [] = refl
has_capture-push_text name [] (c ∷ s) = refl
has_capture-push_text name (text t ∷ parts) (c ∷ s) = has_capture-push_text name parts (c ∷ s)
has_capture-push_text name (capture n multi ∷ parts) (c ∷ s) =
    ground (arith, has_capture-push_text name parts (c ∷ s))

check_name_lem :
    (name : Str) (parts : List PatternPart) (captures : ℕ)
    → check_name name parts captures ≡ none
    → (is_empty name ≡ false)
      × (all_name_bytes name ≡ true)
      × (has_capture name parts ≡ false)
      × ((captures == max_captures) ≡ false)
unfolding check_name
check_name_lem name parts captures h = ground arith

abbrev RoundValid : Round → Type 0
RoundValid (done parts) = IsValid parts
RoundValid (failed e) = Unit {0}
RoundValid (go parts captures rest) = Counted parts captures

captured-RoundValid :
    (parts : List PatternPart) (captures : ℕ) (before name : Str) (multi : Bool) (rest : Str)
    → Counted parts captures
    → RoundValid (captured parts captures before name multi rest)
unfolding captured Counted
captured-RoundValid parts captures before name multi rest h =
    elim (Option-cases (check_name name parts captures)) [
      | inr (e, found) ↦ rw (found, captured) tt
      | inl fine ↦
          let (named, bytes, fresh, room) = check_name_lem name parts captures fine in
          let pushed = push_text-Counted parts before captures h in
          rw (fine, captured)
            (
              AreNew-append [] (push_text parts before) (capture name multi) pushed.0
                  (named, bytes, has_capture-push_text name parts before ∙ fresh),
              omega (
                arith,
                captures_of-append (push_text parts before) (capture name multi),
                pushed.1,
              ),
              ground (arith, h.2, room),
            )
    ]

closed-RoundValid :
    (parts : List PatternPart) (captures : ℕ) (before : Str) (o : Option Cut)
    → Counted parts captures
    → RoundValid (closed parts captures before o)
unfolding closed
closed-RoundValid parts captures before none h = tt
closed-RoundValid parts captures before (some (body, brace, rest)) h =
    elim (Bool-cases (brace == close_brace)) [
      | inr other ↦ rw other tt
      | inl is_close ↦
          rw is_close
            (captured-RoundValid parts captures before (name_of body).0 (name_of body).1 rest h)
    ]

opened-RoundValid :
    (parts : List PatternPart) (captures : ℕ) (rest : Str) (o : Option Cut)
    → Counted parts captures
    → RoundValid (opened parts captures rest o)
unfolding opened Counted
opened-RoundValid parts captures rest none h =
    let pushed = push_text-Counted parts rest captures h in
    (pushed.0, omega (arith, pushed.1, pushed.2))
opened-RoundValid parts captures rest (some (before, brace, after)) h =
    elim (Bool-cases (brace == close_brace)) [
      | inl is_close ↦ rw is_close tt
      | inr other ↦ rw other (closed-RoundValid parts captures before (find_brace after) h)
    ]

accepted :
    (fuel : ℕ) (result : List PatternPart)
    → ((parts : List PatternPart) (captures : ℕ) (rest : Str)
        → Counted parts captures
        → parse_loop fuel parts captures rest ≡ some (ok result)
        → IsValid result)
    → (r : Round) → RoundValid r
    → ◌≡◌ {A = Option Parsed}
        (elim r as (λ _. Option Parsed) [
          | done parts' ↦ some (ok parts')
          | failed e ↦ some (err e)
          | go parts' captures' rest' ↦ parse_loop fuel parts' captures' rest'
        ])
        (some (ok result))
    → IsValid result
accepted fuel result ih (done parts) v e = subst IsValid (ground (arith, e)) v
accepted fuel result ih (failed e') v e = absurd (ground (arith, e))
accepted fuel result ih (go parts captures rest) v e = ih parts captures rest v e

parse_loop-IsValid :
    (fuel : ℕ) (result parts : List PatternPart) (captures : ℕ) (rest : Str)
    → Counted parts captures
    → parse_loop fuel parts captures rest ≡ some (ok result)
    → IsValid result
unfolding parse_loop
parse_loop-IsValid zero result parts captures rest h e = absurd (cc e)
parse_loop-IsValid (suc fuel) result parts captures rest h e =
    accepted fuel result (parse_loop-IsValid fuel result)
      (opened parts captures rest (find_brace rest))
      (opened-RoundValid parts captures rest (find_brace rest) h) e

-- The captures of an accepted topic have names that are not empty, of letters, digits and `_`, and
-- each its own; and there are at most eight of them.
pub parse-IsValid :
    (topic : Str) (parts : List PatternPart) → parse topic ≡ some (ok parts) → IsValid parts
unfolding parse Counted
parse-IsValid topic parts e =
    parse_loop-IsValid (suc (length topic)) parts [] 0 topic (tt, refl, omega arith) e
