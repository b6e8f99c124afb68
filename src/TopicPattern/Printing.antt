-- ===== src/TopicPattern/Printing.antt =====
-- The parts of a pattern, printed, are the pattern.
use aimdb.Prelude.{
  ℕ, zero, suc, ◌≤◌, ◌<◌, ◌≡◌, refl, sym, ap, ◌∙◌, List, [], ◌∷◌, ◌++◌, append_assoc, append-nil,
  Bool, true, false, ◌||◌, Option, none, some, length, length-append, ◌==◌, ==_iff, if◌then◌else◌,
  arith, Bool-cases, Option-cases, inl, inr, Str, strip_suffix, strip_suffix-append,
}
use aimdb.TopicPattern.{
  PatternPart, text, capture, Parsed, ok, err, open_brace, close_brace, dots, Cut, before_brace,
  find_brace, name_of, check_name, push_text, Round, done, failed, go, captured, closed, opened,
  parse_loop, parse,
}

abbrev pub print_part : PatternPart → Str
print_part (text t) = t
print_part (capture name multi) =
    open_brace ∷ (name ++ ((if multi then dots else []) ++ (close_brace ∷ [])))

abbrev pub print : List PatternPart → Str
print [] = []
print (p ∷ parts) = print_part p ++ print parts

print-append : (ps qs : List PatternPart) → print (ps ++ qs) ≡ print ps ++ print qs
print-append [] qs = refl
print-append (p ∷ ps) qs =
    ap (λ s. print_part p ++ s) (print-append ps qs)
    ∙ sym (append_assoc (print_part p) (print ps) (print qs))

abbrev IsCut : Str → Option Cut → Type 0
IsCut s none = Unit {0}
IsCut s (some (a, b, rest)) = (s ≡ a ++ (b ∷ rest)) × ((b == open_brace || b == close_brace) ≡ true)

find_brace-IsCut : (s : Str) → IsCut s (find_brace s)
unfolding find_brace
find_brace-IsCut [] = tt
find_brace-IsCut (c ∷ s) = elim (Bool-cases (c == open_brace || c == close_brace)) [
  | inl brace ↦ rw brace (refl, brace)
  | inr other ↦ rw other (further c s (find_brace s) (find_brace-IsCut s))
]
  where
    further : (c : ℕ) (s : Str) (o : Option Cut) → IsCut s o → IsCut (c ∷ s) (before_brace c o)
    further c s none h = tt
    further c s (some (a, b, rest)) (q, h) = (ap (λ t. c ∷ t) q, h)

print-push_text :
    (parts : List PatternPart) (s : Str) → print (push_text parts s) ≡ print parts ++ s
unfolding push_text
print-push_text parts [] = sym (append-nil (print parts))
print-push_text parts (c ∷ s) =
    print-append parts (text (c ∷ s) ∷ []) ∙ ap (λ t. print parts ++ t) (append-nil (c ∷ s))

-- The body of a capture is its name and perhaps the dots.
name_of_lem : (body : Str) → body ≡ (name_of body).0 ++ (if (name_of body).1 then dots else [])
unfolding name_of
name_of_lem body = elim (Option-cases (strip_suffix dots body)) [
  | inl e ↦ rw (e, name_of) (sym (append-nil body))
  | inr (name, e) ↦ rw (e, name_of) (strip_suffix-append dots body name e)
]

-- What has been parsed prints as the topic up to `rest`.
abbrev Prints : Str → ℕ → Round → Type 0
Prints topic n (done parts) = print parts ≡ topic
Prints topic n (failed e) = Unit {0}
Prints topic n (go parts captures rest) = (print parts ++ rest ≡ topic) × (length rest < n)

print-capture :
    (name rest : Str) (multi : Bool)
    → print (capture name multi ∷ []) ++ rest
      ≡ open_brace ∷ ((name ++ (if multi then dots else [])) ++ (close_brace ∷ rest))
print-capture name rest multi =
    let d : Str = if multi then dots else [] in
    ap (λ s. open_brace ∷ s)
      (ap (λ s. s ++ rest) (append-nil (name ++ (d ++ (close_brace ∷ []))))
        ∙ append_assoc name (d ++ (close_brace ∷ [])) rest
        ∙ ap (λ s. name ++ s) (append_assoc d (close_brace ∷ []) rest)
        ∙ sym (append_assoc name d (close_brace ∷ rest)))

captured-Prints :
    (topic before name rest : Str) (multi : Bool) (parts : List PatternPart) (captures n : ℕ)
    → (print parts ++ before)
        ++ (open_brace ∷ ((name ++ (if multi then dots else [])) ++ (close_brace ∷ rest)))
      ≡ topic
    → length rest < n
    → Prints topic n (captured parts captures before name multi rest)
unfolding captured
captured-Prints topic before name rest multi parts captures n q l =
    elim (Option-cases (check_name name parts captures)) [
      | inr (e, found) ↦ rw (found, captured) tt
      | inl fine ↦
          rw (fine, captured)
            (
              ap (λ s. s ++ rest)
                    (print-append (push_text parts before) (capture name multi ∷ [])
                      ∙ ap (λ s. s ++ print (capture name multi ∷ []))
                          (print-push_text parts before))
                  ∙ append_assoc (print parts ++ before) (print (capture name multi ∷ [])) rest
                  ∙ ap (λ s. (print parts ++ before) ++ s) (print-capture name rest multi)
                  ∙ q,
              l,
            )
    ]

closed-Prints :
    (topic before after : Str) (parts : List PatternPart) (captures n : ℕ) (o : Option Cut)
    → IsCut after o
    → (print parts ++ before) ++ (open_brace ∷ after) ≡ topic
    → length after < n
    → Prints topic n (closed parts captures before o)
unfolding closed
closed-Prints topic before after parts captures n none h q l = tt
closed-Prints topic before after parts captures n (some (body, brace, rest)) h q l =
    elim (Bool-cases (brace == close_brace)) [
      | inr other ↦ rw other tt
      | inl is_close ↦
          let whole : after
              ≡ ((name_of body).0 ++ (if (name_of body).1 then dots else []))
                ++ (close_brace ∷ rest) =
            h.0
            ∙ ap (λ b. body ++ (b ∷ rest)) ((==_iff brace close_brace).0 is_close)
            ∙ ap (λ t. t ++ (close_brace ∷ rest)) (name_of_lem body) in
          rw is_close (
            captured-Prints topic before (name_of body).0 rest (name_of body).1 parts captures n
              (ap (λ t. (print parts ++ before) ++ (open_brace ∷ t)) (sym whole) ∙ q)
              (omega (arith, ap length h.0, length-append body (brace ∷ rest))))
    ]

opened-Prints :
    (topic rest : Str) (parts : List PatternPart) (captures : ℕ) (o : Option Cut)
    → IsCut rest o
    → print parts ++ rest ≡ topic
    → Prints topic (length rest) (opened parts captures rest o)
unfolding opened
opened-Prints topic rest parts captures none h q = print-push_text parts rest ∙ q
opened-Prints topic rest parts captures (some (before, brace, after)) h q =
    elim (Bool-cases (brace == close_brace)) [
      | inl is_close ↦ rw is_close tt
      | inr other ↦
          let is_open : brace ≡ open_brace =
            (==_iff brace open_brace).0
              (only_open (brace == open_brace) (brace == close_brace) h.1 other) in
          rw other (
            closed-Prints topic before after parts captures (length rest) (find_brace after)
              (find_brace-IsCut after)
              (append_assoc (print parts) before (open_brace ∷ after)
                ∙ ap (λ b. print parts ++ (before ++ (b ∷ after))) (sym is_open)
                ∙ ap (λ s. print parts ++ s) (sym h.0)
                ∙ q)
              (omega (arith, ap length h.0, length-append before (brace ∷ after))))
    ]
  where
    only_open : (a b : Bool) → (a || b) ≡ true → b ≡ false → a ≡ true
    only_open true b h k = refl
    only_open false true h k = sym k
    only_open false false h k = h

-- The outcome of a parse: parts that print as the topic, or an error.
abbrev pub Outcome : Str → Option Parsed → Type 0
Outcome topic none = ⊥
Outcome topic (some (ok parts)) = print parts ≡ topic
Outcome topic (some (err e)) = Unit {0}

finish :
    (fuel : ℕ) (topic : Str) (n : ℕ)
    → ((parts : List PatternPart) (captures : ℕ) (rest : Str)
        → print parts ++ rest ≡ topic
        → length rest < fuel
        → Outcome topic (parse_loop fuel parts captures rest))
    → (r : Round) → Prints topic n r
    → n ≤ fuel
    → Outcome topic (elim r as (λ _. Option Parsed) [
      | done parts' ↦ some (ok parts')
      | failed e ↦ some (err e)
      | go parts' captures' rest' ↦ parse_loop fuel parts' captures' rest'
    ])
finish fuel topic n ih (done parts) p le = p
finish fuel topic n ih (failed e) p le = tt
finish fuel topic n ih (go parts captures rest) p le = ih parts captures rest p.0 (omega arith)

parse_loop-Outcome :
    (fuel : ℕ) (topic : Str) (parts : List PatternPart) (captures : ℕ) (rest : Str)
    → print parts ++ rest ≡ topic
    → length rest < fuel
    → Outcome topic (parse_loop fuel parts captures rest)
unfolding parse_loop
parse_loop-Outcome zero topic parts captures rest q l = absurd (omega arith)
parse_loop-Outcome (suc fuel) topic parts captures rest q l =
    finish fuel topic (length rest) (parse_loop-Outcome fuel topic)
      (opened parts captures rest (find_brace rest))
      (opened-Prints topic rest parts captures (find_brace rest) (find_brace-IsCut rest) q)
      (omega arith)

-- The parser always ends, and where it accepts a topic, its parts printed are the topic.
pub parse-Outcome : (topic : Str) → Outcome topic (parse topic)
unfolding parse
parse-Outcome topic = parse_loop-Outcome (suc (length topic)) topic [] 0 topic refl (omega arith)
