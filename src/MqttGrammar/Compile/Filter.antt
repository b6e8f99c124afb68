-- ===== src/MqttGrammar/Compile/Filter.antt =====
-- The filter text of a compiled pattern, as a broker reads it, and the matching of the pattern agree.
use aimdb.Prelude.{
  ℕ, ◌<◌, ◌≡◌, refl, sym, ap, ◌∙◌, List, [], ◌∷◌, ◌++◌, map, true, none, length, arith, All,
  Bool-cases, ==_iff, inl, inr, ◌↔◌, Str, str_eq, contains, split, cons_head, subst, ◌==◌,
}
use aimdb.TopicPattern.{PatternPart, Spans}
use aimdb.MqttGrammar.{slash, Level, literal, single, multi, MqttFilter}
use aimdb.MqttGrammar.Compile.{
  ok, empty_level, raw_levels, to_levels, shown, join, filter_of, compile,
}
use aimdb.MqttGrammar.Compile.Clean.{
  OneLevel, raw_levels-IsClean, IsWell, made_in_steps, to_levels-IsWell,
}
use aimdb.MqttGrammar.Cover.Sound.{read, FilterMatches}
use aimdb.MqttGrammar.Match.{matches, is_literal, all_literal}
use aimdb.MqttGrammar.Match.Rules.{Matches, Visible, matches_iff, split-cut}

split-one : (s : Str) → OneLevel s → split slash s ≡ s ∷ []
unfolding split contains cons_head
split-one [] one = refl
split-one (c ∷ s) one = ground (arith, split-one s)

split-slash : (s r : Str) → OneLevel s → split slash (s ++ (slash ∷ r)) ≡ s ∷ split slash r
unfolding split contains cons_head
split-slash [] r one = refl
split-slash (c ∷ s) r one = ground (arith, split-slash s r)

split-join :
    (s : Str) (ss : List Str) → All OneLevel (s ∷ ss) → split slash (join (s ∷ ss)) ≡ s ∷ ss
unfolding join
split-join s [] (one, a) = split-one s one
split-join s (t ∷ ss) (one, a) =
    split-slash s (join (t ∷ ss)) one ∙ ap (λ ts. s ∷ ts) (split-join t ss a)

join-cons_head : (c : ℕ) (ts : List Str) → join (cons_head c ts) ≡ c ∷ join ts
unfolding join cons_head
join-cons_head c [] = refl
join-cons_head c (t ∷ []) = refl
join-cons_head c (t ∷ s ∷ ts) = refl

join_empty : (t : Str) → join ([] ∷ split slash t) ≡ slash ∷ join (split slash t)
unfolding join
join_empty t = rw (split-cut t) refl

pub join-split : (t : Str) → join (split slash t) ≡ t
unfolding split
join-split [] = unfold join in refl
join-split (c ∷ t) = elim (Bool-cases (c == slash)) [
  | inl e ↦ rw e (
      join_empty t
      ∙ ap (λ s. slash ∷ s) (join-split t)
      ∙ ap (λ d. d ∷ t) (sym ((==_iff c slash).0 e)))
  | inr e ↦ rw e (join-cons_head c (split slash t) ∙ ap (λ s. c ∷ s) (join-split t))
]

shown-OneLevel : (ls : List Level) → All IsWell ls → All OneLevel (map shown ls)
unfolding shown contains
shown-OneLevel [] a = tt
shown-OneLevel (literal t ∷ ls) (well, a) = (well.0, shown-OneLevel ls a)
shown-OneLevel (single c ∷ ls) (well, a) = (refl, shown-OneLevel ls a)
shown-OneLevel (multi c ∷ ls) (well, a) = (refl, shown-OneLevel ls a)

-- A level without its capture.
abbrev erase : Level → Level
erase (literal t) = literal t
erase (single c) = single none
erase (multi c) = multi none

read-shown : (ls : List Level) → All IsWell ls → read (map shown ls) ≡ map erase ls
unfolding shown str_eq
read-shown [] a = refl
read-shown (literal t ∷ ls) ((one, p, h), a) =
    rw p (rw h (ap (λ m. literal t ∷ m) (read-shown ls a)))
read-shown (single c ∷ ls) (well, a) = ap (λ m. single none ∷ m) (read-shown ls a)
read-shown (multi c ∷ ls) (well, a) = ap (λ m. multi none ∷ m) (read-shown ls a)

Matches-erase : (ls : List Level) (ts : List Str) → Matches (map erase ls) ts ↔ Matches ls ts
Matches-erase [] [] = (λ m. m, λ m. m)
Matches-erase [] (t ∷ ts) = (λ m. m, λ m. m)
Matches-erase (multi c ∷ ls) ts = (λ m. m, λ m. m)
Matches-erase (single c ∷ ls) [] = (λ m. m, λ m. m)
Matches-erase (single c ∷ ls) (t ∷ ts) = Matches-erase ls ts
Matches-erase (literal l ∷ ls) [] = (λ m. m, λ m. m)
Matches-erase (literal l ∷ ls) (t ∷ ts) =
    let ih = Matches-erase ls ts in (λ m. (m.0, ih.0 m.1), λ m. (m.0, ih.1 m.1))

Visible-erase : (ls : List Level) (topic : Str) → Visible (map erase ls) topic ↔ Visible ls topic
Visible-erase [] topic = (λ m. m, λ m. m)
Visible-erase (multi c ∷ ls) topic = (λ m. m, λ m. m)
Visible-erase (single c ∷ ls) topic = (λ m. m, λ m. m)
Visible-erase (literal l ∷ ls) topic = (λ m. m, λ m. m)

abbrev LevelsMatch : List Level → Str → Type 0
LevelsMatch ls topic = Matches ls (split slash topic) × Visible ls topic

levels_filter_iff :
    (l : Level) (ls : List Level) (topic : Str)
    → All IsWell (l ∷ ls)
    → FilterMatches (filter_of (l ∷ ls)).filter topic ↔ LevelsMatch (l ∷ ls) topic
unfolding filter_of
levels_filter_iff l ls topic wells =
    let back = split-join (shown l) (map shown ls) (shown-OneLevel (l ∷ ls) wells) in
    let m = Matches-erase (l ∷ ls) (split slash topic) in
    let v = Visible-erase (l ∷ ls) topic in
    subst (λ rs. (Matches rs (split slash topic) × Visible rs topic) ↔ LevelsMatch (l ∷ ls) topic)
      (sym (ap read back ∙ read-shown (l ∷ ls) wells))
      (λ (p, q). (m.0 p, v.0 q), λ (p, q). (m.1 p, v.1 q))

levels_at :
    (f : MqttFilter) (levels : List Level)
    → filter_of levels ≡ f
    → All IsWell levels
    → 0 < length levels
    → (l : Level) × (ls : List Level) × (f ≡ filter_of (l ∷ ls)) × All IsWell (l ∷ ls)
levels_at f [] e wells some_level = absurd (omega arith)
levels_at f (l ∷ ls) e wells some_level = (l, ls, sym e, wells)

-- A compiled pattern has at least one level, and its levels are well-formed.
compiled_levels :
    (parts : List PatternPart) (f : MqttFilter)
    → compile parts ≡ ok f
    → (l : Level) × (ls : List Level) × (f ≡ filter_of (l ∷ ls)) × All IsWell (l ∷ ls)
unfolding compile contains
compiled_levels parts f e =
    let (raw, e_raw, e1) = made_in_steps _ (raw_levels parts 0 (empty_level ∷ [])) e in
    let (levels, e_levels, e2) = made_in_steps _ (to_levels raw) e1 in
    let clean =
      raw_levels-IsClean parts 0 (empty_level ∷ []) raw e_raw
        record { texts = (refl, tt); some_level = omega arith } in
    let (wells, lengths) = to_levels-IsWell raw levels e_levels clean.texts in
    levels_at f levels (cc e2) wells (omega (arith, clean.some_level, lengths))

-- The filter that a compiled pattern is subscribed under, as a broker reads it, matches exactly the
-- topics that the compiled pattern accepts, whatever the spans hold before.
pub compile-FilterMatches :
    (parts : List PatternPart) (f : MqttFilter) (topic : Str) (spans : Spans)
    → compile parts ≡ ok f
    → ((matches f topic spans).0 ≡ true) ↔ FilterMatches f.filter topic
unfolding filter_of
compile-FilterMatches parts f topic spans e =
    let (l, ls, made, wells) = compiled_levels parts f e in
    let here = levels_filter_iff l ls topic wells in
    let there = matches_iff (filter_of (l ∷ ls)) topic spans in
    subst (λ (g : MqttFilter). ((matches g topic spans).0 ≡ true) ↔ FilterMatches g.filter topic)
      (sym made) (λ m. here.1 (there.0 m), λ m. there.1 (here.0 m))

-- A pattern with neither a wildcard nor a capture.
literal_iff_at :
    (ls : List Level) (ts : List Str) → all_literal ls ≡ true → Matches ls ts ↔ (map shown ls ≡ ts)
unfolding all_literal shown
literal_iff_at [] [] e = (λ _. refl, λ _. tt)
literal_iff_at [] (t ∷ ts) e = (λ m. absurd m, λ m. cc m)
literal_iff_at (single c ∷ ls) ts e = absurd (cc e)
literal_iff_at (multi c ∷ ls) ts e = absurd (cc e)
literal_iff_at (literal l ∷ ls) [] e = (λ m. absurd m, λ m. cc m)
literal_iff_at (literal l ∷ ls) (t ∷ ts) e =
    let ih = literal_iff_at ls ts e in (λ m. cc (m.0, ih.0 m.1), λ m. (cc m, ih.1 (cc m)))

literal-Visible : (ls : List Level) (topic : Str) → all_literal ls ≡ true → Visible ls topic
unfolding all_literal
literal-Visible [] topic e = tt
literal-Visible (literal l ∷ ls) topic e = tt
literal-Visible (single c ∷ ls) topic e = absurd (cc e)
literal-Visible (multi c ∷ ls) topic e = absurd (cc e)

literal_levels :
    (l : Level) (ls : List Level) (topic : Str)
    → All IsWell (l ∷ ls)
    → all_literal (l ∷ ls) ≡ true
    → LevelsMatch (l ∷ ls) topic ↔ ((filter_of (l ∷ ls)).filter ≡ topic)
unfolding filter_of
literal_levels l ls topic wells e =
    let same = literal_iff_at (l ∷ ls) (split slash topic) e in
    let back = split-join (shown l) (map shown ls) (shown-OneLevel (l ∷ ls) wells) in
    (
      λ (m, v). ap join (same.0 m) ∙ join-split topic,
      λ q. (same.1 (sym back ∙ ap (split slash) q), literal-Visible (l ∷ ls) topic e),
    )

-- A compiled pattern that calls itself literal matches exactly the topic that is its filter.
pub is_literal-FilterMatches :
    (parts : List PatternPart) (f : MqttFilter) (topic : Str)
    → compile parts ≡ ok f
    → is_literal f ≡ true
    → FilterMatches f.filter topic ↔ (f.filter ≡ topic)
unfolding is_literal filter_of
is_literal-FilterMatches parts f topic e lit =
    let (l, ls, made, wells) = compiled_levels parts f e in
    let here = levels_filter_iff l ls topic wells in
    let there =
      literal_levels l ls topic wells
        (ap (λ (g : MqttFilter). all_literal g.levels) (sym made) ∙ lit) in
    subst (λ (g : MqttFilter). FilterMatches g.filter topic ↔ (g.filter ≡ topic)) (sym made)
      (λ m. there.0 (here.0 m), λ m. here.1 (there.1 m))
