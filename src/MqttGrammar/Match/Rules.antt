-- ===== src/MqttGrammar/Match/Rules.antt =====
-- The matching of aimdb-mqtt-connector/src/grammar.rs against the rules of MQTT 3.1.1 section 4.7.
use aimdb.Prelude.{
  ℕ, ◌+◌, ◌≡◌, refl, sym, ◌∙◌, List, [], ◌∷◌, true, false, Option, none, some, length, ◌==◌, arith,
  Bool-cases, inl, inr, ◌↔◌, Str, str_eq, str_eq→eq, eq→str_eq, split, cons_head, starts_with,
}
use aimdb.TopicPattern.{Spans}
use aimdb.MqttGrammar.{slash, dollar, Level, literal, single, multi, MqttFilter}
use aimdb.MqttGrammar.Match.{set_span, span, cut, match_levels, matches}

-- Levels of a filter match levels of a topic: a multi-level wildcard any that are left, a single-level
-- one any one level, and a literal itself.
abbrev pub Matches : List Level → List Str → Type 0
Matches [] [] = Unit {0}
Matches [] (t ∷ ts) = ⊥
Matches (multi c ∷ ls) ts = Unit {0}
Matches (single c ∷ ls) [] = ⊥
Matches (single c ∷ ls) (t ∷ ts) = Matches ls ts
Matches (literal l ∷ ls) [] = ⊥
Matches (literal l ∷ ls) (t ∷ ts) = (l ≡ t) × Matches ls ts

-- A topic of the server, which begins with a dollar sign, is hidden from a wildcard at the head.
abbrev pub Visible : List Level → Str → Type 0
Visible [] topic = Unit {0}
Visible (literal l ∷ ls) topic = Unit {0}
Visible (single c ∷ ls) topic = starts_with dollar topic ≡ false
Visible (multi c ∷ ls) topic = starts_with dollar topic ≡ false

-- The levels of what is left of a topic.
abbrev pub rest_levels : Option Str → List Str
rest_levels none = []
rest_levels (some r) = split slash r

pub split-cut : (r : Str) → split slash r ≡ (cut r).0 ∷ rest_levels (cut r).1
unfolding split cut cons_head
split-cut [] = refl
split-cut (c ∷ r) = elim (Bool-cases (c == slash)) [
  | inl e ↦ rw e refl
  | inr e ↦ rw e (rw (split-cut r) refl)
]

pub cut-dollar : (r : Str) → starts_with dollar (cut r).0 ≡ starts_with dollar r
unfolding cut starts_with
cut-dollar [] = refl
cut-dollar (c ∷ r) = ground arith

-- Behind the first level.
later_iff :
    (topic : Str) (ls : List Level) (rest : Option Str) (pos : ℕ) (spans : Spans)
    → ((match_levels topic false ls rest pos spans).0 ≡ true) ↔ Matches ls (rest_levels rest)
unfolding match_levels
later_iff topic [] none pos spans = (λ _. tt, λ _. refl)
later_iff topic [] (some r) pos spans = rw (split-cut r) (λ e. cc e, λ m. absurd m)
later_iff topic (multi c ∷ ls) rest pos spans = (λ _. tt, λ _. refl)
later_iff topic (literal t ∷ ls) none pos spans = (λ e. cc e, λ m. absurd m)
later_iff topic (literal t ∷ ls) (some r) pos spans =
    let ih = later_iff topic ls (cut r).1 (pos + length (cut r).0 + 1) spans in
    rw (split-cut r) (elim (Bool-cases (str_eq t (cut r).0)) [
      | inl e ↦ rw e (λ m. (str_eq→eq t (cut r).0 e, ih.0 m), λ (same, m). ih.1 m)
      | inr e ↦ rw e (λ m. cc m, λ (same, m). cc (eq→str_eq t (cut r).0 same))
    ])
later_iff topic (single c ∷ ls) none pos spans = (λ e. cc e, λ m. absurd m)
later_iff topic (single c ∷ ls) (some r) pos spans =
    let ih =
      later_iff topic ls (cut r).1 (pos + length (cut r).0 + 1)
        (set_span c (span pos (pos + length (cut r).0)) spans) in
    rw (split-cut r) (λ m. ih.0 m, λ m. ih.1 m)

level_iff :
    (topic : Str) (ls : List Level) (spans : Spans)
    → ((match_levels topic true ls (some topic) 0 spans).0 ≡ true)
      ↔ (Matches ls (split slash topic) × Visible ls topic)
unfolding match_levels
level_iff topic [] spans = rw (split-cut topic) (λ e. cc e, λ m. absurd m.0)
level_iff topic (multi c ∷ ls) spans = ground arith
level_iff topic (literal t ∷ ls) spans =
    let ih = later_iff topic ls (cut topic).1 (0 + length (cut topic).0 + 1) spans in
    rw (split-cut topic) (elim (Bool-cases (str_eq t (cut topic).0)) [
      | inl e ↦ rw e (λ m. ((str_eq→eq t (cut topic).0 e, ih.0 m), tt), λ m. ih.1 m.0.1)
      | inr e ↦ rw e (λ m. cc m, λ m. cc (eq→str_eq t (cut topic).0 m.0.0))
    ])
level_iff topic (single c ∷ ls) spans =
    let ih =
      later_iff topic ls (cut topic).1 (0 + length (cut topic).0 + 1)
        (set_span c (span 0 (0 + length (cut topic).0)) spans) in
    rw (split-cut topic) (elim (Bool-cases (starts_with dollar topic)) [
      | inl e ↦ rw (cut-dollar topic ∙ e) (λ m. cc m, λ (m, v). cc (sym e ∙ v))
      | inr e ↦ rw (cut-dollar topic ∙ e) (λ m. (ih.0 m, e), λ m. ih.1 m.0)
    ])

-- A filter accepts a topic exactly when its levels match those of the topic, one by one and the
-- multi-level wildcard all that are left or none, and the topic does not begin with a dollar sign if
-- the filter begins with a wildcard; whatever the spans hold before.
pub matches_iff :
    (f : MqttFilter) (topic : Str) (spans : Spans)
    → ((matches f topic spans).0 ≡ true)
      ↔ (Matches f.levels (split slash topic) × Visible f.levels topic)
unfolding matches
matches_iff f topic spans = level_iff topic f.levels spans
