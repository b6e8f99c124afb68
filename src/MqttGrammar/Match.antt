-- ===== src/MqttGrammar/Match.antt =====
-- `is_literal` and `matches` of a filter in aimdb-mqtt-connector/src/grammar.rs.
pub mod Rules
use aimdb.Prelude.{
  ℕ, zero, suc, ◌+◌, ◌%◌, ◌^◌, List, [], ◌∷◌, ◌++◌, map, Bool, true, false, not, ◌&&◌, ◌||◌, Option,
  none, some, length, ◌==◌, if◌then◌else◌, Str, str_eq, contains, split, starts_with,
}
use aimdb.TopicPattern.{Spans}
use aimdb.MqttGrammar.{slash, plus, hash, dollar, Level, literal, single, multi, MqttFilter}

unfoldable pub all_literal : List Level → Bool
all_literal [] = true
all_literal (literal t ∷ ls) = all_literal ls
all_literal (single c ∷ ls) = false
all_literal (multi c ∷ ls) = false

unfoldable pub is_literal : MqttFilter → Bool
unfolding all_literal
is_literal f = all_literal f.levels

unfoldable pub set_span : Option ℕ → ℕ × ℕ → Spans → Spans
set_span none s spans = spans
set_span (some n) s [] = []
set_span (some zero) s (t ∷ spans) = s ∷ spans
set_span (some (suc n)) s (t ∷ spans) = t ∷ set_span (some n) s spans

abbrev pub span : ℕ → ℕ → ℕ × ℕ
span start end = (start % 2 ^ 16, end % 2 ^ 16)

-- `split_once('/')`, or all of it.
unfoldable pub cut : Str → Str × Option Str
cut [] = ([], none)
cut (c ∷ r) = let (t, next) = cut r in if c == slash then ([], some r) else (c ∷ t, next)

unfoldable pub rest_start : Option Str → ℕ → ℕ → ℕ
rest_start none pos len = len
rest_start (some r) pos len = pos

-- The loop of `matches` over the levels.
unfoldable pub match_levels : Str → Bool → List Level → Option Str → ℕ → Spans → Bool × Spans
unfolding set_span cut rest_start
match_levels topic first [] none pos spans = (true, spans)
match_levels topic first [] (some r) pos spans = (false, spans)
match_levels topic first (multi c ∷ ls) rest pos spans =
    if first && starts_with dollar topic
    then (false, spans)
    else (true, set_span c (span (rest_start rest pos (length topic)) (length topic)) spans)
match_levels topic first (literal t ∷ ls) none pos spans = (false, spans)
match_levels topic first (literal t ∷ ls) (some r) pos spans =
    let (s, next) = cut r in
    let rest = match_levels topic false ls next (pos + length s + 1) spans in
    if str_eq t s then rest else (false, spans)
match_levels topic first (single c ∷ ls) none pos spans = (false, spans)
match_levels topic first (single c ∷ ls) (some r) pos spans =
    let (s, next) = cut r in
    let rest =
      match_levels topic false ls next (pos + length s + 1)
        (set_span c (span pos (pos + length s)) spans) in
    if first && starts_with dollar s then (false, spans) else rest

unfoldable pub matches : MqttFilter → Str → Spans → Bool × Spans
unfolding match_levels
matches f topic spans = match_levels topic true f.levels (some topic) 0 spans
