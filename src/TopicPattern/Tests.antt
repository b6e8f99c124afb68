-- ===== src/TopicPattern/Tests.antt =====
-- Examples for the pattern parser: `a/{id}/{rest..}`.
use aimdb.Prelude.{◌≡◌, refl, [], ◌∷◌, true, false, some, List, Str, str_eq, strip_suffix}
use aimdb.TopicPattern.{
  PatternPart, text, capture, ok, err, unbalanced_open, is_name_byte, all_name_bytes, has_capture,
  find_brace, parse_loop, parse,
}
use aimdb.TopicPattern.Printing.{Outcome, parse-Outcome}
use aimdb.TopicPattern.Names.{IsValid, parse-IsValid}

abbrev topic : Str
topic = b'a' ∷ b'/' ∷ b'{' ∷ b'i' ∷ b'd' ∷ b'}' ∷ b'/' ∷ b'{' ∷ b'r' ∷ b'.' ∷ b'.' ∷ b'}' ∷ []

abbrev topic_parts : List PatternPart
topic_parts =
    text (b'a' ∷ b'/' ∷ [])
    ∷ capture (b'i' ∷ b'd' ∷ []) false
    ∷ text (b'/' ∷ [])
    ∷ capture (b'r' ∷ []) true
    ∷ []

parsed_topic : parse topic ≡ some (ok topic_parts)
unfolding parse parse_loop find_brace strip_suffix str_eq all_name_bytes is_name_byte has_capture
parsed_topic = refl

open_only : parse (b'{' ∷ b'a' ∷ []) ≡ some (err unbalanced_open)
unfolding parse parse_loop find_brace
open_only = refl

parse-Outcome_example : Outcome topic (parse topic)
parse-Outcome_example = parse-Outcome topic

parse-IsValid_example : IsValid topic_parts
parse-IsValid_example = parse-IsValid topic topic_parts parsed_topic
