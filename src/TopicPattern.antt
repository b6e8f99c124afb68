-- ===== src/TopicPattern.antt =====
-- aimdb-core/src/topic_pattern.rs: the parser of inbound topic patterns, in which `{name}` captures a
-- level and `{name..}` the rest. The texts of the errors are left out, but not their kinds.
pub mod Printing
pub mod Names
mod Tests
use aimdb.Prelude.{
  ℕ, zero, suc, ◌+◌, List, [], ◌∷◌, ◌++◌, Bool, true, false, not, ◌&&◌, ◌||◌, Option, none, some,
  length, get_elem?, take, drop, ◌-◌, leb, ◌==◌, if◌then◌else◌, Str, str_eq, strip_suffix,
}
use mathlib.Core.Option

abbrev pub max_captures : ℕ
max_captures = 8

-- Byte range of each capture, `max_captures` of them.
abbrev pub Spans : Type 0
Spans = List (ℕ × ℕ)

pub data PatternPart : Type 0 where
  text : Str → PatternPart
  capture : Str → Bool → PatternPart

pub data PatternError : Type 0 where
  unbalanced_close unbalanced_open empty_name too_many : PatternError
  bad_name twice : Str → PatternError

-- `Result<Vec<PatternPart>, PatternError>`; a `TopicPattern` holds these beside the topic.
pub data Parsed : Type 0 where
  ok : List PatternPart → Parsed
  err : PatternError → Parsed

abbrev pub open_brace : ℕ
open_brace = b'{'

abbrev pub close_brace : ℕ
close_brace = b'}'

abbrev pub dots : Str
dots = b'.' ∷ b'.' ∷ []

-- `find(['{', '}'])`: what stands before the first brace, the brace, and what stands behind it.
abbrev pub Cut : Type 0
Cut = Str × ℕ × Str

abbrev pub before_brace : ℕ → Option Cut → Option Cut
before_brace c none = none
before_brace c (some (a, b, s)) = some (c ∷ a, b, s)

unfoldable pub find_brace : Str → Option Cut
find_brace [] = none
find_brace (c ∷ s) =
    let rest = find_brace s in
    if c == open_brace || c == close_brace then some ([], c, s) else before_brace c rest

-- The name of a capture, and whether it takes the rest.
pub name_of : Str → Str × Bool
name_of body = elim (strip_suffix dots body) [ none ↦ (body, false) | some name ↦ (name, true) ]

pub is_name_byte : ℕ → Bool
is_name_byte c =
    (leb b'a' c && leb c b'z')
    || (leb b'A' c && leb c b'Z')
    || (leb b'0' c && leb c b'9')
    || c == b'_'

unfoldable pub all_name_bytes : Str → Bool
all_name_bytes [] = true
all_name_bytes (c ∷ s) = is_name_byte c && all_name_bytes s

unfoldable pub has_capture : Str → List PatternPart → Bool
has_capture name [] = false
has_capture name (text t ∷ parts) = has_capture name parts
has_capture name (capture n multi ∷ parts) = str_eq n name || has_capture name parts

pub is_empty : Str → Bool
is_empty [] = true
is_empty (c ∷ s) = false

-- The checks on a capture, in the code's order.
pub check_name : Str → List PatternPart → ℕ → Option PatternError
unfolding is_empty
check_name name parts captures =
    if is_empty name
    then some empty_name
    else if not (all_name_bytes name)
    then some (bad_name name)
    else if has_capture name parts
    then some (twice name)
    else if captures == max_captures
    then some too_many
    else none

unfoldable pub push_text : List PatternPart → Str → List PatternPart
push_text parts [] = parts
push_text parts (c ∷ s) = parts ++ (text (c ∷ s) ∷ [])

-- What a round of the loop does with `rest`: it is done, fails, or goes on.
pub data Round : Type 0 where
  done : List PatternPart → Round
  failed : PatternError → Round
  go : List PatternPart → ℕ → Str → Round

pub captured : List PatternPart → ℕ → Str → Str → Bool → Str → Round
unfolding check_name push_text
captured parts captures before name multi rest = elim (check_name name parts captures) [
  | some e ↦ failed e
  | none ↦ go (push_text parts before ++ (capture name multi ∷ [])) (captures + 1) rest
]

-- The brace that follows an open one has to be a closing one.
pub closed : List PatternPart → ℕ → Str → Option Cut → Round
unfolding captured name_of
closed parts captures before none = failed unbalanced_open
closed parts captures before (some (body, brace, rest)) =
    if brace == close_brace
    then (let (name, multi) = name_of body in captured parts captures before name multi rest)
    else failed unbalanced_open

pub opened : List PatternPart → ℕ → Str → Option Cut → Round
unfolding closed push_text
opened parts captures rest none = done (push_text parts rest)
opened parts captures rest (some (before, brace, after)) =
    if brace == close_brace
    then failed unbalanced_close
    else closed parts captures before (find_brace after)

-- The `while` loop; `none` when the fuel runs out.
pub parse_loop : ℕ → List PatternPart → ℕ → Str → Option Parsed
unfolding opened
parse_loop zero parts captures rest = none
parse_loop (suc fuel) parts captures rest = elim (opened parts captures rest (find_brace rest)) [
  | done parts' ↦ some (ok parts')
  | failed e ↦ some (err e)
  | go parts' captures' rest' ↦ parse_loop fuel parts' captures' rest'
]

pub parse : Str → Option Parsed
parse topic = parse_loop (suc (length topic)) [] 0 topic

unfoldable pub capture_names : List PatternPart → List Str
capture_names [] = []
capture_names (text t ∷ parts) = capture_names parts
capture_names (capture name multi ∷ parts) = name ∷ capture_names parts

unfoldable pub has_captures : List PatternPart → Bool
has_captures [] = false
has_captures (text t ∷ parts) = has_captures parts
has_captures (capture name multi ∷ parts) = true

-- `ExactGrammar::compile` of a topic with its parts: the filter, unless there are captures.
unfoldable pub compile : Str → List PatternPart → Option Str
compile topic parts = if has_captures parts then none else some topic

-- `ExactFilter::matches`.
unfoldable pub exact_matches : Str → Str → Bool
exact_matches filter topic = str_eq topic filter

-- The topic that a pattern route matched. A key is its number.
pub record TopicMatch : Type 0 where
  pub topic : Str
  pub names : List Str
  pub spans : Spans
  pub key : Option ℕ

-- A byte that does not continue a character.
abbrev pub starts_char : Option ℕ → Bool
starts_char none = false
starts_char (some b) = not (leb 128 b && leb b 191)

-- `str::is_char_boundary`.
abbrev pub is_boundary : Str → ℕ → Bool
is_boundary s i = i == 0 || i == length s || starts_char (get_elem? s i)

-- `str::get` of a range.
unfoldable pub slice : Str → ℕ → ℕ → Option Str
slice s start end =
    if leb start end && leb end (length s) && is_boundary s start && is_boundary s end
    then some (take (end - start) (drop start s))
    else none

unfoldable pub name_position : Str → List Str → Option ℕ
name_position name [] = none
name_position name (n ∷ names) =
    if str_eq n name then some 0 else Option.map suc (name_position name names)

unfoldable pub slice_at : Str → Option (ℕ × ℕ) → Option Str
unfolding slice
slice_at topic none = none
slice_at topic (some (start, end)) = slice topic start end

-- `TopicMatch::get`.
unfoldable pub get : TopicMatch → Str → Option Str
unfolding name_position slice_at
get m name = elim (name_position name m.names) [
  | none ↦ none
  | some i ↦ slice_at m.topic (get_elem? m.spans i)
]
