-- ===== src/MqttGrammar/Compile.antt =====
-- `compile` of the MQTT grammar in aimdb-mqtt-connector/src/grammar.rs.
pub mod Clean
pub mod Filter
use aimdb.Prelude.{
  ℕ, zero, suc, ◌+◌, ◌%◌, ◌^◌, List, [], ◌∷◌, ◌++◌, map, Bool, true, false, not, ◌&&◌, ◌||◌, Option,
  none, some, length, ◌==◌, if◌then◌else◌, Str, str_eq, contains, split, starts_with,
}
use aimdb.MqttGrammar.{slash, plus, hash, dollar, Level, literal, single, multi, MqttFilter}
use aimdb.TopicPattern.{PatternPart, text, capture}

pub record RawLevel : Type 0 where
  pub text : Str
  pub capture : Option (ℕ × Bool)

pub data CompileError : Type 0 where
  capture_in_level multi_not_last : CompileError
  wildcard_in_level : Str → CompileError

pub data Compiled (A : Type 0) : Type 0 where
  ok : (made : A) → Compiled A
  err : (reason : CompileError) → Compiled A

-- The operator `?`: the first error ends the compilation.
abbrev pub unless_err : {A B : Type 0} → (A → Compiled B) → Compiled A → Compiled B
unless_err next (ok made) = next made
unless_err next (err reason) = err reason

abbrev pub empty_level : RawLevel
empty_level = record { text = []; capture = none }

-- `if let Some(level) = raw.last_mut()`.
unfoldable pub modify_last : (RawLevel → RawLevel) → List RawLevel → List RawLevel
modify_last f [] = []
modify_last f (r ∷ []) = f r ∷ []
modify_last f (r ∷ s ∷ raw) = r ∷ modify_last f (s ∷ raw)

unfoldable pub push_str : Str → RawLevel → RawLevel
push_str segment r = record r { text = r.text ++ segment }

-- The segments of a text, each after the first on a level of its own.
unfoldable pub add_segments : List Str → List RawLevel → List RawLevel
unfolding modify_last push_str
add_segments [] raw = raw
add_segments (s ∷ segments) raw =
    add_segments segments (modify_last (push_str s) (raw ++ (empty_level ∷ [])))

unfoldable pub add_text : List Str → List RawLevel → List RawLevel
unfolding add_segments
add_text [] raw = raw
add_text (s ∷ segments) raw = add_segments segments (modify_last (push_str s) raw)

unfoldable pub has_capture : List RawLevel → Bool
has_capture [] = false
has_capture (r ∷ []) = elim r.capture [ none ↦ false | some c ↦ true ]
has_capture (r ∷ s ∷ raw) = has_capture (s ∷ raw)

unfoldable pub set_capture : ℕ → Bool → RawLevel → RawLevel
set_capture n m r = record r { capture = some (n, m) }

-- The loop over the parts.
unfoldable pub raw_levels : List PatternPart → ℕ → List RawLevel → Compiled (List RawLevel)
unfolding add_text has_capture set_capture
raw_levels [] captures raw = ok raw
raw_levels (text t ∷ parts) captures raw = raw_levels parts captures (add_text (split slash t) raw)
raw_levels (capture name m ∷ parts) captures raw =
    let rest = raw_levels parts (suc captures) (modify_last (set_capture captures m) raw) in
    if has_capture raw then err capture_in_level else rest

unfoldable pub uncaptured : Str → Compiled Level
uncaptured t =
    if str_eq t plus
    then ok (single none)
    else if str_eq t hash
    then ok (multi none)
    else if contains b'+' t || contains b'#' t
    then err (wildcard_in_level t)
    else ok (literal t)

unfoldable pub level_of : Str → Option (ℕ × Bool) → Compiled Level
unfolding uncaptured
level_of t none = uncaptured t
level_of [] (some (n, false)) = ok (single (some n))
level_of [] (some (n, true)) = ok (multi (some n))
level_of (c ∷ t) (some (n, m)) = err capture_in_level

unfoldable pub check_last : Level → List RawLevel → Compiled Level
check_last (multi c) (r ∷ raw) = err multi_not_last
check_last (multi c) [] = ok (multi c)
check_last (literal t) raw = ok (literal t)
check_last (single c) raw = ok (single c)

-- The loop over the raw levels; a level is the last one if none follows.
unfoldable pub to_levels : List RawLevel → Compiled (List Level)
unfolding level_of check_last
to_levels [] = ok []
to_levels (r ∷ raw) =
    let others = to_levels raw in
    unless_err (λ l. unless_err (λ l'. unless_err (λ ls. ok (l' ∷ ls)) others) (check_last l raw))
      (level_of r.text r.capture)

unfoldable pub shown : Level → Str
shown (literal t) = t
shown (single c) = plus
shown (multi c) = hash

unfoldable pub join : List Str → Str
join [] = []
join (s ∷ []) = s
join (s ∷ t ∷ ss) = s ++ (slash ∷ join (t ∷ ss))

unfoldable pub filter_of : List Level → MqttFilter
unfolding shown join
filter_of levels = record { filter = join (map shown levels); levels = levels }

unfoldable pub compile : List PatternPart → Compiled MqttFilter
unfolding raw_levels to_levels filter_of
compile parts =
    unless_err (λ raw. unless_err (λ levels. ok (filter_of levels)) (to_levels raw))
      (raw_levels parts 0 (empty_level ∷ []))
