-- ===== src/MqttGrammar/Tests.antt =====
-- Runs of aimdb-mqtt-connector/src/grammar.rs, and the theorems at them.
use aimdb.Prelude.{
  ◌≡◌, ◌↔◌, refl, List, [], ◌∷◌, true, false, none, some, Str, str_eq, split, cons_head, contains,
  starts_with,
}
use mathlib.Core.List.{Memᴰ}
use aimdb.TopicPattern.{PatternPart, text, capture, max_captures}
use aimdb.MqttGrammar.{MqttFilter, single, multi, literal}
use aimdb.MqttGrammar.Compile.{ok, err, multi_not_last, compile}
use aimdb.MqttGrammar.Compile.Filter.{compile-FilterMatches}
use aimdb.MqttGrammar.Cover.{covers}
use aimdb.MqttGrammar.Cover.Sound.{FilterMatches, covers_sound}
use aimdb.MqttGrammar.Match.{matches, is_literal}
use aimdb.MqttGrammar.Routes.{topic_filter, IsCompiled, subscriptions-FilterMatches}
use aimdb.Router.{
  CompiledRoute, pattern, route_matches, str_le, resource_ids, subscriptions, no_spans,
}

-- "a/{x}/#"
abbrev parts : List PatternPart
parts = text (b'a' ∷ b'/' ∷ []) ∷ capture (b'x' ∷ []) false ∷ text (b'/' ∷ b'#' ∷ []) ∷ []

-- "a/+/#"
abbrev filter_text : Str
filter_text = b'a' ∷ b'/' ∷ b'+' ∷ b'/' ∷ b'#' ∷ []

abbrev compiled : MqttFilter
compiled = record {
  filter = filter_text;
  levels = literal (b'a' ∷ []) ∷ single (some 0) ∷ multi none ∷ [];
}

-- "a/bc/d"
abbrev topic : Str
topic = b'a' ∷ b'/' ∷ b'b' ∷ b'c' ∷ b'/' ∷ b'd' ∷ []

compiles : compile parts ≡ ok compiled
unfolding compile split cons_head str_eq contains
compiles = refl

-- "{x..}/b"
rest_in_the_middle :
    compile (capture (b'x' ∷ []) true ∷ text (b'/' ∷ b'b' ∷ []) ∷ []) ≡ err multi_not_last
unfolding compile split cons_head str_eq contains
rest_in_the_middle = refl

matched : matches compiled topic (no_spans 2) ≡ (true, (2, 4) ∷ (0, 0) ∷ [])
unfolding matches str_eq starts_with no_spans
matched = refl

compile-FilterMatches_example :
    ((matches compiled topic (no_spans max_captures)).0 ≡ true) ↔ FilterMatches filter_text topic
compile-FilterMatches_example =
    compile-FilterMatches parts compiled topic (no_spans max_captures) compiles

-- "a/#"
abbrev wide : Str
wide = b'a' ∷ b'/' ∷ b'#' ∷ []

covers-wide : covers wide filter_text ≡ true
unfolding covers split cons_head str_eq
covers-wide = refl

matched_by_filter : FilterMatches filter_text topic
unfolding split cons_head str_eq
matched_by_filter = ((refl, tt), tt)

covers_sound_example : FilterMatches wide topic
covers_sound_example = covers_sound wide filter_text topic covers-wide matched_by_filter

abbrev narrow_route : CompiledRoute
narrow_route = pattern (topic_filter compiled) (((b'x' ∷ [])) ∷ []) none 7

-- The pattern "a/#".
abbrev wide_parts : List PatternPart
wide_parts = text wide ∷ []

abbrev wide_compiled : MqttFilter
wide_compiled = record { filter = wide; levels = literal (b'a' ∷ []) ∷ multi none ∷ [] }

abbrev routes : List CompiledRoute
routes = narrow_route ∷ pattern (topic_filter wide_compiled) [] none 8 ∷ []

narrow_route-IsCompiled : IsCompiled narrow_route
narrow_route-IsCompiled = record {
  parts = parts;
  compiled = compiled;
  compiles = compiles;
  names = (b'x' ∷ []) ∷ [];
  key = none;
  ingest = 7;
  made = refl;
}

narrow_accepts : (route_matches narrow_route topic (no_spans max_captures)).0 ≡ true
unfolding route_matches pattern matches is_literal str_eq starts_with
narrow_accepts = refl

subscriptions-FilterMatches_example :
    (b : Str) × Memᴰ b (subscriptions covers routes) × FilterMatches b topic
subscriptions-FilterMatches_example =
    subscriptions-FilterMatches routes narrow_route topic (no_spans max_captures)
      narrow_route-IsCompiled (Memᴰ.head refl) narrow_accepts

only_wide : subscriptions covers routes ≡ wide ∷ []
unfolding subscriptions resource_ids str_le pattern covers split cons_head str_eq
only_wide = refl
