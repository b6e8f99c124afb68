-- ===== src/MqttGrammar/Routes.antt =====
-- A router over the MQTT grammar: what its routes accept is subscribed.
use aimdb.Prelude.{
  ℕ, ◌^◌, ◌-◌, ◌≡◌, sym, ap, ◌∙◌, Bool, true, false, List, Option, length, leb, if◌then◌else◌,
  All-Memᴰ, Bool-cases, inl, inr, Str, str_eq→eq, subst,
}
use mathlib.Core.List.{Memᴰ}
use aimdb.TopicPattern.{PatternPart, Spans}
use aimdb.MqttGrammar.{MqttFilter}
use aimdb.MqttGrammar.Compile.{ok, compile}
use aimdb.MqttGrammar.Compile.Filter.{compile-FilterMatches, is_literal-FilterMatches}
use aimdb.MqttGrammar.Cover.{covers}
use aimdb.MqttGrammar.Cover.Sound.{FilterMatches, covers_sound, covers_refl, covers_trans}
use aimdb.MqttGrammar.Match.{matches, is_literal}
use aimdb.Router.{TopicFilter, CompiledRoute, pattern, route_matches, matches_by, subscriptions}
use aimdb.Router.Beats.{CoversLaws}
use aimdb.Router.Subscriptions.{subscriptions_lem}

-- `TopicFilter` of an MQTT filter.
abbrev pub topic_filter : MqttFilter → TopicFilter
topic_filter f = record { filter = f.filter; is_literal = is_literal f; matches = matches f }

-- A route made from a pattern that compiles.
pub record IsCompiled (r : CompiledRoute) : Type 0 where
  pub parts : List PatternPart
  pub compiled : MqttFilter
  pub compiles : compile parts ≡ ok compiled
  pub names : List Str
  pub key : Option (ℕ × ℕ)
  pub ingest : ℕ
  pub made : r ≡ pattern (topic_filter compiled) names key ingest

pub covers-CoversLaws : CoversLaws covers
covers-CoversLaws = record { covers_refl = covers_refl; covers_trans = covers_trans }

within :
    (short : Bool) (r : Bool × Spans) (spans : Spans)
    → (if short then r else (false, spans)).0 ≡ true
    → r.0 ≡ true
within true r spans h = h
within false r spans h = absurd (cc h)

pattern_accepts :
    (parts : List PatternPart) (f : MqttFilter) (names : List Str) (key : Option (ℕ × ℕ))
    (ingest : ℕ) (topic : Str) (spans : Spans)
    → compile parts ≡ ok f
    → (route_matches (pattern (topic_filter f) names key ingest) topic spans).0 ≡ true
    → FilterMatches f.filter topic
unfolding route_matches matches_by pattern
pattern_accepts parts f names key ingest topic spans e h = elim (Bool-cases (is_literal f)) [
  | inl lit ↦
      (is_literal-FilterMatches parts f topic e lit).1 (str_eq→eq f.filter topic (rw lit at h))
  | inr not_lit ↦
      (compile-FilterMatches parts f topic spans e).0
        (within (leb (length topic) (2 ^ 16 - 1)) (matches f topic spans) spans (rw not_lit at h))
]

-- Every topic that a route of an MQTT router accepts is matched, as a broker reads it, by one of the
-- filters that the router subscribes, whatever else is routed.
pub subscriptions-FilterMatches :
    (routes : List CompiledRoute) (r : CompiledRoute) (topic : Str) (spans : Spans)
    → IsCompiled r
    → Memᴰ r routes
    → (route_matches r topic spans).0 ≡ true
    → (b : Str) × Memᴰ b (subscriptions covers routes) × FilterMatches b topic
unfolding pattern
subscriptions-FilterMatches routes r topic spans c mem h =
    let (above, apart) = subscriptions_lem covers covers-CoversLaws routes in
    let (b, b_mem, cover) =
      All-Memᴰ
        (λ (s : CompiledRoute).
          (b : Str) × Memᴰ b (subscriptions covers routes) × (covers b s.filter ≡ true))
        r routes above mem in
    let accepted =
      pattern_accepts c.parts c.compiled c.names c.key c.ingest topic spans c.compiles
        (ap (λ (s : CompiledRoute). (route_matches s topic spans).0) (sym c.made) ∙ h) in
    let same : r.filter ≡ c.compiled.filter = ap (λ (s : CompiledRoute). s.filter) c.made in
    (
      b,
      b_mem,
      covers_sound b r.filter topic cover (subst (λ f. FilterMatches f topic) (sym same) accepted),
    )
