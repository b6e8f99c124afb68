-- ===== src/MqttGrammar.antt =====
-- aimdb-mqtt-connector/src/grammar.rs: MQTT topic filters as a grammar of topic patterns. The texts of
-- the errors are left out, but not their kinds. A span of two `u16` is a pair of numbers below 2 ^ 16.
pub mod Compile
pub mod Cover
pub mod Match
pub mod Routes
mod Tests
use aimdb.Prelude.{ℕ, List, [], ◌∷◌, Option, Str}

abbrev pub slash : ℕ
slash = b'/'

abbrev pub plus : Str
plus = b'+' ∷ []

abbrev pub hash : Str
hash = b'#' ∷ []

abbrev pub dollar : Str
dollar = b'$' ∷ []

pub data Level : Type 0 where
  literal : Str → Level
  single multi : Option ℕ → Level

pub record MqttFilter : Type 0 where
  pub filter : Str
  pub levels : List Level
