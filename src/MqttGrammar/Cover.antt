-- ===== src/MqttGrammar/Cover.antt =====
-- `covers` of the MQTT grammar in aimdb-mqtt-connector/src/grammar.rs.
pub mod Sound
use aimdb.Prelude.{
  ℕ, zero, suc, ◌+◌, ◌%◌, ◌^◌, List, [], ◌∷◌, ◌++◌, map, Bool, true, false, not, ◌&&◌, ◌||◌, Option,
  none, some, length, ◌==◌, if◌then◌else◌, Str, str_eq, contains, split, starts_with,
}
use aimdb.MqttGrammar.{slash, plus, hash, dollar, Level, literal, single, multi, MqttFilter}

-- `covers` at level 0, and at a later one.
unfoldable pub covers_levels : Bool → List Str → List Str → Bool
covers_levels first [] [] = true
covers_levels first [] (y ∷ b) = false
covers_levels first (x ∷ a) [] = str_eq x hash
covers_levels first (x ∷ a) (y ∷ b) =
    let rest = covers_levels false a b in
    if str_eq x hash
    then not (first && starts_with dollar y)
    else if str_eq x plus && not (str_eq y hash)
    then (if first && starts_with dollar y then false else rest)
    else str_eq x y && not (str_eq x plus) && rest

unfoldable pub covers : Str → Str → Bool
unfolding covers_levels
covers a b = covers_levels true (split slash a) (split slash b)
