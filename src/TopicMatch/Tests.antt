-- ===== src/TopicMatch/Tests.antt =====
-- Examples for the patterns.
use aimdb.Prelude.{
  ◌≡◌, refl, true, false, [], ◌∷◌, some, Str, str_eq, strip_suffix, split, contains,
}
use aimdb.TopicMatch.{
  segments, round, walk, match_segments, topic_covers, grant_covers, topic_matches, is_wildcard,
  pattern_contains,
}
use aimdb.TopicMatch.Matches.{Matches, glob}
use aimdb.TopicMatch.Walk.{match_segments-glob}
use aimdb.TopicMatch.Contains.{pattern_contains_sound}

abbrev a_hash : Str
a_hash = b'a' ∷ b'.' ∷ b'#' ∷ []

abbrev a_star : Str
a_star = b'a' ∷ b'.' ∷ b'*' ∷ []

abbrev a_hash_c : Str
a_hash_c = b'a' ∷ b'.' ∷ b'#' ∷ b'.' ∷ b'c' ∷ []

abbrev a_b : Str
a_b = b'a' ∷ b'.' ∷ b'b' ∷ []

abbrev a_b_c : Str
a_b_c = b'a' ∷ b'.' ∷ b'b' ∷ b'.' ∷ b'c' ∷ []

interior_hash : topic_matches a_hash_c a_b_c ≡ some true
unfolding topic_matches match_segments walk round topic_covers str_eq strip_suffix split
interior_hash = refl

interior_hash_misses : topic_matches a_hash_c a_b ≡ some false
unfolding topic_matches match_segments walk round topic_covers str_eq strip_suffix split
interior_hash_misses = refl

star_denies_hash : pattern_contains a_star a_hash ≡ some false
unfolding pattern_contains match_segments walk round grant_covers str_eq split
star_denies_hash = refl

hash_grants_star : pattern_contains a_hash a_star ≡ some true
unfolding pattern_contains match_segments walk round grant_covers str_eq split
hash_grants_star = refl

star_matches : topic_matches a_star a_b ≡ some true
unfolding topic_matches match_segments walk round topic_covers str_eq strip_suffix split
star_matches = refl

a_b-concrete : is_wildcard a_b ≡ false
unfolding is_wildcard contains
a_b-concrete = refl

pattern_contains_sound_example : topic_matches a_hash a_b ≡ some true
pattern_contains_sound_example =
    pattern_contains_sound a_hash a_star a_b hash_grants_star star_matches

match_segments-glob_example :
    match_segments grant_covers a_hash_c a_b_c
    ≡ some (glob grant_covers (segments a_hash_c) (segments a_b_c))
match_segments-glob_example = match_segments-glob grant_covers a_hash_c a_b_c
