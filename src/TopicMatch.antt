-- ===== src/TopicMatch.antt =====
-- aimdb-core/src/session/topic_match.rs: patterns over dot-separated record keys, with `*` for one
-- segment and `#` for any number. An iterator `str::split` is the list of the pieces that it has
-- still to yield, so that cloning it is free and `next` is a match.
pub mod Matches
pub mod Walk
pub mod Literal
pub mod Contains
mod Tests
use aimdb.Prelude.{
  ℕ, zero, suc, ◌+◌, ◌*◌, Bool, true, false, not, ◌&&◌, ◌||◌, List, [], ◌∷◌, Option, none, some,
  length, get_elem?, ◌==◌, if◌then◌else◌, Str, str_eq, contains, starts_with, strip_suffix, split,
}

abbrev pub Segments : Type 0
Segments = List Str

abbrev pub star : Str
star = b'*' ∷ []

abbrev pub hash : Str
hash = b'#' ∷ []

abbrev pub dot_hash : Str
dot_hash = b'.' ∷ b'#' ∷ []

abbrev pub segments : Str → Segments
segments = split b'.'

-- `resume`: the pattern behind the latest `#`, and where that `#` stops absorbing.
abbrev pub Resume : Type 0
Resume = Option (Segments × Segments)

-- What one round of the loop does: go on with new `pat`, `sub` and `resume`, or return.
pub data Round : Type 0 where
  go : Segments → Segments → Resume → Round
  return : Bool → Round

-- The last arm of the `match`.
pub backtrack : Resume → Round
backtrack none = return false
backtrack (some (pat_after_hash, [])) = return false
backtrack (some (pat_after_hash, s ∷ grown)) =
    go pat_after_hash grown (some (pat_after_hash, grown))

-- Rounds that are enough for `m` pattern and `n` subject segments.
abbrev pub rounds : ℕ → ℕ → ℕ
rounds m n = (n + 2) * (m + 1)

module _ (covers : Str → Str → Bool) where
  pub literal_arm : Str → Segments → Segments → Resume → Round
  literal_arm p pat_rest [] resume = backtrack resume
  literal_arm p pat_rest (s ∷ sub_rest) resume =
      if covers p s then go pat_rest sub_rest resume else backtrack resume

  pub round : Segments → Segments → Resume → Round
  unfolding backtrack literal_arm
  round [] [] resume = return true
  round [] (s ∷ sub) resume = backtrack resume
  round (p ∷ pat_rest) sub resume =
      if str_eq p hash
      then go pat_rest sub (some (pat_rest, sub))
      else literal_arm p pat_rest sub resume

  -- The `loop`; `none` when the fuel runs out.
  pub walk : ℕ → Segments → Segments → Resume → Option Bool
  walk zero pat sub resume = none
  walk (suc fuel) pat sub resume = elim (round pat sub resume) [
    | go pat' sub' resume' ↦ walk fuel pat' sub' resume'
    | return b ↦ some b
  ]

  pub match_segments : Str → Str → Option Bool
  match_segments pattern subject =
      walk (rounds (length (segments pattern)) (length (segments subject))) (segments pattern)
        (segments subject) none

-- A pattern segment covers a topic segment.
pub topic_covers : Str → Str → Bool
topic_covers p t = str_eq p star || str_eq p t

-- A segment of a grant covers a segment of a requested pattern.
pub grant_covers : Str → Str → Bool
grant_covers g r = if str_eq g star then not (str_eq r hash) else str_eq g r

pub is_dot : Option ℕ → Bool
is_dot none = false
is_dot (some c) = c == b'.'

-- The test for `prefix.#` with a literal prefix.
pub under_prefix : Str → Str → Bool
unfolding is_dot
under_prefix prefix topic =
    starts_with prefix topic
    && (length topic == length prefix || is_dot (get_elem? topic (length prefix)))

pub prefix_arm : Option Str → Str → Str → Option Bool
prefix_arm none pattern topic = match_segments topic_covers pattern topic
prefix_arm (some prefix) pattern topic =
    if not (contains b'*' prefix) && not (contains b'#' prefix)
    then some (under_prefix prefix topic)
    else match_segments topic_covers pattern topic

pub topic_matches : Str → Str → Option Bool
unfolding prefix_arm
topic_matches pattern topic =
    if str_eq pattern topic
    then some true
    else if str_eq pattern hash
    then some true
    else prefix_arm (strip_suffix dot_hash pattern) pattern topic

pub is_wildcard : Str → Bool
is_wildcard pattern = contains b'#' pattern || contains b'*' pattern

pub pattern_contains : Str → Str → Option Bool
pattern_contains grant requested = match_segments grant_covers grant requested
