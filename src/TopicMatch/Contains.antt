-- ===== src/TopicMatch/Contains.antt =====
-- `pattern_contains`, the access check on a requested pattern.
use aimdb.Prelude.{
  ◌≡◌, refl, sym, ap, ◌∙◌, ◌≢◌, Bool, true, false, [], ◌∷◌, some, arith, Str, str_eq→eq, eq→str_eq,
  str_eq_refl, contains, All,
}
use aimdb.TopicMatch.{
  Segments, star, hash, segments, topic_covers, grant_covers, topic_matches, is_wildcard,
  pattern_contains,
}
use aimdb.TopicMatch.Matches.{Matches, done, none_left, one_more, segment, glob, glob_iff}
use aimdb.TopicMatch.Walk.{match_segments-glob}
use aimdb.TopicMatch.Literal.{topic_matches-glob, topic_matches_iff, segments-All, ne_single}

-- A requested segment that a grant's segment covers stands for one topic segment, which it covers too.
covers_trans :
    (g r t : Str)
    → grant_covers g r ≡ true
    → g ≢ hash
    → topic_covers r t ≡ true
    → topic_covers g t ≡ true
unfolding grant_covers topic_covers
covers_trans g r t a n b = ground (
  arith,
  str_eq→eq g star,
  str_eq→eq g r,
  str_eq→eq r star,
  str_eq→eq r t,
  str_eq_refl g,
  str_eq_refl star,
)

grant_hash : (g r : Str) → grant_covers g r ≡ true → g ≢ hash → r ≡ hash → ⊥
unfolding grant_covers
grant_hash g r v n e = ground (arith, str_eq→eq g r, str_eq→eq g star, eq→str_eq r hash e, n)

contained :
    {gs rs ts : Segments}
    → Matches grant_covers gs rs
    → Matches topic_covers rs ts
    → Matches topic_covers gs ts
contained done m = m
contained (none_left e c) m = none_left e (contained c m)
contained (one_more e c) (none_left f m) = contained c m
contained (one_more e c) (one_more f m) = one_more e (contained (one_more e c) m)
contained (one_more e c) (segment n v m) = one_more e (contained c m)
contained (segment {p = g} {s = r} n v c) (none_left e m) = absurd (grant_hash g r v n e)
contained (segment {p = g} {s = r} n v c) (one_more e m) = absurd (grant_hash g r v n e)
contained (segment {p = g} {s = r} n v c) (segment {s = t} n' v' m) =
    segment n (covers_trans g r t v n v') (contained c m)

-- `pattern_contains` never widens a grant: if it says yes, then every topic that the requested
-- pattern matches, the grant matches.
pub pattern_contains_sound :
    (grant requested topic : Str)
    → pattern_contains grant requested ≡ some true
    → topic_matches requested topic ≡ some true
    → topic_matches grant topic ≡ some true
unfolding pattern_contains
pattern_contains_sound grant requested topic h m =
    let walked = match_segments-glob grant_covers grant requested in
    let c = (glob_iff grant_covers _ _).0 (ground (arith, walked, h)) in
    (topic_matches_iff grant topic).1 (contained c ((topic_matches_iff requested topic).0 m))

Matches-map :
    (c c' : Str → Str → Bool) {gs rs : Segments}
    → All (λ r. (g : Str) → c g r ≡ true → c' g r ≡ true) rs
    → Matches c gs rs
    → Matches c' gs rs
Matches-map c c' h done = done
Matches-map c c' h (none_left e m) = none_left e (Matches-map c c' h m)
Matches-map c c' h (one_more e m) = one_more e (Matches-map c c' h.1 m)
Matches-map c c' h (segment {p = g} n v m) = segment n (h.0 g v) (Matches-map c c' h.1 m)

eq_of_iff : (a b : Bool) → (a ≡ true → b ≡ true) → (b ≡ true → a ≡ true) → a ≡ b
eq_of_iff true b h k = sym (h refl)
eq_of_iff false true h k = k refl
eq_of_iff false false h k = refl

All-map : {P Q : Str → Type 0} (rs : Segments) → ((r : Str) → P r → Q r) → All P rs → All Q rs
All-map [] f a = a
All-map (r ∷ rs) f a = (f r a.0, All-map rs f a.1)

same_cover : (r : Str) → contains b'#' r ≡ false → (g : Str) → grant_covers g r ≡ topic_covers g r
unfolding grant_covers topic_covers
same_cover r h g = ground (arith, ne_single b'#' r h)

-- On a requested pattern with no wildcard, containment is topic matching.
pattern_contains-concrete :
    (grant requested : Str)
    → is_wildcard requested ≡ false
    → pattern_contains grant requested ≡ topic_matches grant requested
unfolding pattern_contains is_wildcard
pattern_contains-concrete grant requested h =
    match_segments-glob grant_covers grant requested
    ∙ ap some (eq_of_iff _ _ (forth) (back))
    ∙ sym (topic_matches-glob grant requested)
  where
    plain : All (λ p. contains b'#' p ≡ false) (segments requested)
    plain = segments-All b'#' requested (ground arith)

    forth :
        glob grant_covers (segments grant) (segments requested) ≡ true
        → glob topic_covers (segments grant) (segments requested) ≡ true
    forth e = (glob_iff topic_covers _ _).1 (
        Matches-map grant_covers topic_covers
          (All-map (segments requested) (λ r p g v. sym (same_cover r p g) ∙ v) plain)
          ((glob_iff grant_covers _ _).0 e))

    back :
        glob topic_covers (segments grant) (segments requested) ≡ true
        → glob grant_covers (segments grant) (segments requested) ≡ true
    back e = (glob_iff grant_covers _ _).1 (
        Matches-map topic_covers grant_covers
          (All-map (segments requested) (λ r p g v. same_cover r p g ∙ v) plain)
          ((glob_iff topic_covers _ _).0 e))
