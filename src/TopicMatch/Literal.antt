-- ===== src/TopicMatch/Literal.antt =====
-- The fast paths of `topic_matches` give the answer of the general walk.
use aimdb.Prelude.{
  ℕ, ◌≡◌, refl, sym, ap, ◌∙◌, Bool, true, false, not, ◌&&◌, [], ◌∷◌, ◌++◌, Option, none, some,
  arith, ◌==◌, Str, str_eq, str_eq→eq, eq→str_eq, str_eq_refl, contains, starts_with, strip_suffix,
  strip_suffix-append, split, Bool-cases, inl, inr, All, ◌↔◌,
}
use aimdb.TopicMatch.{
  Segments, hash, dot_hash, segments, topic_covers, under_prefix, prefix_arm, topic_matches,
}
use aimdb.TopicMatch.Matches.{
  Matches, done, none_left, one_more, segment, any_suffix, glob, glob-hash, glob_iff,
}
use aimdb.TopicMatch.Walk.{match_segments-glob}

-- `split` yields at least one piece.
segments-cons : (s : Str) → (x : Str) × (xs : Segments) × (segments s ≡ x ∷ xs)
unfolding split
segments-cons [] = ([], [], refl)
segments-cons (c ∷ s) = elim (Bool-cases (c == b'.')) [
  | inl e ↦ ([], segments s, rw e)
  | inr e ↦ let (x, xs, q) = segments-cons s in (c ∷ x, xs, rw (e, q) refl)
]

segments_dot : (c : ℕ) (s : Str) → (c == b'.') ≡ true → segments (c ∷ s) ≡ [] ∷ segments s
unfolding split
segments_dot c s e = rw e

segments_other :
    (c : ℕ) (s : Str) {x : Str} {xs : Segments}
    → (c == b'.') ≡ false
    → segments s ≡ x ∷ xs
    → segments (c ∷ s) ≡ (c ∷ x) ∷ xs
unfolding split
segments_other c s e q = rw (e, q) refl

segments-append : (s t : Str) → segments (s ++ (b'.' ∷ t)) ≡ segments s ++ segments t
unfolding split
segments-append [] t = refl
segments-append (c ∷ s) t = elim (Bool-cases (c == b'.')) [
  | inl e ↦ rw e (ap (λ r. [] ∷ r) (segments-append s t))
  | inr e ↦ let (x, xs, q) = segments-cons s in rw (e, segments-append s t, q) refl
]

-- A byte that a text does not hold, none of its segments holds.
pub segments-All :
    (b : ℕ) (s : Str) → contains b s ≡ false → All (λ p. contains b p ≡ false) (segments s)
unfolding contains split
segments-All b [] h = (refl, tt)
segments-All b (c ∷ s) h = elim (Bool-cases (c == b'.')) [
  | inl e ↦ rw (segments_dot c s e) (refl, segments-All b s (ground arith))
  | inr e ↦
      let (x, xs, q) = segments-cons s in
      let rest = segments-All b s (ground arith) in
      rw (segments_other c s e q) (ground (arith, rw q at rest), (rw q at rest).1)
]

pub ne_single : (b : ℕ) (p : Str) → contains b p ≡ false → str_eq p (b ∷ []) ≡ false
unfolding contains
ne_single b p h = elim (Bool-cases (str_eq p (b ∷ []))) [
  | inl e ↦ absurd (ground (arith, str_eq→eq p (b ∷ []) e))
  | inr e ↦ e
]

abbrev IsLiteral : Str → Type 0
IsLiteral p = (contains b'*' p ≡ false) × (contains b'#' p ≡ false)

-- Whether the first segments are the second's beginning.
abbrev seg_prefix : Segments → Segments → Bool
seg_prefix [] ss = true
seg_prefix (l ∷ ls) [] = false
seg_prefix (l ∷ ls) (s ∷ ss) = str_eq l s && seg_prefix ls ss

any_suffix_end : (ss : Segments) → any_suffix (glob topic_covers []) ss ≡ true
unfolding any_suffix glob
any_suffix_end [] = refl
any_suffix_end (s ∷ ss) = any_suffix_end ss

glob-literal :
    (ls ss : Segments)
    → All (λ p. contains b'*' p ≡ false) ls
    → All (λ p. contains b'#' p ≡ false) ls
    → glob topic_covers (ls ++ (hash ∷ [])) ss ≡ seg_prefix ls ss
unfolding glob topic_covers
glob-literal [] ss a b =
    ground (arith, glob-hash topic_covers hash [] ss, any_suffix_end ss, str_eq_refl hash)
glob-literal (l ∷ ls) [] a b = ground (arith, ne_single b'#' l b.0)
glob-literal (l ∷ ls) (s ∷ ss) a b =
    ground (arith, ne_single b'#' l b.0, ne_single b'*' l a.0, glob-literal ls ss a.1 b.1)

seg_prefix-under :
    (prefix topic : Str) → seg_prefix (segments prefix) (segments topic) ≡ under_prefix prefix topic
unfolding under_prefix starts_with str_eq
seg_prefix-under [] [] = unfold split in refl
seg_prefix-under [] (d ∷ t) = elim (Bool-cases (d == b'.')) [
  | inl e ↦ rw (segments_dot d t e) (unfold split in ground arith)
  | inr e ↦
      let (y, ys, r) = segments-cons t in rw (segments_other d t e r) (unfold split in ground arith)
]
seg_prefix-under (c ∷ p) [] = elim (Bool-cases (c == b'.')) [
  | inl e ↦ let (x, xs, q) = segments-cons p in rw (segments_dot c p e, q) (unfold split in refl)
  | inr e ↦ let (x, xs, q) = segments-cons p in rw (segments_other c p e q) (unfold split in refl)
]
seg_prefix-under (c ∷ p) (d ∷ t) =
    let (x, xs, q) = segments-cons p in
    let (y, ys, r) = segments-cons t in
    let ih = seg_prefix-under p t in
    elim (Bool-cases (c == b'.')) [
      | inl e ↦ elim (Bool-cases (d == b'.')) [
        | inl f ↦ rw (segments_dot c p e, segments_dot d t f) (ground (arith, ih))
        | inr f ↦ rw (segments_dot c p e, segments_other d t f r) (ground arith)
      ]
      | inr e ↦ elim (Bool-cases (d == b'.')) [
        | inl f ↦ rw (segments_other c p e q, segments_dot d t f) (ground arith)
        | inr f ↦
            rw (segments_other c p e q, segments_other d t f r) (ground (arith, rw (q, r) at ih))
      ]
    ]

Matches-self : (ss : Segments) → Matches topic_covers ss ss
unfolding topic_covers
Matches-self [] = done
Matches-self (s ∷ ss) = elim (Bool-cases (str_eq s hash)) [
  | inl e ↦ let p = str_eq→eq s hash e in one_more p (none_left p (Matches-self ss))
  | inr n ↦
      segment (λ p. absurd (ground (arith, eq→str_eq s hash p))) (ground (arith, str_eq_refl s))
        (Matches-self ss)
]

under-glob :
    (prefix pattern topic : Str)
    → pattern ≡ prefix ++ dot_hash
    → IsLiteral prefix
    → under_prefix prefix topic ≡ glob topic_covers (segments pattern) (segments topic)
under-glob prefix pattern topic e (no_star, no_hash) = sym (
    ap (λ p. glob topic_covers (segments p) (segments topic)) e
    ∙ ap (λ ps. glob topic_covers ps (segments topic)) (segments-append prefix (b'#' ∷ []))
    ∙ unfold split in
      glob-literal (segments prefix) (segments topic) (segments-All b'*' prefix no_star)
        (segments-All b'#' prefix no_hash)
      ∙ seg_prefix-under prefix topic)

prefix_arm-glob :
    (o : Option Str) (pattern topic : Str)
    → strip_suffix dot_hash pattern ≡ o
    → prefix_arm o pattern topic ≡ some (glob topic_covers (segments pattern) (segments topic))
unfolding prefix_arm
prefix_arm-glob none pattern topic e = match_segments-glob topic_covers pattern topic
prefix_arm-glob (some prefix) pattern topic e =
    elim (Bool-cases (not (contains b'*' prefix) && not (contains b'#' prefix))) [
      | inl plain ↦ rw plain (
          ap some (
            under-glob prefix pattern topic (strip_suffix-append dot_hash pattern prefix e)
              (ground arith)))
      | inr wild ↦ rw wild (match_segments-glob topic_covers pattern topic)
    ]

-- Fast paths or not, `topic_matches` answers what `glob` does on the segments.
pub topic_matches-glob :
    (pattern topic : Str)
    → topic_matches pattern topic ≡ some (glob topic_covers (segments pattern) (segments topic))
unfolding topic_matches
topic_matches-glob pattern topic = elim (Bool-cases (str_eq pattern topic)) [
  | inl same ↦ rw same (
      ap some (
        sym (
          rw (str_eq→eq pattern topic same)
            ((glob_iff topic_covers _ _).1 (Matches-self (segments topic))))))
  | inr other ↦ rw other (elim (Bool-cases (str_eq pattern hash)) [
    | inl all ↦ rw all (
        ap some (
          sym (
            rw (str_eq→eq pattern hash all) (
              unfold split in
              (glob-hash topic_covers hash [] (segments topic) (str_eq_refl hash)
                ∙ any_suffix_end (segments topic))))))
    | inr more ↦ rw more (prefix_arm-glob _ pattern topic refl)
  ])
]

pub topic_matches_iff :
    (pattern topic : Str)
    → (topic_matches pattern topic ≡ some true)
      ↔ Matches topic_covers (segments pattern) (segments topic)
topic_matches_iff pattern topic =
    let e = topic_matches-glob pattern topic in
    let (sound, complete) = glob_iff topic_covers (segments pattern) (segments topic) in
    (λ h. sound (ground (arith, e, h)), λ m. e ∙ ap some (complete m))
