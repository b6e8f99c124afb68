-- ===== src/TopicMatch/Matches.antt =====
-- What a pattern of topic_match.rs means, apart from how the loop finds it: a relation, and the
-- function that decides it.
use aimdb.Prelude.{
  ℕ, suc, ◌≡◌, refl, ◌∙◌, ◌≢◌, ◌↔◌, Bool, true, false, ◌&&◌, ◌||◌, [], ◌∷◌, drop, length, ◌≤◌, inl,
  inr, arith, if◌then◌else◌, Str, str_eq, str_eq→eq, eq→str_eq, Bool-cases,
}
use aimdb.TopicMatch.{Segments, hash}

-- `#` stands for any number of segments, and any other segment for one that it covers.
pub data Matches (covers : Str → Str → Bool) : Segments → Segments → Type 0 where
  done : Matches covers [] []
  none_left :
      {p : Str} {ps ss : Segments} → p ≡ hash → Matches covers ps ss → Matches covers (p ∷ ps) ss
  one_more :
      {p s : Str} {ps ss : Segments}
      → p ≡ hash
      → Matches covers (p ∷ ps) ss
      → Matches covers (p ∷ ps) (s ∷ ss)
  segment :
      {p s : Str} {ps ss : Segments}
      → p ≢ hash
      → covers p s ≡ true
      → Matches covers ps ss
      → Matches covers (p ∷ ps) (s ∷ ss)

-- Whether `f` holds of some suffix.
unfoldable pub any_suffix : (Segments → Bool) → Segments → Bool
any_suffix f [] = f []
any_suffix f (s ∷ ss) = f (s ∷ ss) || any_suffix f ss

pub any_suffix-drop :
    (f : Segments → Bool) (k : ℕ) (ss : Segments) → f (drop k ss) ≡ true → any_suffix f ss ≡ true
unfolding any_suffix
any_suffix-drop f k [] h =
    elim k as (λ k. f (drop k []) ≡ true → f [] ≡ true) [ ℕ.zero ↦ λ e. e | suc j ↦ λ e. e ] h
any_suffix-drop f ℕ.zero (s ∷ ss) h = ground arith
any_suffix-drop f (suc k) (s ∷ ss) h = ground (arith, any_suffix-drop f k ss h)

pub any_suffix-some :
    (f : Segments → Bool) (ss : Segments)
    → any_suffix f ss ≡ true
    → (k : ℕ) × (k ≤ length ss) × (f (drop k ss) ≡ true)
unfolding any_suffix
any_suffix-some f [] h = (0, omega arith, h)
any_suffix-some f (s ∷ ss) h = elim (Bool-cases (f (s ∷ ss))) [
  | inl e ↦ (0, omega arith, e)
  | inr e ↦ let (k, le, hit) = any_suffix-some f ss (rw (e, ◌||◌) at h) in (suc k, omega arith, hit)
]

module _ (covers : Str → Str → Bool) where
  -- The decision, by recursion on the pattern.
  unfoldable pub glob : Segments → Segments → Bool
  glob [] [] = true
  glob [] (s ∷ ss) = false
  glob (p ∷ ps) [] = if str_eq p hash then any_suffix (glob ps) [] else false
  glob (p ∷ ps) (s ∷ ss) =
      if str_eq p hash then any_suffix (glob ps) (s ∷ ss) else covers p s && glob ps ss

  pub glob-hash :
      (p : Str) (ps ss : Segments)
      → str_eq p hash ≡ true
      → glob (p ∷ ps) ss ≡ any_suffix (glob ps) ss
  unfolding glob
  glob-hash p ps [] h = ground arith
  glob-hash p ps (s ∷ ss) h = ground arith

  Matches→glob : {ps ss : Segments} → Matches covers ps ss → glob ps ss ≡ true
  unfolding glob any_suffix
  Matches→glob done = refl
  Matches→glob (none_left {p = p} {ps = ps} {ss = ss} e m) =
      glob-hash p ps ss (eq→str_eq p hash e) ∙ any_suffix-drop (glob ps) 0 ss (Matches→glob m)
  Matches→glob (one_more {p = p} {s = s} {ps = ps} {ss = ss} e m) =
      ground (arith, eq→str_eq p hash e, glob-hash p ps ss, glob-hash p ps (s ∷ ss), Matches→glob m)
  Matches→glob (segment {p = p} {s = s} {ps = ps} {ss = ss} n c m) =
      ground (arith, str_eq→eq p hash, Matches→glob m)

  after_hash :
      (p : Str) (ps : Segments)
      → p ≡ hash
      → (k : ℕ) (ss : Segments) → Matches covers ps (drop k ss)
      → Matches covers (p ∷ ps) ss
  after_hash p ps e ℕ.zero ss m = none_left e m
  after_hash p ps e (suc k) [] m = none_left e m
  after_hash p ps e (suc k) (s ∷ ss) m = one_more e (after_hash p ps e k ss m)

  glob→Matches : (ps ss : Segments) → glob ps ss ≡ true → Matches covers ps ss
  unfolding glob
  glob→Matches [] [] h = done
  glob→Matches [] (s ∷ ss) h = absurd (cc)
  glob→Matches (p ∷ ps) [] h = elim (Bool-cases (str_eq p hash)) [
    | inl e ↦
        let (k, le, hit) = any_suffix-some (glob ps) [] (ground (arith, glob-hash p ps [])) in
        after_hash p ps (str_eq→eq p hash e) k [] (glob→Matches ps (drop k []) hit)
    | inr e ↦ absurd (ground arith)
  ]
  glob→Matches (p ∷ ps) (s ∷ ss) h = elim (Bool-cases (str_eq p hash)) [
    | inl e ↦
        let (k, le, hit) =
          any_suffix-some (glob ps) (s ∷ ss) (ground (arith, glob-hash p ps (s ∷ ss))) in
        after_hash p ps (str_eq→eq p hash e) k (s ∷ ss) (glob→Matches ps (drop k (s ∷ ss)) hit)
    | inr e ↦
        segment (λ q. ground (arith, eq→str_eq p hash q)) (ground arith)
          (glob→Matches ps ss (ground arith))
  ]

  -- `glob` decides `Matches`.
  pub glob_iff : (ps ss : Segments) → (glob ps ss ≡ true) ↔ Matches covers ps ss
  glob_iff ps ss = (glob→Matches ps ss, Matches→glob)
