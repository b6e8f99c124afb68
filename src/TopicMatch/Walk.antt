-- ===== src/TopicMatch/Walk.antt =====
-- The loop of `match_segments` finds what `glob` defines, and ends in time.
use aimdb.Prelude.{
  ℕ, zero, suc, ◌+◌, ◌*◌, ◌≤◌, ◌<◌, ◌≡◌, refl, ap, sym, ◌∙◌, Bool, true, false, ◌||◌, [], ◌∷◌, drop,
  length, Option, none, some, arith, Str, str_eq, Bool-cases, inl, inr,
}
use aimdb.TopicMatch.{
  Segments, hash, segments, Resume, Round, go, return, backtrack, literal_arm, round, walk,
  match_segments,
}
use aimdb.TopicMatch.Matches.{any_suffix, any_suffix-some, glob, glob-hash}

-- Whether `f` holds of some proper suffix.
abbrev later : (Segments → Bool) → Segments → Bool
later f [] = false
later f (s ∷ ss) = any_suffix f ss

abbrev resumed : (Str → Str → Bool) → Resume → Bool
resumed covers none = false
resumed covers (some (pa, sa)) = later (glob covers pa) sa

-- What a retry from `resume` would match at `k` segments further on, the current attempt matches
-- `k` segments further on too: so an older `#` needs no record of its own.
abbrev Ahead : (Str → Str → Bool) → Segments → Segments → Resume → Type 0
Ahead covers pat sub none = Unit {0}
Ahead covers pat sub (some (pa, sa)) =
    (k : ℕ)
    → k ≤ length sa
    → glob covers pa (drop k sa) ≡ true
    → (k ≤ length sub) × (glob covers pat (drop k sub) ≡ true)

-- Segments that the latest `#` can still absorb.
abbrev absorbable : Segments → Resume → ℕ
absorbable sub none = length sub + 1
absorbable sub (some (pa, sa)) = length sa

abbrev behind : Resume → ℕ
behind none = 0
behind (some (pa, sa)) = length pa

-- What bounds the rounds still to come.
abbrev measure : ℕ → Segments → Segments → Resume → ℕ
measure m pat sub resume = absorbable sub resume * (m + 1) + length pat

record Fits (m : ℕ) (pat sub : Segments) (resume : Resume) : Type 0 where
  pat_left : length pat ≤ m
  tail_left : behind resume ≤ m
  sub_left : length sub ≤ absorbable sub resume

any_suffix-later : (f : Segments → Bool) (ss : Segments) → any_suffix f ss ≡ (f ss || later f ss)
unfolding any_suffix
any_suffix-later f [] = ground arith
any_suffix-later f (s ∷ ss) = refl

any_suffix_mono :
    (f : Segments → Bool) (k : ℕ) (ss : Segments)
    → any_suffix f (drop k ss) ≡ true
    → any_suffix f ss ≡ true
unfolding any_suffix
any_suffix_mono f zero ss h = h
any_suffix_mono f (suc k) [] h = h
any_suffix_mono f (suc k) (s ∷ ss) h = ground (arith, any_suffix_mono f k ss h)

later-some :
    (f : Segments → Bool) (ss : Segments)
    → later f ss ≡ true
    → (k : ℕ) × (k ≤ length ss) × (f (drop k ss) ≡ true)
later-some f [] h = absurd (cc)
later-some f (s ∷ ss) h = let (k, le, hit) = any_suffix-some f ss h in (suc k, omega arith, hit)

-- The answer that a round leaves open, or gives.
abbrev answer : (Str → Str → Bool) → Round → Bool
answer covers (go pat sub resume) = glob covers pat sub || resumed covers resume
answer covers (return b) = b

-- What holds of the arguments of the next round.
abbrev Next : (Str → Str → Bool) → ℕ → ℕ → Round → Type 0
Next covers m bound (go pat sub resume) =
    Ahead covers pat sub resume × Fits m pat sub resume × (measure m pat sub resume < bound)
Next covers m bound (return b) = Unit {0}

literal_shrinks :
    (m : ℕ) (p s : Str) (ps ss : Segments) (resume : Resume)
    → Fits m (p ∷ ps) (s ∷ ss) resume
    → Fits m ps ss resume × (measure m ps ss resume < measure m (p ∷ ps) (s ∷ ss) resume)
literal_shrinks m p s ps ss none fits = (omega arith, grind arith)
literal_shrinks m p s ps ss (some (pa, sa)) fits = (omega arith, omega arith)

hash_shrinks :
    (m : ℕ) (p : Str) (ps sub : Segments) (resume : Resume)
    → Fits m (p ∷ ps) sub resume
    → Fits m ps sub (some (ps, sub))
      × (measure m ps sub (some (ps, sub)) < measure m (p ∷ ps) sub resume)
hash_shrinks m p ps sub none fits = (omega arith, grind arith)
hash_shrinks m p ps sub (some (pa, sa)) fits = (omega arith, grind arith)

or_false : (b : Bool) → (b || false) ≡ b
or_false true = refl
or_false false = refl

module _ (covers : Str → Str → Bool) where
  backtrack-answer : (resume : Resume) → answer covers (backtrack resume) ≡ resumed covers resume
  unfolding backtrack
  backtrack-answer none = refl
  backtrack-answer (some (pa, [])) = refl
  backtrack-answer (some (pa, s ∷ grown)) = sym (any_suffix-later (glob covers pa) grown)

  backtrack-Next :
      (m : ℕ) (pat sub : Segments) (resume : Resume)
      → Fits m pat sub resume
      → Next covers m (measure m pat sub resume) (backtrack resume)
  unfolding backtrack
  backtrack-Next m pat sub none fits = tt
  backtrack-Next m pat sub (some (pa, [])) fits = tt
  backtrack-Next m pat sub (some (pa, s ∷ grown)) fits =
      (λ k le hit. (le, hit), omega arith, grind arith)

  absorb_or : {a b c : Bool} → (c ≡ true → b ≡ true) → b ≡ a → a ≡ (b || c)
  absorb_or {b = true} {c = c} h e = sym e
  absorb_or {b = false} {c = true} h e = absurd (cc (h refl))
  absorb_or {b = false} {c = false} h e = sym e

  -- The pattern at a `#` matches wherever a retry from an older `#` would.
  hash_takes_over :
      (p : Str) (ps sub : Segments) (resume : Resume)
      → str_eq p hash ≡ true
      → Ahead covers (p ∷ ps) sub resume
      → resumed covers resume ≡ true
      → glob covers (p ∷ ps) sub ≡ true
  hash_takes_over p ps sub none e ahead h = absurd (cc)
  hash_takes_over p ps sub (some (pa, sa)) e ahead h =
      let (k, le, hit) = later-some (glob covers pa) sa h in
      let (le', hit') = ahead k le hit in
      let here = glob-hash covers p ps sub e in
      here
      ∙ any_suffix_mono (glob covers ps) k sub (sym (glob-hash covers p ps (drop k sub) e) ∙ hit')

  shift_glob :
      (p s : Str) (ps : Segments) (k : ℕ) (ss : Segments)
      → str_eq p hash ≡ false
      → k ≤ length (s ∷ ss)
      → glob covers (p ∷ ps) (drop k (s ∷ ss)) ≡ true
      → (k ≤ length ss) × (glob covers ps (drop k ss) ≡ true)
  unfolding glob
  shift_glob p s ps zero ss n le hit = (omega arith, ground arith)
  shift_glob p s ps (suc zero) [] n le hit = absurd (ground arith)
  shift_glob p s ps (suc (suc k)) [] n le hit = absurd (omega arith)
  shift_glob p s ps (suc k) (t ∷ ss) n le hit =
      let (le', hit') = shift_glob p t ps k ss n (omega arith) hit in (omega arith, hit')

  shift_Ahead :
      (p s : Str) (ps ss : Segments) (resume : Resume)
      → str_eq p hash ≡ false
      → Ahead covers (p ∷ ps) (s ∷ ss) resume
      → Ahead covers ps ss resume
  shift_Ahead p s ps ss none n ahead = tt
  shift_Ahead p s ps ss (some (pa, sa)) n ahead =
      λ k le hit. let (le', hit') = ahead k le hit in shift_glob p s ps k ss n le' hit'

  literal-answer :
      (p : Str) (ps sub : Segments) (resume : Resume)
      → str_eq p hash ≡ false
      → answer covers (literal_arm covers p ps sub resume)
        ≡ (glob covers (p ∷ ps) sub || resumed covers resume)
  unfolding literal_arm glob
  literal-answer p ps [] resume n = rw n (backtrack-answer resume)
  literal-answer p ps (s ∷ ss) resume n = elim (Bool-cases (covers p s)) [
    | inl c ↦ rw (n, c) refl
    | inr c ↦ rw (n, c) (backtrack-answer resume)
  ]

  literal-Next :
      (m : ℕ) (p : Str) (ps sub : Segments) (resume : Resume)
      → str_eq p hash ≡ false
      → Ahead covers (p ∷ ps) sub resume
      → Fits m (p ∷ ps) sub resume
      → Next covers m (measure m (p ∷ ps) sub resume) (literal_arm covers p ps sub resume)
  unfolding literal_arm
  literal-Next m p ps [] resume n ahead fits = backtrack-Next m (p ∷ ps) [] resume fits
  literal-Next m p ps (s ∷ ss) resume n ahead fits = elim (Bool-cases (covers p s)) [
    | inl c ↦ rw c (
      shift_Ahead p s ps ss resume n ahead,
      (literal_shrinks m p s ps ss resume fits).0,
      (literal_shrinks m p s ps ss resume fits).1,
    )
    | inr c ↦ rw c (backtrack-Next m (p ∷ ps) (s ∷ ss) resume fits)
  ]

  round-answer :
      (pat sub : Segments) (resume : Resume)
      → Ahead covers pat sub resume
      → answer covers (round covers pat sub resume) ≡ (glob covers pat sub || resumed covers resume)
  unfolding round glob
  round-answer [] [] resume ahead = refl
  round-answer [] (s ∷ sub) resume ahead = backtrack-answer resume
  round-answer (p ∷ ps) sub resume ahead = elim (Bool-cases (str_eq p hash)) [
    | inl e ↦ rw e (
        sym (any_suffix-later (glob covers ps) sub)
        ∙ absorb_or (hash_takes_over p ps sub resume e ahead) (glob-hash covers p ps sub e))
    | inr n ↦ rw n (literal-answer p ps sub resume n)
  ]

  round-Next :
      (m : ℕ) (pat sub : Segments) (resume : Resume)
      → Ahead covers pat sub resume
      → Fits m pat sub resume
      → Next covers m (measure m pat sub resume) (round covers pat sub resume)
  unfolding round
  round-Next m [] [] resume ahead fits = tt
  round-Next m [] (s ∷ sub) resume ahead fits = backtrack-Next m [] (s ∷ sub) resume fits
  round-Next m (p ∷ ps) sub resume ahead fits = elim (Bool-cases (str_eq p hash)) [
    | inl e ↦ rw e (
      λ k le hit. (le, hit),
      (hash_shrinks m p ps sub resume fits).0,
      (hash_shrinks m p ps sub resume fits).1,
    )
    | inr n ↦ rw n (literal-Next m p ps sub resume n ahead fits)
  ]

  finish :
      (m fuel : ℕ)
      → ((pat sub : Segments) (resume : Resume)
          → Ahead covers pat sub resume
          → Fits m pat sub resume
          → measure m pat sub resume < fuel
          → walk covers fuel pat sub resume ≡ some (glob covers pat sub || resumed covers resume))
      → (r : Round) {b : Bool} {bound : ℕ} → answer covers r ≡ b
      → Next covers m bound r
      → bound ≤ fuel
      → ◌≡◌ {A = Option Bool}
          (elim r as (λ _. Option Bool) [
            | go pat' sub' resume' ↦ walk covers fuel pat' sub' resume'
            | return b ↦ some b
          ])
          (some b)
  finish m fuel ih (go pat sub resume) e next le =
      ih pat sub resume next.0 next.1 (omega arith) ∙ ap some e
  finish m fuel ih (return b) e next le = ap some e

  walk-answer :
      (m fuel : ℕ) (pat sub : Segments) (resume : Resume)
      → Ahead covers pat sub resume
      → Fits m pat sub resume
      → measure m pat sub resume < fuel
      → walk covers fuel pat sub resume ≡ some (glob covers pat sub || resumed covers resume)
  unfolding walk
  walk-answer m zero pat sub resume ahead fits h = absurd (omega arith)
  walk-answer m (suc fuel) pat sub resume ahead fits h =
      finish m fuel (walk-answer m fuel) (round covers pat sub resume)
        (round-answer pat sub resume ahead) (round-Next m pat sub resume ahead fits) (omega arith)

  -- The loop of `match_segments` ends within `rounds` of the two lengths, and answers what `glob` does.
  pub match_segments-glob :
      (pattern subject : Str)
      → match_segments covers pattern subject
        ≡ some (glob covers (segments pattern) (segments subject))
  unfolding match_segments
  match_segments-glob pattern subject =
      let pat = segments pattern in
      let sub = segments subject in
      walk-answer (length pat) _ pat sub none tt (omega arith) (grind arith)
      ∙ ap some (or_false (glob covers pat sub))
