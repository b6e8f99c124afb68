-- ===== src/Router/Beats.antt =====
-- The order by which one filter makes another needless, and the filters at its top.
use aimdb.Prelude.{
  ℕ, zero, suc, ◌+◌, ◌≤◌, ◌<◌, ◌≡◌, refl, sym, ap, ◌∙◌, List, [], ◌∷◌, Bool, true, false, some,
  get_elem?, if◌then◌else◌, arith, Bool-cases, inl, inr, Str,
}
use aimdb.Router.{beats, beaten}

-- What the router needs of a grammar.
pub record CoversLaws (covers : Str → Str → Bool) : Type 0 where
  pub covers_refl : (a : Str) → covers a a ≡ true
  pub covers_trans : (a b c : Str) → covers a b ≡ true → covers b c ≡ true → covers a c ≡ true

pub found_first : (c : Str) (cs : List Str) (b : Str) → get_elem? (c ∷ cs) 0 ≡ some b → c ≡ b
found_first c cs b at = cc at

one_there :
    (ids : List Str) (i j : ℕ) (a b : Str)
    → get_elem? ids i ≡ some a
    → get_elem? ids j ≡ some b
    → i ≡ j
    → a ≡ b
one_there ids i j a b at_i at_j e = cc (sym at_i ∙ ap (get_elem? ids) e ∙ at_j)

module _ (covers : Str → Str → Bool) (laws : CoversLaws covers) where
  beats_irrefl : (i : ℕ) (a : Str) → beats covers i a i a ≡ false
  unfolding beats
  beats_irrefl i a = ground arith

  beats-covers : (j i : ℕ) (b a : Str) → beats covers j b i a ≡ true → covers b a ≡ true
  unfolding beats
  beats-covers j i b a h = ground arith

  beats_trans :
      (k j i : ℕ) (c b a : Str)
      → (k ≡ i → c ≡ a)
      → beats covers k c j b ≡ true
      → beats covers j b i a ≡ true
      → beats covers k c i a ≡ true
  unfolding beats
  beats_trans k j i c b a same p q =
      ground
        (arith, laws.covers_trans c b a, laws.covers_trans b a c, laws.covers_trans a c b, same)

  -- The filter at a place that beats is one of the list.
  beaten_by :
      (i : ℕ) (a : Str) (j : ℕ) (bs : List Str)
      → beaten covers i a j bs ≡ true
      → (d : ℕ) × (b : Str) × (get_elem? bs d ≡ some b) × (beats covers (j + d) b i a ≡ true)
  unfolding beaten
  beaten_by i a j [] h = absurd (cc h)
  beaten_by i a j (b ∷ bs) h = elim (Bool-cases (beats covers j b i a)) [
    | inl e ↦ (0, b, refl, ap (λ k. beats covers k b i a) (omega arith) ∙ e)
    | inr e ↦
        let (d, c, at, won) = beaten_by i a (suc j) bs (rw e at h) in
        (suc d, c, at, ap (λ k. beats covers k c i a) (omega arith) ∙ won)
  ]

  pub unbeaten :
      (i : ℕ) (a : Str) (j : ℕ) (bs : List Str)
      → beaten covers i a j bs ≡ false
      → (d : ℕ) (b : Str) → get_elem? bs d ≡ some b
      → beats covers (j + d) b i a ≡ false
  unfolding beaten
  unbeaten i a j [] h d b at = absurd (cc at)
  unbeaten i a j (c ∷ bs) h zero b at =
      ap (λ k. beats covers k b i a) (omega arith)
      ∙ ap (λ x. beats covers j x i a) (sym (found_first c bs b at))
      ∙ ground arith
  unbeaten i a j (c ∷ bs) h (suc d) b at =
      ap (λ k. beats covers k b i a) (omega arith) ∙ unbeaten i a (suc j) bs (ground arith) d b at

  -- How many of the filters from place `j` on beat `a`.
  abbrev pub winners : ℕ → Str → ℕ → List Str → ℕ
  winners i a j [] = 0
  winners i a j (b ∷ bs) = (if beats covers j b i a then 1 else 0) + winners i a (suc j) bs

  module _ (j i : ℕ) (b a : Str) (won : beats covers j b i a ≡ true) where
    -- What beats a winner beats what it has beaten.
    winners-le :
        (k : ℕ) (cs : List Str)
        → ((d : ℕ) (c : Str) → get_elem? cs d ≡ some c → k + d ≡ i → c ≡ a)
        → winners j b k cs ≤ winners i a k cs
    winners-le k [] same = omega arith
    winners-le k (c ∷ cs) same =
        let here : k ≡ i → c ≡ a = λ e. same 0 c refl (omega (arith, e)) in
        let later = winners-le (suc k) cs (λ d x at e. same (suc d) x at (omega (arith, e))) in
        elim (Bool-cases (beats covers k c j b)) [
          | inl p ↦ rw (p, beats_trans k j i c b a here p won) (omega (arith, later))
          | inr p ↦ rw p (omega (arith, later))
        ]

    -- The winner itself counts for what it has beaten only.
    winners-lt :
        (k : ℕ) (cs : List Str)
        → ((d : ℕ) (c : Str) → get_elem? cs d ≡ some c → k + d ≡ i → c ≡ a)
        → (d : ℕ) → get_elem? cs d ≡ some b
        → k + d ≡ j
        → winners j b k cs < winners i a k cs
    winners-lt k [] same d at e = absurd (cc at)
    winners-lt k (c ∷ cs) same zero at e =
        let later = winners-le (suc k) cs (λ d x here f. same (suc d) x here (omega (arith, f))) in
        let here : c ≡ b = found_first c cs b at in
        let place : k ≡ j = omega (arith, e) in
        let this : beats covers k c i a ≡ true =
          ap (λ x. beats covers k x i a) here ∙ ap (λ n. beats covers n b i a) place ∙ won in
        let not_this : beats covers k c j b ≡ false =
          ap (λ x. beats covers k x j b) here
          ∙ ap (λ n. beats covers n b j b) place
          ∙ beats_irrefl j b in
        rw this (rw not_this (omega (arith, later)))
    winners-lt k (c ∷ cs) same (suc d) at e =
        let here : k ≡ i → c ≡ a = λ f. same 0 c refl (omega (arith, f)) in
        let later =
          winners-lt (suc k) cs (λ d' x at' f. same (suc d') x at' (omega (arith, f))) d at
            (omega (arith, e)) in
        elim (Bool-cases (beats covers k c j b)) [
          | inl p ↦ rw (p, beats_trans k j i c b a here p won) (omega (arith, later))
          | inr p ↦ rw p (omega (arith, later))
        ]

  pub apart :
      (i j : ℕ) (a b : Str)
      → i < j
      → beats covers j b i a ≡ false
      → beats covers i a j b ≡ false
      → (covers a b ≡ false) × (covers b a ≡ false)
  unfolding beats
  apart i j a b lt p q = ground arith

  -- A filter that is not kept is covered by one that is not beaten.
  pub unbeaten_above :
      (ids : List Str) (bound i : ℕ) (a : Str)
      → get_elem? ids i ≡ some a
      → winners i a 0 ids < bound
      → (j : ℕ) × (b : Str) × (get_elem? ids j ≡ some b)
        × (beaten covers j b 0 ids ≡ false)
        × (covers b a ≡ true)
  unbeaten_above ids zero i a at h = absurd (omega arith)
  unbeaten_above ids (suc bound) i a at h = elim (Bool-cases (beaten covers i a 0 ids)) [
    | inr e ↦ (i, a, at, e, laws.covers_refl a)
    | inl e ↦
        let (j, b, at_j, won) = beaten_by i a 0 ids e in
        let beats_a : beats covers j b i a ≡ true =
          ap (λ n. beats covers n b i a) (omega arith) ∙ won in
        let same : (d : ℕ) (c : Str) → get_elem? ids d ≡ some c → 0 + d ≡ i → c ≡ a =
          λ d c at_d f. one_there ids d i c a at_d at (omega (arith, f)) in
        let fewer = winners-lt j i b a beats_a 0 ids same j at_j (omega arith) in
        let (k, c, at_k, free, cover) =
          unbeaten_above ids bound j b at_j (omega (arith, fewer, h)) in
        (k, c, at_k, free, laws.covers_trans c b a cover (beats-covers j i b a beats_a))
  ]
