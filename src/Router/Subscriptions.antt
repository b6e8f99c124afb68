-- ===== src/Router/Subscriptions.antt =====
-- Of the filters of a router those are subscribed that no other makes needless.
use aimdb.Prelude.{
  ℕ, zero, suc, ◌+◌, ◌<◌, ◌≡◌, refl, sym, ap, ◌∙◌, List, [], ◌∷◌, Bool, true, false, some,
  get_elem?, arith, All, Bool-cases, inl, inr, Str,
}
use mathlib.Core.List.{Memᴰ}
use aimdb.Router.{CompiledRoute, resource_ids, beats, beaten, keep, subscriptions}
use aimdb.Router.Ids.{place_of, resource_ids-mem}
use aimdb.Router.Beats.{CoversLaws, found_first, unbeaten, unbeaten_above, winners, apart}

module _ (covers : Str → Str → Bool) (laws : CoversLaws covers) where
  kept :
      (ids : List Str) (i : ℕ) (later : List Str) (d : ℕ) (b : Str)
      → get_elem? later d ≡ some b
      → beaten covers (i + d) b 0 ids ≡ false
      → Memᴰ b (keep covers ids i later)
  unfolding keep
  kept ids i [] d b at free = absurd (cc at)
  kept ids i (a ∷ later) zero b at free =
      let here : a ≡ b = found_first a later b at in
      let this : beaten covers i a 0 ids ≡ false =
        ap (λ x. beaten covers i x 0 ids) here
        ∙ ap (λ n. beaten covers n b 0 ids) (omega arith)
        ∙ free in
      rw this (Memᴰ.head (sym here))
  kept ids i (a ∷ later) (suc d) b at free =
      let rest =
        kept ids (suc i) later d b at (ap (λ n. beaten covers n b 0 ids) (omega arith) ∙ free) in
      elim (Bool-cases (beaten covers i a 0 ids)) [
        | inl e ↦ rw e rest
        | inr e ↦ rw e (Memᴰ.tail rest)
      ]

  -- Neither of two kept filters covers the other.
  kept_apart :
      (ids : List Str) (i j : ℕ) (a b : Str)
      → i < j
      → get_elem? ids i ≡ some a
      → get_elem? ids j ≡ some b
      → beaten covers i a 0 ids ≡ false
      → beaten covers j b 0 ids ≡ false
      → (covers a b ≡ false) × (covers b a ≡ false)
  kept_apart ids i j a b lt at_i at_j free_i free_j =
      apart covers laws i j a b lt
        (ap (λ n. beats covers n b i a) (omega arith)
          ∙ unbeaten covers laws i a 0 ids free_i j b at_j)
        (ap (λ n. beats covers n a j b) (omega arith)
          ∙ unbeaten covers laws j b 0 ids free_j i a at_i)

  keep-All :
      (Q : Str → Type 0) (ids : List Str) (i : ℕ) (later : List Str)
      → ((d : ℕ) (b : Str)
          → get_elem? later d ≡ some b
          → beaten covers (i + d) b 0 ids ≡ false
          → Q b)
      → All Q (keep covers ids i later)
  unfolding keep
  keep-All Q ids i [] h = tt
  keep-All Q ids i (a ∷ later) h =
      let rest =
        keep-All Q ids (suc i) later (λ d b at free.
          h (suc d) b at (ap (λ n. beaten covers n b 0 ids) (omega arith) ∙ free)) in
      elim (Bool-cases (beaten covers i a 0 ids)) [
        | inl e ↦ rw e rest
        | inr e ↦ rw e (h 0 a refl (ap (λ n. beaten covers n a 0 ids) (omega arith) ∙ e), rest)
      ]

  -- No filter of the list covers another one.
  abbrev pub Antichain : List Str → Type 0
  Antichain [] = Unit {0}
  Antichain (a ∷ rest) =
      All (λ b. (covers a b ≡ false) × (covers b a ≡ false)) rest × Antichain rest

  keep-Antichain :
      (ids : List Str) (i : ℕ) (later : List Str)
      → ((d : ℕ) (b : Str) → get_elem? later d ≡ some b → get_elem? ids (i + d) ≡ some b)
      → Antichain (keep covers ids i later)
  unfolding keep
  keep-Antichain ids i [] place = tt
  keep-Antichain ids i (a ∷ later) place =
      let place' : (d : ℕ) (b : Str)
          → get_elem? later d ≡ some b
          → get_elem? ids (suc i + d) ≡ some b =
        λ d b at. ap (get_elem? ids) (omega arith) ∙ place (suc d) b at in
      let rest = keep-Antichain ids (suc i) later place' in
      elim (Bool-cases (beaten covers i a 0 ids)) [
        | inl e ↦ rw e rest
        | inr e ↦
            let here : get_elem? ids i ≡ some a =
              ap (get_elem? ids) (omega arith) ∙ place 0 a refl in
            rw e (
              keep-All (λ b. (covers a b ≡ false) × (covers b a ≡ false)) ids (suc i) later
                  (λ d b at free.
                    kept_apart ids i (suc i + d) a b (omega arith) here (place' d b at) e free),
              rest,
            )
      ]

  kept_above :
      (ids : List Str) (a : Str)
      → Memᴰ a ids
      → (b : Str) × Memᴰ b (keep covers ids 0 ids) × (covers b a ≡ true)
  kept_above ids a mem =
      let (i, at) = place_of ids a mem in
      let (j, b, at_j, free, cover) =
        unbeaten_above covers laws ids (suc (winners covers laws i a 0 ids)) i a at (omega arith) in
      (b, kept ids 0 ids j b at_j (ap (λ n. beaten covers n b 0 ids) (omega arith) ∙ free), cover)

  above_each :
      (routes all : List CompiledRoute)
      → All (λ (r : CompiledRoute). Memᴰ r.filter (resource_ids all)) routes
      → All
          (λ (r : CompiledRoute).
            (b : Str) × Memᴰ b (subscriptions covers all) × (covers b r.filter ≡ true))
          routes
  unfolding subscriptions
  above_each [] all h = tt
  above_each (r ∷ routes) all (here, h) =
      (kept_above (resource_ids all) r.filter here, above_each routes all h)

  -- With a grammar whose covering is reflexive and transitive, the filter of each route is covered by one that
  -- is subscribed, and no subscribed filter covers another one.
  pub subscriptions_lem :
      (routes : List CompiledRoute)
      → All
          (λ (r : CompiledRoute).
            (b : Str) × Memᴰ b (subscriptions covers routes) × (covers b r.filter ≡ true))
          routes
        × Antichain (subscriptions covers routes)
  unfolding subscriptions
  subscriptions_lem routes = (
    above_each routes routes (resource_ids-mem routes),
    keep-Antichain (resource_ids routes) 0 (resource_ids routes)
        (λ d b at. ap (get_elem? (resource_ids routes)) (omega arith) ∙ at),
  )
