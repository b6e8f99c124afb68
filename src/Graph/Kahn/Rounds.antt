-- ===== src/Graph/Kahn/Rounds.antt =====
-- The loop of Kahn's algorithm takes each record once, ends, and starts none before its inputs.
use aimdb.Prelude.{
  ℕ, zero, suc, ◌+◌, ◌<◌, ◌≡◌, refl, sym, ap, ◌∙◌, false, List, [], ◌∷◌, ◌++◌, Option, none, some,
  length, length-append, ◌==◌, arith, Str, Bool-cases, inl, inr, ◌⊎◌, subst,
}
use aimdb.Graph.Random.{below, below-lt}
use aimdb.Graph.Net.{Map, get_or}
use aimdb.Graph.Counts.{hit, count, Edges, outputs, waiting}
use aimdb.Graph.Kahn.{
  Sort, refill, swap_remove_back, pop_front, taken, draw, take_next, relax_one, relax, visit, drain,
}
use aimdb.Graph.Kahn.Invariant.{defined, free, Inv, visit-Inv, fresh_in_order, free_in_queue}

count-refill : (k : Str) (q : List Str) → count k (refill q) ≡ count k q
unfolding refill
count-refill k [] = refl
count-refill k (y ∷ []) = refl
count-refill k (y ∷ z ∷ q) = ground (arith, count-refill k (z ∷ q))

length-refill : (q : List Str) → length (refill q) ≡ length q
unfolding refill
length-refill [] = refl
length-refill (y ∷ []) = refl
length-refill (y ∷ z ∷ q) = ground (arith, length-refill (z ∷ q))

-- `x` and `r` are what is left of `q` when one element is taken out.
record Splits (q : List Str) (x : Str) (r : List Str) : Type 0 where
  same : (k : Str) → count k q ≡ hit x k + count k r
  shorter : length q ≡ suc (length r)

swap_remove_back-Splits :
    (q : List Str) (i : ℕ)
    → i < length q
    → (x : Str) × (r : List Str) × (swap_remove_back q i ≡ some (x, r)) × Splits q x r
unfolding swap_remove_back
swap_remove_back-Splits [] i h = absurd (omega arith)
swap_remove_back-Splits (x ∷ q) zero h = (
  x,
  refill q,
  refl,
  record { same = λ k. omega (arith, count-refill k q); shorter = omega (arith, length-refill q) },
)
swap_remove_back-Splits (x ∷ q) (suc i) h =
    let (y, r, e, split) = swap_remove_back-Splits q i (omega arith) in
    (
      y,
      x ∷ r,
      rw (e, swap_remove_back) refl,
      record { same = λ k. omega (arith, split.same k); shorter = omega (arith, split.shorter) },
    )

data Taken (s : Sort) : Option (Str × Sort) → Type 0 where
  empty : length s.queue ≡ 0 → Taken s none
  took :
      (n : Str) (q : List Str) (rng : Option ℕ)
      → Splits s.queue n q
      → Taken s (some (n, record s { queue = q; rng = rng }))

pop_front-Taken :
    (s : Sort) (rng : Option ℕ) (q : List Str) → s.queue ≡ q → Taken s (taken s rng (pop_front q))
unfolding taken pop_front
pop_front-Taken s rng [] e = empty (ap length e)
pop_front-Taken s rng (x ∷ q) e =
    took x q rng record { same = λ k. ap (count k) e; shorter = ap length e }

drawn-Taken :
    (s : Sort) (state : ℕ)
    → (length s.queue == 0) ≡ false
    → Taken s (
        taken s
          (some (below state (length s.queue)).1)
          (swap_remove_back s.queue (below state (length s.queue)).0))
unfolding taken
drawn-Taken s state some_queue =
    let (i, state') = below state (length s.queue) in
    let (x, r, e, split) =
      swap_remove_back-Splits s.queue i (below-lt state (length s.queue) (ground arith)) in
    rw e (took x r (some state') split)

draw-Taken : (s : Sort) (rng : Option ℕ) → Taken s (draw s rng)
unfolding draw
draw-Taken s none = pop_front-Taken s none s.queue refl
draw-Taken s (some state) = elim (Bool-cases (length s.queue == 0)) [
  | inl no_queue ↦ rw no_queue (pop_front-Taken s (some state) s.queue refl)
  | inr some_queue ↦ rw some_queue (drawn-Taken s state some_queue)
]

take_next-Taken : (s : Sort) → Taken s (take_next s)
unfolding take_next
take_next-Taken s = draw-Taken s s.rng

Taken-cases :
    {s : Sort} {r : Option (Str × Sort)}
    → Taken s r
    → ((r ≡ none) × (length s.queue ≡ 0))
      ⊎ ((n : Str) × (q : List Str) × (rng : Option ℕ) × (r
            ≡ some (n, record s { queue = q; rng = rng }))
          × Splits s.queue n q)
Taken-cases (empty e) = inl (refl, e)
Taken-cases (took n q rng split) = inr (n, q, rng, refl, split)

-- What holds of the start order and goes on holding when a record that waits for nothing starts.
pub record Rule (ks : List Str) (es : Edges) (P : List Str → Type 0) : Type 0 where
  pub start :
      (started : List Str) (n : Str)
      → count n started ≡ 0
      → count n ks ≡ 1
      → waiting es started n ≡ 0
      → P started
      → P (started ++ (n ∷ []))

-- What the loop ends with.
pub record Drained (ks : List Str) (es : Edges) (P : List Str → Type 0) (s : Sort) : Type 0 where
  pub inv : Inv ks es [] s
  pub all_taken : length s.queue ≡ 0
  pub order_holds : P s.topo_order

degree_of_free : (o : Option ℕ) → free o ≡ 1 → (defined o ≡ 1) × (get_or o 0 ≡ 0)
degree_of_free none h = absurd (omega arith)
degree_of_free (some zero) h = (refl, refl)
degree_of_free (some (suc d)) h = absurd (omega arith)

relax_one-keeps : (n : Str) (s : Sort) (o : Option ℕ) → (relax_one n s o).topo_order ≡ s.topo_order
unfolding relax_one
relax_one-keeps n s none = refl
relax_one-keeps n s (some d) = refl

relax-keeps : (ns : List Str) (s : Sort) → (relax ns s).topo_order ≡ s.topo_order
unfolding relax
relax-keeps [] s = refl
relax-keeps (n ∷ ns) s =
    relax-keeps ns (relax_one n s (s.in_degree n)) ∙ relax_one-keeps n s (s.in_degree n)

visit-order :
    (adjacency : Map (List Str)) (n : Str) (s : Sort)
    → (visit adjacency n s).topo_order ≡ s.topo_order ++ (n ∷ [])
unfolding visit
visit-order adjacency n s =
    relax-keeps (get_or (adjacency n) []) (record s { topo_order = s.topo_order ++ (n ∷ []) })

module _ {ks : List Str} {es : Edges} {P : List Str → Type 0} (rule : Rule ks es P)
    (adjacency : Map (List Str)) (adj : (k : Str) → get_or (adjacency k) [] ≡ outputs k es) where
  step :
      (s : Sort) (n : Str) (q : List Str) (rng : Option ℕ)
      → Inv ks es [] s
      → P s.topo_order
      → Splits s.queue n q
      → Inv ks es [] (visit adjacency n (record s { queue = q; rng = rng }))
        × P (s.topo_order ++ (n ∷ []))
  step s n q rng inv holds split =
      let zero_degree = degree_of_free (s.in_degree n) (free_in_queue s n q inv split.same) in
      (
        visit-Inv ks es adjacency n s q inv adj split.same split.shorter rng,
        rule.start s.topo_order n (fresh_in_order s n q inv split.same)
            (sym (inv.known n) ∙ zero_degree.0) (omega (arith, inv.counted n, zero_degree.1)) holds,
      )

  -- A round for each record, and one that finds the queue empty.
  pub drain-Drained :
      (fuel : ℕ) (s : Sort)
      → Inv ks es [] s
      → P s.topo_order
      → length ks < fuel + length s.topo_order
      → (t : Sort) × (drain fuel adjacency s ≡ some t) × Drained ks es P t
  unfolding drain
  drain-Drained zero s inv holds enough = absurd (omega (arith, inv.total))
  drain-Drained (suc fuel) s inv holds enough = elim (Taken-cases (take_next-Taken s)) [
    | inl (e, no_queue) ↦
        (s, rw (e, drain) refl, record { inv = inv; all_taken = no_queue; order_holds = holds })
    | inr (n, q, rng, e, split) ↦
        let s' = visit adjacency n (record s { queue = q; rng = rng }) in
        let (kept, started) = step s n q rng inv holds split in
        let order = visit-order adjacency n (record s { queue = q; rng = rng }) in
        let (t, ends, done) =
          drain-Drained fuel s' kept (subst P (sym order) started)
            (omega (arith, enough, ap length order, length-append s.topo_order (n ∷ []))) in
        (t, rw (e, drain) ends, done)
  ]
