-- ===== src/Graph/Kahn/Invariant.antt =====
-- What the loop of Kahn's algorithm keeps, in the middle of a record's neighbours too.
use aimdb.Prelude.{
  ℕ, zero, suc, ◌+◌, ◌≤◌, ◌≡◌, refl, List, [], ◌∷◌, ◌++◌, Option, none, some, length, length-append,
  arith, Str, str_eq→eq, str_eq_refl,
}
use aimdb.Graph.Net.{Map, get_or, entry}
use aimdb.Graph.Counts.{hit, count, count-append, Edges, outputs, waiting, waiting-start}
use aimdb.Graph.Kahn.{Sort, decrement, relax_one, relax, visit}

-- A key has an in-degree; it is 0; it is not.
abbrev pub defined : Option ℕ → ℕ
defined none = 0
defined (some d) = 1

abbrev pub free : Option ℕ → ℕ
free none = 0
free (some zero) = 1
free (some (suc d)) = 0

abbrev pub held : Option ℕ → ℕ
held none = 0
held (some zero) = 0
held (some (suc d)) = 1

-- How many of the keys wait for an input.
abbrev pub blocked : List Str → Map ℕ → ℕ
blocked [] in_degree = 0
blocked (k ∷ ks) in_degree = held (in_degree k) + blocked ks in_degree

-- `ns` are the neighbours that are still to be told of the last start.
pub record Inv (ks : List Str) (es : Edges) (ns : List Str) (s : Sort) : Type 0 where
  pub known : (k : Str) → defined (s.in_degree k) ≡ count k ks
  pub counted : (k : Str) → get_or (s.in_degree k) 0 ≡ waiting es s.topo_order k + count k ns
  pub placed : (k : Str) → count k s.topo_order + count k s.queue ≡ free (s.in_degree k)
  pub total : length s.topo_order + length s.queue + blocked ks s.in_degree ≡ length ks

blocked-entry_zero :
    (ks : List Str) (in_degree : Map ℕ) (n : Str)
    → in_degree n ≡ some 1
    → blocked ks (entry n (λ _. 0) in_degree) + count n ks ≡ blocked ks in_degree
blocked-entry_zero [] in_degree n e = omega arith
blocked-entry_zero (k ∷ ks) in_degree n e =
    ground (arith, blocked-entry_zero ks in_degree n, str_eq→eq n k, str_eq→eq k n, str_eq_refl n)

blocked-entry_positive :
    (ks : List Str) (in_degree : Map ℕ) (n : Str) (d : ℕ)
    → in_degree n ≡ some (suc (suc d))
    → blocked ks (entry n (λ _. suc d) in_degree) ≡ blocked ks in_degree
blocked-entry_positive [] in_degree n d e = refl
blocked-entry_positive (k ∷ ks) in_degree n d e =
    ground
      (arith, blocked-entry_positive ks in_degree n d, str_eq→eq n k, str_eq→eq k n, str_eq_refl n)

-- The neighbour told of a start still waits for that input.
degree_of_neighbour :
    (o : Option ℕ) (w c : ℕ) → get_or o 0 ≡ w + (1 + c) → (d : ℕ) × (o ≡ some (suc d))
degree_of_neighbour none w c e = absurd (omega arith)
degree_of_neighbour (some zero) w c e = absurd (omega arith)
degree_of_neighbour (some (suc d)) w c e = (d, refl)

relax_one-Inv_at :
    (ks : List Str) (es : Edges) (n : Str) (ns : List Str) (s : Sort) (d : ℕ)
    → Inv ks es (n ∷ ns) s
    → s.in_degree n ≡ some (suc d)
    → Inv ks es ns (relax_one n s (some (suc d)))
unfolding relax_one decrement
relax_one-Inv_at ks es n ns s zero inv e = record {
  known = λ k. ground (arith, inv.known k, str_eq→eq n k);
  counted = λ k. ground (arith, inv.counted k, str_eq→eq n k);
  placed = λ k. ground (arith, inv.placed k, count-append k s.queue (n ∷ []), str_eq→eq n k);
  total = ground (
    arith,
    inv.total,
    inv.known n,
    length-append s.queue (n ∷ []),
    blocked-entry_zero ks s.in_degree n e,
  );
}
relax_one-Inv_at ks es n ns s (suc d) inv e = record {
  known = λ k. ground (arith, inv.known k, str_eq→eq n k);
  counted = λ k. ground (arith, inv.counted k, str_eq→eq n k);
  placed = λ k. ground (arith, inv.placed k, str_eq→eq n k);
  total = ground (arith, inv.total, blocked-entry_positive ks s.in_degree n d e);
}

told :
    {ks : List Str} {es : Edges} (s : Sort) (n : Str) (ns : List Str)
    → Inv ks es (n ∷ ns) s
    → get_or (s.in_degree n) 0 ≡ waiting es s.topo_order n + (1 + count n ns)
told s n ns inv = rw (str_eq_refl n) at (inv.counted n)

pub relax-Inv :
    (ks : List Str) (es : Edges) (ns : List Str) (s : Sort)
    → Inv ks es ns s
    → Inv ks es [] (relax ns s)
unfolding relax
relax-Inv ks es [] s inv = inv
relax-Inv ks es (n ∷ ns) s inv =
    let (d, e) =
      degree_of_neighbour (s.in_degree n) (waiting es s.topo_order n) (count n ns)
        (told s n ns inv) in
    relax-Inv ks es ns (relax_one n s (s.in_degree n))
      (rw e (relax_one-Inv_at ks es n ns s d inv e))

free-le : (o : Option ℕ) → free o ≤ 1
free-le none = omega arith
free-le (some zero) = omega arith
free-le (some (suc d)) = omega arith

module _ {ks : List Str} {es : Edges} (s : Sort) (n : Str) (q : List Str) (inv : Inv ks es [] s)
    (same : (k : Str) → count k s.queue ≡ hit n k + count k q) where
  in_queue : count n s.queue ≡ 1 + count n q
  in_queue = rw (str_eq_refl n) at (same n)

  pub fresh_in_order : count n s.topo_order ≡ 0
  fresh_in_order = omega (arith, inv.placed n, in_queue, free-le (s.in_degree n))

  pub free_in_queue : free (s.in_degree n) ≡ 1
  free_in_queue = omega (arith, inv.placed n, in_queue, free-le (s.in_degree n))

-- Starting a record that was taken from the queue.
pub visit-Inv :
    (ks : List Str) (es : Edges) (adjacency : Map (List Str)) (n : Str) (s : Sort) (q : List Str)
    → Inv ks es [] s
    → ((k : Str) → get_or (adjacency k) [] ≡ outputs k es)
    → ((k : Str) → count k s.queue ≡ hit n k + count k q)
    → length s.queue ≡ suc (length q)
    → (rng : Option ℕ) → Inv ks es [] (visit adjacency n (record s { queue = q; rng = rng }))
unfolding visit
visit-Inv ks es adjacency n s q inv adj same shorter rng =
    let started = record s { queue = q; rng = rng; topo_order = s.topo_order ++ (n ∷ []) } in
    relax-Inv ks es (get_or (adjacency n) []) started record {
      known = inv.known;
      counted = λ k. rw (adj n) (
          omega (
            arith,
            inv.counted k,
            waiting-start es s.topo_order n k (fresh_in_order s n q inv same),
          ));
      placed = λ k. omega (arith, inv.placed k, same k, count-append k s.topo_order (n ∷ []));
      total = omega (arith, inv.total, shorter, length-append s.topo_order (n ∷ []));
    }
