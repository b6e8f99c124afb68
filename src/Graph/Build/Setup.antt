-- ===== src/Graph/Build/Setup.antt =====
-- What Kahn's algorithm starts from meets the invariant of its loop.
use aimdb.Prelude.{
  ℕ, zero, suc, ◌+◌, ◌<◌, ◌≡◌, refl, sym, ap, ◌∙◌, Bool, List, [], ◌∷◌, ◌++◌, Option, none, some,
  length, if◌then◌else◌, arith, All, All-append, Str, str_eq→eq, str_eq_refl,
}
use aimdb.Graph.{GraphNode}
use aimdb.Graph.Net.{Map, get_or, Net, keys, inputs_of, transform_inputs, unconnected, connect}
use aimdb.Graph.Counts.{count, outputs, waiting}
use aimdb.Graph.Kahn.Invariant.{defined, free, blocked, Inv}
use aimdb.Graph.Build.{keys_where, is_zero, initial}
use aimdb.Graph.Build.Wiring.{
  IsDistinct, pairs, flow, add_all, Outputs, flatten-transform_inputs, connect-add_all,
  add_all-degree, add_all-adjacency, add_all-known, unconnected-degree, unconnected-adjacency,
  unconnected-known,
}

-- The part of a count that a test of the in-degree lets through.
abbrev pub passing : (ℕ → Bool) → Option ℕ → ℕ → ℕ
passing test none c = 0
passing test (some d) c = if test d then c else 0

module _ (in_degree : Map ℕ) where
  pub count-keys_where :
      (test : ℕ → Bool) (k : Str) (ks : List Str)
      → count k (keys_where test in_degree ks) ≡ passing test (in_degree k) (count k ks)
  unfolding keys_where
  count-keys_where test k [] = ground arith
  count-keys_where test k (x ∷ ks) = ground (arith, count-keys_where test k ks, str_eq→eq x k)

  length-keys_where :
      (ks : List Str)
      → All (λ k. defined (in_degree k) ≡ 1) ks
      → length (keys_where is_zero in_degree ks) + blocked ks in_degree ≡ length ks
  unfolding keys_where is_zero
  length-keys_where [] h = omega arith
  length-keys_where (x ∷ ks) (hx, h) = ground (arith, length-keys_where ks h)

-- Each of the keys is among them.
pub members : (ks : List Str) {P : Str → Type 0} → ((k : Str) → 0 < count k ks → P k) → All P ks
members [] h = tt
members (k ∷ ks) h =
    (h k (rw (str_eq_refl k) (omega arith)), members ks (λ j m. h j (omega (arith, m))))

pub All-keys :
    (P : Str → Type 0) (nodes : List GraphNode) → All P (keys nodes) → All (λ n. P n.key) nodes
All-keys P [] h = tt
All-keys P (n ∷ nodes) (hn, h) = (hn, All-keys P nodes h)

pairs-Outputs : (ks : List Str) (o : Str) (is : List Str) → count o ks ≡ 1 → Outputs ks (pairs o is)
pairs-Outputs ks o [] h = tt
pairs-Outputs ks o (i ∷ is) h = (h, pairs-Outputs ks o is h)

flow-Outputs :
    (ks : List Str) (nodes : List GraphNode)
    → All (λ n. count n.key ks ≡ 1) nodes
    → Outputs ks (flow nodes)
flow-Outputs ks [] h = tt
flow-Outputs ks (n ∷ nodes) (hn, h) =
    All-append (λ ((i, o) : Str × Str). count o ks ≡ 1) (pairs n.key (inputs_of n.origin))
      (flow nodes) (pairs-Outputs ks n.key (inputs_of n.origin) hn) (flow-Outputs ks nodes h)

passing_zero : (o : Option ℕ) (c : ℕ) → defined o ≡ c → passing is_zero o c ≡ free o
unfolding is_zero
passing_zero none c h = refl
passing_zero (some zero) c h = sym h
passing_zero (some (suc d)) c h = ground arith

module _ (nodes : List GraphNode) (distinct : IsDistinct (keys nodes)) where
  abbrev pub net_of : Net
  net_of = connect (transform_inputs nodes) (unconnected (keys nodes))

  connected : net_of ≡ add_all (flow nodes) (unconnected (keys nodes))
  connected =
      connect-add_all (transform_inputs nodes) (unconnected (keys nodes))
      ∙ ap (λ es. add_all es (unconnected (keys nodes))) (flatten-transform_inputs nodes)

  pub net_of-adjacency : (k : Str) → get_or (net_of.adjacency k) [] ≡ outputs k (flow nodes)
  net_of-adjacency k =
      ap (λ (m : Net). get_or (m.adjacency k) []) connected
      ∙ add_all-adjacency k (flow nodes) (unconnected (keys nodes))
      ∙ ap (λ ns. ns ++ outputs k (flow nodes)) (unconnected-adjacency (keys nodes) k)

  net_of-degree : (k : Str) → get_or (net_of.in_degree k) 0 ≡ waiting (flow nodes) [] k
  net_of-degree k = omega (
    arith,
    ap (λ (m : Net). get_or (m.in_degree k) 0) connected,
    add_all-degree k (flow nodes) (unconnected (keys nodes)),
    unconnected-degree (keys nodes) k,
  )

  once : All (λ k. count k (keys nodes) ≡ 1) (keys nodes)
  once = members (keys nodes) (λ k m. omega (arith, distinct k, m))

  net_of-known : (k : Str) → defined (net_of.in_degree k) ≡ count k (keys nodes)
  net_of-known k =
      ap (λ (m : Net). defined (m.in_degree k)) connected
      ∙ add_all-known (keys nodes) (flow nodes) (unconnected (keys nodes))
          (flow-Outputs (keys nodes) nodes (All-keys (λ k. count k (keys nodes) ≡ 1) nodes once))
          (λ j. unconnected-known (keys nodes) j distinct) k

  All-known : All (λ k. defined (net_of.in_degree k) ≡ 1) (keys nodes)
  All-known = members (keys nodes) (λ k m. omega (arith, net_of-known k, distinct k, m))

  pub initial-Inv : (seed : Option ℕ) → Inv (keys nodes) (flow nodes) [] (initial nodes seed net_of)
  unfolding initial
  initial-Inv seed = record {
    known = net_of-known;
    counted = λ k. omega (arith, net_of-degree k);
    placed = λ k. omega (
      arith,
      count-keys_where net_of.in_degree is_zero k (keys nodes),
      passing_zero (net_of.in_degree k) (count k (keys nodes)) (net_of-known k),
    );
    total = omega (arith, length-keys_where net_of.in_degree (keys nodes) All-known);
  }
