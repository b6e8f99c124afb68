-- ===== src/Graph/Build/Wiring.antt =====
-- The two maps of Kahn's algorithm as counts over the edges of the graph.
use aimdb.Prelude.{
  ◌+◌, ◌≤◌, ◌<◌, ◌≡◌, refl, sym, ap, ◌∙◌, true, false, List, [], ◌∷◌, ◌++◌, append-nil,
  append_assoc, arith, All, Str, str_eq, str_eq→eq, str_eq_refl, Bool-cases, inl, inr,
}
use aimdb.Graph.{GraphNode, RecordOrigin}
use aimdb.Graph.RecordOrigin.{source, link, transform, transform_join, passive}
use aimdb.Graph.Net.{
  get_or, Net, contains, collect, is_transform, inputs_of, transform_inputs, unconnected, add_edge,
  add_inputs, connect,
}
use aimdb.Graph.Counts.{count, Edges, outputs, waiting}
use aimdb.Graph.Kahn.Invariant.{defined}

abbrev pub IsDistinct : List Str → Type 0
IsDistinct ks = (k : Str) → count k ks ≤ 1

pub IsDistinct-tail : (x : Str) (ks : List Str) → IsDistinct (x ∷ ks) → IsDistinct ks
IsDistinct-tail x ks distinct k = omega (arith, distinct k)

pub contains-false : (ks : List Str) (k : Str) → count k ks ≡ 0 → contains ks k ≡ false
unfolding contains
contains-false [] k h = refl
contains-false (x ∷ ks) k h = ground (arith, contains-false ks k)

pub contains-false_inv : (ks : List Str) (k : Str) → contains ks k ≡ false → count k ks ≡ 0
unfolding contains
contains-false_inv [] k h = refl
contains-false_inv (x ∷ ks) k h = ground (arith, contains-false_inv ks k)

pub contains-true : (ks : List Str) (k : Str) → contains ks k ≡ true → 0 < count k ks
unfolding contains
contains-true [] k h = absurd (cc h)
contains-true (x ∷ ks) k h = ground (arith, contains-true ks k)

pub collect_distinct : (ks : List Str) → IsDistinct ks → collect ks ≡ ks
unfolding collect
collect_distinct [] distinct = refl
collect_distinct (k ∷ ks) distinct =
    let once : count k ks ≡ 0 = omega (arith, rw (str_eq_refl k) at (distinct k)) in
    rw (collect_distinct ks (IsDistinct-tail k ks distinct)) (rw (contains-false ks k once) refl)

-- The edges into one key, and those of all nodes.
abbrev pub pairs : Str → List Str → Edges
pairs output [] = []
pairs output (i ∷ inputs) = (i, output) ∷ pairs output inputs

abbrev pub flow : List GraphNode → Edges
flow [] = []
flow (n ∷ nodes) = pairs n.key (inputs_of n.origin) ++ flow nodes

abbrev pub flatten : List (Str × List Str) → Edges
flatten [] = []
flatten ((output, inputs) ∷ ts) = pairs output inputs ++ flatten ts

pub inputs_of_other : (origin : RecordOrigin) → is_transform origin ≡ false → inputs_of origin ≡ []
inputs_of_other source h = refl
inputs_of_other (link protocol address) h = refl
inputs_of_other (transform input) h = absurd (cc h)
inputs_of_other (transform_join inputs) h = absurd (cc h)
inputs_of_other passive h = refl

pub flatten-transform_inputs :
    (nodes : List GraphNode) → flatten (transform_inputs nodes) ≡ flow nodes
unfolding transform_inputs
flatten-transform_inputs [] = refl
flatten-transform_inputs (n ∷ nodes) = elim (Bool-cases (is_transform n.origin)) [
  | inl e ↦
      rw e (ap (λ es. pairs n.key (inputs_of n.origin) ++ es) (flatten-transform_inputs nodes))
  | inr e ↦ rw e (
      flatten-transform_inputs nodes
      ∙ ap (λ is. pairs n.key is ++ flow nodes) (sym (inputs_of_other n.origin e)))
]

abbrev pub add_all : Edges → Net → Net
add_all [] net = net
add_all ((i, o) ∷ es) net = add_all es (add_edge i o net)

add_all-append : (es fs : Edges) (net : Net) → add_all (es ++ fs) net ≡ add_all fs (add_all es net)
add_all-append [] fs net = refl
add_all-append ((i, o) ∷ es) fs net = add_all-append es fs (add_edge i o net)

add_inputs-add_all :
    (o : Str) (is : List Str) (net : Net) → add_inputs o is net ≡ add_all (pairs o is) net
unfolding add_inputs
add_inputs-add_all o [] net = refl
add_inputs-add_all o (i ∷ is) net = add_inputs-add_all o is (add_edge i o net)

pub connect-add_all :
    (ts : List (Str × List Str)) (net : Net) → connect ts net ≡ add_all (flatten ts) net
unfolding connect
connect-add_all [] net = refl
connect-add_all ((o, is) ∷ ts) net =
    connect-add_all ts (add_inputs o is net)
    ∙ ap (add_all (flatten ts)) (add_inputs-add_all o is net)
    ∙ sym (add_all-append (pairs o is) (flatten ts) net)

module _ (k : Str) where
  pub add_all-degree :
      (es : Edges) (net : Net)
      → get_or ((add_all es net).in_degree k) 0 ≡ get_or (net.in_degree k) 0 + waiting es [] k
  unfolding add_edge
  add_all-degree [] net = omega arith
  add_all-degree ((i, o) ∷ es) net =
      ground (arith, add_all-degree es (add_edge i o net), str_eq→eq o k)

  pub add_all-adjacency :
      (es : Edges) (net : Net)
      → get_or ((add_all es net).adjacency k) [] ≡ get_or (net.adjacency k) [] ++ outputs k es
  unfolding add_edge
  add_all-adjacency [] net = sym (append-nil _)
  add_all-adjacency ((i, o) ∷ es) net = elim (Bool-cases (str_eq i k)) [
    | inl e ↦ rw e (
        add_all-adjacency es (add_edge i o net)
        ∙ rw e (append_assoc (get_or (net.adjacency k) []) (o ∷ []) (outputs k es)))
    | inr e ↦ rw e (add_all-adjacency es (add_edge i o net) ∙ rw e refl)
  ]

-- Every output is a key.
abbrev pub Outputs : List Str → Edges → Type 0
Outputs ks es = All (λ ((i, o) : Str × Str). count o ks ≡ 1) es

pub add_all-known :
    (ks : List Str) (es : Edges) (net : Net)
    → Outputs ks es
    → ((k : Str) → defined (net.in_degree k) ≡ count k ks)
    → (k : Str) → defined ((add_all es net).in_degree k) ≡ count k ks
unfolding add_edge
add_all-known ks [] net outs known k = known k
add_all-known ks ((i, o) ∷ es) net (out, outs) known k =
    add_all-known ks es (add_edge i o net) outs (λ j. ground (arith, known j, str_eq→eq o j, out)) k

pub unconnected-degree : (ks : List Str) (k : Str) → get_or ((unconnected ks).in_degree k) 0 ≡ 0
unfolding unconnected
unconnected-degree [] k = refl
unconnected-degree (x ∷ ks) k = ground (arith, unconnected-degree ks k)

pub unconnected-adjacency :
    (ks : List Str) (k : Str) → get_or ((unconnected ks).adjacency k) [] ≡ []
unfolding unconnected
unconnected-adjacency [] k = refl
unconnected-adjacency (x ∷ ks) k = ground (arith, unconnected-adjacency ks k)

pub unconnected-known :
    (ks : List Str) (k : Str) → IsDistinct ks → defined ((unconnected ks).in_degree k) ≡ count k ks
unfolding unconnected
unconnected-known [] k distinct = refl
unconnected-known (x ∷ ks) k distinct =
    ground (arith, distinct k, unconnected-known ks k (IsDistinct-tail x ks distinct))
