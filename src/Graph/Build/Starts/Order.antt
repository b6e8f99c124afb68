-- ===== src/Graph/Build/Starts/Order.antt =====
-- In a graph that is built each input stands before what is made from it, and a graph without a cycle
-- is built.
use aimdb.Prelude.{
  ℕ, zero, suc, ◌<◌, ◌≡◌, refl, sym, ap, ◌∙◌, List, [], ◌∷◌, ◌++◌, append_assoc, Option, length,
  arith, All, All-Memᴰ, Str, str_eq→eq, str_eq_refl, eq→str_eq, inl, inr, subst,
}
use mathlib.Core.List.{Memᴰ}
use aimdb.Graph.{GraphNode, DependencyGraph, DbResult, ok}
use aimdb.Graph.Net.{keys, inputs_of}
use aimdb.Graph.Counts.{hit, count, count-append}
use aimdb.Graph.Build.{edges_of, build_and_validate_seeded}
use aimdb.Graph.Build.Wiring.{IsDistinct, IsDistinct-tail}
use aimdb.Graph.Build.Starts.{Listed, start, Starts, nothing, one_more, AllPresent}
use aimdb.Graph.Build.Starts.Outcome.{
  WaitsFor, Outcome, input_absent, cyclic, built, build_and_validate_seeded-Outcome, Nat-cases,
  input_present,
}

pub Listed-key : (n : GraphNode) (nodes : List GraphNode) → Memᴰ n nodes → Listed (keys nodes) n.key
Listed-key n [] mem = elim mem [ ]
Listed-key n (m ∷ nodes) (Memᴰ.head e) =
    ground (arith, eq→str_eq m.key n.key (ap (λ (j : GraphNode). j.key) (sym e)))
Listed-key n (m ∷ nodes) (Memᴰ.tail mem) = omega (arith, Listed-key n nodes mem)

twice :
    (x m : GraphNode) (nodes : List GraphNode)
    → IsDistinct (keys (x ∷ nodes))
    → x.key ≡ m.key
    → Memᴰ m nodes
    → ⊥
twice x m nodes distinct e mem =
    omega (arith, rw (eq→str_eq x.key m.key e) at (distinct m.key), Listed-key m nodes mem)

-- A key has one node.
pub same_node :
    (nodes : List GraphNode) (n m : GraphNode)
    → IsDistinct (keys nodes)
    → Memᴰ n nodes
    → Memᴰ m nodes
    → n.key ≡ m.key
    → n ≡ m
same_node [] n m distinct mem mem' e = elim mem [ ]
same_node (x ∷ nodes) n m distinct (Memᴰ.head p) (Memᴰ.head q) e = p ∙ sym q
same_node (x ∷ nodes) n m distinct (Memᴰ.head p) (Memᴰ.tail q) e =
    absurd (twice x m nodes distinct (ap (λ (j : GraphNode). j.key) (sym p) ∙ e) q)
same_node (x ∷ nodes) n m distinct (Memᴰ.tail p) (Memᴰ.head q) e =
    absurd (twice x n nodes distinct (ap (λ (j : GraphNode). j.key) (sym q) ∙ sym e) p)
same_node (x ∷ nodes) n m distinct (Memᴰ.tail p) (Memᴰ.tail q) e =
    same_node nodes n m (IsDistinct-tail x.key (keys nodes) distinct) p q e

-- `i` stands before a place of `k`.
abbrev pub Precedes : List Str → Str → Str → Type 0
Precedes order i k =
    (before : List Str) × (after : List Str) × (order ≡ before ++ (k ∷ after)) × Listed before i

Precedes-snoc :
    (order : List Str) (i k x : Str) → Precedes order i k → Precedes (order ++ (x ∷ [])) i k
Precedes-snoc order i k x (before, after, e, listed) = (
  before,
  after ++ (x ∷ []),
  ap (λ o. o ++ (x ∷ [])) e ∙ append_assoc before (k ∷ after) (x ∷ []),
  listed,
)

Starts-Precedes :
    {nodes : List GraphNode} {order : List Str} (n : GraphNode) (i : Str)
    → IsDistinct (keys nodes)
    → Memᴰ n nodes
    → Memᴰ i (inputs_of n.origin)
    → Starts nodes order
    → Listed order n.key
    → Precedes order i n.key
Starts-Precedes n i distinct mem input nothing listed = absurd (omega arith)
Starts-Precedes {nodes} n i distinct mem input
      (one_more {started = started} before (start m m_mem fresh inputs)) listed =
    elim (Nat-cases (count n.key started)) [
      | inl new ↦
          let now : m.key ≡ n.key =
            str_eq→eq m.key n.key (ground (arith, count-append n.key started (m.key ∷ []))) in
          let same = same_node nodes m n distinct m_mem mem now in
          (
            started,
            [],
            ap (λ k. started ++ (k ∷ [])) now,
            All-Memᴰ (Listed started) i (inputs_of n.origin)
                (subst (λ (j : GraphNode). All (Listed started) (inputs_of j.origin)) same inputs)
                input,
          )
      | inr old ↦
          Precedes-snoc started i n.key m.key (Starts-Precedes n i distinct mem input before old)
    ]

abbrev with_order : List GraphNode → List Str → DependencyGraph
with_order nodes order = record { nodes = nodes; edges = edges_of nodes; topo_order = order }

built_order :
    {nodes : List GraphNode} {r : DbResult} (g : DependencyGraph)
    → Outcome nodes r
    → r ≡ ok g
    → (order : List Str) × (g ≡ with_order nodes order)
      × Starts nodes order
      × ((k : Str) → count k order ≡ count k (keys nodes))
built_order g (input_absent n i mem input absent) e = absurd (cc e)
built_order g (cyclic records present some_record waits) e = absurd (cc e)
built_order g (built order present starts complete) e = (order, cc e, starts, complete)

-- In the order of a graph that the construction returns over distinct keys, every input of a transform
-- or a join stands before the key of that transform or join, whatever the seed.
pub build_and_validate_seeded-Precedes :
    (nodes : List GraphNode) (seed : Option ℕ) (g : DependencyGraph) (n : GraphNode) (i : Str)
    → IsDistinct (keys nodes)
    → build_and_validate_seeded nodes seed ≡ ok g
    → Memᴰ n nodes
    → Memᴰ i (inputs_of n.origin)
    → Precedes g.topo_order i n.key
build_and_validate_seeded-Precedes nodes seed g n i distinct e mem input =
    let (order, made, starts, complete) =
      built_order g (build_and_validate_seeded-Outcome nodes seed distinct) e in
    subst (λ (h : DependencyGraph). Precedes h.topo_order i n.key) (sym made)
      (Starts-Precedes n i distinct mem input starts
        (omega (arith, complete n.key, Listed-key n nodes mem)))

-- The inputs of a record rank below it, so that there is no cycle.
abbrev pub IsRanked : (Str → ℕ) → List GraphNode → Type 0
IsRanked rank nodes = All (λ n. All (λ i. rank i < rank n.key) (inputs_of n.origin)) nodes

All-listed : (P : Str → Type 0) (k : Str) (ks : List Str) → All P ks → Listed ks k → P k
All-listed P k [] h listed = absurd (omega arith)
All-listed P k (x ∷ ks) (hx, h) listed = elim (Nat-cases (hit x k)) [
  | inl other ↦ All-listed P k ks h (omega (arith, other))
  | inr same ↦ subst P (str_eq→eq x k (ground arith)) hx
]

-- Along a rank no set of records can wait for itself.
descent :
    (rank : Str → ℕ) (nodes : List GraphNode) (records : List Str)
    → IsRanked rank nodes
    → All (WaitsFor nodes records) records
    → (bound : ℕ) (k : Str) → Listed records k
    → rank k < bound
    → ⊥
descent rank nodes records ranked waits zero k listed below = omega arith
descent rank nodes records ranked waits (suc bound) k listed below =
    let (n, i, mem, same, input, deeper) =
      All-listed (WaitsFor nodes records) k records waits listed in
    let lower =
      All-Memᴰ (λ j. rank j < rank n.key) i (inputs_of n.origin)
        (All-Memᴰ (λ (m : GraphNode). All (λ j. rank j < rank m.key) (inputs_of m.origin)) n nodes
          ranked mem)
        input in
    descent rank nodes records ranked waits bound i deeper (omega (arith, lower, ap rank same))

acyclic :
    (rank : Str → ℕ) (nodes : List GraphNode) (records : List Str)
    → IsRanked rank nodes
    → All (WaitsFor nodes records) records
    → 0 < length records
    → ⊥
acyclic rank nodes [] ranked waits some_record = omega arith
acyclic rank nodes (k ∷ records) ranked waits some_record =
    descent rank nodes (k ∷ records) ranked waits (suc (rank k)) k (ground (arith, str_eq_refl k))
      (omega arith)

ranked_built :
    (rank : Str → ℕ) {nodes : List GraphNode} {r : DbResult}
    → IsRanked rank nodes
    → AllPresent nodes
    → Outcome nodes r
    → (order : List Str) × (r ≡ ok (with_order nodes order))
ranked_built rank {nodes} ranked present (input_absent n i mem input absent) =
    absurd (omega (arith, input_present n i mem input present, absent))
ranked_built rank {nodes} ranked present (cyclic records all_present some_record waits) =
    absurd (acyclic rank nodes records ranked waits some_record)
ranked_built rank ranked present (built order all_present starts complete) = (order, refl)

-- Over distinct keys, if every input is a record and some rank puts each input below what is made from
-- it, then the construction returns a graph of exactly the nodes given, whatever the seed.
pub build_and_validate_seeded_succeeds :
    (rank : Str → ℕ) (nodes : List GraphNode) (seed : Option ℕ)
    → IsDistinct (keys nodes)
    → AllPresent nodes
    → IsRanked rank nodes
    → (order : List Str) × (build_and_validate_seeded nodes seed
        ≡ ok (record { nodes = nodes; edges = edges_of nodes; topo_order = order }))
build_and_validate_seeded_succeeds rank nodes seed distinct present ranked =
    ranked_built rank ranked present (build_and_validate_seeded-Outcome nodes seed distinct)
