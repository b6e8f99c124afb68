-- ===== src/Graph/Build.antt =====
-- `build_and_validate` and `build_and_validate_seeded` of aimdb-core/src/graph.rs.
pub mod Wiring
pub mod Setup
pub mod Starts
use aimdb.Prelude.{
  ℕ, zero, suc, List, [], ◌∷◌, ◌++◌, map, Bool, Option, none, some, length, ltb, ◌==◌,
  if◌then◌else◌, Str, str_eq, starts_with,
}
use mathlib.Core.Option
use aimdb.Graph.{
  RecordOrigin, GraphNode, GraphEdge, EdgeType, DependencyGraph, DbError, cyclic_dependency,
  DbResult, ok, err, out_of_fuel,
}
use aimdb.Graph.Net.{
  Map, Net, get_or, keys, collect, transform_inputs, validate, unconnected, connect,
}
use aimdb.Graph.Kahn.{Sort, drain}

-- "://"
abbrev scheme_end : Str
scheme_end = 58 ∷ 47 ∷ 47 ∷ []

-- The first piece of `split_once`.
unfoldable pub before : Str → Str → Option Str
before sep [] = none
before sep (c ∷ s) =
    let rest = before sep s in
    if starts_with sep (c ∷ s) then some [] else Option.map (λ p. c ∷ p) rest

-- The scheme of an address, and nothing where there is none.
unfoldable pub protocol_of : Str → Str
unfolding before
protocol_of address = get_or (before scheme_end address) []

unfoldable pub origin_edges : Str → RecordOrigin → List GraphEdge
origin_edges key RecordOrigin.source =
    record { from = none; to = some key; edge_type = EdgeType.source } ∷ []
origin_edges key (RecordOrigin.link protocol address) =
    record { from = none; to = some key; edge_type = EdgeType.link protocol } ∷ []
origin_edges key (RecordOrigin.transform input) =
    record { from = some input; to = some key; edge_type = EdgeType.transform } ∷ []
origin_edges key (RecordOrigin.transform_join inputs) =
    map (λ i. record { from = some i; to = some key; edge_type = EdgeType.transform_join }) inputs
origin_edges key RecordOrigin.passive = []

unfoldable pub link_edges : Str → List Str → List GraphEdge
unfolding protocol_of
link_edges key links =
    map (λ a. record { from = some key; to = none; edge_type = EdgeType.link_out (protocol_of a) })
      links

-- The taps from number `i` on, `n` of them.
unfoldable pub tap_edges : Str → ℕ → ℕ → List GraphEdge
tap_edges key i zero = []
tap_edges key i (suc n) =
    record { from = some key; to = none; edge_type = EdgeType.tap i } ∷ tap_edges key (suc i) n

unfoldable pub edges_of : List GraphNode → List GraphEdge
unfolding origin_edges link_edges tap_edges
edges_of [] = []
edges_of (n ∷ nodes) =
    origin_edges n.key n.origin
    ++ (link_edges n.key n.outbound_links ++ (tap_edges n.key 0 n.tap_count ++ edges_of nodes))

-- The keys for which a test of the in-degree holds, in the order of registration.
unfoldable pub keys_where : (ℕ → Bool) → Map ℕ → List Str → List Str
keys_where test in_degree [] = []
keys_where test in_degree (k ∷ ks) =
    let rest = keys_where test in_degree ks in
    elim (in_degree k) [ none ↦ rest | some d ↦ if test d then k ∷ rest else rest ]

is_zero : ℕ → Bool
is_zero d = d == 0

is_positive : ℕ → Bool
is_positive d = ltb 0 d

unfoldable pub initial : List GraphNode → Option ℕ → Net → Sort
unfolding keys_where is_zero
initial nodes seed net = record {
  queue = keys_where is_zero net.in_degree (keys nodes);
  topo_order = [];
  in_degree = net.in_degree;
  rng = seed;
}

unfoldable pub finish : List GraphNode → List Str → Sort → DbResult
unfolding keys_where is_positive edges_of
finish nodes all_keys s =
    if length s.topo_order == length all_keys
    then ok (record { nodes = nodes; edges = edges_of nodes; topo_order = s.topo_order })
    else err (cyclic_dependency (keys_where is_positive s.in_degree (keys nodes)))

unfoldable pub sort : List GraphNode → Option ℕ → List Str → Net → DbResult
unfolding initial finish
sort nodes seed all_keys net =
    elim (drain (suc (length nodes)) net.adjacency (initial nodes seed net)) [
      | none ↦ out_of_fuel
      | some s ↦ finish nodes all_keys s
    ]

unfoldable pub build_over : List GraphNode → Option ℕ → List Str → DbResult
unfolding sort
build_over nodes seed all_keys =
    let transforms = transform_inputs nodes in
    elim (validate all_keys transforms) [
      | some e ↦ err e
      | none ↦ sort nodes seed all_keys (connect transforms (unconnected all_keys))
    ]

unfoldable pub build_and_validate_seeded : List GraphNode → Option ℕ → DbResult
unfolding build_over
build_and_validate_seeded nodes seed = build_over nodes seed (collect (keys nodes))

unfoldable pub build_and_validate : List GraphNode → DbResult
unfolding build_and_validate_seeded
build_and_validate nodes = build_and_validate_seeded nodes none
