-- ===== src/Graph/Tests.antt =====
-- Runs of aimdb-core/src/graph.rs on small graphs, and the theorems at them.
use aimdb.Prelude.{ℕ, ◌≡◌, refl, List, [], ◌∷◌, false, none, some, arith, Str, str_eq, starts_with}
use mathlib.Core.List.{Memᴰ}
use aimdb.Graph.{
  RecordOrigin, GraphNode, DependencyGraph, cyclic_dependency, DbError, ok, err, node,
}
use aimdb.Graph.Net.{keys, contains, collect, transform_inputs, validate, unconnected, connect}
use aimdb.Graph.Kahn.{visit, drain, take_next, refill}
use aimdb.Graph.Counts.{count}
use aimdb.Graph.Random.{next, below}
use aimdb.Graph.Build.{edges_of, build_and_validate, build_and_validate_seeded, protocol_of}
use aimdb.Graph.Build.Wiring.{IsDistinct}
use aimdb.Graph.Build.Starts.{AllPresent}
use aimdb.Graph.Build.Starts.Cases.{Absent}
use aimdb.Graph.Build.Starts.Outcome.{
  Outcome, build_and_validate_seeded-Outcome, build_and_validate_seeded_missing,
}
use aimdb.Graph.Build.Starts.Order.{
  Precedes, build_and_validate_seeded-Precedes, build_and_validate_seeded_succeeds,
}
use aimdb.Graph.Build.Starts.Seeds.{forget_order, build_and_validate_seeded_seeds}

abbrev plain : Str → RecordOrigin → GraphNode
plain key origin = record {
  key = key;
  origin = origin;
  buffer_type = [];
  buffer_capacity = none;
  tap_count = 0;
  has_outbound_link = false;
  outbound_links = [];
  schema = none;
}

abbrev a : Str
a = 97 ∷ []

abbrev b : Str
b = 98 ∷ []

abbrev c : Str
c = 99 ∷ []

-- The join is registered before its inputs.
abbrev join : GraphNode
join = plain c (RecordOrigin.transform_join (a ∷ b ∷ []))

abbrev three : List GraphNode
three = join ∷ plain a RecordOrigin.source ∷ plain b (RecordOrigin.transform a) ∷ []

three_order :
    build_and_validate three
    ≡ ok (record { nodes = three; edges = edges_of three; topo_order = a ∷ b ∷ c ∷ [] })
unfolding build_and_validate str_eq contains collect transform_inputs validate unconnected connect
    visit drain take_next refill below
three_order = refl

two_sources : List GraphNode
two_sources = plain a RecordOrigin.source ∷ plain b RecordOrigin.passive ∷ []

-- 0xE220A8397B1DCDAF is the first number of SplitMix64 from the seed 0.
next_zero : (next 0).0 ≡ 0xE220A8397B1DCDAF
unfolding next
next_zero = refl

seeded_swaps :
    build_and_validate_seeded two_sources (some 0)
    ≡ ok (record { nodes = two_sources; edges = edges_of two_sources; topo_order = b ∷ a ∷ [] })
unfolding two_sources build_and_validate_seeded str_eq contains collect transform_inputs validate
    unconnected connect visit drain take_next refill below
seeded_swaps = refl

cycle : List GraphNode
cycle =
    plain a (RecordOrigin.transform b)
    ∷ plain b (RecordOrigin.transform a)
    ∷ plain c (RecordOrigin.transform b)
    ∷ []

cycle_found : build_and_validate cycle ≡ err (cyclic_dependency (a ∷ b ∷ c ∷ []))
unfolding cycle build_and_validate str_eq contains collect transform_inputs validate unconnected
    connect visit drain take_next refill below
cycle_found = refl

-- "mqtt://x"
protocol_mqtt :
    protocol_of (109 ∷ 113 ∷ 116 ∷ 116 ∷ 58 ∷ 47 ∷ 47 ∷ 120 ∷ []) ≡ 109 ∷ 113 ∷ 116 ∷ 116 ∷ []
unfolding protocol_of starts_with
protocol_mqtt = refl

three_nodes :
    node (record { nodes = three; edges = []; topo_order = [] }) b
    ≡ some (plain b (RecordOrigin.transform a))
unfolding node str_eq
three_nodes = refl

three-IsDistinct : IsDistinct (keys three)
unfolding str_eq
three-IsDistinct [] = omega arith
three-IsDistinct (d ∷ []) = ground arith
three-IsDistinct (d ∷ e ∷ k) = ground arith

three-AllPresent : AllPresent three
unfolding str_eq
three-AllPresent = omega arith

build_and_validate_seeded-Outcome_example : Outcome three (build_and_validate_seeded three (some 5))
build_and_validate_seeded-Outcome_example =
    build_and_validate_seeded-Outcome three (some 5) three-IsDistinct

abbrev three_graph : DependencyGraph
three_graph = record { nodes = three; edges = edges_of three; topo_order = a ∷ b ∷ c ∷ [] }

three_seeded : build_and_validate_seeded three (some 5) ≡ ok three_graph
unfolding build_and_validate_seeded str_eq contains collect transform_inputs validate unconnected
    connect visit drain take_next refill below
three_seeded = refl

build_and_validate_seeded-Precedes_example : Precedes three_graph.topo_order b c
build_and_validate_seeded-Precedes_example =
    build_and_validate_seeded-Precedes three (some 5) three_graph join b three-IsDistinct
      three_seeded (Memᴰ.head refl) (Memᴰ.tail (Memᴰ.head refl))

-- The first byte of a key puts its inputs below it.
abbrev first_byte : Str → ℕ
first_byte [] = 0
first_byte (d ∷ k) = d

build_and_validate_seeded_succeeds_example :
    (order : List Str) × (build_and_validate_seeded three (some 9)
      ≡ ok (record { nodes = three; edges = edges_of three; topo_order = order }))
build_and_validate_seeded_succeeds_example =
    build_and_validate_seeded_succeeds first_byte three (some 9) three-IsDistinct three-AllPresent
      (omega arith)

build_and_validate_seeded_seeds_example :
    forget_order (build_and_validate_seeded three none)
    ≡ forget_order (build_and_validate_seeded three (some 7))
build_and_validate_seeded_seeds_example =
    build_and_validate_seeded_seeds three none (some 7) three-IsDistinct

-- The record `c` is missing, and `a` and `b` wait for each other.
abbrev missing : List GraphNode
missing =
    plain a (RecordOrigin.transform_join (b ∷ c ∷ [])) ∷ plain b (RecordOrigin.transform a) ∷ []

missing-IsDistinct : IsDistinct (keys missing)
unfolding str_eq
missing-IsDistinct [] = omega arith
missing-IsDistinct (d ∷ []) = ground arith
missing-IsDistinct (d ∷ e ∷ k) = ground arith

no_c : count c (keys missing) ≡ 0
unfolding str_eq
no_c = refl

build_and_validate_seeded_missing_example :
    (e : DbError) × (build_and_validate_seeded missing none ≡ err e)
    × Absent (keys missing) missing e
build_and_validate_seeded_missing_example =
    build_and_validate_seeded_missing missing none
      (plain a (RecordOrigin.transform_join (b ∷ c ∷ []))) c missing-IsDistinct (Memᴰ.head refl)
      (Memᴰ.tail (Memᴰ.head refl)) no_c
