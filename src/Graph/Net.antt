-- ===== src/Graph/Net.antt =====
-- The keys, the inputs of the transforms and the two maps of Kahn's algorithm, as
-- `build_and_validate_seeded` of aimdb-core/src/graph.rs sets them up.
use aimdb.Prelude.{
  ℕ, suc, List, [], ◌∷◌, ◌++◌, map, Bool, true, false, ◌||◌, Option, none, some, if◌then◌else◌, Str,
  str_eq,
}
use aimdb.Graph.{RecordOrigin, GraphNode, DbError, transform_input_not_found}
use aimdb.Graph.RecordOrigin.{source, link, transform, transform_join, passive}

abbrev pub Map : Type 0 → Type 0
Map V = Str → Option V

abbrev pub get_or {ℓ} : {V : Type ℓ} → Option V → V → V
get_or none d = d
get_or (some v) d = v

-- `entry(key)`, the value there changed by `f`; `get_mut` where `f` is applied to a value only.
abbrev pub entry : {V : Type 0} → Str → (Option V → V) → Map V → Map V
entry key f m k = if str_eq key k then some (f (m k)) else m k

abbrev pub keys : List GraphNode → List Str
keys nodes = map (λ n. n.key) nodes

unfoldable pub contains : List Str → Str → Bool
contains [] k = false
contains (x ∷ xs) k = str_eq x k || contains xs k

-- `collect` into the set `all_keys`.
unfoldable pub collect : List Str → List Str
unfolding contains
collect [] = []
collect (k ∷ ks) = if contains (collect ks) k then collect ks else k ∷ collect ks

abbrev pub inputs_of : RecordOrigin → List Str
inputs_of source = []
inputs_of (link protocol address) = []
inputs_of (transform input) = input ∷ []
inputs_of (transform_join inputs) = inputs
inputs_of passive = []

abbrev pub is_transform : RecordOrigin → Bool
is_transform source = false
is_transform (link protocol address) = false
is_transform (transform input) = true
is_transform (transform_join inputs) = true
is_transform passive = false

-- Each transform with its inputs, in the order of registration.
unfoldable pub transform_inputs : List GraphNode → List (Str × List Str)
transform_inputs [] = []
transform_inputs (n ∷ nodes) =
    let rest = transform_inputs nodes in
    if is_transform n.origin then (n.key, inputs_of n.origin) ∷ rest else rest

unfoldable pub missing_input : List Str → Str → List Str → Option DbError
missing_input all_keys output [] = none
missing_input all_keys output (i ∷ inputs) =
    let rest = missing_input all_keys output inputs in
    if contains all_keys i then rest else some (transform_input_not_found output i)

unfoldable pub validate : List Str → List (Str × List Str) → Option DbError
unfolding missing_input
validate all_keys [] = none
validate all_keys ((output, inputs) ∷ ts) = elim (missing_input all_keys output inputs) [
  | some e ↦ some e
  | none ↦ validate all_keys ts
]

pub record Net : Type 0 where
  pub in_degree : Map ℕ
  pub adjacency : Map (List Str)

-- Every key with in-degree 0 and no neighbours.
unfoldable pub unconnected : List Str → Net
unconnected [] = record { in_degree = λ k. none; adjacency = λ k. none }
unconnected (key ∷ all_keys) =
    let net = unconnected all_keys in
    record {
      in_degree = entry key (λ d. get_or d 0) net.in_degree;
      adjacency = entry key (λ ns. get_or ns []) net.adjacency;
    }

unfoldable pub add_edge : Str → Str → Net → Net
add_edge input output net = record {
  in_degree = entry output (λ d. suc (get_or d 0)) net.in_degree;
  adjacency = entry input (λ ns. get_or ns [] ++ (output ∷ [])) net.adjacency;
}

unfoldable pub add_inputs : Str → List Str → Net → Net
unfolding add_edge
add_inputs output [] net = net
add_inputs output (i ∷ inputs) net = add_inputs output inputs (add_edge i output net)

unfoldable pub connect : List (Str × List Str) → Net → Net
unfolding add_inputs
connect [] net = net
connect ((output, inputs) ∷ ts) net = connect ts (add_inputs output inputs net)
