-- ===== src/Graph.antt =====
-- aimdb-core/src/graph.rs: the graph of a database's records, and the order in which their tasks start.
-- A hash map is a function into `Option`, and a hash set a list without repetition.
pub mod Counts
pub mod Random
pub mod Net
pub mod Kahn
pub mod Build
mod Tests
use aimdb.Prelude.{ℕ, Bool, List, [], ◌∷◌, Option, none, some, if◌then◌else◌, Str, str_eq}

pub data RecordOrigin : Type 0 where
  source : RecordOrigin
  link : (protocol address : Str) → RecordOrigin
  transform : (input : Str) → RecordOrigin
  transform_join : (inputs : List Str) → RecordOrigin
  passive : RecordOrigin

pub record SchemaInfo : Type 0 where
  pub name : Str
  pub version : ℕ

pub record GraphNode : Type 0 where
  pub key : Str
  pub origin : RecordOrigin
  pub buffer_type : Str
  pub buffer_capacity : Option ℕ
  pub tap_count : ℕ
  pub has_outbound_link : Bool
  pub outbound_links : List Str
  pub schema : Option SchemaInfo

pub data EdgeType : Type 0 where
  source : EdgeType
  link : (protocol : Str) → EdgeType
  transform transform_join : EdgeType
  tap : (index : ℕ) → EdgeType
  link_out : (protocol : Str) → EdgeType

pub record GraphEdge : Type 0 where
  pub from : Option Str
  pub to : Option Str
  pub edge_type : EdgeType

pub record DependencyGraph : Type 0 where
  pub nodes : List GraphNode
  pub edges : List GraphEdge
  pub topo_order : List Str

find : Str → List GraphNode → Option GraphNode
find key [] = none
find key (n ∷ nodes) = let rest = find key nodes in if str_eq n.key key then some n else rest

pub node : DependencyGraph → Str → Option GraphNode
unfolding find
node g key = find key g.nodes

-- The errors that the construction of a graph returns.
pub data DbError : Type 0 where
  transform_input_not_found : (output_key input_key : Str) → DbError
  cyclic_dependency : (records : List Str) → DbError

-- `out_of_fuel` stands for a loop that does not end.
pub data DbResult : Type 0 where
  ok : DependencyGraph → DbResult
  err : DbError → DbResult
  out_of_fuel : DbResult
