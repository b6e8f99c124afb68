-- ===== src/Graph/Build/Starts.antt =====
-- The start order as a relation: any record may start that has not, once all of its inputs have.
pub mod Cases
pub mod Outcome
pub mod Order
pub mod Seeds
use aimdb.Prelude.{
  ℕ, zero, suc, ◌+◌, ◌<◌, ◌≡◌, refl, sym, ap, ◌∙◌, List, [], ◌∷◌, ◌++◌, arith, All, Str, str_eq,
  str_eq→eq, str_eq_refl, Bool-cases, inl, inr, ◌⊎◌, subst,
}
use mathlib.Core.List.{Memᴰ}
use aimdb.Graph.{GraphNode}
use aimdb.Graph.Net.{keys, inputs_of}
use aimdb.Graph.Counts.{count, Edges, waiting}
use aimdb.Graph.Kahn.Rounds.{Rule}
use aimdb.Graph.Build.Wiring.{pairs, flow}

-- A key stands in a list.
abbrev pub Listed : List Str → Str → Type 0
Listed ks k = 0 < count k ks

pub data Start (nodes : List GraphNode) : List Str → List Str → Type 0 where
  start :
      {started : List Str} (n : GraphNode)
      → Memᴰ n nodes
      → count n.key started ≡ 0
      → All (Listed started) (inputs_of n.origin)
      → Start nodes started (started ++ (n.key ∷ []))

pub data Starts (nodes : List GraphNode) : List Str → Type 0 where
  nothing : Starts nodes []
  one_more :
      {started later : List Str}
      → Starts nodes started
      → Start nodes started later
      → Starts nodes later

-- Every input is a record.
abbrev pub AllPresent : List GraphNode → Type 0
AllPresent nodes = All (λ n. All (Listed (keys nodes)) (inputs_of n.origin)) nodes

pub node_of_key :
    (nodes : List GraphNode) (k : Str)
    → Listed (keys nodes) k
    → (n : GraphNode) × Memᴰ n nodes × (n.key ≡ k)
node_of_key [] k h = absurd (omega arith)
node_of_key (n ∷ nodes) k h = elim (Bool-cases (str_eq n.key k)) [
  | inl e ↦ (n, Memᴰ.head refl, str_eq→eq n.key k e)
  | inr e ↦
      let (m, mem, same) = node_of_key nodes k (omega (arith, rw e at h)) in
      (m, Memᴰ.tail mem, same)
]

pub waiting-append :
    (es fs : Edges) (started : List Str) (k : Str)
    → waiting (es ++ fs) started k ≡ waiting es started k + waiting fs started k
waiting-append [] fs started k = omega arith
waiting-append ((i, o) ∷ es) fs started k = omega (arith, waiting-append es fs started k)

waiting-pairs_zero :
    (k : Str) (inputs started : List Str)
    → waiting (pairs k inputs) started k ≡ 0
    → All (Listed started) inputs
waiting-pairs_zero k [] started h = tt
waiting-pairs_zero k (i ∷ inputs) started h =
    ground (arith, str_eq_refl k, waiting-pairs_zero k inputs started)

-- A record that waits for nothing has had all of its inputs started.
pub inputs_started :
    (nodes : List GraphNode) (n : GraphNode) (started : List Str)
    → Memᴰ n nodes
    → waiting (flow nodes) started n.key ≡ 0
    → All (Listed started) (inputs_of n.origin)
inputs_started [] n started mem h = elim mem [ ]
inputs_started (m ∷ nodes) n started (Memᴰ.head e) h =
    let here : waiting (pairs m.key (inputs_of m.origin)) started n.key ≡ 0 =
      omega (arith, waiting-append (pairs m.key (inputs_of m.origin)) (flow nodes) started n.key) in
    waiting-pairs_zero n.key (inputs_of n.origin) started (
      subst (λ (j : GraphNode). waiting (pairs j.key (inputs_of j.origin)) started n.key ≡ 0)
        (sym e) here)
inputs_started (m ∷ nodes) n started (Memᴰ.tail mem) h =
    inputs_started nodes n started mem
      (omega (arith, waiting-append (pairs m.key (inputs_of m.origin)) (flow nodes) started n.key))

pub Starts-rule : (nodes : List GraphNode) → Rule (keys nodes) (flow nodes) (Starts nodes)
Starts-rule nodes = record {
  start = λ started k fresh listed idle before.
      let (n, mem, e) = node_of_key nodes k (omega (arith, listed)) in
      subst (λ j. Starts nodes (started ++ (j ∷ []))) e
        (one_more before (
          start n mem (ap (λ j. count j started) e ∙ fresh)
            (inputs_started nodes n started mem (ap (waiting (flow nodes) started) e ∙ idle))));
}
