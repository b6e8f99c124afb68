-- ===== src/Graph/Build/Starts/Outcome.antt =====
-- What the construction of a graph returns, against the relation of its starts.
use aimdb.Prelude.{
  ℕ, zero, suc, ◌+◌, ◌≤◌, ◌<◌, ◌≡◌, ◌≢◌, refl, sym, ap, ◌∙◌, List, [], ◌∷◌, Option, none, some,
  length, ◌&&◌, ◌==◌, arith, All, All-Memᴰ, Str, str_eq, str_eq→eq, Bool-cases, ==_iff, inl, inr,
  ◌⊎◌, subst,
}
use mathlib.Core.List.{Memᴰ}
use aimdb.Graph.{
  GraphNode, DbError, transform_input_not_found, cyclic_dependency, DbResult, ok, err,
}
use aimdb.Graph.Net.{Map, get_or, keys, inputs_of}
use aimdb.Graph.Counts.{count, waiting}
use aimdb.Graph.Kahn.{Sort}
use aimdb.Graph.Kahn.Invariant.{defined, free, held, blocked}
use aimdb.Graph.Kahn.Rounds.{Drained}
use aimdb.Graph.Build.{keys_where, is_positive, edges_of, finish, build_and_validate_seeded}
use aimdb.Graph.Build.Wiring.{IsDistinct, pairs, flow}
use aimdb.Graph.Build.Setup.{passing, count-keys_where, members}
use aimdb.Graph.Build.Starts.{Listed, Starts, AllPresent, waiting-append}
use aimdb.Graph.Build.Starts.Cases.{Absent, build-Made}

-- One of the records that `k` is made from stands in `ks`.
abbrev pub WaitsFor : List GraphNode → List Str → Str → Type 0
WaitsFor nodes ks k =
    (n : GraphNode) × (i : Str) × Memᴰ n nodes
    × (n.key ≡ k)
    × Memᴰ i (inputs_of n.origin)
    × Listed ks i

pub data Outcome (nodes : List GraphNode) : DbResult → Type 0 where
  input_absent :
      (n : GraphNode) (i : Str)
      → Memᴰ n nodes
      → Memᴰ i (inputs_of n.origin)
      → count i (keys nodes) ≡ 0
      → Outcome nodes (err (transform_input_not_found n.key i))
  cyclic :
      (records : List Str)
      → AllPresent nodes
      → 0 < length records
      → All (WaitsFor nodes records) records
      → Outcome nodes (err (cyclic_dependency records))
  built :
      (order : List Str)
      → AllPresent nodes
      → Starts nodes order
      → ((k : Str) → count k order ≡ count k (keys nodes))
      → Outcome nodes (ok (record { nodes = nodes; edges = edges_of nodes; topo_order = order }))

-- Some input of `k` has not started.
pub Nat-cases : (n : ℕ) → (n ≡ 0) ⊎ (0 < n)
Nat-cases zero = inl refl
Nat-cases (suc n) = inr (omega arith)

pairs-pos :
    (o : Str) (inputs started : List Str) (k : Str)
    → 0 < waiting (pairs o inputs) started k
    → (i : Str) × (o ≡ k) × Memᴰ i inputs × (count i started ≡ 0)
pairs-pos o [] started k h = absurd (omega arith)
pairs-pos o (i ∷ inputs) started k h = elim (Bool-cases (str_eq o k && count i started == 0)) [
  | inl e ↦ (i, str_eq→eq o k (ground arith), Memᴰ.head refl, ground arith)
  | inr e ↦
      let (j, same, mem, absent) = pairs-pos o inputs started k (omega (arith, rw e at h)) in
      (j, same, Memᴰ.tail mem, absent)
]

pub waiting-pos :
    (nodes : List GraphNode) (started : List Str) (k : Str)
    → 0 < waiting (flow nodes) started k
    → (n : GraphNode) × (i : Str) × Memᴰ n nodes
      × (n.key ≡ k)
      × Memᴰ i (inputs_of n.origin)
      × (count i started ≡ 0)
waiting-pos [] started k h = absurd (omega arith)
waiting-pos (n ∷ nodes) started k h =
    elim (Nat-cases (waiting (pairs n.key (inputs_of n.origin)) started k)) [
      | inl none_here ↦
          let (m, i, mem, same, input, absent) = waiting-pos nodes started k (
            omega
              (arith, waiting-append (pairs n.key (inputs_of n.origin)) (flow nodes) started k)) in
          (m, i, Memᴰ.tail mem, same, input, absent)
      | inr here ↦
          let (i, same, input, absent) = pairs-pos n.key (inputs_of n.origin) started k here in
          (n, i, Memᴰ.head refl, same, input, absent)
    ]

pub held_cases : (o : Option ℕ) → defined o ≡ free o + held o
held_cases none = refl
held_cases (some zero) = refl
held_cases (some (suc d)) = refl

passing_positive : (o : Option ℕ) (c : ℕ) → defined o ≡ c → passing is_positive o c ≡ held o
unfolding is_positive
passing_positive none c h = refl
passing_positive (some zero) c h = ground arith
passing_positive (some (suc d)) c h = ground arith

held-degree : (o : Option ℕ) → 0 < held o → 0 < get_or o 0
held-degree none h = absurd (omega arith)
held-degree (some zero) h = absurd (omega arith)
held-degree (some (suc d)) h = omega arith

length-positive :
    (in_degree : Map ℕ) (ks : List Str)
    → length (keys_where is_positive in_degree ks) ≡ blocked ks in_degree
unfolding keys_where is_positive
length-positive in_degree [] = refl
length-positive in_degree (k ∷ ks) = ground (arith, length-positive in_degree ks)

blocked-zero :
    (in_degree : Map ℕ) (ks : List Str) (k : Str)
    → blocked ks in_degree ≡ 0
    → 0 < count k ks
    → held (in_degree k) ≡ 0
blocked-zero in_degree [] k h m = absurd (omega arith)
blocked-zero in_degree (x ∷ ks) k h m = ground (arith, blocked-zero in_degree ks k, str_eq→eq x k)

pub count-le-length : (k : Str) (q : List Str) → count k q ≤ length q
count-le-length k [] = omega arith
count-le-length k (x ∷ q) = ground (arith, count-le-length k q)

pub input_present :
    {nodes : List GraphNode} (n : GraphNode) (i : Str)
    → Memᴰ n nodes
    → Memᴰ i (inputs_of n.origin)
    → AllPresent nodes
    → Listed (keys nodes) i
input_present {nodes} n i mem input present =
    All-Memᴰ (Listed (keys nodes)) i (inputs_of n.origin)
      (All-Memᴰ (λ (m : GraphNode). All (Listed (keys nodes)) (inputs_of m.origin)) n nodes present
        mem)
      input

module _ (nodes : List GraphNode) (t : Sort)
    (done : Drained (keys nodes) (flow nodes) (Starts nodes) t)
    (distinct : IsDistinct (keys nodes)) where
  stuck : List Str
  stuck = keys_where is_positive t.in_degree (keys nodes)

  count-stuck : (k : Str) → count k stuck ≡ held (t.in_degree k)
  unfolding stuck
  count-stuck k =
      count-keys_where t.in_degree is_positive k (keys nodes)
      ∙ passing_positive (t.in_degree k) (count k (keys nodes)) (done.inv.known k)

  -- A record that has not started is stuck.
  stuck_of_unstarted : (k : Str) → count k t.topo_order ≡ 0 → Listed (keys nodes) k → Listed stuck k
  stuck_of_unstarted k absent listed = omega (
    arith,
    count-stuck k,
    done.inv.known k,
    done.inv.placed k,
    held_cases (t.in_degree k),
    count-le-length k t.queue,
    done.all_taken,
  )

  stuck_waits : AllPresent nodes → (k : Str) → Listed stuck k → WaitsFor nodes stuck k
  stuck_waits present k h =
      let some_left = held-degree (t.in_degree k) (omega (arith, count-stuck k, h)) in
      let (n, i, mem, same, input, absent) =
        waiting-pos nodes t.topo_order k (omega (arith, done.inv.counted k, some_left)) in
      (n, i, mem, same, input, stuck_of_unstarted i absent (input_present n i mem input present))

  -- With none stuck, each record has started.
  all_started :
      length t.topo_order ≡ length (keys nodes)
      → (k : Str) → count k t.topo_order ≡ count k (keys nodes)
  all_started e k = elim (Nat-cases (count k (keys nodes))) [
    | inl other ↦ omega (arith, done.inv.known k, done.inv.placed k, held_cases (t.in_degree k))
    | inr listed ↦
        let unblocked : blocked (keys nodes) t.in_degree ≡ 0 =
          omega (arith, done.inv.total, done.all_taken, e) in
        omega (
          arith,
          blocked-zero t.in_degree (keys nodes) k unblocked listed,
          done.inv.known k,
          done.inv.placed k,
          held_cases (t.in_degree k),
          count-le-length k t.queue,
          done.all_taken,
        )
  ]

  some_stuck : length t.topo_order ≢ length (keys nodes) → 0 < length stuck
  unfolding stuck
  some_stuck h = elim (Nat-cases (blocked (keys nodes) t.in_degree)) [
    | inl unblocked ↦ absurd (h (omega (arith, done.inv.total, done.all_taken, unblocked)))
    | inr more ↦ omega (arith, length-positive t.in_degree (keys nodes), more)
  ]

  finish-Outcome : AllPresent nodes → Outcome nodes (finish nodes (keys nodes) t)
  unfolding finish stuck
  finish-Outcome present = elim (Bool-cases (length t.topo_order == length (keys nodes))) [
    | inl e ↦ rw e (built t.topo_order present done.order_holds (all_started ((==_iff _ _).0 e)))
    | inr e ↦ rw e (
        cyclic stuck present (some_stuck (λ same. ground arith))
          (members stuck (stuck_waits present)))
  ]

-- The construction of a graph over distinct keys returns, whatever the seed: an input that is no record of
-- a transform; or, with all inputs present, some records of which each has an input among them; or
-- the graph of the nodes and their edges, in whose order each key stands exactly as often as among the
-- nodes, and which comes about by starting one record after another, each once all of its inputs have
-- started.
pub build_and_validate_seeded-Outcome :
    (nodes : List GraphNode) (seed : Option ℕ)
    → IsDistinct (keys nodes)
    → Outcome nodes (build_and_validate_seeded nodes seed)
build_and_validate_seeded-Outcome nodes seed distinct = elim (build-Made nodes seed distinct) [
  | inl (e, r, (n, i, mem, input, none_there, named)) ↦
      subst (Outcome nodes) (sym (r ∙ ap err named)) (input_absent n i mem input none_there)
  | inr (present, (t, done, r)) ↦
      subst (Outcome nodes) (sym r) (finish-Outcome nodes t done distinct present)
]

missing_reported :
    {nodes : List GraphNode} {r : DbResult} (n : GraphNode) (i : Str)
    → Memᴰ n nodes
    → Memᴰ i (inputs_of n.origin)
    → count i (keys nodes) ≡ 0
    → Outcome nodes r
    → (e : DbError) × (r ≡ err e) × Absent (keys nodes) nodes e
missing_reported n i mem input none_there (input_absent m j m_mem m_input m_none) =
    (transform_input_not_found m.key j, refl, (m, j, m_mem, m_input, m_none, refl))
missing_reported n i mem input none_there (cyclic records present some_record waits) =
    absurd (omega (arith, none_there, input_present n i mem input present))
missing_reported n i mem input none_there (built order present starts complete) =
    absurd (omega (arith, none_there, input_present n i mem input present))

-- Over distinct keys, if some input of some record is no record, then the error, whatever the seed and
-- whether there is a cycle or not, is that of a missing input: it names a record and an input of it
-- that is no record.
pub build_and_validate_seeded_missing :
    (nodes : List GraphNode) (seed : Option ℕ) (n : GraphNode) (i : Str)
    → IsDistinct (keys nodes)
    → Memᴰ n nodes
    → Memᴰ i (inputs_of n.origin)
    → count i (keys nodes) ≡ 0
    → (e : DbError) × (build_and_validate_seeded nodes seed ≡ err e) × Absent (keys nodes) nodes e
build_and_validate_seeded_missing nodes seed n i distinct mem input none_there =
    missing_reported n i mem input none_there
      (build_and_validate_seeded-Outcome nodes seed distinct)
