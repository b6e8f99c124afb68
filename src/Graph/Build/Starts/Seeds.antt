-- ===== src/Graph/Build/Starts/Seeds.antt =====
-- The seed permutes the start order and changes nothing else.
use aimdb.Prelude.{
  ℕ, zero, suc, ◌<◌, ◌≡◌, refl, sym, ap, ◌∙◌, List, [], ◌∷◌, Option, none, some, length, ◌==◌,
  if◌then◌else◌, arith, All, All-imp, All-Memᴰ, Str, str_eq→eq, Option-cases, Bool-cases, ◌≤◌, inl,
  inr, subst,
}
use mathlib.Core.Path.{fun_ext}
use mathlib.Core.List.{Memᴰ}
use aimdb.Graph.{GraphNode, cyclic_dependency, DbResult, ok, err, out_of_fuel}
use aimdb.Graph.Net.{Map, get_or, keys, inputs_of, transform_inputs, validate}
use aimdb.Graph.Counts.{count, count-append, Edges, waiting}
use aimdb.Graph.Kahn.{Sort}
use aimdb.Graph.Kahn.Invariant.{defined, free, blocked}
use aimdb.Graph.Kahn.Rounds.{Drained}
use aimdb.Graph.Build.{
  keys_where, is_positive, edges_of, finish, build_over, build_and_validate_seeded,
}
use aimdb.Graph.Build.Wiring.{IsDistinct, flow, collect_distinct}
use aimdb.Graph.Build.Starts.{Listed, start, Starts, nothing, one_more}
use aimdb.Graph.Build.Starts.Cases.{sort-Drained}
use aimdb.Graph.Build.Starts.Outcome.{waiting-pos, held_cases, count-le-length, Nat-cases}
use aimdb.Graph.Build.Starts.Order.{Listed-key, same_node}

-- A result with its order left out.
abbrev pub forget_order : DbResult → DbResult
forget_order (ok g) = ok (record g { topo_order = [] })
forget_order (err e) = err e
forget_order out_of_fuel = out_of_fuel

waiting_for_none :
    (nodes : List GraphNode) (m : GraphNode) (started : List Str)
    → IsDistinct (keys nodes)
    → Memᴰ m nodes
    → All (Listed started) (inputs_of m.origin)
    → waiting (flow nodes) started m.key ≡ 0
waiting_for_none nodes m started distinct mem inputs =
    elim (Nat-cases (waiting (flow nodes) started m.key)) [
      | inl e ↦ e
      | inr more ↦
          let (n, i, n_mem, same, input, absent) = waiting-pos nodes started m.key more in
          let node = same_node nodes n m distinct n_mem mem same in
          let listed =
            All-Memᴰ (Listed started) i (inputs_of n.origin)
              (subst (λ (j : GraphNode). All (Listed started) (inputs_of j.origin)) (sym node)
                inputs)
              input in
          absurd (omega (arith, listed, absent))
    ]

free_of_zero : (o : Option ℕ) → 0 < defined o → get_or o 0 ≡ 0 → free o ≡ 1
free_of_zero none h e = absurd (omega arith)
free_of_zero (some zero) h e = refl
free_of_zero (some (suc d)) h e = absurd (omega arith)

module _ (nodes : List GraphNode) (distinct : IsDistinct (keys nodes)) where
  -- Where the sort has ended, each record that can start has started.
  Starts-Listed :
      (t : Sort)
      → Drained (keys nodes) (flow nodes) (Starts nodes) t
      → {order : List Str} → Starts nodes order
      → (k : Str) → Listed order k
      → Listed t.topo_order k
  Starts-Listed t done nothing k listed = absurd (omega arith)
  Starts-Listed t done (one_more {started = started} before (start m mem fresh inputs)) k listed =
      elim (Nat-cases (count k started)) [
        | inr old ↦ Starts-Listed t done before k old
        | inl new ↦
            let now : m.key ≡ k =
              str_eq→eq m.key k (ground (arith, count-append k started (m.key ∷ []))) in
            let ready = waiting_for_none nodes m t.topo_order distinct mem (
              All-imp (Listed started) (Listed t.topo_order) (inputs_of m.origin)
                (Starts-Listed t done before) inputs) in
            let is_free =
              free_of_zero (t.in_degree m.key)
                (omega (arith, done.inv.known m.key, Listed-key m nodes mem))
                (omega (arith, done.inv.counted m.key, ready)) in
            subst (Listed t.topo_order) now (
              omega (
                arith,
                done.inv.placed m.key,
                is_free,
                count-le-length m.key t.queue,
                done.all_taken,
              ))
      ]

  count-le_one :
      (t : Sort)
      → Drained (keys nodes) (flow nodes) (Starts nodes) t
      → (k : Str) → count k t.topo_order ≤ 1
  count-le_one t done k =
      omega (arith, done.inv.placed k, done.inv.known k, held_cases (t.in_degree k), distinct k)

waiting-congr :
    (es : Edges) (a b : List Str) (k : Str)
    → ((j : Str) → count j a ≡ count j b)
    → waiting es a k ≡ waiting es b k
waiting-congr [] a b k h = refl
waiting-congr ((i, o) ∷ es) a b k h = ground (arith, h i, waiting-congr es a b k h)

same_degree : (o p : Option ℕ) → defined o ≡ defined p → get_or o 0 ≡ get_or p 0 → o ≡ p
same_degree none none h e = refl
same_degree none (some d) h e = absurd (omega arith)
same_degree (some d) none h e = absurd (omega arith)
same_degree (some d) (some d') h e = ap some e

-- What `finish` looks at.
abbrev outcome_of : List GraphNode → ℕ → Map ℕ → DbResult
outcome_of nodes started in_degree =
    if started == length (keys nodes)
    then ok (record { nodes = nodes; edges = edges_of nodes; topo_order = [] })
    else err (cyclic_dependency (keys_where is_positive in_degree (keys nodes)))

forget_order-finish :
    (nodes : List GraphNode) (t : Sort)
    → forget_order (finish nodes (keys nodes) t)
      ≡ outcome_of nodes (length t.topo_order) t.in_degree
unfolding finish
forget_order-finish nodes t = elim (Bool-cases (length t.topo_order == length (keys nodes))) [
  | inl e ↦ rw e refl
  | inr e ↦ rw e refl
]

module _ (nodes : List GraphNode) (distinct : IsDistinct (keys nodes)) (s t : Sort)
    (s_done : Drained (keys nodes) (flow nodes) (Starts nodes) s)
    (t_done : Drained (keys nodes) (flow nodes) (Starts nodes) t) where
  same_count : (k : Str) → count k s.topo_order ≡ count k t.topo_order
  same_count k = elim (Nat-cases (count k s.topo_order)) [
    | inr here ↦ omega (
      arith,
      here,
      Starts-Listed nodes distinct t t_done s_done.order_holds k here,
      count-le_one nodes distinct s s_done k,
      count-le_one nodes distinct t t_done k,
    )
    | inl not_here ↦ elim (Nat-cases (count k t.topo_order)) [
      | inl not_there ↦ not_here ∙ sym not_there
      | inr there ↦ absurd (
          omega (arith, not_here, Starts-Listed nodes distinct s s_done t_done.order_holds k there))
    ]
  ]

  same_degrees : s.in_degree ≡ t.in_degree
  same_degrees = fun_ext (λ k.
      same_degree (s.in_degree k) (t.in_degree k) (s_done.inv.known k ∙ sym (t_done.inv.known k)) (
        omega (
          arith,
          s_done.inv.counted k,
          t_done.inv.counted k,
          waiting-congr (flow nodes) s.topo_order t.topo_order k same_count,
        )))

  same_length : length s.topo_order ≡ length t.topo_order
  same_length = omega (
    arith,
    s_done.inv.total,
    t_done.inv.total,
    s_done.all_taken,
    t_done.all_taken,
    ap (blocked (keys nodes)) same_degrees,
  )

  same_finish :
      forget_order (finish nodes (keys nodes) s) ≡ forget_order (finish nodes (keys nodes) t)
  same_finish =
      forget_order-finish nodes s
      ∙ (λ i. outcome_of nodes (same_length i) (same_degrees i))
      ∙ sym (forget_order-finish nodes t)

build_over_seeds :
    (nodes : List GraphNode) (seed seed' : Option ℕ)
    → IsDistinct (keys nodes)
    → forget_order (build_over nodes seed (keys nodes))
      ≡ forget_order (build_over nodes seed' (keys nodes))
unfolding build_over
build_over_seeds nodes seed seed' distinct =
    elim (Option-cases (validate (keys nodes) (transform_inputs nodes))) [
      | inr (e, found) ↦ rw (found, build_over) refl
      | inl fine ↦
          let (s, s_done, e) = sort-Drained nodes seed distinct in
          let (t, t_done, f) = sort-Drained nodes seed' distinct in
          rw (fine, build_over)
            (ap forget_order e
              ∙ same_finish nodes distinct s t s_done t_done
              ∙ sym (ap forget_order f))
    ]

-- Over distinct keys any two seeds, or a seed and none, give the same error, or graphs with the same nodes
-- and edges.
pub build_and_validate_seeded_seeds :
    (nodes : List GraphNode) (seed seed' : Option ℕ)
    → IsDistinct (keys nodes)
    → forget_order (build_and_validate_seeded nodes seed)
      ≡ forget_order (build_and_validate_seeded nodes seed')
unfolding build_and_validate_seeded
build_and_validate_seeded_seeds nodes seed seed' distinct =
    subst (λ ks. forget_order (build_over nodes seed ks) ≡ forget_order (build_over nodes seed' ks))
      (sym (collect_distinct (keys nodes) distinct)) (build_over_seeds nodes seed seed' distinct)
