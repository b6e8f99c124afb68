-- ===== src/Graph/Build/Starts/Cases.antt =====
-- The construction of a graph by cases: an input is absent, or the sort has ended.
use aimdb.Prelude.{
  ℕ, suc, ◌≡◌, refl, sym, ap, List, [], ◌∷◌, false, Option, none, some, length, arith, All, Str,
  Bool-cases, inl, inr, ◌⊎◌, subst,
}
use mathlib.Core.List.{Memᴰ}
use aimdb.Graph.{RecordOrigin, GraphNode, DbError, transform_input_not_found, DbResult, err}
use aimdb.Graph.Net.{
  contains, keys, is_transform, inputs_of, transform_inputs, missing_input, validate,
}
use aimdb.Graph.Counts.{count}
use aimdb.Graph.Kahn.{Sort}
use aimdb.Graph.Kahn.Rounds.{Drained, drain-Drained}
use aimdb.Graph.Build.{initial, finish, sort, build_over, build_and_validate_seeded}
use aimdb.Graph.Build.Wiring.{
  IsDistinct, inputs_of_other, flow, contains-false_inv, contains-true, collect_distinct,
}
use aimdb.Graph.Build.Setup.{net_of, net_of-adjacency, initial-Inv}
use aimdb.Graph.Build.Starts.{Listed, Starts, AllPresent, nothing, Starts-rule}

-- An input of a record that is not among the keys, as the error that names it.
abbrev pub Absent : List Str → List GraphNode → DbError → Type 0
Absent ks nodes e =
    (n : GraphNode) × (i : Str) × Memᴰ n nodes
    × Memᴰ i (inputs_of n.origin)
    × (count i ks ≡ 0)
    × (e ≡ transform_input_not_found n.key i)

missing_input-cases :
    (ks : List Str) (output : Str) (is : List Str)
    → (missing_input ks output is ≡ none) × All (Listed ks) is
      ⊎ ((i : Str) × Memᴰ i is
          × (count i ks ≡ 0)
          × (missing_input ks output is ≡ some (transform_input_not_found output i)))
unfolding missing_input
missing_input-cases ks output [] = inl (refl, tt)
missing_input-cases ks output (i ∷ is) = elim (Bool-cases (contains ks i)) [
  | inl e ↦ elim (missing_input-cases ks output is) [
    | inl (fine, present) ↦ inl (rw e fine, (contains-true ks i e, present))
    | inr (j, mem, absent, found) ↦ inr (j, Memᴰ.tail mem, absent, rw e found)
  ]
  | inr e ↦ inr (i, Memᴰ.head refl, contains-false_inv ks i e, rw e refl)
]

Absent-tail :
    (ks : List Str) {n : GraphNode} {nodes : List GraphNode} {e : DbError}
    → Absent ks nodes e
    → Absent ks (n ∷ nodes) e
Absent-tail ks (m, i, mem, input, absent, e) = (m, i, Memᴰ.tail mem, input, absent, e)

abbrev Validated : List Str → List GraphNode → Type 0
Validated ks nodes =
    (validate ks (transform_inputs nodes) ≡ none)
      × All (λ n. All (Listed ks) (inputs_of n.origin)) nodes
    ⊎ ((e : DbError) × (validate ks (transform_inputs nodes) ≡ some e) × Absent ks nodes e)

other_present :
    (ks : List Str) (origin : RecordOrigin)
    → is_transform origin ≡ false
    → All (Listed ks) (inputs_of origin)
other_present ks origin e = subst (All (Listed ks)) (sym (inputs_of_other origin e)) tt

validate-cases : (ks : List Str) (nodes : List GraphNode) → Validated ks nodes
unfolding validate transform_inputs
validate-cases ks [] = inl (refl, tt)
validate-cases ks (n ∷ nodes) = elim (Bool-cases (is_transform n.origin)) [
  | inl e ↦ elim (missing_input-cases ks n.key (inputs_of n.origin)) [
    | inl (fine, here) ↦ elim (validate-cases ks nodes) [
      | inl (rest, present) ↦ inl (ground arith, (here, present))
      | inr (f, found, absent) ↦ inr (f, ground arith, Absent-tail ks absent)
    ]
    | inr (i, mem, absent, found) ↦
        inr (
          transform_input_not_found n.key i,
          ground arith,
          (n, i, Memᴰ.head refl, mem, absent, refl),
        )
  ]
  | inr e ↦ elim (validate-cases ks nodes) [
    | inl (rest, present) ↦ inl (ground arith, (other_present ks n.origin e, present))
    | inr (f, found, absent) ↦ inr (f, ground arith, Absent-tail ks absent)
  ]
]

length-keys : (nodes : List GraphNode) → length (keys nodes) ≡ length nodes
length-keys [] = refl
length-keys (n ∷ nodes) = ap suc (length-keys nodes)

-- The sort ends, with every record taken that can be.
pub sort-Drained :
    (nodes : List GraphNode) (seed : Option ℕ) (distinct : IsDistinct (keys nodes))
    → (t : Sort) × Drained (keys nodes) (flow nodes) (Starts nodes) t
      × (sort nodes seed (keys nodes) (net_of nodes distinct) ≡ finish nodes (keys nodes) t)
unfolding sort initial
sort-Drained nodes seed distinct =
    let net = net_of nodes distinct in
    let (t, ends, done) =
      drain-Drained (Starts-rule nodes) net.adjacency (net_of-adjacency nodes distinct)
        (suc (length nodes)) (initial nodes seed net) (initial-Inv nodes distinct seed) nothing
        (omega (arith, length-keys nodes)) in
    (t, done, rw (ends, sort) refl)

-- What the construction of a graph comes to.
abbrev pub Made : List GraphNode → DbResult → Type 0
Made nodes r =
    ((e : DbError) × (r ≡ err e) × Absent (keys nodes) nodes e)
    ⊎ (AllPresent nodes
        × ((t : Sort) × Drained (keys nodes) (flow nodes) (Starts nodes) t
            × (r ≡ finish nodes (keys nodes) t)))

build_over-Made :
    (nodes : List GraphNode) (seed : Option ℕ)
    → IsDistinct (keys nodes)
    → Made nodes (build_over nodes seed (keys nodes))
unfolding build_over
build_over-Made nodes seed distinct = elim (validate-cases (keys nodes) nodes) [
  | inl (fine, present) ↦
      let (t, done, e) = sort-Drained nodes seed distinct in
      inr (present, (t, done, rw (fine, build_over) e))
  | inr (e, found, absent) ↦ inl (e, rw (found, build_over) refl, absent)
]

pub build-Made :
    (nodes : List GraphNode) (seed : Option ℕ)
    → IsDistinct (keys nodes)
    → Made nodes (build_and_validate_seeded nodes seed)
unfolding build_and_validate_seeded
build-Made nodes seed distinct =
    subst (λ ks. Made nodes (build_over nodes seed ks))
      (sym (collect_distinct (keys nodes) distinct)) (build_over-Made nodes seed distinct)
