-- ===== src/Graph/Kahn.antt =====
-- The loop of Kahn's algorithm in `build_and_validate_seeded` of aimdb-core/src/graph.rs.
pub mod Invariant
pub mod Rounds
use aimdb.Prelude.{
  ℕ, zero, suc, ◌-◌, ◌^◌, List, [], ◌∷◌, ◌++◌, Bool, Option, none, some, length, ◌==◌,
  if◌then◌else◌, Str,
}
use mathlib.Core.Option
use aimdb.Graph.Random.{below}
use aimdb.Graph.Net.{Map, get_or, entry}

pub record Sort : Type 0 where
  pub queue : List Str
  pub topo_order : List Str
  pub in_degree : Map ℕ
  pub rng : Option ℕ

-- The queue without its front, whose place the last element takes.
unfoldable pub refill : List Str → List Str
refill [] = []
refill (y ∷ []) = y ∷ []
refill (y ∷ z ∷ q) = elim (refill (z ∷ q)) [ [] ↦ y ∷ [] | l ∷ r ↦ l ∷ y ∷ r ]

-- `VecDeque::swap_remove_back`: the last element takes the place of the one removed.
unfoldable pub swap_remove_back : List Str → ℕ → Option (Str × List Str)
swap_remove_back [] i = none
swap_remove_back (x ∷ q) zero = some (x, refill q)
swap_remove_back (x ∷ q) (suc i) = elim (swap_remove_back q i) [
  | none ↦ none
  | some (y, r) ↦ some (y, x ∷ r)
]

unfoldable pub pop_front : List Str → Option (Str × List Str)
pop_front [] = none
pop_front (x ∷ q) = some (x, q)

taken : Sort → Option ℕ → Option (Str × List Str) → Option (Str × Sort)
taken s rng r = Option.map (λ (x, q). (x, record s { queue = q; rng = rng })) r

unfoldable pub draw : Sort → Option ℕ → Option (Str × Sort)
unfolding pop_front swap_remove_back taken
draw s none = taken s none (pop_front s.queue)
draw s (some state) =
    if length s.queue == 0
    then taken s (some state) (pop_front s.queue)
    else let (i, state') = below state (length s.queue) in
      taken s (some state') (swap_remove_back s.queue i)

-- The record to start next, drawn from the queue if there is a seed and a queue.
unfoldable pub take_next : Sort → Option (Str × Sort)
unfolding draw
take_next s = draw s s.rng

-- `*deg -= 1` on a `usize`, and a record with no input left joins the queue.
unfoldable pub decrement : ℕ → ℕ
decrement d = if d == 0 then 2 ^ 64 - 1 else d - 1

unfoldable pub relax_one : Str → Sort → Option ℕ → Sort
unfolding decrement
relax_one n s none = s
relax_one n s (some d) = record s {
  in_degree = entry n (λ _. decrement d) s.in_degree;
  queue = if decrement d == 0 then s.queue ++ (n ∷ []) else s.queue;
}

unfoldable pub relax : List Str → Sort → Sort
unfolding relax_one
relax [] s = s
relax (n ∷ ns) s = relax ns (relax_one n s (s.in_degree n))

unfoldable pub visit : Map (List Str) → Str → Sort → Sort
unfolding relax
visit adjacency n s =
    relax (get_or (adjacency n) []) (record s { topo_order = s.topo_order ++ (n ∷ []) })

-- The loop ends when nothing was taken. `none` means that the fuel ran out.
unfoldable pub drain : ℕ → Map (List Str) → Sort → Option Sort
drain zero adjacency s = none
drain (suc fuel) adjacency s = elim (take_next s) [
  | none ↦ some s
  | some (n, s') ↦ drain fuel adjacency (visit adjacency n s')
]
