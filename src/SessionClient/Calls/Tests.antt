-- ===== src/SessionClient/Calls/Tests.antt =====
-- A run of the steps of the handles and the engine of aimdb-core/src/session/client.rs over a bounded queue,
-- and the theorem at it.
use aimdb.Prelude.{
  ◌≤◌, ◌≡◌, refl, ap, ◌∙◌, List, [], ◌∷◌, ◌++◌, Bool, true, false, Option, none, some, ltb, All,
  length, arith,
}
use aimdb.SessionClient.Calls.{
  ClientCmd, Forced, queued, CommandQueue, listed, QueueLaws, Engine, sweep, Step, calls, writes,
  abandons, takes, run, drain, step, request, enqueue, next_id, abandon, take_cmd, sweep_abandoned,
}
use aimdb.SessionClient.Calls.Reclaimed.{run_reclaims}

-- Two slots.
abbrev force_if : Bool → ClientCmd → List ClientCmd → Forced (List ClientCmd)
force_if true c q = queued none (q ++ c ∷ [])
force_if false c [] = queued (some c) []
force_if false c (d ∷ q) = queued (some d) (q ++ c ∷ [])

abbrev try_if : Bool → ClientCmd → List ClientCmd → Option (List ClientCmd)
try_if true c q = some (q ++ c ∷ [])
try_if false c q = none

abbrev front : List ClientCmd → Option (ClientCmd × List ClientCmd)
front [] = none
front (c ∷ q) = some (c, q)

abbrev two_slots : CommandQueue (List ClientCmd)
two_slots = record {
  commands = λ q. q;
  force_send = λ c q. force_if (ltb (length q) 2) c q;
  try_send = λ c q. try_if (ltb (length q) 2) c q;
  recv = front;
}

force_if-queued :
    (b : Bool) (c : ClientCmd) (q q' : List ClientCmd) (evicted : Option ClientCmd)
    → force_if b c q ≡ queued evicted q'
    → q ++ c ∷ [] ≡ listed evicted ++ q'
force_if-queued true c q q' evicted at =
    let e : none ≡ evicted = cc at in
    let f : q ++ c ∷ [] ≡ q' = cc at in f ∙ ap (λ o. listed o ++ q') e
force_if-queued false c [] q' evicted at =
    let e : some c ≡ evicted = cc at in
    let f : [] ≡ q' = cc at in ap (λ r. c ∷ r) f ∙ ap (λ o. listed o ++ q') e
force_if-queued false c (d ∷ q) q' evicted at =
    let e : some d ≡ evicted = cc at in
    let f : q ++ c ∷ [] ≡ q' = cc at in ap (λ r. d ∷ r) f ∙ ap (λ o. listed o ++ q') e

try_if-some :
    (b : Bool) (c : ClientCmd) (q q' : List ClientCmd) → try_if b c q ≡ some q' → q' ≡ q ++ c ∷ []
try_if-some true c q q' at = cc at
try_if-some false c q q' at = absurd (cc at)

front-some : (c : ClientCmd) (q q' : List ClientCmd) → front q ≡ some (c, q') → q ≡ c ∷ q'
front-some c [] q' at = absurd (cc at)
front-some c (d ∷ q) q' at =
    let same : d ≡ c = cc at in
    let after : q ≡ q' = cc at in ap (λ r. r ∷ q) same ∙ ap (λ r. c ∷ r) after

front-none : (q : List ClientCmd) → front q ≡ none → q ≡ []
front-none [] at = refl
front-none (c ∷ q) at = absurd (cc at)

two_slots_laws : QueueLaws two_slots
two_slots_laws = record {
  forced = λ c q q' evicted at. force_if-queued (ltb (length q) 2) c q q' evicted at;
  tried = λ c q q' at. try_if-some (ltb (length q) 2) c q q' at;
  received = front-some;
  idle = front-none;
}

abbrev always : ClientCmd → Bool
always c = true

abbrev started : Engine (List ClientCmd)
started = record { queue = []; prune = false; next = 1; pending = []; gone = λ x. false }

-- Both calls are in the table when they are given up; two writes displace the cancellation of the first.
abbrev crowd : List Step
crowd =
    calls [] []
    ∷ calls [] []
    ∷ takes
    ∷ takes
    ∷ abandons 1
    ∷ writes [] []
    ∷ writes [] []
    ∷ calls [] []
    ∷ takes
    ∷ []

lost_cancel :
    ((run two_slots always started crowd).prune ≡ true)
    × ((run two_slots always started crowd).pending ≡ 2 ∷ 1 ∷ [])
unfolding run step request enqueue next_id abandon take_cmd
lost_cancel = (refl, refl)

swept : (drain two_slots always 2 (sweep (run two_slots always started crowd))).pending ≡ 3 ∷ 2 ∷ []
unfolding run step request enqueue next_id abandon take_cmd sweep sweep_abandoned drain
swept = refl

two_left : length (run two_slots always started crowd).queue ≤ 2
unfolding run step request enqueue next_id abandon take_cmd
two_left = omega arith

run_reclaims_example :
    All
      (λ x. (drain two_slots always 2 (sweep (run two_slots always started crowd))).gone x ≡ false)
      (drain two_slots always 2 (sweep (run two_slots always started crowd))).pending
run_reclaims_example = run_reclaims two_slots two_slots_laws always started crowd 2 tt two_left
