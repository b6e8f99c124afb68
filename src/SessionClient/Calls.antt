-- ===== src/SessionClient/Calls.antt =====
-- aimdb-core/src/session/client.rs: the calls in flight and how those are freed that their callers gave up.
-- The command queue is a channel of the crate async-channel and a parameter; a call is known by its number.
-- Each method of a handle and each step of the engine is one step of the model.
pub mod Covered
pub mod Reclaimed
mod Tests
use aimdb.Prelude.{
  ℕ, zero, suc, ◌+◌, ◌-◌, ◌^◌, min, max, ◌≡◌, List, [], ◌∷◌, ◌++◌, Bool, true, false, ◌&&◌, ◌||◌,
  Option, none, some, ltb, ◌==◌, if◌then◌else◌, Str,
}
use aimdb.SessionClient.{ClientConfig}

pub data ClientCmd : Type 0 where
  call : (id : ℕ) (method params : Str) → ClientCmd
  cancel_call : (id : ℕ) → ClientCmd
  subscribe : (id : ℕ) (topic : Str) → ClientCmd
  write : (topic payload : Str) → ClientCmd

-- The answer of a send that displaces the oldest command of a full queue.
pub data Forced (Chan : Type 0) : Type 0 where
  queued : (evicted : Option ClientCmd) → Chan → Forced Chan
  closed : Forced Chan

pub record CommandQueue (Chan : Type 0) : Type 0 where
  pub commands : Chan → List ClientCmd
  pub force_send : ClientCmd → Chan → Forced Chan
  pub try_send : ClientCmd → Chan → Option Chan
  pub recv : Chan → Option (ClientCmd × Chan)

abbrev pub listed : Option ClientCmd → List ClientCmd
listed none = []
listed (some c) = c ∷ []

-- What the crate documents of its channels.
pub record QueueLaws {Chan : Type 0} (ops : CommandQueue Chan) : Type 0 where
  pub forced :
      (c : ClientCmd) (q q' : Chan) (evicted : Option ClientCmd)
      → ops.force_send c q ≡ queued evicted q'
      → ops.commands q ++ c ∷ [] ≡ listed evicted ++ ops.commands q'
  pub tried :
      (c : ClientCmd) (q q' : Chan)
      → ops.try_send c q ≡ some q'
      → ops.commands q' ≡ ops.commands q ++ c ∷ []
  pub received :
      (c : ClientCmd) (q q' : Chan)
      → ops.recv q ≡ some (c, q')
      → ops.commands q ≡ c ∷ ops.commands q'
  pub idle : (q : Chan) → ops.recv q ≡ none → ops.commands q ≡ []

abbrev pub usize_max : ℕ
usize_max = 2 ^ 64 - 1

-- The handles and the engine between them; gone says of which calls the caller stopped waiting.
pub record Engine (Chan : Type 0) : Type 0 where
  pub queue : Chan
  pub prune : Bool
  pub next : ℕ
  pub pending : List ℕ
  pub gone : ℕ → Bool

unfoldable pub drop_id : ℕ → List ℕ → List ℕ
drop_id id [] = []
drop_id id (x ∷ xs) = let ys = drop_id id xs in if id == x then ys else x ∷ ys

unfoldable pub sweep_abandoned : (ℕ → Bool) → List ℕ → List ℕ
sweep_abandoned gone [] = []
sweep_abandoned gone (x ∷ xs) = let ys = sweep_abandoned gone xs in if gone x then ys else x ∷ ys

unfoldable pub is_cancel : Option ClientCmd → Bool
is_cancel none = false
is_cancel (some (call id method params)) = false
is_cancel (some (cancel_call id)) = true
is_cancel (some (subscribe id topic)) = false
is_cancel (some (write topic payload)) = false

unfoldable pub next_id : ℕ → Option ℕ
next_id id = if ltb id usize_max then some id else none

-- With whether the engine still takes commands.
unfoldable pub after_force : {Chan : Type 0} → Engine Chan → Forced Chan → Engine Chan × Bool
unfolding is_cancel
after_force e (queued evicted q) = (
  record {
    queue = q;
    prune = e.prune || is_cancel evicted;
    next = e.next;
    pending = e.pending;
    gone = e.gone;
  },
  true,
)
after_force e closed = (e, false)

abbrev numbered : {Chan : Type 0} → Engine Chan → Engine Chan
numbered e = record {
  queue = e.queue;
  prune = e.prune;
  next = suc e.next;
  pending = e.pending;
  gone = e.gone;
}

unfoldable pub after_try : {Chan : Type 0} → ℕ → Engine Chan → Option Chan → Engine Chan
after_try id e none = record {
  queue = e.queue;
  prune = true;
  next = e.next;
  pending = e.pending;
  gone = e.gone;
}
after_try id e (some q) = record {
  queue = q;
  prune = e.prune;
  next = e.next;
  pending = e.pending;
  gone = e.gone;
}

abbrev left : {Chan : Type 0} → ℕ → Engine Chan → Engine Chan
left id e = record {
  queue = e.queue;
  prune = e.prune;
  next = e.next;
  pending = e.pending;
  gone = λ x. (id == x) || e.gone x;
}

abbrev pub with_pending : {Chan : Type 0} → List ℕ → Engine Chan → Engine Chan
with_pending ids e = record {
  queue = e.queue;
  prune = e.prune;
  next = e.next;
  pending = ids;
  gone = e.gone;
}

-- A connection that ends takes its table along.
unfoldable pub disconnected : {Chan : Type 0} → Engine Chan → Engine Chan
disconnected e = with_pending [] e

unfoldable pub sweep : {Chan : Type 0} → Engine Chan → Engine Chan
unfolding sweep_abandoned
sweep e = record {
  queue = e.queue;
  prune = false;
  next = e.next;
  pending = if e.prune then sweep_abandoned e.gone e.pending else e.pending;
  gone = e.gone;
}

pub data Step : Type 0 where
  calls : (method params : Str) → Step
  subscribes : (topic : Str) → Step
  writes : (topic payload : Str) → Step
  abandons replied : (id : ℕ) → Step
  takes sweeps disconnects : Step

module _ {Chan : Type 0} (ops : CommandQueue Chan) where
  unfoldable pub enqueue : ClientCmd → Engine Chan → Engine Chan × Bool
  unfolding after_force
  enqueue c e = after_force e (ops.force_send c e.queue)

  -- A command with a number of its own, unless the numbers are used up.
  unfoldable pub request : (ℕ → ClientCmd) → Engine Chan → Option ℕ → Engine Chan × Bool
  unfolding enqueue
  request cmd e none = (e, false)
  request cmd e (some id) = enqueue (cmd id) (numbered e)

  -- The caller stops waiting: its receiver is dropped, then the guard.
  unfoldable pub abandon : ℕ → Engine Chan → Engine Chan
  unfolding after_try
  abandon id e = after_try id (left id e) (ops.try_send (cancel_call id) e.queue)

  module _ (sent : ClientCmd → Bool) where
    unfoldable pub handle : ClientCmd → Engine Chan → Engine Chan
    unfolding disconnected drop_id
    handle (call id method params) e =
        if e.gone id
        then e
        else if sent (call id method params)
        then with_pending (id ∷ e.pending) e
        else disconnected e
    handle (cancel_call id) e = with_pending (drop_id id e.pending) e
    handle (subscribe id topic) e = if sent (subscribe id topic) then e else disconnected e
    handle (write topic payload) e = if sent (write topic payload) then e else disconnected e

    unfoldable pub take_cmd : Engine Chan → Option (ClientCmd × Chan) → Engine Chan
    unfolding handle
    take_cmd e none = e
    take_cmd e (some (c, q)) =
        handle c
          (record { queue = q; prune = e.prune; next = e.next; pending = e.pending; gone = e.gone })

    unfoldable pub step : Engine Chan → Step → Engine Chan
    unfolding request enqueue next_id abandon take_cmd sweep disconnected drop_id
    step e (calls method params) = (request (λ id. call id method params) e (next_id e.next)).0
    step e (subscribes topic) = (request (λ id. subscribe id topic) e (next_id e.next)).0
    step e (writes topic payload) = (enqueue (write topic payload) e).0
    step e (abandons id) = abandon id e
    step e (replied id) = with_pending (drop_id id e.pending) e
    step e takes = take_cmd e (ops.recv e.queue)
    step e sweeps = sweep e
    step e disconnects = disconnected e

    unfoldable pub run : Engine Chan → List Step → Engine Chan
    unfolding step
    run e [] = e
    run e (s ∷ steps) = run (step e s) steps

    -- The engine takes so many commands.
    unfoldable pub drain : ℕ → Engine Chan → Engine Chan
    unfolding take_cmd
    drain zero e = e
    drain (suc n) e = drain n (take_cmd e (ops.recv e.queue))
