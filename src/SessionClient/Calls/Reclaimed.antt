-- ===== src/SessionClient/Calls/Reclaimed.antt =====
-- No call that its caller gave up stays in the table of the engine.
use aimdb.Prelude.{
  ℕ, zero, suc, ◌≤◌, ◌≡◌, refl, ap, ◌∙◌, List, [], ◌∷◌, Bool, true, false, Option, none, some,
  if◌then◌else◌, All, All-imp, Bool-cases, inl, inr, length, arith,
}
use aimdb.SessionClient.Calls.{
  ClientCmd, call, cancel_call, subscribe, write, CommandQueue, QueueLaws, Engine, with_pending,
  disconnected, handle, take_cmd, sweep, Step, run, drain,
}
use aimdb.SessionClient.Calls.Covered.{
  cancels, Covered, take_cmd-Covered, sweep-Covered, run-Covered,
}

uncancelled : (cs : List ClientCmd) (x : ℕ) → length cs ≤ 0 → cancels x cs ≡ false
uncancelled [] x none_left = refl
uncancelled (c ∷ cs) x none_left = absurd (omega arith)

module _ {Chan : Type 0} (ops : CommandQueue Chan) (laws : QueueLaws ops)
    (sent : ClientCmd → Bool) where
  -- The queue and the request for a sweep.
  Same : Engine Chan → Engine Chan → Type 0
  Same e e' = (e'.queue ≡ e.queue) × (e'.prune ≡ e.prune)

  if_connected-Same : (b : Bool) (e : Engine Chan) → Same e (if b then e else disconnected e)
  unfolding Same disconnected
  if_connected-Same true e = (refl, refl)
  if_connected-Same false e = (refl, refl)

  if_sent-Same :
      (b : Bool) (ids : List ℕ) (e : Engine Chan)
      → Same e (if b then with_pending ids e else disconnected e)
  unfolding Same disconnected
  if_sent-Same true ids e = (refl, refl)
  if_sent-Same false ids e = (refl, refl)

  handle-Same : (c : ClientCmd) (e : Engine Chan) → Same e (handle ops sent c e)
  unfolding Same handle
  handle-Same (call id method params) e = elim (Bool-cases (e.gone id)) [
    | inl given_up ↦ rw given_up (refl, refl)
    | inr waits ↦ rw waits (if_sent-Same (sent (call id method params)) (id ∷ e.pending) e)
  ]
  handle-Same (cancel_call id) e = (refl, refl)
  handle-Same (subscribe id topic) e = if_connected-Same (sent (subscribe id topic)) e
  handle-Same (write topic payload) e = if_connected-Same (sent (write topic payload)) e

  take_cmd-drains :
      (n : ℕ) (e : Engine Chan) (o : Option (ClientCmd × Chan))
      → ops.recv e.queue ≡ o
      → length (ops.commands e.queue) ≤ suc n
      → (length (ops.commands (take_cmd ops sent e o).queue) ≤ n)
        × ((take_cmd ops sent e o).prune ≡ e.prune)
  unfolding take_cmd Same
  take_cmd-drains n e none at few = (rw (laws.idle e.queue at) (omega arith), refl)
  take_cmd-drains n e (some (c, q)) at few =
      let e' : Engine Chan = record {
        queue = q;
        prune = e.prune;
        next = e.next;
        pending = e.pending;
        gone = e.gone;
      } in
      let (queue, prune) = handle-Same c e' in
      let shorter = ap length (laws.received c e.queue q at) in (rw queue (omega arith), prune)

  few_swept :
      (e : Engine Chan) (n : ℕ)
      → length (ops.commands e.queue) ≤ n
      → length (ops.commands (sweep e).queue) ≤ n
  unfolding sweep
  few_swept e n few = few

  quiet_swept : (e : Engine Chan) → (sweep e).prune ≡ false
  unfolding sweep
  quiet_swept e = refl

  drained :
      (n : ℕ) (e : Engine Chan)
      → length (ops.commands e.queue) ≤ n
      → e.prune ≡ false
      → Covered ops e
      → All (λ x. (drain ops sent n e).gone x ≡ false) (drain ops sent n e).pending
  unfolding drain
  drained zero e few quiet before =
      All-imp _ _ e.pending
        (λ x h.
          let free = uncancelled (ops.commands e.queue) x few in
          elim (Bool-cases (e.gone x)) [
            | inl given_up ↦ let known = h given_up in ground arith
            | inr waits ↦ waits
          ])
        before
  drained (suc n) e few quiet before =
      let (few', prune) = take_cmd-drains n e (ops.recv e.queue) refl few in
      drained n (take_cmd ops sent e (ops.recv e.queue)) few' (prune ∙ quiet)
        (take_cmd-Covered ops laws sent e (ops.recv e.queue) refl before)

  -- From a state in which each call in the table that was given up is to be freed, after any steps: once
  -- the engine sweeps, if asked to, and takes the commands that are queued, every call in its table is
  -- one that somebody waits for.
  pub run_reclaims :
      (e : Engine Chan) (steps : List Step) (n : ℕ)
      → Covered ops e
      → length (ops.commands (run ops sent e steps).queue) ≤ n
      → All
          (λ x. (drain ops sent n (sweep (run ops sent e steps))).gone x ≡ false)
          (drain ops sent n (sweep (run ops sent e steps))).pending
  run_reclaims e steps n before few =
      drained n (sweep (run ops sent e steps)) (few_swept (run ops sent e steps) n few)
        (quiet_swept (run ops sent e steps))
        (sweep-Covered ops laws sent (run ops sent e steps)
          (run-Covered ops laws sent e steps before))
