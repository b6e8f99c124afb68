-- ===== src/SessionClient/Calls/Covered.antt =====
-- The calls in the table of the engine that were given up are always about to be freed.
use aimdb.Prelude.{
  ℕ, ◌≡◌, refl, sym, ap, ◌∙◌, subst, List, [], ◌∷◌, ◌++◌, Bool, true, false, ◌||◌, Option, none,
  some, ◌==◌, if◌then◌else◌, All, All-imp, Bool-cases, inl, inr, arith,
}
use aimdb.SessionClient.Calls.{
  ClientCmd, call, cancel_call, subscribe, write, Forced, queued, closed, CommandQueue, listed,
  QueueLaws, Engine, drop_id, sweep_abandoned, is_cancel, next_id, after_force, enqueue, request,
  after_try, with_pending, disconnected, handle, take_cmd, sweep, Step, numbered, left, calls,
  subscribes, writes, abandons, replied, takes, sweeps, disconnects, step, run,
}

-- A cancellation of this call is queued.
abbrev pub cancels : ℕ → List ClientCmd → Bool
cancels x [] = false
cancels x (cancel_call id ∷ cs) = (id == x) || cancels x cs
cancels x (call id method params ∷ cs) = cancels x cs
cancels x (subscribe id topic ∷ cs) = cancels x cs
cancels x (write topic payload ∷ cs) = cancels x cs

cancels-append :
    (x : ℕ) (cs ds : List ClientCmd) → cancels x (cs ++ ds) ≡ (cancels x cs || cancels x ds)
cancels-append x [] ds = refl
cancels-append x (cancel_call id ∷ cs) ds = let rest = cancels-append x cs ds in ground arith
cancels-append x (call id method params ∷ cs) ds = cancels-append x cs ds
cancels-append x (subscribe id topic ∷ cs) ds = cancels-append x cs ds
cancels-append x (write topic payload ∷ cs) ds = cancels-append x cs ds

cancels-listed : (x : ℕ) (o : Option ClientCmd) → is_cancel o ≡ false → cancels x (listed o) ≡ false
unfolding is_cancel
cancels-listed x none free = refl
cancels-listed x (some (cancel_call id)) free = absurd (cc free)
cancels-listed x (some (call id method params)) free = refl
cancels-listed x (some (subscribe id topic)) free = refl
cancels-listed x (some (write topic payload)) free = refl

drop_id-All :
    (P : ℕ → Type 0) (id : ℕ) (xs : List ℕ)
    → All P xs
    → All (λ x. ((id == x) ≡ false) × P x) (drop_id id xs)
unfolding drop_id
drop_id-All P id [] all = tt
drop_id-All P id (x ∷ xs) (p, all) =
    let rest = drop_id-All P id xs all in
    elim (Bool-cases (id == x)) [ inl e ↦ rw e rest | inr e ↦ rw e ((e, p), rest) ]

sweep_abandoned-All :
    (gone : ℕ → Bool) (xs : List ℕ) → All (λ x. gone x ≡ false) (sweep_abandoned gone xs)
unfolding sweep_abandoned
sweep_abandoned-All gone [] = tt
sweep_abandoned-All gone (x ∷ xs) =
    let rest = sweep_abandoned-All gone xs in
    elim (Bool-cases (gone x)) [ inl e ↦ rw e rest | inr e ↦ rw e (e, rest) ]

-- A call that was given up will be freed: a cancellation of it is queued or a sweep is asked for.
abbrev pub WillGo : List ClientCmd → Bool → (ℕ → Bool) → ℕ → Type 0
WillGo cs prune gone x = gone x ≡ true → (cancels x cs || prune) ≡ true

module _ {Chan : Type 0} (ops : CommandQueue Chan) where
  abbrev pub Covered : Engine Chan → Type 0
  Covered e = All (WillGo (ops.commands e.queue) e.prune e.gone) e.pending

  module _ (laws : QueueLaws ops) (sent : ClientCmd → Bool) where
    forced-WillGo :
        (c : ClientCmd) (q q' : Chan) (o : Option ClientCmd) (prune : Bool) (x : ℕ)
        → ops.force_send c q ≡ queued o q'
        → (cancels x (ops.commands q) || prune) ≡ true
        → (cancels x (ops.commands q') || (prune || is_cancel o)) ≡ true
    forced-WillGo c q q' o prune x at before =
        let all =
          sym (cancels-append x (ops.commands q) (c ∷ []))
          ∙ ap (cancels x) (laws.forced c q q' o at)
          ∙ cancels-append x (listed o) (ops.commands q') in
        elim (Bool-cases (is_cancel o)) [
          | inl e ↦ rw e (ground arith)
          | inr e ↦ let none_lost = cancels-listed x o e in ground arith
        ]

    after_force-Covered :
        (c : ClientCmd) (e : Engine Chan) (f : Forced Chan)
        → ops.force_send c e.queue ≡ f
        → Covered e
        → Covered (after_force e f).0
    unfolding after_force
    after_force-Covered c e closed at before = before
    after_force-Covered c e (queued o q) at before =
        All-imp _ _ e.pending (λ x h is. forced-WillGo c e.queue q o e.prune x at (h is)) before

    request-Covered :
        (cmd : ℕ → ClientCmd) (e : Engine Chan) (o : Option ℕ)
        → Covered e
        → Covered (request ops cmd e o).0
    unfolding request enqueue
    request-Covered cmd e none before = before
    request-Covered cmd e (some id) before =
        after_force-Covered (cmd id) (numbered e) (ops.force_send (cmd id) e.queue) refl before

    after_try-Covered :
        (id : ℕ) (e : Engine Chan) (o : Option Chan)
        → ops.try_send (cancel_call id) e.queue ≡ o
        → Covered e
        → Covered (after_try id (left id e) o)
    unfolding after_try
    after_try-Covered id e none at before = All-imp _ _ e.pending (λ x h is. ground arith) before
    after_try-Covered id e (some q) at before =
        All-imp _ _ e.pending
          (λ x h is.
            let all =
              ap (cancels x) (laws.tried (cancel_call id) e.queue q at)
              ∙ cancels-append x (ops.commands e.queue) (cancel_call id ∷ []) in
            elim (Bool-cases (id == x)) [ inl this ↦ ground arith | inr other ↦ ground arith ])
          before

    if_connected :
        (b : Bool) (e : Engine Chan) → Covered e → Covered (if b then e else disconnected e)
    unfolding disconnected
    if_connected true e before = before
    if_connected false e before = tt

    if_sent-Covered :
        (b : Bool) (id : ℕ) (e : Engine Chan)
        → Covered (with_pending (id ∷ e.pending) e)
        → Covered (if b then with_pending (id ∷ e.pending) e else disconnected e)
    unfolding disconnected
    if_sent-Covered true id e after = after
    if_sent-Covered false id e after = tt

    handle-Covered :
        (c : ClientCmd) (e : Engine Chan)
        → All (WillGo (c ∷ ops.commands e.queue) e.prune e.gone) e.pending
        → Covered (handle ops sent c e)
    unfolding handle
    handle-Covered (call id method params) e before = elim (Bool-cases (e.gone id)) [
      | inl given_up ↦ rw given_up before
      | inr waits ↦ rw waits (
          if_sent-Covered (sent (call id method params)) id e
            (λ is. absurd (cc (is, waits)), before))
    ]
    handle-Covered (cancel_call id) e before =
        All-imp _ _ (drop_id id e.pending)
          (λ x h is. let known = h.1 is in let other = h.0 in ground arith)
          (drop_id-All _ id e.pending before)
    handle-Covered (subscribe id topic) e before = if_connected (sent (subscribe id topic)) e before
    handle-Covered (write topic payload) e before =
        if_connected (sent (write topic payload)) e before

    pub take_cmd-Covered :
        (e : Engine Chan) (o : Option (ClientCmd × Chan))
        → ops.recv e.queue ≡ o
        → Covered e
        → Covered (take_cmd ops sent e o)
    unfolding take_cmd
    take_cmd-Covered e none at before = before
    take_cmd-Covered e (some (c, q)) at before =
        handle-Covered c
          (record { queue = q; prune = e.prune; next = e.next; pending = e.pending; gone = e.gone })
          (subst (λ cs. All (WillGo cs e.prune e.gone) e.pending) (laws.received c e.queue q at)
            before)

    pub sweep-Covered : (e : Engine Chan) → Covered e → Covered (sweep e)
    unfolding sweep
    sweep-Covered e before = elim (Bool-cases e.prune) [
      | inl asked ↦ rw asked (
          All-imp _ _ (sweep_abandoned e.gone e.pending) (λ x h is. absurd (cc (h, is)))
            (sweep_abandoned-All e.gone e.pending))
      | inr not_asked ↦
          rw not_asked (All-imp _ _ e.pending (λ x h is. let known = h is in ground arith) before)
    ]

    step-Covered : (e : Engine Chan) (s : Step) → Covered e → Covered (step ops sent e s)
    unfolding step disconnected
    step-Covered e (calls method params) before = request-Covered _ e (next_id e.next) before
    step-Covered e (subscribes topic) before = request-Covered _ e (next_id e.next) before
    step-Covered e (writes topic payload) before =
        after_force-Covered (write topic payload) e (ops.force_send (write topic payload) e.queue)
          refl before
    step-Covered e (abandons id) before =
        after_try-Covered id e (ops.try_send (cancel_call id) e.queue) refl before
    step-Covered e (replied id) before =
        All-imp _ _ (drop_id id e.pending) (λ x h. h.1) (drop_id-All _ id e.pending before)
    step-Covered e takes before = take_cmd-Covered e (ops.recv e.queue) refl before
    step-Covered e sweeps before = sweep-Covered e before
    step-Covered e disconnects before = tt

    pub run-Covered :
        (e : Engine Chan) (steps : List Step) → Covered e → Covered (run ops sent e steps)
    unfolding run
    run-Covered e [] before = before
    run-Covered e (s ∷ steps) before =
        run-Covered (step ops sent e s) steps (step-Covered e s before)
