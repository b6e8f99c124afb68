-- ===== src/SessionServer/Placed.antt =====
-- Each frame of a subscription carries the number of its record among all that were produced.
use aimdb.Prelude.{
  ℕ, suc, ◌+◌, ◌≤◌, ◌≡◌, refl, sym, ap, subst, append-nil, ◌∙◌, List, [], ◌∷◌, ◌++◌, append_assoc,
  Bool, true, false, some, Bool-cases, inl, inr, ◌==◌, length, length-append, get_elem?, arith, All,
  All-append,
}
use aimdb.SessionClient.{u64_max}
use aimdb.SessionClient.Sinks.{SubUpdate}
use aimdb.SessionServer.{
  Snapshot, Outbound, snapshot, event, add_u64, Burst, after_snapshot, burst, Answer, ok, full,
  closed, Pumped, next, ends, cancel, send_event, after_send, pump_subscription, after_burst,
  subscription,
}
use aimdb.SessionServer.Numbered.{produced, add_u64_small, Ascends, subscription-Ascends}

-- This update came after so many records: those that the stream gave before it, and those that it says were
-- skipped before each.
abbrev pub IsUpdate : List Pumped → SubUpdate → ℕ → Type 0
IsUpdate steps u before =
    (earlier : List Pumped) × (a : Answer) × (later : List Pumped) × (steps
      ≡ earlier ++ next u a ∷ later)
    × (before ≡ produced earlier + u.skipped)

-- The frame tells of the record of its number: of snapshots the i-th, and behind them all the values of the
-- stream, given or skipped.
abbrev pub IsPlaced : List Snapshot → List Pumped → Outbound → Type 0
IsPlaced snaps steps (snapshot seq last snap) =
    (i : ℕ) × (seq ≡ i + 1) × (get_elem? snaps i ≡ some snap) × (last ≡ (i + 1 == length snaps))
IsPlaced snaps steps (event seq topic ts data_bytes) =
    (u : SubUpdate) × (before : ℕ) × IsUpdate steps u before
    × (seq ≡ length snaps + before + 1)
    × (topic ≡ u.topic)
    × (ts ≡ u.ts)
    × (data_bytes ≡ u.data_bytes)

produced-append : (xs ys : List Pumped) → produced (xs ++ ys) ≡ produced xs + produced ys
produced-append [] ys = omega arith
produced-append (next u a ∷ xs) ys = omega (arith, produced-append xs ys)
produced-append (ends ∷ xs) ys = produced-append xs ys
produced-append (cancel ∷ xs) ys = produced-append xs ys

get_elem?-append :
    (earlier : List Snapshot) (snap : Snapshot) (rest : List Snapshot)
    → get_elem? (earlier ++ snap ∷ rest) (length earlier) ≡ some snap
get_elem?-append [] snap rest = refl
get_elem?-append (s ∷ earlier) snap rest = get_elem?-append earlier snap rest

module _ (encodes sends : Outbound → Bool) where
  after_send-All :
      (P : Outbound → Type 0) (f : Outbound) (a : Answer) (later : List Outbound)
      → P f
      → All P later
      → All P (after_send encodes sends f a later)
  unfolding after_send send_event
  after_send-All P f ok later this all = elim (Bool-cases (encodes f)) [
    | inl e ↦ rw e (this, all)
    | inr e ↦ rw e all
  ]
  after_send-All P f full later this all = all
  after_send-All P f closed later this all = tt

  -- With the steps already made.
  pump_subscription-IsPlaced :
      (snaps : List Snapshot) (steps earlier rest : List Pumped) (seq : ℕ)
      → steps ≡ earlier ++ rest
      → seq ≡ length snaps + produced earlier
      → length snaps + produced steps ≤ u64_max
      → All (IsPlaced snaps steps) (pump_subscription encodes sends seq rest)
  unfolding pump_subscription
  pump_subscription-IsPlaced snaps steps earlier [] seq split at small = tt
  pump_subscription-IsPlaced snaps steps earlier (ends ∷ rest) seq split at small = tt
  pump_subscription-IsPlaced snaps steps earlier (cancel ∷ rest) seq split at small = tt
  pump_subscription-IsPlaced snaps steps earlier (next u a ∷ rest) seq split at small =
      let sum = ap produced split ∙ produced-append earlier (next u a ∷ rest) in
      let n = add_u64 seq (add_u64 u.skipped 1) in
      let e : n ≡ seq + (u.skipped + 1) =
        ap (add_u64 seq) (add_u64_small u.skipped 1 (omega arith))
        ∙ add_u64_small seq (u.skipped + 1) (omega arith) in
      after_send-All (IsPlaced snaps steps) (event n u.topic u.ts u.data_bytes) a
        (pump_subscription encodes sends n rest)
        (
          u,
          produced earlier + u.skipped,
          (earlier, a, rest, split, refl),
          omega arith,
          refl,
          refl,
          refl,
        )
        (pump_subscription-IsPlaced snaps steps (earlier ++ next u a ∷ []) rest n
          (split ∙ sym (append_assoc earlier (next u a ∷ []) rest))
          (omega (arith, produced-append earlier (next u a ∷ []))) small)

  -- What a burst from a snapshot on leaves: its frames are placed, and where it goes through it has counted
  -- all.
  BurstPlaced : List Snapshot → List Pumped → Burst → Type 0
  BurstPlaced snaps steps b =
      All (IsPlaced snaps steps) b.frames × (b.up ≡ true → b.seq ≡ length snaps)

  after_snapshot-Placed :
      (snaps : List Snapshot) (steps : List Pumped) (f : Outbound) (e s : Bool) (n : ℕ)
      (later : Burst)
      → IsPlaced snaps steps f
      → BurstPlaced snaps steps later
      → BurstPlaced snaps steps (after_snapshot f e s n later)
  unfolding after_snapshot BurstPlaced
  after_snapshot-Placed snaps steps f false s n later this rest = rest
  after_snapshot-Placed snaps steps f true false n later this rest = (tt, λ up. absurd (cc up))
  after_snapshot-Placed snaps steps f true true n later this (all, counted) = ((this, all), counted)

  burst-Placed :
      (snaps : List Snapshot) (steps : List Pumped) (earlier rest : List Snapshot) (i : ℕ)
      → snaps ≡ earlier ++ rest
      → i ≡ length earlier
      → length snaps ≤ u64_max
      → BurstPlaced snaps steps (burst encodes sends (length snaps) i i rest)
  unfolding burst BurstPlaced
  burst-Placed snaps steps earlier [] i split at small =
      (tt, λ up. at ∙ ap length (sym (split ∙ append-nil earlier)))
  burst-Placed snaps steps earlier (snap ∷ rest) i split at small =
      let count = ap length split ∙ length-append earlier (snap ∷ rest) in
      let f = snapshot (i + 1) (i + 1 == length snaps) snap in
      let one_more : suc i ≡ i + 1 = omega arith in
      rw (add_u64_small i 1 (omega arith)) (
        after_snapshot-Placed snaps steps f (encodes f) (sends f) (i + 1)
          (burst encodes sends (length snaps) (suc i) (i + 1) rest)
          (
            i,
            refl,
            ap (λ l. get_elem? l i) split
                ∙ ap (get_elem? (earlier ++ snap ∷ rest)) at
                ∙ get_elem?-append earlier snap rest,
            refl,
          )
          (subst (λ k. BurstPlaced snaps steps (burst encodes sends (length snaps) (suc i) k rest))
            one_more
            (burst-Placed snaps steps (earlier ++ snap ∷ []) rest (suc i)
              (split ∙ sym (append_assoc earlier (snap ∷ []) rest))
              (omega (arith, length-append earlier (snap ∷ []))) small)))

  after_burst-Placed :
      (snaps : List Snapshot) (steps : List Pumped) (b : Burst)
      → BurstPlaced snaps steps b
      → length snaps + produced steps ≤ u64_max
      → All (IsPlaced snaps steps) (after_burst encodes sends b steps)
  unfolding after_burst BurstPlaced
  after_burst-Placed snaps steps b (all, counted) small = elim (Bool-cases b.up) [
    | inl e ↦ rw e (
        All-append (IsPlaced snaps steps) b.frames (pump_subscription encodes sends b.seq steps) all
          (pump_subscription-IsPlaced snaps steps [] steps b.seq refl (omega (arith, counted e))
            small))
    | inr e ↦ rw e all
  ]

  -- Whatever does not encode, whatever the connection and the funnel answer: the frames of a subscription carry
  -- increasing numbers, and each carries that of the record it tells of among all that were produced, of the
  -- snapshots first and then of the values, given to the pump or skipped before it.
  pub subscription-IsPlaced :
      (snaps : List Snapshot) (steps : List Pumped)
      → length snaps + produced steps ≤ u64_max
      → All (IsPlaced snaps steps) (subscription encodes sends snaps steps)
        × Ascends 0 (length snaps + produced steps) (subscription encodes sends snaps steps)
  unfolding subscription
  subscription-IsPlaced snaps steps small = (
    after_burst-Placed snaps steps (burst encodes sends (length snaps) 0 0 snaps)
        (burst-Placed snaps steps [] snaps 0 refl refl (omega arith)) small,
    subscription-Ascends encodes sends snaps steps small,
  )
