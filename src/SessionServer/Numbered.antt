-- ===== src/SessionServer/Numbered.antt =====
-- The numbers of the frames of a subscription.
use aimdb.Prelude.{
  ℕ, suc, ◌+◌, ◌≤◌, ◌<◌, ◌≡◌, refl, ap, ◌∙◌, List, [], ◌∷◌, ◌++◌, Bool, true, false, Bool-cases,
  inl, inr, ◌==◌, length, arith,
}
use aimdb.SessionClient.{u64_max}
use aimdb.SessionServer.{
  Snapshot, Outbound, snapshot, event, add_u64, Burst, after_snapshot, burst, Answer, ok, full,
  closed, Pumped, next, ends, cancel, send_event, after_send, pump_subscription, after_burst,
  subscription,
}

abbrev pub number : Outbound → ℕ
number (snapshot seq last snap) = seq
number (event seq topic ts data_bytes) = seq

-- Numbers that increase, beyond the first bound and up to the second.
abbrev pub Ascends : ℕ → ℕ → List Outbound → Type 0
Ascends low high [] = Unit
Ascends low high (f ∷ fs) = (low < number f) × (number f ≤ high) × Ascends (number f) high fs

Ascends-from :
    (low low' high : ℕ) (fs : List Outbound)
    → low' ≤ low
    → Ascends low high fs
    → Ascends low' high fs
Ascends-from low low' high [] le all = tt
Ascends-from low low' high (f ∷ fs) le (above, below, all) = (omega arith, below, all)

Ascends-below :
    (mid high low : ℕ) (fs : List Outbound) → mid ≤ high → Ascends low mid fs → Ascends low high fs
Ascends-below mid high low [] le all = tt
Ascends-below mid high low (f ∷ fs) le (above, below, all) =
    (above, omega arith, Ascends-below mid high (number f) fs le all)

pub add_u64_small : (a b : ℕ) → a + b ≤ u64_max → add_u64 a b ≡ a + b
unfolding add_u64
add_u64_small a b small = omega arith

-- How many records the pump was given or told of.
abbrev pub produced : List Pumped → ℕ
produced [] = 0
produced (next u answer ∷ steps) = u.skipped + 1 + produced steps
produced (ends ∷ steps) = produced steps
produced (cancel ∷ steps) = produced steps

Ascends-append :
    (low mid high : ℕ) (fs gs : List Outbound)
    → low ≤ mid
    → mid ≤ high
    → Ascends low mid fs
    → Ascends mid high gs
    → Ascends low high (fs ++ gs)
Ascends-append low mid high [] gs le le' all more = Ascends-from mid low high gs le more
Ascends-append low mid high (f ∷ fs) gs le le' (above, below, all) more =
    (above, omega arith, Ascends-append (number f) mid high fs gs below le' all more)

-- A burst after the number low: how far it numbers its frames.
Numbered : ℕ → ℕ → Burst → Type 0
Numbered low count b = Ascends low b.seq b.frames × (low ≤ b.seq) × (b.seq ≤ low + count)

after_snapshot-Numbered :
    (f : Outbound) (encoded sent : Bool) (low count : ℕ) (later : Burst)
    → number f ≡ low + 1
    → Numbered (low + 1) count later
    → Numbered low (suc count) (after_snapshot f encoded sent (low + 1) later)
unfolding after_snapshot Numbered
after_snapshot-Numbered f false sent low count later is (all, above, below) =
    (Ascends-from (low + 1) low later.seq later.frames (omega arith) all, omega arith, omega arith)
after_snapshot-Numbered f true false low count later is (all, above, below) =
    (tt, omega arith, omega arith)
after_snapshot-Numbered f true true low count later is (all, above, below) = (
  (
    omega arith,
    omega arith,
    Ascends-from (low + 1) (number f) later.seq later.frames (omega arith) all,
  ),
  omega arith,
  omega arith,
)

module _ (encodes sends : Outbound → Bool) where
  after_send-Ascends :
      (f : Outbound) (a : Answer) (low high : ℕ) (later : List Outbound)
      → low < number f
      → number f ≤ high
      → Ascends (number f) high later
      → Ascends low high (after_send encodes sends f a later)
  unfolding after_send send_event
  after_send-Ascends f ok low high later above below all = elim (Bool-cases (encodes f)) [
    | inl e ↦ rw e (above, below, all)
    | inr e ↦ rw e (Ascends-from (number f) low high later (omega arith) all)
  ]
  after_send-Ascends f full low high later above below all =
      Ascends-from (number f) low high later (omega arith) all
  after_send-Ascends f closed low high later above below all = tt

  pump_subscription-Ascends :
      (seq high : ℕ) (steps : List Pumped)
      → seq + produced steps ≤ high
      → high ≤ u64_max
      → Ascends seq high (pump_subscription encodes sends seq steps)
  unfolding pump_subscription
  pump_subscription-Ascends seq high [] few small = tt
  pump_subscription-Ascends seq high (ends ∷ steps) few small = tt
  pump_subscription-Ascends seq high (cancel ∷ steps) few small = tt
  pump_subscription-Ascends seq high (next u answer ∷ steps) few small =
      let n = add_u64 seq (add_u64 u.skipped 1) in
      let e : n ≡ seq + (u.skipped + 1) =
        ap (add_u64 seq) (add_u64_small u.skipped 1 (omega arith))
        ∙ add_u64_small seq (u.skipped + 1) (omega arith) in
      after_send-Ascends (event n u.topic u.ts u.data_bytes) answer seq high
        (pump_subscription encodes sends n steps) (omega arith) (omega arith)
        (pump_subscription-Ascends n high steps (omega arith) small)

  burst-Numbered :
      (total i seq : ℕ) (snaps : List Snapshot)
      → seq + length snaps ≤ u64_max
      → Numbered seq (length snaps) (burst encodes sends total i seq snaps)
  unfolding burst Numbered
  burst-Numbered total i seq [] small = (tt, omega arith, omega arith)
  burst-Numbered total i seq (snap ∷ snaps) small = rw (add_u64_small seq 1 (omega arith)) (
      after_snapshot-Numbered (snapshot (seq + 1) (i + 1 == total) snap)
        (encodes (snapshot (seq + 1) (i + 1 == total) snap))
        (sends (snapshot (seq + 1) (i + 1 == total) snap)) seq (length snaps)
        (burst encodes sends total (suc i) (seq + 1) snaps) refl
        (burst-Numbered total (suc i) (seq + 1) snaps (omega arith)))

  after_burst-Ascends :
      (b : Burst) (count : ℕ) (steps : List Pumped)
      → Numbered 0 count b
      → count + produced steps ≤ u64_max
      → Ascends 0 (count + produced steps) (after_burst encodes sends b steps)
  unfolding after_burst Numbered
  after_burst-Ascends b count steps (all, above, below) small =
      let pumped =
        pump_subscription-Ascends b.seq (count + produced steps) steps (omega arith) small in
      elim (Bool-cases b.up) [
        | inl e ↦ rw e (
            Ascends-append 0 b.seq (count + produced steps) b.frames
              (pump_subscription encodes sends b.seq steps) above (omega arith) all pumped)
        | inr e ↦ rw e (Ascends-below b.seq (count + produced steps) 0 b.frames (omega arith) all)
      ]

  -- The frames of a subscription are numbered in increasing order, by at most as many numbers as records
  -- were produced for it.
  pub subscription-Ascends :
      (snaps : List Snapshot) (steps : List Pumped)
      → length snaps + produced steps ≤ u64_max
      → Ascends 0 (length snaps + produced steps) (subscription encodes sends snaps steps)
  unfolding subscription
  subscription-Ascends snaps steps small =
      after_burst-Ascends (burst encodes sends (length snaps) 0 0 snaps) (length snaps) steps
        (burst-Numbered (length snaps) 0 0 snaps (omega arith)) small
