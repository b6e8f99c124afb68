-- ===== src/SessionServer.antt =====
-- aimdb-core/src/session/server.rs: what a session sends on one subscription, first the burst of snapshots and
-- then the events of the pump. What the codec, the connection and the funnel answer is given; `u64` wraps.
pub mod Numbered
pub mod Placed
pub mod Delivered
mod Tests
use aimdb.Prelude.{
  ℕ, zero, suc, ◌+◌, ◌%◌, ◌^◌, List, [], ◌∷◌, ◌++◌, Bool, true, false, Option, none, some, ◌==◌,
  if◌then◌else◌, length, Str,
}
use aimdb.SessionClient.Sinks.{SubUpdate}

pub record Snapshot : Type 0 where
  pub snap_topic : Str
  pub data_bytes : Str
  pub ts : ℕ

pub data Outbound : Type 0 where
  snapshot : (seq : ℕ) (last : Bool) → Snapshot → Outbound
  event : (seq : ℕ) (topic : Option Str) (ts : ℕ) (data_bytes : Str) → Outbound

unfoldable pub add_u64 : ℕ → ℕ → ℕ
add_u64 a b = (a + b) % 2 ^ 64

-- What was sent, the last number used, and whether the connection still stands.
pub record Burst : Type 0 where
  pub frames : List Outbound
  pub seq : ℕ
  pub up : Bool

unfoldable pub after_snapshot : Outbound → Bool → Bool → ℕ → Burst → Burst
after_snapshot f false sent seq later = later
after_snapshot f true false seq later = record { frames = []; seq = seq; up = false }
after_snapshot f true true seq later = record {
  frames = f ∷ later.frames;
  seq = later.seq;
  up = later.up;
}

-- What the funnel answers.
pub data Answer : Type 0 where
  ok full closed : Answer

-- What the pump meets: an update of the stream, the end of the stream, or the cancellation.
pub data Pumped : Type 0 where
  next : SubUpdate → Answer → Pumped
  ends cancel : Pumped

module _ (encodes : Outbound → Bool) (sends : Outbound → Bool) where
  unfoldable pub burst : (total i seq : ℕ) → List Snapshot → Burst
  unfolding add_u64 after_snapshot
  burst total i seq [] = record { frames = []; seq = seq; up = true }
  burst total i seq (snap ∷ snaps) =
      let f = snapshot (add_u64 seq 1) (i + 1 == total) snap in
      after_snapshot f (encodes f) (sends f) (add_u64 seq 1)
        (burst total (suc i) (add_u64 seq 1) snaps)

  unfoldable pub send_event : Outbound → List Outbound → List Outbound
  send_event f later = if encodes f then f ∷ later else later

  unfoldable pub after_send : Outbound → Answer → List Outbound → List Outbound
  unfolding send_event
  after_send f ok later = send_event f later
  after_send f full later = later
  after_send f closed later = []

  unfoldable pub pump_subscription : ℕ → List Pumped → List Outbound
  unfolding add_u64 after_send
  pump_subscription seq [] = []
  pump_subscription seq (ends ∷ steps) = []
  pump_subscription seq (cancel ∷ steps) = []
  pump_subscription seq (next u answer ∷ steps) =
      let n = add_u64 seq (add_u64 u.skipped 1) in
      after_send (event n u.topic u.ts u.data_bytes) answer (pump_subscription n steps)

  unfoldable pub after_burst : Burst → List Pumped → List Outbound
  unfolding pump_subscription
  after_burst b steps = if b.up then b.frames ++ pump_subscription b.seq steps else b.frames

  -- All frames of a subscription, in their order.
  unfoldable pub subscription : List Snapshot → List Pumped → List Outbound
  unfolding burst after_burst
  subscription snaps steps = after_burst (burst (length snaps) 0 0 snaps) steps
