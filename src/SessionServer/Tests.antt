-- ===== src/SessionServer/Tests.antt =====
-- A subscription between aimdb-core/src/session/server.rs and aimdb-core/src/session/client.rs, and the theorem
-- at it.
use aimdb.Prelude.{
  ℕ, All, ◌+◌, ◌≡◌, refl, subst, List, [], ◌∷◌, Bool, true, false, none, some, inl, if◌then◌else◌,
  arith, Str, str_eq,
}
use aimdb.SessionClient.Sinks.{
  SubUpdate, update, World, Event, takes, run, cursor, step, deliver, insert,
}
use aimdb.SessionClient.Sinks.Accounting.{total, Accounted}
use aimdb.SessionClient.Sinks.Queue.{Queue, queues, queue_laws}
use aimdb.SessionServer.{
  Snapshot, snapshot, event, Outbound, Pumped, next, ends, ok, full, subscription,
}
use aimdb.SessionServer.Numbered.{Ascends}
use aimdb.SessionServer.Placed.{IsPlaced, subscription-IsPlaced}
use aimdb.SessionServer.Delivered.{arrival, Takes, Known, subscription_accounts}

abbrev name : Str
name = b's' ∷ []

abbrev always : Outbound → Bool
always f = true

-- The second snapshot has no valid text.
abbrev encodes : Outbound → Bool
encodes (snapshot seq last snap) = if last then false else true
encodes (event seq topic ts data_bytes) = true

abbrev snap : Snapshot
snap = record { snap_topic = b't' ∷ []; data_bytes = b'v' ∷ []; ts = 7 }

abbrev value : ℕ → SubUpdate
value skipped = record {
  topic = none;
  data_bytes = b'v' ∷ [];
  ts = 8;
  skipped = skipped;
  snapshot_end = false;
}

abbrev pumped : List Pumped
pumped = next (value 0) full ∷ next (value 2) ok ∷ ends ∷ []

abbrev one_snapshot : Outbound
one_snapshot = snapshot 1 false snap

abbrev one_event : Outbound
one_event = event 6 none 8 (b'v' ∷ [])

-- Of two snapshots and four values two frames are sent, with the numbers 1 and 6.
two_frames : subscription encodes always (snap ∷ snap ∷ []) pumped ≡ one_snapshot ∷ one_event ∷ []
unfolding subscription
two_frames = refl

abbrev big_sink : Queue
big_sink = record { held = []; bound = 8; shut = false }

abbrev opened : World queues
opened = record {
  sinks = record {
    subs = λ x. if str_eq name x then some big_sink else none;
    last_seq = λ x. none;
  };
  got = λ x. [];
}

abbrev traffic : List (Event queues)
traffic = arrival queues name one_snapshot ∷ takes name ∷ arrival queues name one_event ∷ []

abbrev after : Queue
after = record {
  held =
      update
        (record { topic = none; data_bytes = b'v' ∷ []; ts = 8; skipped = 4; snapshot_end = false })
      ∷ [];
  bound = 8;
  shut = false;
}

run-traffic : (run queues opened traffic).sinks.subs name ≡ some after
unfolding run step deliver insert str_eq arrival
run-traffic = refl

in_order : Takes queues name (subscription encodes always (snap ∷ snap ∷ []) pumped) traffic
unfolding arrival
in_order = inl (one_snapshot, one_event ∷ [], two_frames, refl, inl (one_event, [], refl, refl, tt))

nothing_yet :
    Accounted queues name 0 (opened.got name) (opened.sinks.subs name) (opened.sinks.last_seq name)
unfolding str_eq cursor
nothing_yet = (
  omega arith,
  λ q at unshut. let e : big_sink ≡ q = cc at in subst (λ r. 0 + total r.held ≡ 0) e (omega arith),
)

-- What the subscriber took and holds speaks of all six records.
subscription_accounts_example : Known (snap ∷ snap ∷ []) pumped (one_snapshot ∷ one_event ∷ []) 6
unfolding subscription run step deliver insert str_eq arrival
subscription_accounts_example =
    subscription_accounts queues name queue_laws encodes always (snap ∷ snap ∷ []) pumped opened
      traffic after (omega arith) in_order nothing_yet run-traffic refl

subscription-IsPlaced_example :
    All (IsPlaced (snap ∷ snap ∷ []) pumped) (one_snapshot ∷ one_event ∷ [])
    × Ascends 0 6 (one_snapshot ∷ one_event ∷ [])
unfolding subscription
subscription-IsPlaced_example =
    subscription-IsPlaced encodes always (snap ∷ snap ∷ []) pumped (omega arith)
