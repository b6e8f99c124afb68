-- ===== src/SessionClient/Sinks/Tests.antt =====
-- Runs of deliver and end_sub of aimdb-core/src/session/client.rs over a bounded queue, and the theorems at
-- one.
use aimdb.Prelude.{
  ℕ, ◌+◌, ◌<◌, ◌≡◌, refl, subst, List, [], ◌∷◌, true, false, Option, none, some, if◌then◌else◌, Str,
  str_eq, length, arith,
}
use aimdb.SessionClient.Sinks.{
  denied, SubUpdate, Item, event, burst_body, burst_end, World, Event, arrives, run, cursor,
  end_sub, update, err, step, deliver, insert, remove, takes,
}
use aimdb.SessionClient.Sinks.Room.{Spare, Told, end_sub_tells}
use aimdb.SessionClient.Sinks.Accounting.{total, Increasing, Accounted, run_accounts}
use aimdb.SessionClient.Sinks.Queue.{Queue, queues, queue_laws}

abbrev name : Str
name = b's' ∷ []

abbrev fresh : SubUpdate
fresh = record { topic = none; data_bytes = b'v' ∷ []; ts = 7; skipped = 0; snapshot_end = false }

abbrev small_sink : Queue
small_sink = record { held = []; bound = 3; shut = false }

-- One subscription, with a sink of three slots.
abbrev opened : World queues
opened = record {
  sinks = record {
    subs = λ x. if str_eq name x then some small_sink else none;
    last_seq = λ x. none;
  };
  got = λ x. [];
}

-- The body of a burst fills one slot, the end of it the next one; of the events one finds room.
abbrev traffic : List (Event queues)
traffic =
    arrives name 1 fresh burst_body
    ∷ arrives name 2 fresh burst_body
    ∷ arrives name 3 fresh burst_end
    ∷ arrives name 4 fresh event
    ∷ takes name
    ∷ arrives name 6 fresh event
    ∷ []

abbrev skips : List Item → List ℕ
skips [] = []
skips (update u ∷ ys) = u.skipped ∷ skips ys
skips (err e ∷ ys) = 99 ∷ skips ys

abbrev held_by : Option Queue → List Item
held_by none = []
held_by (some q) = q.held

reported : skips (held_by ((run queues opened traffic).sinks.subs name)) ≡ 1 ∷ 2 ∷ []
unfolding run step deliver end_sub insert remove str_eq
reported = refl

abbrev after : Queue
after = record {
  held =
      update
        (record { topic = none; data_bytes = b'v' ∷ []; ts = 7; skipped = 1; snapshot_end = true })
      ∷ update (record {
        topic = none;
        data_bytes = b'v' ∷ [];
        ts = 7;
        skipped = 2;
        snapshot_end = false;
      })
      ∷ [];
  bound = 3;
  shut = false;
}

run-traffic : (run queues opened traffic).sinks.subs name ≡ some after
unfolding run step deliver end_sub insert remove str_eq
run-traffic = refl

spare : Spare queues (opened.sinks.subs name)
unfolding str_eq
spare q at unshut n is =
    let e : small_sink ≡ q = cc at in
    subst (λ r. (m : ℕ) → queues.capacity r ≡ some m → length r.held < m) e
      (λ m has. let three : 3 ≡ m = cc has in omega arith) n is

increasing : Increasing queues name 0 traffic
unfolding str_eq
increasing = (
  (λ e. omega arith, omega arith),
  (
    (λ e. omega arith, omega arith),
    (
      (λ e. omega arith, omega arith),
      ((λ e. omega arith, omega arith), (tt, ((λ e. omega arith, omega arith), tt))),
    ),
  ),
)

accounted :
    Accounted queues name 0 (opened.got name) (opened.sinks.subs name) (opened.sinks.last_seq name)
unfolding str_eq cursor
accounted = (
  omega arith,
  λ q at unshut.
      let e : small_sink ≡ q = cc at in subst (λ r. 0 + total r.held ≡ 0) e (omega arith),
)

end_sub_tells_example :
    Told queues denied after (end_sub queues (run queues opened traffic).sinks name denied)
end_sub_tells_example =
    end_sub_tells queues queue_laws opened traffic name denied after spare run-traffic refl

run_accounts_example :
    total ((run queues opened traffic).got name) + total after.held
    ≡ cursor ((run queues opened traffic).sinks.last_seq name)
run_accounts_example =
    run_accounts queues name queue_laws opened traffic 0 after increasing accounted run-traffic refl
