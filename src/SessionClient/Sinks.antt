-- ===== src/SessionClient/Sinks.antt =====
-- aimdb-core/src/session/client.rs: the sinks that updates of subscriptions are put into, and the errors
-- that end them. The channels of the crate async-channel are a parameter.

pub mod Cases
pub mod Room
pub mod Accounting
pub mod Queue
mod Tests
use aimdb.Prelude.{
  ℕ, ◌+◌, ◌-◌, ◌<◌, min, max, ◌≡◌, List, [], ◌∷◌, ◌++◌, Bool, true, false, Option, none, some, leb,
  if◌then◌else◌, Str, str_eq, length,
}
use aimdb.SessionClient.{u64_max}

abbrev pub Map : Type 0 → Type 0
Map V = Str → Option V

unfoldable pub insert : {V : Type 0} → Str → V → Map V → Map V
insert k v m x = if str_eq k x then some v else m x

unfoldable pub remove : {V : Type 0} → Str → Map V → Map V
remove k m x = if str_eq k x then none else m x

pub data RpcError : Type 0 where
  not_found denied internal version_mismatch protocol : RpcError

pub record SubUpdate : Type 0 where
  pub topic : Option Str
  pub data_bytes : Str
  pub ts : ℕ
  pub skipped : ℕ
  pub snapshot_end : Bool

-- What a sink holds: a result of the source.
pub data Item : Type 0 where
  update : SubUpdate → Item
  err : RpcError → Item

pub data Sent (Chan : Type 0) : Type 0 where
  ok : Chan → Sent Chan
  full closed : Sent Chan

-- A bounded channel, its sending end and its receiving end.
pub record Channels (Chan : Type 0) : Type 0 where
  pub items : Chan → List Item
  pub capacity : Chan → Option ℕ
  pub is_closed : Chan → Bool
  pub try_send : Item → Chan → Sent Chan
  pub recv : Chan → Chan
  pub close : Chan → Chan

-- Room for one more item.
abbrev pub HasRoom : {Chan : Type 0} → Channels Chan → Chan → Type 0
HasRoom ops c = (cap : ℕ) → ops.capacity c ≡ some cap → length (ops.items c) < cap

abbrev pub rest : {A : Type 0} → List A → List A
rest [] = []
rest (x ∷ xs) = xs

-- What the crate documents of its channels.
pub record ChannelLaws {Chan : Type 0} (ops : Channels Chan) : Type 0 where
  pub sends :
      (x : Item) (c : Chan)
      → ops.is_closed c ≡ false
      → HasRoom ops c
      → (c' : Chan) × (ops.try_send x c ≡ ok c')
  pub sent :
      (x : Item) (c c' : Chan)
      → ops.try_send x c ≡ ok c'
      → (ops.is_closed c ≡ false)
        × (ops.items c' ≡ ops.items c ++ x ∷ [])
        × (ops.capacity c' ≡ ops.capacity c)
  pub recv_items : (c : Chan) → ops.items (ops.recv c) ≡ rest (ops.items c)
  pub recv_capacity : (c : Chan) → ops.capacity (ops.recv c) ≡ ops.capacity c
  pub recv_is_closed : (c : Chan) → ops.is_closed (ops.recv c) ≡ ops.is_closed c
  pub close_is_closed : (c : Chan) → ops.is_closed (ops.close c) ≡ true

pub data Delivery : Type 0 where
  event burst_body burst_end : Delivery

unfoldable pub reserved : Delivery → ℕ
reserved event = 1
reserved burst_body = 2
reserved burst_end = 1

unfoldable pub is_burst_end : Delivery → Bool
is_burst_end event = false
is_burst_end burst_body = false
is_burst_end burst_end = true

-- No room is left besides what is reserved; a channel without a capacity always has room.
unfoldable pub crowded : Option ℕ → ℕ → Bool
crowded none taken = false
crowded (some cap) taken = leb cap taken

unfoldable pub cursor : Option ℕ → ℕ
cursor none = 0
cursor (some n) = n

unfoldable pub skipped_after : ℕ → ℕ → ℕ
skipped_after prev seq = seq - min (prev + 1) u64_max

unfoldable pub filled : ℕ → Delivery → SubUpdate → SubUpdate
unfolding is_burst_end
filled skipped mode u = record {
  topic = u.topic;
  data_bytes = u.data_bytes;
  ts = u.ts;
  skipped = skipped;
  snapshot_end = is_burst_end mode;
}

-- The two maps of a connection.
pub record Sinks (Chan : Type 0) : Type 0 where
  pub subs : Map Chan
  pub last_seq : Map ℕ

-- A sink and its cursor are forgotten.
unfoldable pub pruned : {Chan : Type 0} → Str → Sinks Chan → Sinks Chan
unfolding remove
pruned sub s = record { subs = remove sub s.subs; last_seq = remove sub s.last_seq }

unfoldable pub after_send : {Chan : Type 0} → Str → ℕ → Sinks Chan → Sent Chan → Sinks Chan
unfolding insert pruned
after_send sub seq s (ok tx) = record {
  subs = insert sub tx s.subs;
  last_seq = insert sub seq s.last_seq;
}
after_send sub seq s full = s
after_send sub seq s closed = pruned sub s

module _ {Chan : Type 0} (ops : Channels Chan) where
  unfoldable pub deliver_to :
      Sinks Chan → Str → ℕ → ℕ → SubUpdate → Delivery → Option Chan → Sinks Chan
  unfolding reserved crowded skipped_after filled after_send
  deliver_to s sub prev seq u mode none = s
  deliver_to s sub prev seq u mode (some tx) =
      if crowded (ops.capacity tx) (length (ops.items tx) + reserved mode)
      then s
      else after_send sub (max seq prev) s
          (ops.try_send (update (filled (skipped_after prev seq) mode u)) tx)

  unfoldable pub deliver : Sinks Chan → Str → ℕ → SubUpdate → Delivery → Sinks Chan
  unfolding deliver_to cursor
  deliver s sub seq u mode = deliver_to s sub (cursor (s.last_seq sub)) seq u mode (s.subs sub)

  -- With the answer of the sink, if there is one.
  unfoldable pub end_with :
      Sinks Chan → Str → RpcError → Option Chan → Sinks Chan × Option (Sent Chan)
  unfolding pruned
  end_with s sub e none = (s, none)
  end_with s sub e (some tx) = (pruned sub s, some (ops.try_send (err e) tx))

  unfoldable pub end_sub : Sinks Chan → Str → RpcError → Sinks Chan × Option (Sent Chan)
  unfolding end_with
  end_sub s sub e = end_with s sub e (s.subs sub)

  -- What becomes of the sinks: an update or an end from the server, and a subscriber that takes the
  -- oldest item or goes away.
  pub data Event : Type 0 where
    arrives : Str → ℕ → SubUpdate → Delivery → Event
    ends : Str → RpcError → Event
    takes gone : Str → Event

  unfoldable pub modify : (Chan → Chan) → Str → Option Chan → Sinks Chan → Sinks Chan
  unfolding insert
  modify f sub none s = s
  modify f sub (some c) s = record { subs = insert sub (f c) s.subs; last_seq = s.last_seq }

  -- The oldest item of a channel, as a list.
  unfoldable pub oldest : Option Chan → List Item
  oldest none = []
  oldest (some c) = elim (ops.items c) [ [] ↦ [] | x ∷ xs ↦ x ∷ [] ]

  -- The sinks with what each subscriber has taken.
  pub record World : Type 0 where
    pub sinks : Sinks Chan
    pub got : Str → List Item

  unfoldable pub step : World → Event → World
  unfolding deliver end_sub modify oldest
  step w (arrives sub seq u mode) = record { sinks = deliver w.sinks sub seq u mode; got = w.got }
  step w (ends sub e) = record { sinks = (end_sub w.sinks sub e).0; got = w.got }
  step w (takes sub) = record {
    sinks = modify ops.recv sub (w.sinks.subs sub) w.sinks;
    got = λ x. if str_eq sub x then w.got x ++ oldest (w.sinks.subs x) else w.got x;
  }
  step w (gone sub) = record {
    sinks = modify ops.close sub (w.sinks.subs sub) w.sinks;
    got = w.got;
  }

  unfoldable pub run : World → List Event → World
  unfolding step
  run w [] = w
  run w (e ∷ es) = run (step w e) es
