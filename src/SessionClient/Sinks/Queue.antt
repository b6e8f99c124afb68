-- ===== src/SessionClient/Sinks/Queue.antt =====
-- A bounded queue as a channel of async-channel, for the runs of the tests.
use aimdb.Prelude.{
  ℕ, ◌≡◌, refl, sym, ap, ◌∙◌, List, [], ◌∷◌, ◌++◌, Bool, true, false, some, ltb, length, arith,
}
use aimdb.SessionClient.Sinks.{Item, Sent, ok, full, closed, Channels, HasRoom, rest, ChannelLaws}

pub record Queue : Type 0 where
  pub held : List Item
  pub bound : ℕ
  pub shut : Bool

abbrev pub added : Item → Queue → Queue
added y q = record { held = q.held ++ y ∷ []; bound = q.bound; shut = q.shut }

abbrev pub put_if : Bool → Bool → Item → Queue → Sent Queue
put_if true fits y q = closed
put_if false true y q = ok (added y q)
put_if false false y q = full

abbrev pub put : Item → Queue → Sent Queue
put y q = put_if q.shut (ltb (length q.held) q.bound) y q

abbrev pub queues : Channels Queue
queues = record {
  items = λ q. q.held;
  capacity = λ q. some q.bound;
  is_closed = λ q. q.shut;
  try_send = put;
  recv = λ q. record { held = rest q.held; bound = q.bound; shut = q.shut };
  close = λ q. record { held = []; bound = q.bound; shut = true };
}

put_sends :
    (y : Item) (q : Queue) → q.shut ≡ false → HasRoom queues q → (q' : Queue) × (put y q ≡ ok q')
put_sends y q unshut room =
    let below = room q.bound refl in
    let fits : ltb (length q.held) q.bound ≡ true = ground arith in
    (
      added y q,
      ap (λ b. put_if b (ltb (length q.held) q.bound) y q) unshut
          ∙ ap (λ b. put_if false b y q) fits,
    )

put_if-sent :
    (shut fits : Bool) (y : Item) (q q' : Queue)
    → put_if shut fits y q ≡ ok q'
    → (shut ≡ false) × (q'.held ≡ q.held ++ y ∷ []) × (some q'.bound ≡ some q.bound)
put_if-sent true fits y q q' at = absurd (cc at)
put_if-sent false false y q q' at = absurd (cc at)
put_if-sent false true y q q' at =
    let e : added y q ≡ q' = cc at in
    (refl, ap (λ r. r.held) (sym e), ap (λ r. some r.bound) (sym e))

put_sent :
    (y : Item) (q q' : Queue)
    → put y q ≡ ok q'
    → (q.shut ≡ false) × (q'.held ≡ q.held ++ y ∷ []) × (some q'.bound ≡ some q.bound)
put_sent y q q' at = put_if-sent q.shut (ltb (length q.held) q.bound) y q q' at

pub queue_laws : ChannelLaws queues
queue_laws = record {
  sends = put_sends;
  sent = put_sent;
  recv_items = λ q. refl;
  recv_capacity = λ q. refl;
  recv_is_closed = λ q. refl;
  close_is_closed = λ q. refl;
}
