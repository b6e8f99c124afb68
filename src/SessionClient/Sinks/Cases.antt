-- ===== src/SessionClient/Sinks/Cases.antt =====
-- What one call of deliver does to the maps at one subscription.
use aimdb.Prelude.{
  ℕ, ◌+◌, max, ◌≡◌, refl, true, false, Option, none, some, Bool-cases, inl, inr, Str, str_eq,
  length,
}
use aimdb.SessionClient.Sinks.{
  insert, remove, SubUpdate, update, Sent, ok, full, closed, Channels, Delivery, reserved, crowded,
  cursor, skipped_after, filled, Sinks, pruned, after_send, deliver_to, deliver, RpcError, end_with,
  end_sub, modify,
}

module _ {Chan : Type 0} (ops : Channels Chan) (x : Str) (P : Option Chan → Option ℕ → Type 0) where
  after_send-cases :
      (s : Sinks Chan) (sub : Str) (n : ℕ) (r : Sent Chan)
      → P (s.subs x) (s.last_seq x)
      → P none none
      → ((c : Chan) → str_eq sub x ≡ true → r ≡ ok c → P (some c) (some n))
      → P ((after_send sub n s r).subs x) ((after_send sub n s r).last_seq x)
  unfolding after_send pruned insert remove
  after_send-cases s sub n full same gone h = same
  after_send-cases s sub n closed same gone h = elim (Bool-cases (str_eq sub x)) [
    | inl e ↦ rw e gone
    | inr e ↦ rw e same
  ]
  after_send-cases s sub n (ok c) same gone h = elim (Bool-cases (str_eq sub x)) [
    | inl e ↦ rw e (h c e refl)
    | inr e ↦ rw e same
  ]

  deliver_to-cases :
      (s : Sinks Chan) (sub : Str) (prev seq : ℕ) (u : SubUpdate) (mode : Delivery)
      (o : Option Chan)
      → P (s.subs x) (s.last_seq x)
      → P none none
      → ((c c' : Chan)
          → str_eq sub x ≡ true
          → o ≡ some c
          → crowded (ops.capacity c) (length (ops.items c) + reserved mode) ≡ false
          → ops.try_send (update (filled (skipped_after prev seq) mode u)) c ≡ ok c'
          → P (some c') (some (max seq prev)))
      → P
          ((deliver_to ops s sub prev seq u mode o).subs x)
          ((deliver_to ops s sub prev seq u mode o).last_seq x)
  unfolding deliver_to
  deliver_to-cases s sub prev seq u mode none same gone h = same
  deliver_to-cases s sub prev seq u mode (some c) same gone h =
      elim (Bool-cases (crowded (ops.capacity c) (length (ops.items c) + reserved mode))) [
        | inl e ↦ rw e same
        | inr e ↦ rw e (
            after_send-cases s sub (max seq prev)
              (ops.try_send (update (filled (skipped_after prev seq) mode u)) c) same gone
              (λ c' is at. h c c' is refl e at))
      ]

  pub deliver-cases :
      (s : Sinks Chan) (sub : Str) (seq : ℕ) (u : SubUpdate) (mode : Delivery)
      → P (s.subs x) (s.last_seq x)
      → P none none
      → ((c c' : Chan)
          → str_eq sub x ≡ true
          → s.subs sub ≡ some c
          → crowded (ops.capacity c) (length (ops.items c) + reserved mode) ≡ false
          → ops.try_send (update (filled (skipped_after (cursor (s.last_seq sub)) seq) mode u)) c
            ≡ ok c'
          → P (some c') (some (max seq (cursor (s.last_seq sub)))))
      → P ((deliver ops s sub seq u mode).subs x) ((deliver ops s sub seq u mode).last_seq x)
  unfolding deliver
  deliver-cases s sub seq u mode same gone h =
      deliver_to-cases s sub (cursor (s.last_seq sub)) seq u mode (s.subs sub) same gone h

  end_with-cases :
      (s : Sinks Chan) (sub : Str) (e : RpcError) (o : Option Chan)
      → P (s.subs x) (s.last_seq x)
      → P none none
      → P ((end_with ops s sub e o).0.subs x) ((end_with ops s sub e o).0.last_seq x)
  unfolding end_with pruned remove
  end_with-cases s sub e none same gone = same
  end_with-cases s sub e (some c) same gone = elim (Bool-cases (str_eq sub x)) [
    | inl is ↦ rw is gone
    | inr is ↦ rw is same
  ]

  pub end_sub-cases :
      (s : Sinks Chan) (sub : Str) (e : RpcError)
      → P (s.subs x) (s.last_seq x)
      → P none none
      → P ((end_sub ops s sub e).0.subs x) ((end_sub ops s sub e).0.last_seq x)
  unfolding end_sub
  end_sub-cases s sub e same gone = end_with-cases s sub e (s.subs sub) same gone

  pub modify-cases :
      (f : Chan → Chan) (sub : Str) (o : Option Chan) (s : Sinks Chan)
      → (str_eq sub x ≡ false → P (s.subs x) (s.last_seq x))
      → (o ≡ none → P (s.subs x) (s.last_seq x))
      → ((c : Chan) → str_eq sub x ≡ true → o ≡ some c → P (some (f c)) (s.last_seq x))
      → P ((modify ops f sub o s).subs x) ((modify ops f sub o s).last_seq x)
  unfolding modify insert
  modify-cases f sub none s other absent h = absent refl
  modify-cases f sub (some c) s other absent h = elim (Bool-cases (str_eq sub x)) [
    | inl is ↦ rw is (h c is refl)
    | inr is ↦ rw is (other is)
  ]
