-- ===== src/SessionClient/Sinks/Room.antt =====
-- The last slot of a sink is kept for the error that ends its subscription.
use aimdb.Prelude.{
  ℕ, ◌+◌, ◌≤◌, ◌<◌, ◌≡◌, sym, ap, subst, ◌∙◌, List, [], ◌∷◌, ◌++◌, false, Option, some, Str,
  str_eq→eq, length, length-append, arith,
}
use aimdb.SessionClient.Sinks.{
  RpcError, Item, err, Sent, ok, Channels, HasRoom, rest, ChannelLaws, reserved, Delivery, event,
  burst_body, burst_end, crowded, Sinks, World, Event, arrives, ends, takes, gone, step, run,
  end_with, end_sub,
}
use aimdb.SessionClient.Sinks.Cases.{deliver-cases, end_sub-cases, modify-cases}

reserved-pos : (mode : Delivery) → 1 ≤ reserved mode
unfolding reserved
reserved-pos event = omega arith
reserved-pos burst_body = omega arith
reserved-pos burst_end = omega arith

uncrowded : (cap taken : ℕ) → crowded (some cap) taken ≡ false → taken < cap
unfolding crowded
uncrowded cap taken free = ground arith

length-rest : {A : Type 0} (xs : List A) → length (rest xs) ≤ length xs
length-rest [] = omega arith
length-rest (x ∷ xs) = omega arith

module _ {Chan : Type 0} (ops : Channels Chan) where
  -- A sink whose subscriber is there has room.
  abbrev pub Spare : Option Chan → Type 0
  Spare o = (c : Chan) → o ≡ some c → ops.is_closed c ≡ false → HasRoom ops c

  -- The error is the last item that the subscriber finds.
  pub Told : RpcError → Chan → Sinks Chan × Option (Sent Chan) → Type 0
  Told e c (s, answer) =
      (c' : Chan) × (answer ≡ some (ok c')) × (ops.items c' ≡ ops.items c ++ err e ∷ [])

  module _ (laws : ChannelLaws ops) where
    HasRoom-sent :
        (y : Item) (c c' : Chan) (mode : Delivery)
        → crowded (ops.capacity c) (length (ops.items c) + reserved mode) ≡ false
        → ops.try_send y c ≡ ok c'
        → HasRoom ops c'
    HasRoom-sent y c c' mode free at cap is =
        let (unclosed, content, size) = laws.sent y c c' at in
        let before : ops.capacity c ≡ some cap = sym size ∙ is in
        let room =
          uncrowded cap (length (ops.items c) + reserved mode)
            (ap (λ o. crowded o (length (ops.items c) + reserved mode)) (sym before) ∙ free) in
        let longer : length (ops.items c') ≡ length (ops.items c) + 1 =
          ap length content ∙ length-append (ops.items c) (y ∷ []) in
        omega (arith, reserved-pos mode)

    Spare-some : (c : Chan) → (ops.is_closed c ≡ false → HasRoom ops c) → Spare (some c)
    Spare-some c h d is unclosed =
        let e : c ≡ d = cc is in subst (HasRoom ops) e (h (ap ops.is_closed e ∙ unclosed))

    HasRoom-recv : (c : Chan) → HasRoom ops c → HasRoom ops (ops.recv c)
    HasRoom-recv c room cap is =
        let below = room cap (sym (laws.recv_capacity c) ∙ is) in
        let content = ap length (laws.recv_items c) in omega (arith, length-rest (ops.items c))

    step-Spare :
        (w : World ops) (e : Event ops) (x : Str)
        → Spare (w.sinks.subs x)
        → Spare ((step ops w e).sinks.subs x)
    unfolding step
    step-Spare w (arrives sub seq u mode) x before =
        deliver-cases ops x (λ o n. Spare o) w.sinks sub seq u mode before (λ c is. absurd (cc is))
          (λ c c' here at free sent. Spare-some c' (λ unclosed. HasRoom-sent _ c c' mode free sent))
    step-Spare w (ends sub e) x before =
        end_sub-cases ops x (λ o n. Spare o) w.sinks sub e before (λ c is. absurd (cc is))
    step-Spare w (takes sub) x before =
        modify-cases ops x (λ o n. Spare o) ops.recv sub (w.sinks.subs sub) w.sinks
          (λ other. before) (λ absent. before)
          (λ c here at. Spare-some (ops.recv c) (λ unclosed. HasRoom-recv c (
            before c (ap w.sinks.subs (sym (str_eq→eq sub x here)) ∙ at)
              (sym (laws.recv_is_closed c) ∙ unclosed))))
    step-Spare w (gone sub) x before =
        modify-cases ops x (λ o n. Spare o) ops.close sub (w.sinks.subs sub) w.sinks
          (λ other. before) (λ absent. before)
          (λ c here at.
            Spare-some (ops.close c) (λ unclosed. absurd (cc (unclosed, laws.close_is_closed c))))

    pub run-Spare :
        (w : World ops) (es : List (Event ops)) (x : Str)
        → Spare (w.sinks.subs x)
        → Spare ((run ops w es).sinks.subs x)
    unfolding run
    run-Spare w [] x before = before
    run-Spare w (e ∷ es) x before = run-Spare (step ops w e) es x (step-Spare w e x before)

    end_with-Told :
        (s : Sinks Chan) (x : Str) (e : RpcError) (c : Chan)
        → ops.is_closed c ≡ false
        → HasRoom ops c
        → Told e c (end_with ops s x e (some c))
    unfolding end_with Told
    end_with-Told s x e c unclosed room =
        let (c', at) = laws.sends (err e) c unclosed room in
        let (was, content, size) = laws.sent (err e) c c' at in (c', ap some at, content)

    -- After any run that begins with a subscription whose sink has room, ending it while the subscriber is
    -- there puts the error behind everything the sink holds.
    pub end_sub_tells :
        (w : World ops) (es : List (Event ops)) (x : Str) (e : RpcError) (c : Chan)
        → Spare (w.sinks.subs x)
        → (run ops w es).sinks.subs x ≡ some c
        → ops.is_closed c ≡ false
        → Told e c (end_sub ops (run ops w es).sinks x e)
    unfolding end_sub
    end_sub_tells w es x e c before at unclosed =
        subst (λ o. Told e c (end_with ops (run ops w es).sinks x e o)) (sym at)
          (end_with-Told (run ops w es).sinks x e c unclosed
            (run-Spare w es x before c at unclosed))
