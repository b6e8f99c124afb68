-- ===== src/SessionClient/Sinks/Accounting.antt =====
-- What the updates of a subscription say of the numbers they skip.
use aimdb.Prelude.{
  ℕ, suc, ◌+◌, ◌≤◌, ◌<◌, max, ◌≡◌, sym, ap, ◌∙◌, subst, List, [], ◌∷◌, ◌++◌, true, false, Option,
  none, some, Bool-cases, inl, inr, Str, str_eq, str_eq→eq, arith, if◌then◌else◌,
}
use aimdb.SessionClient.{u64_max}
use aimdb.SessionClient.Sinks.{
  SubUpdate, Item, err, update, ok, Channels, rest, ChannelLaws, Delivery, World, Event, arrives,
  ends, takes, gone, step, run, cursor, skipped_after, filled, oldest,
}
use aimdb.SessionClient.Sinks.Cases.{deliver-cases, end_sub-cases, modify-cases}

-- An update accounts for its own number and for those it says were skipped.
abbrev pub weight : Item → ℕ
weight (update u) = suc u.skipped
weight (err e) = 0

abbrev pub total : List Item → ℕ
total [] = 0
total (y ∷ ys) = weight y + total ys

total-append : (xs ys : List Item) → total (xs ++ ys) ≡ total xs + total ys
total-append [] ys = omega arith
total-append (x ∷ xs) ys = omega (arith, total-append xs ys)

weight-filled :
    (prev seq : ℕ) (mode : Delivery) (u : SubUpdate)
    → prev < seq
    → seq ≤ u64_max
    → weight (update (filled (skipped_after prev seq) mode u)) + prev ≡ seq
unfolding filled skipped_after
weight-filled prev seq mode u later small = omega arith

first : List Item → List Item
first ys = elim ys [ [] ↦ [] | z ∷ zs ↦ z ∷ [] ]

total-first : (ys : List Item) → total (first ys) + total (rest ys) ≡ total ys
unfolding first
total-first [] = omega arith
total-first (z ∷ zs) = omega arith

module _ {Chan : Type 0} (ops : Channels Chan) (x : Str) where
  -- What was taken and what is in the sink account for every number up to the cursor.
  abbrev pub Accounted : ℕ → List Item → Option Chan → Option ℕ → Type 0
  Accounted bound taken o n =
      (cursor n ≤ bound)
      × ((c : Chan)
          → o ≡ some c
          → ops.is_closed c ≡ false
          → total taken + total (ops.items c) ≡ cursor n)

  Accounted-some :
      (bound : ℕ) (taken : List Item) (c : Chan) (n : Option ℕ)
      → cursor n ≤ bound
      → (ops.is_closed c ≡ false → total taken + total (ops.items c) ≡ cursor n)
      → Accounted bound taken (some c) n
  Accounted-some bound taken c n below h = (
    below,
    λ d is unclosed.
        let e : c ≡ d = cc is in
        subst (λ d. total taken + total (ops.items d) ≡ cursor n) e
          (h (ap ops.is_closed e ∙ unclosed)),
  )

  Accounted-none : (bound : ℕ) (taken : List Item) → Accounted bound taken none none
  unfolding cursor
  Accounted-none bound taken = (omega arith, λ c is. absurd (cc is))

  Accounted-grows :
      (bound bound' : ℕ) (taken : List Item) (o : Option Chan) (n : Option ℕ)
      → bound ≤ bound'
      → Accounted bound taken o n
      → Accounted bound' taken o n
  Accounted-grows bound bound' taken o n more (below, h) = (omega arith, h)

  -- The last number of this subscription after an event.
  abbrev pub last_number : ℕ → Event ops → ℕ
  last_number bound (arrives sub seq u mode) = if str_eq sub x then seq else bound
  last_number bound (ends sub e) = bound
  last_number bound (takes sub) = bound
  last_number bound (gone sub) = bound

  abbrev pub Next : ℕ → Event ops → Type 0
  Next bound (arrives sub seq u mode) = (str_eq sub x ≡ true → bound < seq) × (seq ≤ u64_max)
  Next bound (ends sub e) = Unit
  Next bound (takes sub) = Unit
  Next bound (gone sub) = Unit

  -- The numbers of the updates of this subscription increase, the first of them beyond the bound.
  abbrev pub Increasing : ℕ → List (Event ops) → Type 0
  Increasing bound [] = Unit
  Increasing bound (e ∷ es) = Next bound e × Increasing (last_number bound e) es

  abbrev pub IsAccounted : ℕ → World ops → Type 0
  IsAccounted bound w = Accounted bound (w.got x) (w.sinks.subs x) (w.sinks.last_seq x)

  abbrev pub final_number : ℕ → List (Event ops) → ℕ
  final_number bound [] = bound
  final_number bound (e ∷ es) = final_number (last_number bound e) es

  module _ (laws : ChannelLaws ops) where
    Accounted-sent :
        (bound : ℕ) (taken : List Item) (c c' : Chan) (prev seq : ℕ) (u : SubUpdate)
        (mode : Delivery)
        → prev < seq
        → seq ≤ u64_max
        → ops.try_send (update (filled (skipped_after prev seq) mode u)) c ≡ ok c'
        → (ops.is_closed c ≡ false → total taken + total (ops.items c) ≡ prev)
        → Accounted seq taken (some c') (some (max seq prev))
    unfolding cursor
    Accounted-sent bound taken c c' prev seq u mode later small at before =
        let (unclosed, content, size) = laws.sent _ c c' at in
        let y : Item = update (filled (skipped_after prev seq) mode u) in
        Accounted-some seq taken c' (some (max seq prev)) (omega arith) (λ still.
          let all = ap total content ∙ total-append (ops.items c) (y ∷ []) in
          omega (arith, all, before unclosed, weight-filled prev seq mode u later small))

    total-oldest :
        (o : Option Chan) (c : Chan)
        → o ≡ some c
        → total (oldest ops o) + total (rest (ops.items c)) ≡ total (ops.items c)
    unfolding oldest first
    total-oldest o c is = rw is (total-first (ops.items c))

    taken_count :
        (taken : List Item) (o : Option Chan) (c : Chan) (n : ℕ)
        → o ≡ some c
        → total taken + total (ops.items c) ≡ n
        → total (taken ++ oldest ops o) + total (ops.items (ops.recv c)) ≡ n
    taken_count taken o c n is before =
        let left = ap total (laws.recv_items c) in
        omega (arith, total-oldest o c is, total-append taken (oldest ops o))

    abbrev taken_now : World ops → Str → List Item
    taken_now w sub = if str_eq sub x then w.got x ++ oldest ops (w.sinks.subs x) else w.got x

    IsAccounted-takes :
        (w : World ops) (sub : Str) (bound : ℕ)
        → IsAccounted bound w
        → IsAccounted bound (step ops w (takes sub))
    unfolding step
    IsAccounted-takes w sub bound before =
        modify-cases ops x (Accounted bound (taken_now w sub)) ops.recv sub (w.sinks.subs sub)
          w.sinks (λ other. rw other before)
          (λ absent. elim (Bool-cases (str_eq sub x)) [
            | inl here ↦
                (before.0, λ c at. absurd (cc (at, ap w.sinks.subs (str_eq→eq sub x here), absent)))
            | inr other ↦ rw other before
          ])
          (λ c here at.
            let is = ap w.sinks.subs (sym (str_eq→eq sub x here)) ∙ at in
            Accounted-some bound (taken_now w sub) (ops.recv c) (w.sinks.last_seq x) before.0
              (λ unclosed. rw here (
                taken_count (w.got x) (w.sinks.subs x) c (cursor (w.sinks.last_seq x)) is
                  (before.1 c is (sym (laws.recv_is_closed c) ∙ unclosed)))))

    step-IsAccounted :
        (w : World ops) (e : Event ops) (bound : ℕ)
        → Next bound e
        → IsAccounted bound w
        → IsAccounted (last_number bound e) (step ops w e)
    unfolding step
    step-IsAccounted w (arrives sub seq u mode) bound (later, small) before =
        deliver-cases ops x (Accounted (last_number bound (arrives sub seq u mode)) (w.got x))
          w.sinks sub seq u mode
          (Accounted-grows bound _ (w.got x) _ (w.sinks.last_seq x) (ground arith) before)
          (Accounted-none _ (w.got x))
          (λ c c' here at free sent.
            let as_x = ap (λ y. cursor (w.sinks.last_seq y)) (str_eq→eq sub x here) in
            let is = ap w.sinks.subs (sym (str_eq→eq sub x here)) ∙ at in
            rw here (
              Accounted-sent seq (w.got x) c c' (cursor (w.sinks.last_seq sub)) seq u mode
                (omega (arith, later here, before.0)) small sent
                (λ unclosed. before.1 c is unclosed ∙ sym as_x)))
    step-IsAccounted w (ends sub e) bound next before =
        end_sub-cases ops x (Accounted bound (w.got x)) w.sinks sub e before
          (Accounted-none bound (w.got x))
    step-IsAccounted w (takes sub) bound next before = IsAccounted-takes w sub bound before
    step-IsAccounted w (gone sub) bound next before =
        modify-cases ops x (Accounted bound (w.got x)) ops.close sub (w.sinks.subs sub) w.sinks
          (λ other. before) (λ absent. before)
          (λ c here at.
            Accounted-some bound (w.got x) (ops.close c) (w.sinks.last_seq x) before.0
              (λ unclosed. absurd (cc (unclosed, laws.close_is_closed c))))

    pub run-IsAccounted :
        (w : World ops) (es : List (Event ops)) (bound : ℕ)
        → Increasing bound es
        → IsAccounted bound w
        → IsAccounted (final_number bound es) (run ops w es)
    unfolding run
    run-IsAccounted w [] bound inc before = before
    run-IsAccounted w (e ∷ es) bound (next, inc) before =
        run-IsAccounted (step ops w e) es (last_number bound e) inc
          (step-IsAccounted w e bound next before)

    -- From sinks in which what a subscriber took and what waits for it account for every number up to
    -- the cursor, they still do after any run, the subscriber being there and the numbers of its updates
    -- increasing.
    pub run_accounts :
        (w : World ops) (es : List (Event ops)) (bound : ℕ) (c : Chan)
        → Increasing bound es
        → Accounted bound (w.got x) (w.sinks.subs x) (w.sinks.last_seq x)
        → (run ops w es).sinks.subs x ≡ some c
        → ops.is_closed c ≡ false
        → total ((run ops w es).got x) + total (ops.items c)
          ≡ cursor ((run ops w es).sinks.last_seq x)
    run_accounts w es bound c inc before at unclosed =
        (run-IsAccounted w es bound inc before).1 c at unclosed
