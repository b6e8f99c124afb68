-- ===== src/SessionServer/Delivered.antt =====
-- The two ends of a subscription together: the frames of aimdb-core/src/session/server.rs, taken by
-- drive_connection of aimdb-core/src/session/client.rs in their order.
use native.Mathlib.Decide.{dec_le}
use mathlib.Core.List.{Memᴰ}
use aimdb.Prelude.{
  All, All-imp, max, none, Option, str_eq→eq, ℕ, ◌+◌, ◌≤◌, ◌≡◌, refl, sym, ap, ◌∙◌, subst,
  str_eq_refl, ◌<◌, ◌⊎◌, List, [], ◌∷◌, Bool, true, false, some, if◌then◌else◌, inl, inr, length,
  arith, Str, str_eq,
}
use aimdb.SessionClient.{u64_max}
use aimdb.SessionClient.Sinks.{
  Channels, ChannelLaws, SubUpdate, Delivery, event, burst_body, burst_end, World, Event, arrives,
  ends, takes, gone, run, step, cursor,
}
use aimdb.SessionClient.Sinks.Cases.{deliver-cases, end_sub-cases, modify-cases}
use aimdb.SessionClient.Sinks.Accounting.{
  total, Increasing, Accounted, final_number, run-IsAccounted,
}
use aimdb.SessionServer.{Snapshot, Outbound, snapshot, Pumped, subscription}
use aimdb.SessionServer.Numbered.{number, Ascends, produced}
use aimdb.SessionServer.Placed.{IsPlaced, subscription-IsPlaced}

-- The subscriber knows of these many records: none yet, or all up to and with the one that some frame sent
-- tells of.
abbrev pub Known : List Snapshot → List Pumped → List Outbound → ℕ → Type 0
Known snaps steps frames n =
    (n ≡ 0) ⊎ ((f : Outbound) × (IsPlaced snaps steps f × Memᴰ f frames) × (n ≡ number f))

All-both :
    (P Q : Outbound → Type 0) (fs : List Outbound) → All P fs → All Q fs → All (λ f. P f × Q f) fs
All-both P Q [] ps qs = tt
All-both P Q (f ∷ fs) (p, ps) (q, qs) = ((p, q), All-both P Q fs ps qs)

All-members : (fs : List Outbound) → All (λ f. Memᴰ f fs) fs
All-members [] = tt
All-members (f ∷ fs) = (Memᴰ.head refl, All-imp _ _ fs (λ g m. Memᴰ.tail m) (All-members fs))

module _ {Chan : Type 0} (ops : Channels Chan) (x : Str) where
  -- What drive_connection makes of a frame of this subscription.
  unfoldable pub arrival : Outbound → Event ops
  arrival (snapshot seq last snap) =
      arrives x seq
        (record {
          topic = some snap.snap_topic;
          data_bytes = snap.data_bytes;
          ts = snap.ts;
          skipped = 0;
          snapshot_end = false;
        })
        (if last then burst_end else burst_body)
  arrival (Outbound.event seq topic ts data_bytes) =
      arrives x seq
        (record {
          topic = topic;
          data_bytes = data_bytes;
          ts = ts;
          skipped = 0;
          snapshot_end = false;
        })
        event

  -- The updates of this subscription are these frames, or the first of them, in their order.
  abbrev pub Takes : List Outbound → List (Event ops) → Type 0
  Takes fs [] = Unit
  Takes fs (arrives sub seq u mode ∷ es) =
      ((f : Outbound) × (fs' : List Outbound) × (fs ≡ f ∷ fs')
        × (arrives sub seq u mode ≡ arrival f)
        × Takes fs' es)
      ⊎ ((str_eq sub x ≡ false) × (seq ≤ u64_max) × Takes fs es)
  Takes fs (ends sub e ∷ es) = Takes fs es
  Takes fs (takes sub ∷ es) = Takes fs es
  Takes fs (gone sub ∷ es) = Takes fs es

  abbrev event_number : Event ops → ℕ
  event_number (arrives sub seq u mode) = seq
  event_number (ends sub e) = 0
  event_number (takes sub) = 0
  event_number (gone sub) = 0

  number-arrival : (f : Outbound) → event_number (arrival f) ≡ number f
  unfolding arrival
  number-arrival (snapshot seq last snap) = refl
  number-arrival (Outbound.event seq topic ts data_bytes) = refl

  abbrev event_sub : Event ops → Str
  event_sub (arrives sub seq u mode) = sub
  event_sub (ends sub e) = sub
  event_sub (takes sub) = sub
  event_sub (gone sub) = sub

  sub-arrival : (f : Outbound) → event_sub (arrival f) ≡ x
  unfolding arrival
  sub-arrival (snapshot seq last snap) = refl
  sub-arrival (Outbound.event seq topic ts data_bytes) = refl

  -- The numbers taken, as run_accounts wants them, and how far they go.
  Followed : ℕ → ℕ → List (Event ops) → Type 0
  Followed low high es = Increasing ops x low es × (final_number ops x low es ≤ high)

  Followed-next :
      (low high : ℕ) (sub : Str) (seq : ℕ) (u : SubUpdate) (mode : Delivery) (es : List (Event ops))
      → low < seq
      → seq ≤ u64_max
      → str_eq sub x ≡ true
      → Followed seq high es
      → Followed low high (arrives sub seq u mode ∷ es)
  unfolding Followed
  Followed-next low high sub seq u mode es above small here (inc, end) =
      rw here (((λ e. above, small), inc), end)

  Followed-other :
      (low high : ℕ) (sub : Str) (seq : ℕ) (u : SubUpdate) (mode : Delivery) (es : List (Event ops))
      → seq ≤ u64_max
      → str_eq sub x ≡ false
      → Followed low high es
      → Followed low high (arrives sub seq u mode ∷ es)
  unfolding Followed
  Followed-other low high sub seq u mode es small other (inc, end) =
      rw other (((λ e. absurd (cc e), small), inc), end)

  follow :
      (low high : ℕ) (fs : List Outbound) (es : List (Event ops))
      → low ≤ high
      → high ≤ u64_max
      → Ascends low high fs
      → Takes fs es
      → Followed low high es
  unfolding Followed
  follow low high fs [] le small all taken = (tt, le)
  follow low high fs (ends sub e ∷ es) le small all taken =
      let (inc, end) = follow low high fs es le small all taken in ((tt, inc), end)
  follow low high fs (takes sub ∷ es) le small all taken =
      let (inc, end) = follow low high fs es le small all taken in ((tt, inc), end)
  follow low high fs (gone sub ∷ es) le small all taken =
      let (inc, end) = follow low high fs es le small all taken in ((tt, inc), end)
  follow low high fs (arrives sub seq u mode ∷ es) le small all (inl (f, fs', is, same, taken)) =
      let (above, below, rest) = subst (Ascends low high) is all in
      let n : seq ≡ number f = ap event_number same ∙ number-arrival f in
      let here : str_eq sub x ≡ true =
        ap (λ y. str_eq y x) (ap event_sub same ∙ sub-arrival f) ∙ str_eq_refl x in
      Followed-next low high sub seq u mode es (omega arith) (omega arith) here (
        follow seq high fs' es (omega arith) small (subst (λ m. Ascends m high fs') (sym n) rest)
          taken)
  follow low high fs (arrives sub seq u mode ∷ es) le small all (inr (other, bound, taken)) =
      Followed-other low high sub seq u mode es bound other
        (follow low high fs es le small all taken)

  -- Nothing was delivered, or the last number is one of the frames sent.
  Reached : (Outbound → Type 0) → Option Chan → Option ℕ → Type 0
  Reached Q o n = (cursor n ≡ 0) ⊎ ((f : Outbound) × Q f × (cursor n ≡ number f))

  Reached-none : (Q : Outbound → Type 0) → Reached Q none none
  unfolding Reached cursor
  Reached-none Q = inl refl

  Reached-max :
      (Q : Outbound → Type 0) (f : Outbound) (seq prev : ℕ) (o o' : Option Chan) (n : Option ℕ)
      → Q f
      → seq ≡ number f
      → prev ≡ cursor n
      → Reached Q o n
      → Reached Q o' (some (max seq prev))
  unfolding Reached cursor
  Reached-max Q f seq prev o o' n placed is at before = elim (dec_le prev seq) [
    | yes newer ↦ inr (f, placed, omega arith)
    | no older ↦ elim before [
      | inl none_yet ↦ absurd (omega arith)
      | inr (g, placed', same) ↦ inr (g, placed', omega arith)
    ]
  ]

  kept :
      (Q : Outbound → Type 0) (o o' : Option Chan) (n : Option ℕ) → Reached Q o n → Reached Q o' n
  unfolding Reached
  kept Q o o' n before = before

  reaches :
      (Q : Outbound → Type 0) (fs : List Outbound) (w : World ops) (es : List (Event ops))
      → All Q fs
      → Takes fs es
      → Reached Q (w.sinks.subs x) (w.sinks.last_seq x)
      → Reached Q ((run ops w es).sinks.subs x) ((run ops w es).sinks.last_seq x)
  unfolding run step
  reaches Q fs w [] all taken before = before
  reaches Q fs w (ends sub e ∷ es) all taken before =
      reaches Q fs (step ops w (ends sub e)) es all taken
        (end_sub-cases ops x (Reached Q) w.sinks sub e before (Reached-none Q))
  reaches Q fs w (takes sub ∷ es) all taken before =
      reaches Q fs (step ops w (takes sub)) es all taken (
        modify-cases ops x (Reached Q) ops.recv sub (w.sinks.subs sub) w.sinks (λ other. before)
          (λ absent. before)
          (λ c here at. kept Q (w.sinks.subs x) (some (ops.recv c)) (w.sinks.last_seq x) before))
  reaches Q fs w (gone sub ∷ es) all taken before =
      reaches Q fs (step ops w (gone sub)) es all taken (
        modify-cases ops x (Reached Q) ops.close sub (w.sinks.subs sub) w.sinks (λ other. before)
          (λ absent. before)
          (λ c here at. kept Q (w.sinks.subs x) (some (ops.close c)) (w.sinks.last_seq x) before))
  reaches Q fs w (arrives sub seq u mode ∷ es) all (inl (f, fs', is, same, taken)) before =
      let (placed, rest) = subst (All Q) is all in
      let n : seq ≡ number f = ap event_number same ∙ number-arrival f in
      reaches Q fs' (step ops w (arrives sub seq u mode)) es rest taken (
        deliver-cases ops x (Reached Q) w.sinks sub seq u mode before (Reached-none Q)
          (λ c c' here at free sent.
            Reached-max Q f seq (cursor (w.sinks.last_seq sub)) (w.sinks.subs x) (some c')
              (w.sinks.last_seq x) placed n
              (ap (λ y. cursor (w.sinks.last_seq y)) (str_eq→eq sub x here)) before))
  reaches Q fs w (arrives sub seq u mode ∷ es) all (inr (other, bound, taken)) before =
      reaches Q fs (step ops w (arrives sub seq u mode)) es all taken (
        deliver-cases ops x (Reached Q) w.sinks sub seq u mode before (Reached-none Q)
          (λ c c' here at free sent. absurd (cc (here, other))))

  -- The two ends of a subscription whose numbers fit 64 bits and whose sink is open and accounted for up to 0,
  -- while the client takes the frames in their order: what the subscriber took and has waiting, with what it is
  -- told was skipped, is nothing, or makes exactly the number of all records, snapshots and values, that were
  -- produced up to and with the one that a frame sent tells of, whatever did not encode, was dropped by the
  -- funnel or found no room.
  pub subscription_accounts :
      (laws : ChannelLaws ops)
      → (encodes sends : Outbound → Bool) (snaps : List Snapshot) (steps : List Pumped)
      → (w : World ops) (es : List (Event ops)) (c : Chan) → length snaps + produced steps ≤ u64_max
      → Takes (subscription encodes sends snaps steps) es
      → Accounted ops x 0 (w.got x) (w.sinks.subs x) (w.sinks.last_seq x)
      → (run ops w es).sinks.subs x ≡ some c
      → ops.is_closed c ≡ false
      → Known snaps steps
          (subscription encodes sends snaps steps)
          (total ((run ops w es).got x) + total (ops.items c))
  unfolding Followed Reached
  subscription_accounts laws encodes sends snaps steps w es c small taken before at unclosed =
      let (placed, ascends) = subscription-IsPlaced encodes sends snaps steps small in
      let (inc, end) =
        follow 0 (length snaps + produced steps) (subscription encodes sends snaps steps) es
          (omega arith) small ascends taken in
      let (low, sums) = run-IsAccounted ops x laws w es 0 inc before in
      let frames = subscription encodes sends snaps steps in
      subst (Known snaps steps frames) (sym (sums c at unclosed)) (
        reaches (λ f. IsPlaced snaps steps f × Memᴰ f frames) frames w es
          (All-both (IsPlaced snaps steps) (λ f. Memᴰ f frames) frames placed (All-members frames))
          taken (inl (omega (arith, before.0))))
