-- ===== src/Tunnel/Inbound/Sessions.antt =====
-- What a run of datagrams makes a connected engine of tunnel.rs do.
use aimdb.Prelude.{
  ℕ, ◌≡◌, refl, sym, ap, subst, ◌∙◌, ◌⊎◌, List, [], ◌∷◌, ◌++◌, append_assoc, append-nil, Bool, true,
  false, Option, none, some, Str, inl, inr,
}
use aimdb.Tunnel.{
  add_ms, Action, send, telegram, reset_socket, ServiceType, connect_response, tunnelling_ack,
  tunnelling_request, connectionstate_response, other, Knx, IndexMap, ChannelState, backoff,
  connected, TunnelEngine,
}
use aimdb.Tunnel.Cemi.{parse_telegram}
use aimdb.Tunnel.Engine.{backed_off, handle_socket_error}
use aimdb.Tunnel.Inbound.{
  acked, on_ack, on_telegram, on_request, on_state_response, on_frame, in_phase, handle_datagram,
}

abbrev telegrams : Option (ℕ × Str) → List Action
telegrams none = []
telegrams (some (addr, payload)) = telegram addr payload ∷ []

-- A datagram, and when it comes.
abbrev pub Arrived : Type 0
Arrived = Str × ℕ

module _ (knx : Knx) where
  abbrev request_answers : ℕ → Option (ℕ × Str) → List Action
  request_answers channel none = []
  request_answers channel (some (seq, cemi)) =
      send (knx.tunneling_ack channel seq) none ∷ telegrams (parse_telegram knx cemi)

  abbrev frame_answers : ℕ → Option (ServiceType × Str) → List Action
  frame_answers channel (some (tunnelling_request, body)) =
      request_answers channel (knx.parse_request body)
  frame_answers channel _ = []

  -- What the datagrams ask of an engine that is connected on this channel: for each request its
  -- acknowledgement, and right behind it the telegram, if it can be read.
  abbrev pub answers : ℕ → List Arrived → List Action
  answers channel [] = []
  answers channel (d ∷ ds) = frame_answers channel (knx.parse_frame d.0) ++ answers channel ds

  -- The gateway says that the connection is lost.
  abbrev pub Refuses : Str → Type 0
  Refuses bytes =
      (body : Str) × (knx.parse_frame bytes ≡ some (connectionstate_response, body))
      × (knx.parse_state_response body ≡ some false)

module _ {M : Type 0} (knx : Knx) (map : IndexMap M) where
  abbrev pub handle_all : TunnelEngine M → List Arrived → TunnelEngine M
  handle_all e [] = e
  handle_all e (d ∷ ds) = handle_all (handle_datagram knx map e d.0 d.1) ds

  abbrev Stays : TunnelEngine M → ℕ → List Action → TunnelEngine M → Type 0
  Stays e channel asked e' =
      ((t : ChannelState M) × (e'.phase ≡ connected t) × (t.channel_id ≡ channel))
      × (e'.cfg ≡ e.cfg)
      × (e'.actions ≡ e.actions ++ asked)

  abbrev Leaves : TunnelEngine M → ℕ → TunnelEngine M → Type 0
  Leaves e now e' =
      (e'.phase ≡ backoff (add_ms now e.cfg.reconnect_backoff_ms))
      × (e'.actions ≡ e.actions ++ (reset_socket ∷ []))

  same :
      (e : TunnelEngine M) (s : ChannelState M) → e.phase ≡ connected s → Stays e s.channel_id [] e
  same e s eq = ((s, eq, refl), refl, sym (append-nil e.actions))

  ack-Stays :
      (e : TunnelEngine M) (s : ChannelState M) (o : Option ℕ)
      → e.phase ≡ connected s
      → Stays e s.channel_id [] (on_ack knx map e s o)
  unfolding on_ack
  ack-Stays e s none eq = same e s eq
  ack-Stays e s (some seq) eq = (
    (record s { pending_acks = map.remove s.pending_acks seq }, refl, refl),
    refl,
    sym (append-nil e.actions),
  )

  telegram-Stays :
      (e e' : TunnelEngine M) (s : ChannelState M) (asked : List Action) (o : Option (ℕ × Str))
      → Stays e s.channel_id asked e'
      → Stays e s.channel_id (asked ++ telegrams o) (on_telegram knx map e' o)
  unfolding on_telegram
  telegram-Stays e e' s asked none (open_on, cfg, acts) =
      (open_on, cfg, acts ∙ ap (λ r. e.actions ++ r) (sym (append-nil asked)))
  telegram-Stays e e' s asked (some (addr, payload)) (open_on, cfg, acts) = (
    open_on,
    cfg,
    ap (λ r. r ++ (telegram addr payload ∷ [])) acts
        ∙ append_assoc e.actions asked (telegram addr payload ∷ []),
  )

  request-Stays :
      (e : TunnelEngine M) (s : ChannelState M) (o : Option (ℕ × Str))
      → e.phase ≡ connected s
      → Stays e s.channel_id (request_answers knx s.channel_id o) (on_request knx map e s o)
  unfolding on_request
  request-Stays e s none eq = same e s eq
  request-Stays e s (some (seq, cemi)) eq =
      telegram-Stays e _ s (send (knx.tunneling_ack s.channel_id seq) none ∷ [])
        (parse_telegram knx cemi) ((s, eq, refl), refl, refl)

  -- One datagram.
  abbrev Handled : TunnelEngine M → ChannelState M → Arrived → TunnelEngine M → Type 0
  Handled e s d e' =
      Stays e s.channel_id (frame_answers knx s.channel_id (knx.parse_frame d.0)) e'
      ⊎ (Refuses knx d.0 × Leaves e d.1 e')

  framed : TunnelEngine M → ChannelState M → ℕ → Option (ServiceType × Str) → TunnelEngine M
  framed e s now o = elim o [
    | none ↦ e
    | some (service, body) ↦ on_frame knx map e s now service body
  ]

  state-Handled :
      (e : TunnelEngine M) (s : ChannelState M) (d : Arrived) (body : Str) (o : Option Bool)
      → e.phase ≡ connected s
      → knx.parse_frame d.0 ≡ some (connectionstate_response, body)
      → knx.parse_state_response body ≡ o
      → Stays e s.channel_id [] (on_state_response knx map e s d.1 o)
        ⊎ (Refuses knx d.0 × Leaves e d.1 (on_state_response knx map e s d.1 o))
  unfolding on_state_response handle_socket_error
  state-Handled e s d body none eq frame at = inl (same e s eq)
  state-Handled e s d body (some true) eq frame at =
      inl (
        (record s { heartbeat_pending_since = none }, refl, refl),
        refl,
        sym (append-nil e.actions),
      )
  state-Handled e s d body (some false) eq frame at =
      inr ((body, frame, at), (rw (eq, backed_off) refl, refl))

  framed-Handled :
      (e : TunnelEngine M) (s : ChannelState M) (d : Arrived) (o : Option (ServiceType × Str))
      → e.phase ≡ connected s
      → knx.parse_frame d.0 ≡ o
      → Stays e s.channel_id (frame_answers knx s.channel_id o) (framed e s d.1 o)
        ⊎ (Refuses knx d.0 × Leaves e d.1 (framed e s d.1 o))
  unfolding framed on_frame
  framed-Handled e s d none eq at = inl (same e s eq)
  framed-Handled e s d (some (tunnelling_ack, body)) eq at =
      inl (ack-Stays e s (acked knx map (knx.parse_ack body) body) eq)
  framed-Handled e s d (some (tunnelling_request, body)) eq at =
      inl (request-Stays e s (knx.parse_request body) eq)
  framed-Handled e s d (some (connectionstate_response, body)) eq at =
      state-Handled e s d body (knx.parse_state_response body) eq at refl
  framed-Handled e s d (some (connect_response, body)) eq at = inl (same e s eq)
  framed-Handled e s d (some (other, body)) eq at = inl (same e s eq)

  datagram-Handled :
      (e : TunnelEngine M) (s : ChannelState M) (d : Arrived)
      → e.phase ≡ connected s
      → Handled e s d (handle_datagram knx map e d.0 d.1)
  unfolding handle_datagram in_phase framed
  datagram-Handled e s d eq =
      subst (λ p. Handled e s d (in_phase knx map e p d.0 d.1)) (sym eq)
        (framed-Handled e s d (knx.parse_frame d.0) eq refl)

  backoff-quiet :
      (e : TunnelEngine M) (until : ℕ) (ds : List Arrived)
      → e.phase ≡ backoff until
      → handle_all e ds ≡ e
  unfolding handle_datagram in_phase
  backoff-quiet e until [] eq = refl
  backoff-quiet e until (d ∷ ds) eq =
      let this : handle_datagram knx map e d.0 d.1 ≡ e =
        ap (λ p. in_phase knx map e p d.0 d.1) eq in
      ap (λ e1. handle_all e1 ds) this ∙ backoff-quiet e until ds eq

  -- Still connected on the channel with all answers queued in order; or left at the first datagram that says
  -- that the connection is lost, with the answers to those before it and one reset behind them.
  abbrev pub Served : TunnelEngine M → ℕ → List Arrived → TunnelEngine M → Type 0
  Served e channel ds e' =
      (((t : ChannelState M) × (e'.phase ≡ connected t) × (t.channel_id ≡ channel))
        × (e'.actions ≡ e.actions ++ answers knx channel ds))
      ⊎ ((before : List Arrived) × (d : Arrived) × (after : List Arrived) × (ds
            ≡ before ++ d ∷ after)
          × Refuses knx d.0
          × (e'.phase ≡ backoff (add_ms d.1 e.cfg.reconnect_backoff_ms))
          × (e'.actions ≡ e.actions ++ (answers knx channel before ++ (reset_socket ∷ []))))

  Served-next :
      (e e1 e' : TunnelEngine M) (channel : ℕ) (d : Arrived) (ds : List Arrived)
      → e1.cfg ≡ e.cfg
      → e1.actions ≡ e.actions ++ frame_answers knx channel (knx.parse_frame d.0)
      → Served e1 channel ds e'
      → Served e channel (d ∷ ds) e'
  Served-next e e1 e' channel d ds cfg acts (inl (stays, all)) =
      let this = frame_answers knx channel (knx.parse_frame d.0) in
      inl (
        stays,
        all
            ∙ ap (λ r. r ++ answers knx channel ds) acts
            ∙ append_assoc e.actions this (answers knx channel ds),
      )
  Served-next e e1 e' channel d ds cfg acts (inr (before, r, after, split, refuses, phase, all)) =
      let this = frame_answers knx channel (knx.parse_frame d.0) in
      let asked = answers knx channel before ++ (reset_socket ∷ []) in
      inr (
        d ∷ before,
        r,
        after,
        ap (λ l. d ∷ l) split,
        refuses,
        phase ∙ ap (λ c. backoff (add_ms r.1 c.reconnect_backoff_ms)) cfg,
        all
            ∙ ap (λ l. l ++ asked) acts
            ∙ append_assoc e.actions this asked
            ∙ ap (λ l. e.actions ++ l)
                (sym (append_assoc this (answers knx channel before) (reset_socket ∷ []))),
      )

  -- Whatever datagrams a connected engine is given one after another, each request among them is acknowledged
  -- once, under its own number and on the channel of the connection, with its telegram right behind if it can be
  -- read, all in the order of the datagrams, and nothing else is queued; up to the first one, if any, that says
  -- that the connection is lost: from it on the engine backs off, asks for one reset and answers no more.
  pub handle_datagram-Served :
      (e : TunnelEngine M) (s : ChannelState M) (ds : List Arrived)
      → e.phase ≡ connected s
      → Served e s.channel_id ds (handle_all e ds)
  handle_datagram-Served e s [] eq = inl ((s, eq, refl), sym (append-nil e.actions))
  handle_datagram-Served e s (d ∷ ds) eq = elim (datagram-Handled e s d eq) [
    | inl ((t, open_on, channel), cfg, acts) ↦
        let later : Served (handle_datagram knx map e d.0 d.1) s.channel_id ds
            (handle_all (handle_datagram knx map e d.0 d.1) ds) =
          subst
            (λ c.
              Served (handle_datagram knx map e d.0 d.1) c ds
                (handle_all (handle_datagram knx map e d.0 d.1) ds))
            channel (handle_datagram-Served (handle_datagram knx map e d.0 d.1) t ds open_on) in
        Served-next e (handle_datagram knx map e d.0 d.1)
          (handle_all (handle_datagram knx map e d.0 d.1) ds) s.channel_id d ds cfg acts later
    | inr (refuses, (phase, acts)) ↦
        let quiet = backoff-quiet (handle_datagram knx map e d.0 d.1) _ ds phase in
        inr (
          [],
          d,
          ds,
          refl,
          refuses,
          ap (λ e1. e1.phase) quiet ∙ phase,
          ap (λ e1. e1.actions) quiet ∙ acts,
        )
  ]
