-- ===== src/Tunnel/Inbound/Telegrams.antt =====
-- What a datagram does to a connection.
use aimdb.Prelude.{
  ℕ, ◌≡◌, refl, sym, subst, ◌∙◌, ◌⊎◌, [], ◌∷◌, ◌++◌, Bool, true, false, Option, none, some, ◌==◌,
  Bool-cases, Str, inl, inr,
}
use aimdb.Tunnel.{
  add_ms, reset_socket, ServiceType, connect_response, tunnelling_ack, tunnelling_request,
  connectionstate_response, other, Knx, IndexMap, ChannelState, backoff, connected, TunnelEngine,
}
use aimdb.Tunnel.Cemi.{parse_telegram}
use aimdb.Tunnel.Acks.{lookup, IndexMapLaws}
use aimdb.Tunnel.Engine.{backed_off, handle_socket_error}
use aimdb.Tunnel.Inbound.{
  acked, on_ack, on_telegram, on_request, on_state_response, on_frame, in_phase, handle_datagram,
}

module _ {M : Type 0} (knx : Knx) (map : IndexMap M) (laws : IndexMapLaws map) where
  -- The channel is the same but for the answers it waits for, of which none is new.
  abbrev pub IsKept : ChannelState M → ChannelState M → Type 0
  IsKept s t =
      (t.channel_id ≡ s.channel_id)
      × (t.outbound_seq ≡ s.outbound_seq)
      × (t.next_heartbeat ≡ s.next_heartbeat)
      × (t.next_ack_sweep ≡ s.next_ack_sweep)
      × ((j : ℕ)
          → (lookup j (map.entries t.pending_acks) ≡ lookup j (map.entries s.pending_acks))
            ⊎ (lookup j (map.entries t.pending_acks) ≡ none))

  -- Still connected, or backed off with one reset asked for last.
  abbrev pub Outcome : TunnelEngine M → ChannelState M → ℕ → TunnelEngine M → Type 0
  Outcome e s now e' =
      ((t : ChannelState M) × (e'.phase ≡ connected t) × IsKept s t)
      ⊎ ((e'.phase ≡ backoff (add_ms now e.cfg.reconnect_backoff_ms))
          × (e'.actions ≡ e.actions ++ (reset_socket ∷ [])))

  same :
      (e : TunnelEngine M) (s : ChannelState M) (now : ℕ)
      → e.phase ≡ connected s
      → Outcome e s now e
  same e s now eq = inl (s, eq, (refl, refl, refl, refl, λ j. inl refl))

  ack-Outcome :
      (e : TunnelEngine M) (s : ChannelState M) (now : ℕ) (o : Option ℕ)
      → e.phase ≡ connected s
      → Outcome e s now (on_ack knx map e s o)
  unfolding on_ack
  ack-Outcome e s now none eq = same e s now eq
  ack-Outcome e s now (some seq) eq = inl (
    record s { pending_acks = map.remove s.pending_acks seq },
    refl,
    (
      refl,
      refl,
      refl,
      refl,
      λ j. elim (Bool-cases (seq == j)) [
        | inl here ↦ inr (laws.remove_lookup s.pending_acks seq j ∙ rw here refl)
        | inr away ↦ inl (laws.remove_lookup s.pending_acks seq j ∙ rw away refl)
      ],
    ),
  )

  telegram_phase :
      (e : TunnelEngine M) (o : Option (ℕ × Str)) → (on_telegram knx map e o).phase ≡ e.phase
  unfolding on_telegram
  telegram_phase e none = refl
  telegram_phase e (some (addr, payload)) = refl

  request-Outcome :
      (e : TunnelEngine M) (s : ChannelState M) (now : ℕ) (o : Option (ℕ × Str))
      → e.phase ≡ connected s
      → Outcome e s now (on_request knx map e s o)
  unfolding on_request
  request-Outcome e s now none eq = same e s now eq
  request-Outcome e s now (some (seq, cemi)) eq =
      inl (
        s,
        telegram_phase _ (parse_telegram knx cemi) ∙ eq,
        (refl, refl, refl, refl, λ j. inl refl),
      )

  state-Outcome :
      (e : TunnelEngine M) (s : ChannelState M) (now : ℕ) (o : Option Bool)
      → e.phase ≡ connected s
      → Outcome e s now (on_state_response knx map e s now o)
  unfolding on_state_response handle_socket_error
  state-Outcome e s now none eq = same e s now eq
  state-Outcome e s now (some true) eq =
      inl
        (record s { heartbeat_pending_since = none }, refl, (refl, refl, refl, refl, λ j. inl refl))
  state-Outcome e s now (some false) eq = inr (rw (eq, backed_off) refl, refl)

  frame-Outcome :
      (e : TunnelEngine M) (s : ChannelState M) (now : ℕ) (service : ServiceType) (body : Str)
      → e.phase ≡ connected s
      → Outcome e s now (on_frame knx map e s now service body)
  unfolding on_frame
  frame-Outcome e s now tunnelling_ack body eq =
      ack-Outcome e s now (acked knx map (knx.parse_ack body) body) eq
  frame-Outcome e s now tunnelling_request body eq =
      request-Outcome e s now (knx.parse_request body) eq
  frame-Outcome e s now connectionstate_response body eq =
      state-Outcome e s now (knx.parse_state_response body) eq
  frame-Outcome e s now connect_response body eq = same e s now eq
  frame-Outcome e s now other body eq = same e s now eq

  -- Whatever bytes arrive on a connection, the engine stays connected with the same channel, the
  -- same next sequence number and the same timers, and tracks no telegram that it did not track
  -- before; or it backs off from now and asks for one reset after the actions already queued.
  pub datagram-Outcome :
      (e : TunnelEngine M) (s : ChannelState M) (bytes : Str) (now : ℕ)
      → e.phase ≡ connected s
      → Outcome e s now (handle_datagram knx map e bytes now)
  unfolding handle_datagram in_phase
  datagram-Outcome e s bytes now eq =
      subst (λ p. Outcome e s now (in_phase knx map e p bytes now)) (sym eq)
        (elim (knx.parse_frame bytes)
          as (λ o.
            Outcome e s now (elim o [
              | none ↦ e
              | some (service, body) ↦ on_frame knx map e s now service body
            ])) [
              | none ↦ same e s now eq
              | some (service, body) ↦ frame-Outcome e s now service body eq
            ])
