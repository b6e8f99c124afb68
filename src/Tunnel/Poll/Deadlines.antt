-- ===== src/Tunnel/Poll/Deadlines.antt =====
-- `poll` against `next_deadline`: nothing happens before the deadline, and after a `poll` the
-- deadline lies ahead.
use aimdb.Prelude.{
  ℕ, ◌+◌, ◌^◌, ◌<◌, ◌≡◌, refl, [], ◌++◌, append-nil, false, Option, none, some, leb, arith,
  Bool-cases, inl, inr,
}
use aimdb.Tunnel.{
  saturating_add, TunnelConfig, Knx, IndexMap, ChannelState, Phase, backoff, connecting, connected,
  TunnelEngine,
}
use aimdb.Tunnel.Engine.{
  backed_off, channel_deadline, phase_deadline, handle_socket_error, next_deadline,
}
use aimdb.Tunnel.Poll.{unanswered, since, heartbeat, ack_sweep, poll_connected, poll_in, poll}

-- The delays of the configuration are positive, and adding them to the time does not wrap.
pub record Sound (cfg : TunnelConfig) (now : ℕ) : Type 0 where
  pub connect_timeout : 0 < cfg.connect_timeout_ms
  pub sweep : 0 < cfg.ack_sweep_ms
  pub beat : 0 < cfg.heartbeat_ms
  pub response : 0 < cfg.heartbeat_response_timeout_ms
  pub reconnect : 0 < cfg.reconnect_backoff_ms
  pub connect_timeout_fits : now + cfg.connect_timeout_ms < 2 ^ 64
  pub sweep_fits : now + cfg.ack_sweep_ms < 2 ^ 64
  pub beat_fits : now + cfg.heartbeat_ms < 2 ^ 64
  pub response_fits : now + cfg.heartbeat_response_timeout_ms < 2 ^ 64
  pub reconnect_fits : now + cfg.reconnect_backoff_ms < 2 ^ 64

module _ {M : Type 0} (knx : Knx) (map : IndexMap M) where
  -- The keepalive's answer is not overdue at `now`.
  abbrev IsAwaited : TunnelConfig → Option ℕ → ℕ → Type 0
  IsAwaited cfg none now = Unit {0}
  IsAwaited cfg (some sent_at) now = now < saturating_add sent_at cfg.heartbeat_response_timeout_ms

  unanswered_awaited :
      (cfg : TunnelConfig) (o : Option ℕ) (now : ℕ)
      → IsAwaited cfg o now
      → unanswered knx map cfg now o ≡ false
  unfolding unanswered
  unanswered_awaited cfg none now h = refl
  unanswered_awaited cfg (some sent_at) now h = ground arith

  deadline_parts :
      (cfg : TunnelConfig) (s : ChannelState M) (o : Option ℕ) (now : ℕ)
      → now < channel_deadline cfg s o
      → (now < s.next_heartbeat) × (now < s.next_ack_sweep) × IsAwaited cfg o now
  unfolding channel_deadline
  deadline_parts cfg s none now h = (omega arith, omega arith, tt)
  deadline_parts cfg s (some sent_at) now h = omega arith

  deadline_whole :
      (cfg : TunnelConfig) (s : ChannelState M) (o : Option ℕ) (now : ℕ)
      → now < s.next_heartbeat
      → now < s.next_ack_sweep
      → IsAwaited cfg o now
      → now < channel_deadline cfg s o
  unfolding channel_deadline
  deadline_whole cfg s none now a b c = omega arith
  deadline_whole cfg s (some sent_at) now a b c = omega arith

  poll_connected_quiet :
      (e : TunnelEngine M) (s : ChannelState M) (now : ℕ)
      → e.phase ≡ connected s
      → IsAwaited e.cfg s.heartbeat_pending_since now
      → now < s.next_heartbeat
      → now < s.next_ack_sweep
      → poll_connected knx map e s now ≡ e
  unfolding poll_connected heartbeat ack_sweep
  poll_connected_quiet e s now eq w a b = ground (
    arith,
    unanswered_awaited e.cfg s.heartbeat_pending_since now w,
    append-nil e.actions,
    append-nil (e.actions ++ []),
  )

  quiet_in :
      (e : TunnelEngine M) (p : Phase M) (now : ℕ)
      → e.phase ≡ p
      → now < phase_deadline e.cfg p
      → poll_in knx map e p now ≡ e
  unfolding poll_in phase_deadline
  quiet_in e (backoff until) now eq h = ground arith
  quiet_in e (connecting sent_at) now eq h = ground arith
  quiet_in e (connected s) now eq h =
      let (a, b, w) = deadline_parts e.cfg s s.heartbeat_pending_since now h in
      poll_connected_quiet e s now eq w a b

  -- Before `next_deadline` a `poll` changes nothing and asks for nothing.
  pub poll_quiet : (e : TunnelEngine M) (now : ℕ) → now < next_deadline e → poll knx map e now ≡ e
  unfolding poll next_deadline
  poll_quiet e now h = quiet_in e e.phase now refl h

  unanswered-IsAwaited :
      (cfg : TunnelConfig) (o : Option ℕ) (now : ℕ)
      → unanswered knx map cfg now o ≡ false
      → IsAwaited cfg o now
  unfolding unanswered
  unanswered-IsAwaited cfg none now h = tt
  unanswered-IsAwaited cfg (some sent_at) now h = ground arith

  since-IsAwaited :
      (cfg : TunnelConfig) (o : Option ℕ) (now : ℕ)
      → Sound cfg now
      → IsAwaited cfg o now
      → IsAwaited cfg (since knx map o now) now
  unfolding since
  since-IsAwaited cfg none now ok h = omega arith
  since-IsAwaited cfg (some sent_at) now ok h = h

  heartbeat_ahead :
      (e : TunnelEngine M) (s : ChannelState M) (now : ℕ)
      → Sound e.cfg now
      → IsAwaited e.cfg s.heartbeat_pending_since now
      → (now < (heartbeat knx map e s now).0.next_heartbeat)
        × IsAwaited e.cfg (heartbeat knx map e s now).0.heartbeat_pending_since now
  unfolding heartbeat
  heartbeat_ahead e s now ok w = elim (Bool-cases (leb s.next_heartbeat now)) [
    | inl due ↦ rw due (omega arith, since-IsAwaited e.cfg s.heartbeat_pending_since now ok w)
    | inr early ↦ rw early (ground arith, w)
  ]

  ack_sweep_ahead :
      (e : TunnelEngine M) (s : ChannelState M) (now : ℕ)
      → Sound e.cfg now
      → (now < (ack_sweep knx map e s now).0.next_ack_sweep)
        × ((ack_sweep knx map e s now).0.next_heartbeat ≡ s.next_heartbeat)
        × ((ack_sweep knx map e s now).0.heartbeat_pending_since ≡ s.heartbeat_pending_since)
  unfolding ack_sweep
  ack_sweep_ahead e s now ok = ground arith

  -- The deadline of a phase lies behind `now`.
  abbrev IsAhead : TunnelConfig → ℕ → Phase M → Type 0
  IsAhead cfg now p = now < phase_deadline cfg p

  dropped-IsAhead :
      (e : TunnelEngine M) (s : ChannelState M) (now : ℕ)
      → Sound e.cfg now
      → e.phase ≡ connected s
      → IsAhead (handle_socket_error e now).cfg now (handle_socket_error e now).phase
  unfolding handle_socket_error phase_deadline
  dropped-IsAhead e s now ok eq = rw (eq, backed_off) (omega arith)

  connected-IsAhead :
      (e : TunnelEngine M) (s : ChannelState M) (now : ℕ)
      → Sound e.cfg now
      → e.phase ≡ connected s
      → IsAhead (poll_connected knx map e s now).cfg now (poll_connected knx map e s now).phase
  unfolding poll_connected
  connected-IsAhead e s now ok eq =
      elim (Bool-cases (unanswered knx map e.cfg now s.heartbeat_pending_since)) [
        | inl late ↦ rw late (dropped-IsAhead e s now ok eq)
        | inr awaited ↦
            let s1 = (heartbeat knx map e s now).0 in
            let s2 = (ack_sweep knx map e s1 now).0 in
            let (a, w) =
              heartbeat_ahead e s now ok
                (unanswered-IsAwaited e.cfg s.heartbeat_pending_since now awaited) in
            let (b, c, d) = ack_sweep_ahead e s1 now ok in
            rw awaited (elim (Bool-cases (ack_sweep knx map e s1 now).2) [
              | inl drop ↦ rw drop (
                  dropped-IsAhead
                    (record {
                      cfg = e.cfg;
                      phase = connected s2;
                      actions =
                          (e.actions ++ (heartbeat knx map e s now).1)
                          ++ (ack_sweep knx map e s1 now).1;
                    })
                    s2 now ok refl)
              | inr keep ↦ rw keep (
                  unfold phase_deadline in
                  deadline_whole e.cfg s2 s2.heartbeat_pending_since now (omega arith) b (rw d w))
            ])
      ]

  phase-IsAhead :
      (e : TunnelEngine M) (p : Phase M) (now : ℕ)
      → Sound e.cfg now
      → e.phase ≡ p
      → IsAhead (poll_in knx map e p now).cfg now (poll_in knx map e p now).phase
  unfolding poll_in phase_deadline
  phase-IsAhead e (backoff until) now ok eq = elim (Bool-cases (leb until now)) [
    | inl due ↦ rw due (omega arith)
    | inr early ↦ rw (early, eq) (ground arith)
  ]
  phase-IsAhead e (connecting sent_at) now ok eq =
      elim (Bool-cases (leb (saturating_add sent_at e.cfg.connect_timeout_ms) now)) [
        | inl due ↦ rw due (omega arith)
        | inr early ↦ rw (early, eq) (ground arith)
      ]
  phase-IsAhead e (connected s) now ok eq = connected-IsAhead e s now ok eq

  -- After a `poll` the next deadline lies strictly ahead, if the configured delays are positive and
  -- end, from now, within a `u64`.
  pub poll_ahead :
      (e : TunnelEngine M) (now : ℕ) → Sound e.cfg now → now < next_deadline (poll knx map e now)
  unfolding poll next_deadline
  poll_ahead e now ok = phase-IsAhead e e.phase now ok refl
