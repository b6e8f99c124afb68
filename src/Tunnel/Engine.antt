-- ===== src/Tunnel/Engine.antt =====
-- The state of `TunnelEngine` in tunnel.rs, and its smaller operations.
pub mod Errors
use aimdb.Prelude.{ℕ, min, [], ◌∷◌, ◌++◌, Bool, true, false, Option, none, some}
use aimdb.Tunnel.{
  add_ms, saturating_add, Action, reset_socket, LocalEndpoint, TunnelConfig, IndexMap, ChannelState,
  Phase, backoff, connecting, connected, TunnelEngine,
}

module _ {M : Type 0} (map : IndexMap M) where
  unfoldable pub new_channel : ℕ → ℕ → TunnelConfig → ChannelState M
  new_channel channel_id now cfg = record {
    channel_id = channel_id;
    outbound_seq = 0;
    pending_acks = map.new;
    next_heartbeat = add_ms now cfg.heartbeat_ms;
    heartbeat_pending_since = none;
    next_ack_sweep = add_ms now cfg.ack_sweep_ms;
  }

module _ {M : Type 0} where
  pub new : TunnelConfig → ℕ → TunnelEngine M
  new cfg now = record { cfg = cfg; phase = backoff now; actions = [] }

  unfoldable pub set_local_endpoint : TunnelEngine M → LocalEndpoint → TunnelEngine M
  set_local_endpoint e ep = let cfg = e.cfg in record e { cfg = record cfg { local_endpoint = ep } }

  unfoldable pub connected? : Phase M → Bool
  connected? (connected s) = true
  connected? _ = false

  unfoldable pub is_connected : TunnelEngine M → Bool
  unfolding connected?
  is_connected e = connected? e.phase

  abbrev pub push : TunnelEngine M → Action → TunnelEngine M
  push e a = record e { actions = e.actions ++ (a ∷ []) }

  -- An already running backoff keeps its deadline.
  unfoldable pub backed_off : Phase M → ℕ → Phase M
  backed_off (backoff until) deadline = backoff until
  backed_off _ deadline = backoff deadline

  unfoldable pub handle_socket_error : TunnelEngine M → ℕ → TunnelEngine M
  unfolding backed_off
  handle_socket_error e now = record e {
    actions = e.actions ++ (reset_socket ∷ []);
    phase = backed_off e.phase (add_ms now e.cfg.reconnect_backoff_ms);
  }

  unfoldable pub next_action : TunnelEngine M → Option (Action × TunnelEngine M)
  next_action e = elim e.actions [ [] ↦ none | a ∷ as' ↦ some (a, record e { actions = as' }) ]

  unfoldable pub channel_deadline : TunnelConfig → ChannelState M → Option ℕ → ℕ
  channel_deadline cfg s none = min s.next_heartbeat s.next_ack_sweep
  channel_deadline cfg s (some sent_at) =
      min (min s.next_heartbeat s.next_ack_sweep)
        (saturating_add sent_at cfg.heartbeat_response_timeout_ms)

  unfoldable pub phase_deadline : TunnelConfig → Phase M → ℕ
  unfolding channel_deadline
  phase_deadline cfg (backoff until) = until
  phase_deadline cfg (connecting sent_at) = saturating_add sent_at cfg.connect_timeout_ms
  phase_deadline cfg (connected s) = channel_deadline cfg s s.heartbeat_pending_since

  unfoldable pub next_deadline : TunnelEngine M → ℕ
  unfolding phase_deadline
  next_deadline e = phase_deadline e.cfg e.phase
