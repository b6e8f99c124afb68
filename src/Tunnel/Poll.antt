-- ===== src/Tunnel/Poll.antt =====
-- `poll` in tunnel.rs: the deadlines that have passed.
pub mod Deadlines
pub mod Sweeps
use aimdb.Prelude.{ℕ, List, [], ◌∷◌, ◌++◌, Bool, false, Option, none, some, leb, if◌then◌else◌}
use aimdb.Tunnel.{
  add_ms, saturating_add, Action, send, reset_socket, TunnelConfig, Knx, IndexMap, ChannelState,
  Phase, backoff, connecting, connected, TunnelEngine,
}
use aimdb.Tunnel.Cemi.{build_connect_request, build_connectionstate_request}
use aimdb.Tunnel.Acks.{expired, sweep}
use aimdb.Tunnel.Engine.{handle_socket_error}

module _ {M : Type 0} (knx : Knx) (map : IndexMap M) where
  -- `poll`, by phase; in a connection the keepalive comes before the sweep of the acknowledgements.
  unanswered : TunnelConfig → ℕ → Option ℕ → Bool
  unanswered cfg now none = false
  unanswered cfg now (some sent_at) =
      leb (saturating_add sent_at cfg.heartbeat_response_timeout_ms) now

  since : Option ℕ → ℕ → Option ℕ
  since none now = some now
  since (some sent_at) now = some sent_at

  heartbeat : TunnelEngine M → ChannelState M → ℕ → ChannelState M × List Action
  unfolding since
  heartbeat e s now =
      if leb s.next_heartbeat now
      then (
        record s {
          next_heartbeat = add_ms now e.cfg.heartbeat_ms;
          heartbeat_pending_since = since s.heartbeat_pending_since now;
        },
        send (build_connectionstate_request knx s.channel_id) none ∷ [],
      )
      else (s, [])

  pub ack_sweep : TunnelEngine M → ChannelState M → ℕ → ChannelState M × List Action × Bool
  ack_sweep e s now =
      if leb s.next_ack_sweep now
      then (let swept =
            sweep map e.cfg now (expired now e.cfg.ack_timeout_ms (map.entries s.pending_acks))
              (record { acks = s.pending_acks; actions = []; drop_connection = false }) in
          (
            record s { pending_acks = swept.acks; next_ack_sweep = add_ms now e.cfg.ack_sweep_ms },
            swept.actions,
            swept.drop_connection,
          ))
      else (s, [], false)

  poll_connected : TunnelEngine M → ChannelState M → ℕ → TunnelEngine M
  unfolding unanswered heartbeat ack_sweep handle_socket_error
  poll_connected e s now =
      if unanswered e.cfg now s.heartbeat_pending_since
      then handle_socket_error e now
      else (let (s1, beat) = heartbeat e s now in
          let (s2, acts, drop_connection) = ack_sweep e s1 now in
          let e' : TunnelEngine M = record e {
            phase = connected s2;
            actions = (e.actions ++ beat) ++ acts;
          } in
          if drop_connection then handle_socket_error e' now else e')

  poll_in : TunnelEngine M → Phase M → ℕ → TunnelEngine M
  unfolding poll_connected
  poll_in e (backoff until) now =
      if leb until now
      then record e {
        actions = e.actions ++ (send (build_connect_request knx e.cfg.local_endpoint) none ∷ []);
        phase = connecting now;
      }
      else e
  poll_in e (connecting sent_at) now =
      if leb (saturating_add sent_at e.cfg.connect_timeout_ms) now
      then record e {
        actions = e.actions ++ (reset_socket ∷ []);
        phase = backoff (add_ms now e.cfg.reconnect_backoff_ms);
      }
      else e
  poll_in e (connected s) now = poll_connected e s now

  pub poll : TunnelEngine M → ℕ → TunnelEngine M
  unfolding poll_in
  poll e now = poll_in e e.phase now
