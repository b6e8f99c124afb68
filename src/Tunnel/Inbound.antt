-- ===== src/Tunnel/Inbound.antt =====
-- `handle_datagram` in tunnel.rs.
pub mod Telegrams
pub mod Sessions
use aimdb.Prelude.{
  ℕ, [], ◌∷◌, ◌++◌, Bool, true, false, Option, none, some, length, leb, ◌==◌, if◌then◌else◌, Str,
  get_elem?,
}
use aimdb.Tunnel.{
  add_ms, send, telegram, reset_socket, ServiceType, connect_response, tunnelling_ack,
  tunnelling_request, connectionstate_response, other, Knx, IndexMap, ChannelState, Phase, backoff,
  connecting, connected, TunnelEngine,
}
use aimdb.Tunnel.Cemi.{parse_connect_response, parse_telegram}
use aimdb.Tunnel.Engine.{new_channel, push, handle_socket_error}

module _ {M : Type 0} (knx : Knx) (map : IndexMap M) where
  -- `handle_datagram`, by phase and then by service.
  on_connecting : TunnelEngine M → ℕ → Option (ℕ × ℕ) → TunnelEngine M
  unfolding new_channel
  on_connecting e now none = e
  on_connecting e now (some (channel_id, status)) =
      if status == 0
      then record e { phase = connected (new_channel map channel_id now e.cfg) }
      else record e {
        actions = e.actions ++ (reset_socket ∷ []);
        phase = backoff (add_ms now e.cfg.reconnect_backoff_ms);
      }

  pub acked : Option ℕ → Str → Option ℕ
  acked (some seq) body = some seq
  acked none body = if leb 4 (length body) then get_elem? body 2 else none

  on_ack : TunnelEngine M → ChannelState M → Option ℕ → TunnelEngine M
  on_ack e s none = e
  on_ack e s (some seq) = record e {
    phase = connected (record s { pending_acks = map.remove s.pending_acks seq });
  }

  on_telegram : TunnelEngine M → Option (ℕ × Str) → TunnelEngine M
  on_telegram e none = e
  on_telegram e (some (addr, payload)) = push e (telegram addr payload)

  on_request : TunnelEngine M → ChannelState M → Option (ℕ × Str) → TunnelEngine M
  unfolding on_telegram
  on_request e s none = e
  on_request e s (some (seq, cemi)) =
      on_telegram (push e (send (knx.tunneling_ack s.channel_id seq) none))
        (parse_telegram knx cemi)

  on_state_response : TunnelEngine M → ChannelState M → ℕ → Option Bool → TunnelEngine M
  unfolding handle_socket_error
  on_state_response e s now none = e
  on_state_response e s now (some true) = record e {
    phase = connected (record s { heartbeat_pending_since = none });
  }
  on_state_response e s now (some false) = handle_socket_error e now

  on_frame : TunnelEngine M → ChannelState M → ℕ → ServiceType → Str → TunnelEngine M
  unfolding acked on_ack on_request on_state_response
  on_frame e s now tunnelling_ack body = on_ack e s (acked (knx.parse_ack body) body)
  on_frame e s now tunnelling_request body = on_request e s (knx.parse_request body)
  on_frame e s now connectionstate_response body =
      on_state_response e s now (knx.parse_state_response body)
  on_frame e s now connect_response body = e
  on_frame e s now other body = e

  in_phase : TunnelEngine M → Phase M → Str → ℕ → TunnelEngine M
  unfolding on_connecting on_frame
  in_phase e (backoff until) bytes now = e
  in_phase e (connecting sent_at) bytes now = on_connecting e now (parse_connect_response knx bytes)
  in_phase e (connected s) bytes now = elim (knx.parse_frame bytes) [
    | none ↦ e
    | some (service, body) ↦ on_frame e s now service body
  ]

  pub handle_datagram : TunnelEngine M → Str → ℕ → TunnelEngine M
  unfolding in_phase
  handle_datagram e bytes now = in_phase e e.phase bytes now
