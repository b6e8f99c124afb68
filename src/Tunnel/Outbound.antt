-- ===== src/Tunnel/Outbound.antt =====
-- `handle_command` and `send_failed` in tunnel.rs, and `drain_actions`, which applies the actions.
pub mod Draining
pub mod Tracking
use aimdb.Prelude.{
  Option, zero, suc, length, ℕ, ◌+◌, ◌%◌, List, [], ◌∷◌, ◌++◌, Bool, true, false, none, some, ltb,
  if◌then◌else◌, Str,
}
use aimdb.Tunnel.{
  GroupWrite, Action, send, telegram, reset_socket, ack_timeout, TunnelConfig, PendingAck, Knx,
  IndexMap, ChannelState, Phase, backoff, connecting, connected, TunnelEngine,
}
use aimdb.Tunnel.Engine.{next_action}
use aimdb.Tunnel.Cemi.{build_group_write_cemi}
use aimdb.Tunnel.Acks.{Entries}

-- What `drain_actions` does through `TunnelIo`.
pub data Effect : Type 0 where
  sent : Str → Effect
  forwarded : ℕ → Str → Effect
  warned : ℕ → Effect

module _ {M : Type 0} (knx : Knx) (map : IndexMap M) where
  -- A full map gives up its first entry, and reports it.
  make_room : M → Entries → ℕ → PendingAck → M × List Action
  make_room m [] seq pending = (elim (map.insert m seq pending) [ none ↦ m | some m' ↦ m' ], [])
  make_room m ((oldest, _) ∷ es) seq pending =
      let rest = map.remove m oldest in
      (elim (map.insert rest seq pending) [ none ↦ rest | some m' ↦ m' ], ack_timeout oldest ∷ [])

  pub track : M → ℕ → PendingAck → M × List Action
  unfolding make_room
  track m seq pending = elim (map.insert m seq pending) [
    | some m' ↦ (m', [])
    | none ↦ make_room m (map.entries m) seq pending
  ]

  pub request_frame : ChannelState M → GroupWrite → Str
  request_frame s cmd =
      knx.tunneling_request s.channel_id s.outbound_seq
        (build_group_write_cemi cmd.group_addr cmd.data_bytes)

  pub tracked : TunnelConfig → ℕ → Str → PendingAck
  tracked cfg now frame = record {
    sent_at = now;
    retries_left = cfg.ack_retransmits;
    frame = if ltb 0 cfg.ack_retransmits then frame else [];
  }

  command_in : TunnelEngine M → Phase M → GroupWrite → ℕ → TunnelEngine M × Bool
  unfolding track request_frame tracked
  command_in e (backoff until) cmd now = (e, false)
  command_in e (connecting sent_at) cmd now = (e, false)
  command_in e (connected s) cmd now =
      let frame = request_frame s cmd in
      let (acks, lost) = track s.pending_acks s.outbound_seq (tracked e.cfg now frame) in
      (
        record e {
          phase =
              connected
                (record s { outbound_seq = (s.outbound_seq + 1) % 256; pending_acks = acks });
          actions = (e.actions ++ lost) ++ (send frame (some s.outbound_seq) ∷ []);
        },
        true,
      )

  pub handle_command : TunnelEngine M → GroupWrite → ℕ → TunnelEngine M × Bool
  unfolding command_in
  handle_command e cmd now = command_in e e.phase cmd now

  unsent_in : TunnelEngine M → Phase M → ℕ → TunnelEngine M
  unsent_in e (connected s) seq = record e {
    phase = connected (record s { pending_acks = map.remove s.pending_acks seq });
  }
  unsent_in e _ seq = e

  pub send_failed : TunnelEngine M → ℕ → TunnelEngine M
  unfolding unsent_in
  send_failed e seq = unsent_in e e.phase seq

  untrack : Bool → TunnelEngine M → Option ℕ → TunnelEngine M
  untrack false e (some seq) = send_failed e seq
  untrack _ e await_ack = e

  -- One round of `drain_actions` on the action taken, with `reset` and what was done so far; `io` says
  -- whether a frame can be handed to the socket.
  pub apply :
      (Str → Bool)
      → Action
      → TunnelEngine M
      → Bool × List Effect
      → TunnelEngine M × Bool × List Effect
  unfolding untrack
  apply io (send frame await_ack) e (reset, done) =
      (untrack (io frame) e await_ack, reset, done ++ (sent frame ∷ []))
  apply io (telegram addr payload) e (reset, done) =
      (e, reset, done ++ (forwarded addr payload ∷ []))
  apply io reset_socket e (reset, done) = (e, true, done)
  apply io (ack_timeout seq) e (reset, done) = (e, reset, done ++ (warned seq ∷ []))

  -- The loop over `next_action`; `none` when the fuel runs out.
  pub drain :
      ℕ
      → (Str → Bool)
      → TunnelEngine M
      → Bool × List Effect
      → Option (TunnelEngine M × Bool × List Effect)
  drain zero io e acc = none
  drain (suc fuel) io e acc = elim (next_action e) [
    | none ↦ some (e, acc.0, acc.1)
    | some (a, e1) ↦ let (e2, reset, done) = apply io a e1 acc in drain fuel io e2 (reset, done)
  ]

  pub drain_actions : (Str → Bool) → TunnelEngine M → Option (TunnelEngine M × Bool × List Effect)
  drain_actions io e = drain (suc (length e.actions)) io e (false, [])
