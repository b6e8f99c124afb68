-- ===== src/Tunnel/Tests.antt =====
-- Examples for the tunnelling engine, with small stand-ins for `knx_pico` and `heapless`.
mod AckTable
use aimdb.Prelude.{
  ℕ, zero, suc, ◌≤◌, ◌<◌, ◌≡◌, ◌⊎◌, refl, List, [], ◌∷◌, ◌++◌, true, false, Option, none, some,
  length, arith, Str,
}
use aimdb.Tunnel.{
  nat, backoff, connect_response, add_ms, GroupWrite, Action, send, telegram, reset_socket,
  ack_timeout, default_config, PendingAck, max_cemi, ServiceType, tunnelling_ack,
  tunnelling_request, Knx, ChannelState, connected, TunnelEngine,
}
use aimdb.Tunnel.Cemi.{
  parse_connect_response, build_connect_request, build_group_write_cemi, frame_value,
  frame_value-build, parse_telegram,
}
use aimdb.Tunnel.Acks.{lookup}
use aimdb.Tunnel.Acks.Sweep.{swept_entry}
use aimdb.Tunnel.Engine.{backed_off, is_connected, next_deadline}
use aimdb.Tunnel.Inbound.{handle_datagram}
use aimdb.Tunnel.Inbound.Sessions.{Arrived, answers, handle_all, Served, handle_datagram-Served}
use aimdb.Tunnel.Inbound.Telegrams.{Outcome, datagram-Outcome}
use aimdb.Tunnel.Outbound.{request_frame, tracked, handle_command, drain_actions}
use aimdb.Tunnel.Outbound.Draining.{effects_of, asks_reset, drain_actions_lem}
use aimdb.Tunnel.Outbound.Tracking.{IsTracked, handle_command_tracks}
use aimdb.Tunnel.Poll.{ack_sweep, poll}
use aimdb.Tunnel.Poll.Deadlines.{Sound, poll_quiet, poll_ahead}
use aimdb.Tunnel.Poll.Sweeps.{ack_sweep_lem}
use aimdb.Tunnel.Tests.AckTable.{Table, table, table-IndexMapLaws}

abbrev toy_frame : Str → Option (ServiceType × Str)
toy_frame (zero ∷ body) = some (tunnelling_ack, body)
toy_frame (suc zero ∷ body) = some (tunnelling_request, body)
toy_frame (suc (suc zero) ∷ body) = some (connect_response, body)
toy_frame _ = none

abbrev toy_request : Str → Option (ℕ × Str)
toy_request (channel ∷ seq ∷ cemi) = some (seq, cemi)
toy_request _ = none

abbrev toy_answer : Str → Option (ℕ × ℕ)
toy_answer (channel ∷ status ∷ s) = some (channel, status)
toy_answer _ = none

abbrev toy_knx : Knx
toy_knx = record {
  connect_request = λ ip port. 2 ∷ [];
  tunneling_ack = λ channel seq. 0 ∷ channel ∷ seq ∷ [];
  tunneling_request = λ channel seq cemi. 1 ∷ channel ∷ seq ∷ cemi;
  connectionstate_request = λ channel ip port. 3 ∷ [];
  parse_frame = toy_frame;
  parse_connect_response = toy_answer;
  parse_ack = λ body. none;
  parse_request = toy_request;
  parse_state_response = λ body. none;
  parse_cemi = λ cemi. some (record {
    is_ldata = true;
    as_ldata = some (record {
      is_group_write = true;
      destination_group = some 2305;
      payload = cemi;
      six_bit_value = 0;
    });
  });
  parse_address = λ text. none;
}

-- Sent at 100 with a try left, and at 2000 with none.
abbrev early_ack : PendingAck
early_ack = record { sent_at = 100; retries_left = 1; frame = 1 ∷ 9 ∷ [] }

abbrev late_ack : PendingAck
late_ack = record { sent_at = 2000; retries_left = 0; frame = [] }

abbrev two_acks : Table
two_acks = ((4, early_ack) ∷ (5, late_ack) ∷ [], (refl, (refl, tt)), omega arith)

abbrev open_channel : ChannelState Table
open_channel = record {
  channel_id = 7;
  outbound_seq = 255;
  pending_acks = two_acks;
  next_heartbeat = 55000;
  heartbeat_pending_since = none;
  next_ack_sweep = 3500;
}

abbrev open_engine : TunnelEngine Table
open_engine = record { cfg = default_config; phase = connected open_channel; actions = [] }

abbrev command : GroupWrite
command = record { group_addr = 2305; data_bytes = 1 ∷ [] }

abbrev queue : List Action
queue = send (1 ∷ []) (some 4) ∷ reset_socket ∷ ack_timeout 5 ∷ []

datagram-Outcome_example :
    Outcome toy_knx table table-IndexMapLaws open_engine open_channel 50
      (handle_datagram toy_knx table open_engine (0 ∷ 4 ∷ 7 ∷ 4 ∷ 0 ∷ []) 50)
datagram-Outcome_example =
    datagram-Outcome toy_knx table table-IndexMapLaws open_engine open_channel
      (0 ∷ 4 ∷ 7 ∷ 4 ∷ 0 ∷ []) 50 refl

-- Two requests, and between them an answer that the engine awaits and bytes that are no frame.
abbrev incoming : List Arrived
incoming =
    (1 ∷ 7 ∷ 3 ∷ 8 ∷ [], 50)
    ∷ (0 ∷ 4 ∷ 7 ∷ 4 ∷ 0 ∷ [], 55)
    ∷ (9 ∷ [], 60)
    ∷ (1 ∷ 7 ∷ 4 ∷ 9 ∷ [], 65)
    ∷ []

handle_datagram-Served_example :
    Served toy_knx table open_engine 7 incoming (handle_all toy_knx table open_engine incoming)
handle_datagram-Served_example =
    handle_datagram-Served toy_knx table open_engine open_channel incoming refl

acked_in_order :
    answers toy_knx 7 incoming
    ≡ send (0 ∷ 7 ∷ 3 ∷ []) none
      ∷ telegram 2305 (8 ∷ [])
      ∷ send (0 ∷ 7 ∷ 4 ∷ []) none
      ∷ telegram 2305 (9 ∷ [])
      ∷ []
unfolding parse_telegram
acked_in_order = refl

drain_actions_lem_example :
    (e' : TunnelEngine Table) × (drain_actions toy_knx table
        (λ frame. false)
        (record open_engine { actions = queue })
      ≡ some (e', asks_reset queue, effects_of queue))
    × (e'.actions ≡ [])
drain_actions_lem_example =
    drain_actions_lem toy_knx table (λ frame. false) (record open_engine { actions = queue })

handle_command_tracks_example :
    (t : ChannelState Table) × (lost : List Action) × ((handle_command toy_knx table open_engine
        command 60).0.phase
      ≡ connected t)
    × (t.outbound_seq ≡ 0)
    × (t.channel_id ≡ 7)
    × IsTracked toy_knx table table-IndexMapLaws two_acks 255
        (tracked toy_knx table default_config 60 (request_frame toy_knx table open_channel command))
        (t.pending_acks, lost)
    × ((handle_command toy_knx table open_engine command 60).0.actions
        ≡ ([] ++ lost) ++ (send (request_frame toy_knx table open_channel command) (some 255) ∷ []))
handle_command_tracks_example =
    handle_command_tracks toy_knx table table-IndexMapLaws open_engine open_channel command 60 refl

ack_sweep_lem_example :
    ((j : ℕ)
      → lookup j
          (table.entries (ack_sweep toy_knx table open_engine open_channel 3600).0.pending_acks)
        ≡ swept_entry default_config 3600 (lookup j two_acks.0))
    × ((ack_sweep toy_knx table open_engine open_channel 3600).1 ≡ send (1 ∷ 9 ∷ []) (some 4) ∷ [])
    × ((ack_sweep toy_knx table open_engine open_channel 3600).2 ≡ false)
ack_sweep_lem_example =
    ack_sweep_lem toy_knx table table-IndexMapLaws open_engine open_channel 3600 (omega arith)

open-is-early : 50 < next_deadline open_engine
unfolding next_deadline
open-is-early = omega arith

poll_quiet_example : poll toy_knx table open_engine 50 ≡ open_engine
poll_quiet_example = poll_quiet toy_knx table open_engine 50 open-is-early

default-Sound : Sound default_config 3600
default-Sound = record {
  connect_timeout = omega arith;
  sweep = omega arith;
  beat = omega arith;
  response = omega arith;
  reconnect = omega arith;
  connect_timeout_fits = omega arith;
  sweep_fits = omega arith;
  beat_fits = omega arith;
  response_fits = omega arith;
  reconnect_fits = omega arith;
}

poll_ahead_example : 3600 < next_deadline (poll toy_knx table open_engine 3600)
poll_ahead_example = poll_ahead toy_knx table open_engine 3600 default-Sound

frame_value-build_example :
    (frame_value (build_group_write_cemi 2305 (12 ∷ 26 ∷ [])) ≡ some (2305, 12 ∷ 26 ∷ []))
    × (length (build_group_write_cemi 2305 (12 ∷ 26 ∷ [])) ≤ max_cemi)
frame_value-build_example =
    frame_value-build 2305 (12 ∷ 26 ∷ []) (omega arith) (omega arith) (omega arith)
