-- ===== src/Tunnel.antt =====
-- aimdb-knx-connector/src/tunnel.rs: the KNX/IP tunnelling engine, with no clock and no socket.
-- `u64` milliseconds wrap where the source adds them plainly.
pub mod Cemi
pub mod Acks
pub mod Engine
pub mod Inbound
pub mod Outbound
pub mod Poll
mod Tests
use aimdb.Prelude.{ℕ, ◌+◌, ◌%◌, ◌^◌, ◌-◌, min, Bool, List, Option, Str}

-- `a + b` and `a.saturating_add(b)` on `u64`.
abbrev pub add_ms : ℕ → ℕ → ℕ
add_ms a b = (a + b) % 2 ^ 64

abbrev pub saturating_add : ℕ → ℕ → ℕ
saturating_add a b = min (a + b) (2 ^ 64 - 1)

abbrev pub max_apdu : ℕ
max_apdu = 254

abbrev pub max_cemi : ℕ
max_cemi = 12 + max_apdu

pub record GroupWrite : Type 0 where
  pub group_addr : ℕ
  pub data_bytes : Str

pub data Action : Type 0 where
  send : Str → Option ℕ → Action
  telegram : ℕ → Str → Action
  reset_socket : Action
  ack_timeout : ℕ → Action

pub data LocalEndpoint : Type 0 where
  nat : LocalEndpoint
  explicit : Str → ℕ → LocalEndpoint

pub record TunnelConfig : Type 0 where
  pub local_endpoint : LocalEndpoint
  pub connect_timeout_ms : ℕ
  pub ack_timeout_ms : ℕ
  pub ack_sweep_ms : ℕ
  pub ack_retransmits : ℕ
  pub heartbeat_ms : ℕ
  pub heartbeat_response_timeout_ms : ℕ
  pub reconnect_backoff_ms : ℕ

abbrev pub default_config : TunnelConfig
default_config = record {
  local_endpoint = nat;
  connect_timeout_ms = 5000;
  ack_timeout_ms = 3000;
  ack_sweep_ms = 500;
  ack_retransmits = 1;
  heartbeat_ms = 55000;
  heartbeat_response_timeout_ms = 10000;
  reconnect_backoff_ms = 5000;
}

abbrev pub pending_ack_capacity : ℕ
pending_ack_capacity = 16

pub record PendingAck : Type 0 where
  pub sent_at : ℕ
  pub retries_left : ℕ
  pub frame : Str

-- The crate `knx_pico`, which is not part of the sources: what its builders write and its parsers
-- find. A view that the engine takes through methods is a record of their results.
pub data ServiceType : Type 0 where
  connect_response tunnelling_ack tunnelling_request connectionstate_response other : ServiceType

pub record LData : Type 0 where
  pub is_group_write : Bool
  pub destination_group : Option ℕ
  pub payload : Str
  pub six_bit_value : ℕ

pub record CemiFrame : Type 0 where
  pub is_ldata : Bool
  pub as_ldata : Option LData

pub record Knx : Type 0 where
  pub connect_request : Str → ℕ → Str
  pub tunneling_ack : ℕ → ℕ → Str
  pub tunneling_request : ℕ → ℕ → Str → Str
  pub connectionstate_request : ℕ → Str → ℕ → Str
  pub parse_frame : Str → Option (ServiceType × Str)
  pub parse_connect_response : Str → Option (ℕ × ℕ)
  pub parse_ack : Str → Option ℕ
  pub parse_request : Str → Option (ℕ × Str)
  pub parse_state_response : Str → Option Bool
  pub parse_cemi : Str → Option CemiFrame
  pub parse_address : Str → Option ℕ

-- The crate `heapless`: `FnvIndexMap<u8, PendingAck, 16>`. `entries` is its iteration order.
pub record IndexMap (M : Type 0) : Type 0 where
  pub new : M
  pub entries : M → List (ℕ × PendingAck)
  pub insert : M → ℕ → PendingAck → Option M
  pub remove : M → ℕ → M
  pub write : M → ℕ → PendingAck → M

pub record ChannelState (M : Type 0) : Type 0 where
  pub channel_id : ℕ
  pub outbound_seq : ℕ
  pub pending_acks : M
  pub next_heartbeat : ℕ
  pub heartbeat_pending_since : Option ℕ
  pub next_ack_sweep : ℕ

pub data Phase (M : Type 0) : Type 0 where
  backoff : ℕ → Phase M
  connecting : ℕ → Phase M
  connected : ChannelState M → Phase M

pub record TunnelEngine (M : Type 0) : Type 0 where
  pub cfg : TunnelConfig
  pub phase : Phase M
  pub actions : List Action
