-- ===== src/Lib.antt =====
-- Verification of AimDB, a data layer of typed records that connectors carry over links: the parts
-- whose behaviour is their own, apart from runtimes and sockets.
--
-- Prelude: shared names, tests on numbers, lists over the native numbers, byte strings.
-- TopicMatch: aimdb-core/src/session/topic_match.rs, the patterns of topics and access grants.
--   `match_segments` is a loop with one backtrack point; its round is `round`, its loop `walk`.
-- Framed: aimdb-core/src/session/io.rs, a connection made of a byte stream and a framer. The record
--   `Framer` is the trait; `recv` and `send` are those of `FramedConnection`.
-- SerialFraming: aimdb-serial-connector/src/framing.rs, COBS frames between zero bytes.
-- TcpFraming: aimdb-tcp-connector/src/framing.rs, frames behind a length. Both are framers for Framed.
-- Tunnel: aimdb-knx-connector/src/tunnel.rs, the KNX/IP tunnelling engine. Its children follow the
--   engine's operations: Engine (state, errors, deadlines), Inbound (`handle_datagram`), Outbound
--   (`handle_command`, `drain_actions`), Poll (`poll`), Acks (the tracked telegrams), Cemi (frames).
-- Cdr: aimdb-cdr/src, the CDR codec: Ser is ser.rs, De is de.rs. `serialize` follows the calls that a
--   value makes and `deserialize` those that a shape makes.
-- KeyTable: aimdb-core/src/inbound_key.rs, the small numbers that stand for captured values.
-- TopicPattern: aimdb-core/src/topic_pattern.rs, the parser of inbound topic patterns. A topic of n bytes
--   takes at most n + 1 rounds.
-- Graph: aimdb-core/src/graph.rs, the graph of the records and their start order. Random is the seeded
--   generator, Net the two maps of Kahn's algorithm, Kahn its loop (one round for each node and one
--   more), Build the construction; Build/Starts states the order as a relation of starts.
-- Router: aimdb-core/src/router.rs, the dispatch of messages to routes and the filters to subscribe. The
--   routes share key tables: a route names its table by the place in a list of them.
-- MqttGrammar: aimdb-mqtt-connector/src/grammar.rs, the topic filters of MQTT: Compile, Cover and Match
--   are its three operations; Routes puts the grammar under Router.
-- SessionServer: aimdb-core/src/session/server.rs, the frames of one subscription and their numbers: Numbered
--   for their order, Placed for the records they tell of. Delivered puts them before the sinks of
--   SessionClient.
-- SessionClient: aimdb-core/src/session/client.rs, the reconnection of the engine (Backoff, Doubling), in
--   Sinks the sinks that subscriptions are served from and in Calls the table of the calls in flight with
--   the command queue before it. The channels of async-channel are the interfaces Channels and
--   CommandQueue, whose laws are what the crate documents.
--
-- A byte string is a list of numbers. A `u64` of milliseconds wraps where the source adds plainly and
-- saturates where it says so. Loops run on fuel: (n + 2) * (m + 1) rounds for the pattern walk, a round
-- for each byte held and one more for the COBS accumulator, an action each and one more for the
-- drain, and theorems say that these are enough. `recv` has its fuel as an argument.
--
-- Code that is not in the repository is a parameter: the crate `cobs` (`Cobs`, `CobsLaws`), the crate
-- `knx_pico` (`Knx`, its builders and parsers, of which nothing is assumed) and the index map of
-- `heapless` (`IndexMap`, `IndexMapLaws`). A stream is the list of what its reads and writes answer;
-- one that has ended answers so again, and a write that fails may have put part of its chunk out. The
-- examples instantiate each.
--
-- Not modelled: the async runtimes, sockets, logging and event reports, the typed record API and the
-- builder, the handshake and keepalive of the session client, the rest of the session server, code
-- generation, persistence, and the connectors that only call a client library.
pub mod Cdr
pub mod Framed
pub mod Graph
pub mod KeyTable
pub mod MqttGrammar
pub mod Prelude
pub mod Router
pub mod SerialFraming
pub mod SessionClient
pub mod SessionServer
pub mod TcpFraming
pub mod TopicMatch
pub mod TopicPattern
pub mod Tunnel
