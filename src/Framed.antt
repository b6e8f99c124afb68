-- ===== src/Framed.antt =====
-- aimdb-core/src/session/io.rs: a `FramedConnection` is a byte stream and a `Framer`. The stream is
-- what it answers: a list of the results of its reads and one of the results of its writes.
pub mod Receive
pub mod Reassembly
pub mod Send
use aimdb.Prelude.{ℕ, zero, suc, List, [], ◌∷◌, Option, none, some, length, take, drop, Str}

pub data FrameFault : Type 0 where
  recoverable fatal : FrameFault

-- `Option<Result<Vec<u8>, FrameFault>>`
pub data Next : Type 0 where
  pending : Next
  frame : Str → Next
  fault : FrameFault → Next

-- `Result<(), FrameFault>` of `encode`, with the `out` that it leaves behind.
pub data Encoded : Type 0 where
  appended : Str → Encoded
  rejected : FrameFault → Encoded

-- The trait `Framer`, over the state of an implementation.
pub record Framer (S : Type 0) : Type 0 where
  pub encode : S → Str → Str → Encoded
  pub push_bytes : S → Str → S
  pub next_frame : S → Next × S

-- `TransportError`: `io` stands for what a stream reports.
pub data TransportError : Type 0 where
  framing : TransportError
  io : ℕ → TransportError

-- What one `read` returns: bytes (none at the end of the stream), or an error.
pub data Read : Type 0 where
  bytes : Str → Read
  failed : TransportError → Read

-- What `recv` returns. `waiting`: the stream has answered no more reads, so the future is pending.
pub data Received : Type 0 where
  message : Str → Received
  closed : Received
  error : TransportError → Received
  waiting : Received

-- One round of `recv`: an answer, or the state in which the loop goes on.
pub data Step (S : Type 0) : Type 0 where
  answer : Received → S → List Read → Step S
  again : S → List Read → Step S

module _ {S : Type 0} (F : Framer S) where
  -- The part of the round behind the `match`. A stream that has ended answers so again.
  pub read_step : S → List Read → Step S
  read_step s [] = answer waiting s []
  read_step s (bytes [] ∷ reads) = answer closed s (bytes [] ∷ reads)
  read_step s (bytes (b ∷ bs) ∷ reads) = again (F.push_bytes s (b ∷ bs)) reads
  read_step s (failed e ∷ reads) = answer (error e) s reads

  pub match_next : Next × S → List Read → Step S
  match_next (frame f, s) reads = answer (message f) s reads
  match_next (fault recoverable, s) reads = again s reads
  match_next (fault fatal, s) reads = answer (error framing) s reads
  match_next (pending, s) reads = read_step s reads

  -- `recv`; `none` when the fuel runs out.
  pub recv : ℕ → S → List Read → Option (Received × S × List Read)
  unfolding match_next read_step
  recv zero s reads = none
  recv (suc fuel) s reads = elim (match_next (F.next_frame s) reads) [
    | answer r s' reads' ↦ some (r, s', reads')
    | again s' reads' ↦ recv fuel s' reads'
  ]

-- `<[u8]>::chunks(n)`, for `0 < n`; the first argument bounds the number of chunks.
pub chunks_of : ℕ → ℕ → Str → List Str
chunks_of zero n bs = []
chunks_of (suc k) n [] = []
chunks_of (suc k) n (b ∷ bs) = take n (b ∷ bs) ∷ chunks_of k n (drop n (b ∷ bs))

pub chunks : ℕ → Str → List Str
unfolding chunks_of
chunks n bs = chunks_of (length bs) n bs

-- The results of the stream's writes and flushes, in order: a write that fails or stays pending may have
-- put some of its bytes on the wire. A stream that answers no more is pending.
pub data Write : Type 0 where
  written : Write
  write_failed : (sent_bytes : ℕ) → TransportError → Write
  write_waits : (sent_bytes : ℕ) → Write

-- What `send` returns, with what each write put on the wire.
pub data Sent : Type 0 where
  sent : Sent
  send_error : TransportError → Sent
  send_waiting : Sent

pub flush : List Write → Sent
flush [] = send_waiting
flush (written ∷ ws) = sent
flush (write_failed k e ∷ ws) = send_error e
flush (write_waits k ∷ ws) = send_waiting

-- The part of a chunk that got out.
unfoldable pub part : ℕ → Str → List Str
part zero c = []
part (suc k) c = take (suc k) c ∷ []

pub write_chunks : List Str → List Write → Sent × List Str
unfolding flush part
write_chunks [] ws = (flush ws, [])
write_chunks (c ∷ cs) [] = (send_waiting, [])
write_chunks (c ∷ cs) (written ∷ ws) = let (r, out) = write_chunks cs ws in (r, c ∷ out)
write_chunks (c ∷ cs) (write_failed k e ∷ ws) = (send_error e, part k c)
write_chunks (c ∷ cs) (write_waits k ∷ ws) = (send_waiting, part k c)

-- `send`, with `WC` first.
pub send : {S : Type 0} → ℕ → Framer S → S → Str → List Write → Sent × List Str
send wc F s f ws = elim (F.encode s f []) [
  | rejected _ ↦ (send_error framing, [])
  | appended out ↦ write_chunks (chunks wc out) ws
]
