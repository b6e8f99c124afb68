-- ===== src/TcpFraming/Tests.antt =====
-- Examples for the length framer, and for a connection over it.
use aimdb.Prelude.{
  ℕ, ◌-◌, ◌^◌, ◌≡◌, ◌≢◌, ◌⊎◌, refl, List, [], ◌∷◌, ◌++◌, some, length, arith, Str, All,
}
use aimdb.Framed.{
  appended, Read, bytes, failed, framing, Received, recv, closed, Write, written, write_failed,
  send, sent,
}
use aimdb.Framed.Reassembly.{concat, reads_of, recv_all}
use aimdb.Framed.Receive.{recv_total}
use aimdb.Framed.Send.{IsChunk, send_wire}
use aimdb.TcpFraming.{
  to_be_bytes, FrameAccumulator, LengthFramer, framer_with_max_frame, encode_frame, encode,
  length_framer,
}
use aimdb.TcpFraming.Stream.{SentAs, length_delivery}
use aimdb.TcpFraming.Bounds.{length_framer-Shrinks}

abbrev word : ℕ
word = 2 ^ 32 - 1

abbrev two_frames : List Str
two_frames = (7 ∷ 8 ∷ []) ∷ [] ∷ []

-- The header of the first frame comes in two pieces, and the second frame is empty.
abbrev pieces : List Str
pieces = (0 ∷ 0 ∷ []) ∷ (0 ∷ 2 ∷ 7 ∷ 8 ∷ 0 ∷ 0 ∷ []) ∷ (0 ∷ 0 ∷ []) ∷ []

pieces-SentAs : SentAs word (framer_with_max_frame 16) two_frames (concat pieces)
unfolding encode encode_frame framer_with_max_frame to_be_bytes
pieces-SentAs = (
  0 ∷ 0 ∷ 0 ∷ 2 ∷ 7 ∷ 8 ∷ [],
  0 ∷ 0 ∷ 0 ∷ 0 ∷ [],
  refl,
  refl,
  (0 ∷ 0 ∷ 0 ∷ 0 ∷ [], [], refl, refl, refl),
)

length_delivery_example :
    recv_all (length_framer word) 3 5 (framer_with_max_frame 32) (reads_of pieces)
    ≡ some (two_frames, closed)
length_delivery_example =
    length_delivery word 16 32 two_frames pieces (omega arith) (omega arith) pieces-SentAs
      (tt, (tt, (tt, tt)))

abbrev half_read : FrameAccumulator
half_read = record { buf = 0 ∷ 0 ∷ 0 ∷ 2 ∷ 7 ∷ []; max_frame = 16 }

abbrev fresh : LengthFramer
fresh = record { acc = record { buf = []; max_frame = 16 }; max_frame = 16 }

abbrev broken : List Read
broken = bytes (0 ∷ 0 ∷ []) ∷ failed framing ∷ []

recv_total_example :
    (r : Received × LengthFramer × List Read) × (recv (length_framer word) 9 fresh broken ≡ some r)
recv_total_example =
    recv_total (length_framer word) (λ s. length s.acc.buf) (length_framer-Shrinks word) 9 fresh
      broken (omega arith)

fresh-encode :
    (length_framer word).encode fresh (7 ∷ 8 ∷ []) [] ≡ appended (0 ∷ 0 ∷ 0 ∷ 2 ∷ 7 ∷ 8 ∷ [])
unfolding length_framer encode encode_frame to_be_bytes
fresh-encode = refl

abbrev third_write_fails : List Write
third_write_fails = written ∷ written ∷ write_failed 1 framing ∷ []

send_wire_example :
    (rest : Str) × (concat (send 2 (length_framer word) fresh (7 ∷ 8 ∷ []) third_write_fails).1
        ++ rest
      ≡ 0 ∷ 0 ∷ 0 ∷ 2 ∷ 7 ∷ 8 ∷ [])
    × ((rest ≡ []) ⊎ ((send 2 (length_framer word) fresh (7 ∷ 8 ∷ []) third_write_fails).0 ≢ sent))
    × All (IsChunk 2) (send 2 (length_framer word) fresh (7 ∷ 8 ∷ []) third_write_fails).1
send_wire_example =
    send_wire (length_framer word) 2 fresh (7 ∷ 8 ∷ []) (0 ∷ 0 ∷ 0 ∷ 2 ∷ 7 ∷ 8 ∷ [])
      third_write_fails (omega arith) fresh-encode
