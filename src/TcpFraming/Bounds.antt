-- ===== src/TcpFraming/Bounds.antt =====
-- `next_frame` of aimdb-tcp-connector/src/framing.rs holds no more than a frame, and always moves on.
use aimdb.Prelude.{
  ℕ, ◌+◌, ◌≤◌, ◌<◌, ◌≡◌, ap, [], length, length-append, length-take, length-drop, drop, arith,
}
use aimdb.Framed.Receive.{NextShrinks, Shrinks}
use aimdb.TcpFraming.{
  header_len, FrameAccumulator, Popped, need_more, payload, failed, from_be_bytes, push_bytes,
  as_usize, next_frame, LengthFramer, to_next, length_framer,
}

module _ (usize_max : ℕ) where
  -- What a call of `next_frame` on `n` bytes leaves.
  abbrev pub After : ℕ → ℕ → Popped × FrameAccumulator → Type 0
  After n max (need_more, acc) =
      (length acc.buf ≡ n) × (n < header_len + max) × (acc.max_frame ≡ max)
  After n max (payload p, acc) =
      (length p + length acc.buf + header_len ≡ n) × (length p ≤ max) × (acc.max_frame ≡ max)
  After n max (failed e, acc) = (acc.buf ≡ []) × (header_len ≤ n) × (acc.max_frame ≡ max)

  -- While `next_frame` asks for more it holds fewer bytes than the header and the limit; a frame
  -- takes its header and its bytes, and is within the limit; after an error nothing is held.
  length_next_frame-After :
      (acc : FrameAccumulator) → After (length acc.buf) acc.max_frame (next_frame usize_max acc)
  unfolding next_frame
  length_next_frame-After acc =
      let n = as_usize usize_max (from_be_bytes acc.buf) in
      let body = drop header_len acc.buf in
      ground (arith, length-take n body, length-drop n body, length-drop header_len acc.buf)

  to_next_shrinks :
      (s : LengthFramer) (r : Popped × FrameAccumulator)
      → After (length s.acc.buf) s.acc.max_frame r
      → NextShrinks (length_framer usize_max) (λ s. length s.acc.buf) s (to_next s r)
  unfolding to_next
  to_next_shrinks s (need_more, acc) k = omega arith
  to_next_shrinks s (payload p, acc) k = omega arith
  to_next_shrinks s (failed e, acc) k = omega (arith, ap length k.0)

  pub length_framer-Shrinks : Shrinks (length_framer usize_max) (λ s. length s.acc.buf)
  unfolding length_framer push_bytes
  length_framer-Shrinks = record {
    next_shrinks =
        λ s. to_next_shrinks s (next_frame usize_max s.acc) (length_next_frame-After s.acc);
    push_grows = λ s bs. omega (arith, length-append s.acc.buf bs);
  }
