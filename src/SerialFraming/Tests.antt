-- ===== src/SerialFraming/Tests.antt =====
-- Examples for the COBS framer, with a small encoding that keeps the laws of COBS: a leading 2, and
-- each byte moved up by one.
use aimdb.Prelude.{
  zero, suc, ◌≡◌, ap, refl, List, [], ◌∷◌, ◌++◌, true, false, Option, none, some, map, arith, Str,
  contains,
}
use aimdb.Framed.{closed}
use aimdb.Framed.Reassembly.{concat, reads_of, recv_all}
use aimdb.SerialFraming.{
  Cobs, CobsLaws, delim, FrameAccumulator, encode_frame, next_frame, cobs_framer, with_max_frame,
}
use aimdb.SerialFraming.Stream.{cobs_delivery, cobs_resync}
use aimdb.SerialFraming.Bounds.{CallAfter, cobs_next_frame-CallAfter}

abbrev down : Str → Str
down [] = []
down (zero ∷ s) = zero ∷ down s
down (suc n ∷ s) = n ∷ down s

abbrev up : Str → Str
up [] = []
up (b ∷ s) = suc b ∷ up s

abbrev shifted : Str → Option Str
shifted [] = none
shifted (b ∷ s) = some (down s)

abbrev shift : Cobs
shift = record { encode_vec = λ p. 2 ∷ up p; decode_vec = shifted }

up-delim : (p : Str) → contains delim (up p) ≡ false
unfolding contains
up-delim [] = refl
up-delim (b ∷ p) = ground (arith, up-delim p)

down-up : (p : Str) → down (up p) ≡ p
down-up [] = refl
down-up (b ∷ p) = ap (λ s. b ∷ s) (down-up p)

shift-CobsLaws : CobsLaws shift
unfolding contains
shift-CobsLaws = record {
  no_delim = λ p bytes. up-delim p;
  not_empty = λ p bytes e. ground arith;
  decode-encode = λ p bytes. ap some (down-up p);
}

abbrev two_frames : List Str
two_frames = (7 ∷ 0 ∷ []) ∷ (9 ∷ []) ∷ []

-- The second chunk holds the end of the first frame and the second but its delimiter.
abbrev pieces : List Str
pieces = (2 ∷ 8 ∷ []) ∷ (1 ∷ 0 ∷ 2 ∷ 10 ∷ []) ∷ (0 ∷ []) ∷ []

abbrev lost_piece : List Str
lost_piece = (5 ∷ 5 ∷ []) ∷ (5 ∷ 0 ∷ 2 ∷ 8 ∷ 1 ∷ 0 ∷ []) ∷ (2 ∷ 10 ∷ 0 ∷ []) ∷ []

abbrev skipping : FrameAccumulator
skipping = record { buf = []; resyncing = true; max_frame = 8 }

pieces-wire : concat pieces ≡ concat (map (λ f. encode_frame shift f []) two_frames)
unfolding encode_frame
pieces-wire = refl

lost_piece-wire :
    concat lost_piece
    ≡ (5 ∷ 5 ∷ 5 ∷ []) ++ (delim ∷ concat (map (λ f. encode_frame shift f []) two_frames))
unfolding encode_frame
lost_piece-wire = refl

cobs_delivery_example :
    recv_all (cobs_framer shift) 3 5 (with_max_frame 8) (reads_of pieces)
    ≡ some (two_frames, closed)
cobs_delivery_example =
    cobs_delivery shift shift-CobsLaws 8 two_frames pieces
      (((omega arith, (omega arith, tt)), omega arith), (((omega arith, tt), omega arith), tt))
      (tt, (tt, (tt, tt))) pieces-wire

no_delim_tail : contains delim (5 ∷ 5 ∷ 5 ∷ []) ≡ false
unfolding contains
no_delim_tail = refl

cobs_resync_example :
    recv_all (cobs_framer shift) 3 5 skipping (reads_of lost_piece) ≡ some (two_frames, closed)
cobs_resync_example =
    cobs_resync shift shift-CobsLaws skipping (5 ∷ 5 ∷ 5 ∷ []) two_frames lost_piece refl refl
      no_delim_tail
      (((omega arith, (omega arith, tt)), omega arith), (((omega arith, tt), omega arith), tt))
      (tt, (tt, (tt, tt))) lost_piece-wire

cobs_next_frame-CallAfter_example : CallAfter shift skipping (next_frame shift skipping)
cobs_next_frame-CallAfter_example = cobs_next_frame-CallAfter shift skipping
