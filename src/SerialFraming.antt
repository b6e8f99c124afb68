-- ===== src/SerialFraming.antt =====
-- aimdb-serial-connector/src/framing.rs: COBS frames between zero bytes. The crate `cobs` is not part
-- of the sources: its two functions are a parameter, and what the code relies on is in `CobsLaws`.
pub mod Cut
pub mod Stream
pub mod Bounds
mod Tests
use aimdb.Prelude.{
  ℕ, zero, suc, ◌≡◌, ◌≢◌, ◌<◌, Bool, true, false, [], ◌∷◌, ◌++◌, Option, none, some, length, take,
  drop, All, ltb, if◌then◌else◌, Str, contains, position,
}
use aimdb.Framed.{Framer, Next, pending, fault, recoverable, appended}
use aimdb.Framed

pub record Cobs : Type 0 where
  pub encode_vec : Str → Str
  pub decode_vec : Str → Option Str

abbrev pub IsBytes : Str → Type 0
IsBytes = All (λ b. b < 256)

abbrev pub delim : ℕ
delim = 0

-- The encoding of bytes holds no delimiter, is not empty, and decodes to what was encoded.
pub record CobsLaws (cobs : Cobs) : Type 0 where
  pub no_delim : (p : Str) → IsBytes p → contains delim (cobs.encode_vec p) ≡ false
  pub not_empty : (p : Str) → IsBytes p → cobs.encode_vec p ≢ []
  pub decode-encode : (p : Str) → IsBytes p → cobs.decode_vec (cobs.encode_vec p) ≡ some p

abbrev pub default_max_frame : ℕ
default_max_frame = 8192

pub record FrameAccumulator : Type 0 where
  pub buf : Str
  pub resyncing : Bool
  pub max_frame : ℕ

-- `Option<Result<Vec<u8>, FrameError>>`
pub data Popped : Type 0 where
  need_more : Popped
  decoded : Str → Popped
  frame_error : Popped

-- A round of the loop of `next_frame` returns or goes on.
pub data Round : Type 0 where
  return : Popped → FrameAccumulator → Round
  continue : FrameAccumulator → Round

pub with_max_frame : ℕ → FrameAccumulator
with_max_frame max_frame = record { buf = []; resyncing = false; max_frame = max_frame }

pub new : FrameAccumulator
new = with_max_frame default_max_frame

pub push_bytes : FrameAccumulator → Str → FrameAccumulator
push_bytes acc bytes = record acc { buf = acc.buf ++ bytes }

pub to_next : Option (Popped × FrameAccumulator) → FrameAccumulator → Next × FrameAccumulator
to_next none acc = (pending, acc)
to_next (some (need_more, acc')) acc = (pending, acc')
to_next (some (decoded p, acc')) acc = (Framed.frame p, acc')
to_next (some (frame_error, acc')) acc = (fault recoverable, acc')

module _ (cobs : Cobs) where
  pub encode_frame : Str → Str → Str
  encode_frame payload out = (out ++ cobs.encode_vec payload) ++ (delim ∷ [])

  decode : Str → Popped
  decode encoded = elim (cobs.decode_vec encoded) [ none ↦ frame_error | some p ↦ decoded p ]

  -- The chunk before a delimiter; an empty one is no frame.
  pub take_chunk : Str → FrameAccumulator → Round
  unfolding decode
  take_chunk [] acc = continue acc
  take_chunk (b ∷ bs) acc = return (decode (b ∷ bs)) acc

  pub delimited : FrameAccumulator → Option ℕ → Round
  unfolding take_chunk
  delimited acc none =
      if ltb acc.max_frame (length acc.buf)
      then return frame_error (record acc { buf = []; resyncing = true })
      else return need_more acc
  delimited acc (some pos) =
      take_chunk (take pos acc.buf) (record acc { buf = drop (suc pos) acc.buf })

  pub frame_phase : FrameAccumulator → Round
  unfolding delimited
  frame_phase acc = delimited acc (position delim acc.buf)

  pub skip_tail : FrameAccumulator → Option ℕ → Round
  unfolding frame_phase
  skip_tail acc none = return need_more (record acc { buf = [] })
  skip_tail acc (some pos) =
      frame_phase (record acc { buf = drop (suc pos) acc.buf; resyncing = false })

  pub round : FrameAccumulator → Round
  unfolding skip_tail frame_phase
  round acc = if acc.resyncing then skip_tail acc (position delim acc.buf) else frame_phase acc

  -- `none` when the fuel runs out.
  pub next_loop : ℕ → FrameAccumulator → Option (Popped × FrameAccumulator)
  next_loop zero acc = none
  next_loop (suc fuel) acc = elim (round acc) [
    | return p acc' ↦ some (p, acc')
    | continue acc' ↦ next_loop fuel acc'
  ]

  -- A round that goes on has dropped a byte.
  pub next_frame : FrameAccumulator → Option (Popped × FrameAccumulator)
  next_frame acc = next_loop (suc (length acc.buf)) acc

  -- `CobsFramer` behind the trait. `next_frame` never runs out of fuel (`Bounds`).
  pub cobs_framer : Framer FrameAccumulator
  unfolding to_next encode_frame
  cobs_framer = record {
    encode = λ acc frame out. appended (encode_frame frame out);
    push_bytes = push_bytes;
    next_frame = λ acc. to_next (next_frame acc) acc;
  }
