-- ===== src/TcpFraming.antt =====
-- aimdb-tcp-connector/src/framing.rs: frames behind a four-byte length, most significant byte first.
pub mod Stream
pub mod Bounds
mod Tests
use aimdb.Prelude.{
  ℕ, suc, ◌+◌, ◌-◌, ◌*◌, ◌/◌, ◌%◌, ◌^◌, [], ◌∷◌, ◌++◌, length, take, drop, ltb, if◌then◌else◌, Str,
}
use aimdb.Framed.{Framer, Encoded, appended, rejected, Next, pending, fault, recoverable, fatal}
use aimdb.Framed

abbrev pub header_len : ℕ
header_len = 4

abbrev pub default_max_frame : ℕ
default_max_frame = 65536

pub data FrameError : Type 0 where
  too_large length_overflow : FrameError

-- `Option<Result<Vec<u8>, FrameError>>`
pub data Popped : Type 0 where
  need_more : Popped
  payload : Str → Popped
  failed : FrameError → Popped

-- `Result<(), FrameError>` with `out`.
pub data Output : Type 0 where
  ok : Str → Output
  err : FrameError → Output

pub record FrameAccumulator : Type 0 where
  pub buf : Str
  pub max_frame : ℕ

-- `u32::to_be_bytes`
pub to_be_bytes : ℕ → Str
to_be_bytes n = n / 2 ^ 24 ∷ n / 2 ^ 16 % 256 ∷ n / 2 ^ 8 % 256 ∷ n % 256 ∷ []

-- `u32::from_be_bytes` of the first four bytes; there are always four where it is called.
pub from_be_bytes : Str → ℕ
from_be_bytes (a ∷ b ∷ c ∷ d ∷ rest) = a * 2 ^ 24 + b * 2 ^ 16 + c * 2 ^ 8 + d
from_be_bytes _ = 0

pub encode_frame : Str → Str → Output
encode_frame frame out =
    if ltb (2 ^ 32 - 1) (length frame)
    then err length_overflow
    else ok ((out ++ to_be_bytes (length frame)) ++ frame)

pub with_max_frame : ℕ → FrameAccumulator
with_max_frame max_frame = record { buf = []; max_frame = max_frame }

pub push_bytes : FrameAccumulator → Str → FrameAccumulator
push_bytes acc bytes = record acc { buf = acc.buf ++ bytes }

unfoldable pub new : FrameAccumulator
unfolding with_max_frame
new = with_max_frame default_max_frame

abbrev cleared : FrameAccumulator → FrameAccumulator
cleared acc = record acc { buf = [] }

pub record LengthFramer : Type 0 where
  pub acc : FrameAccumulator
  pub max_frame : ℕ

pub framer_with_max_frame : ℕ → LengthFramer
unfolding with_max_frame
framer_with_max_frame n = record { acc = with_max_frame n; max_frame = n }

unfoldable pub framer_new : LengthFramer
unfolding framer_with_max_frame
framer_new = framer_with_max_frame default_max_frame

-- `LengthFramers`, the factory, and its trait method.
pub record LengthFramers : Type 0 where
  pub max_frame : ℕ

unfoldable pub framer : LengthFramers → LengthFramer
unfolding framer_with_max_frame
framer f = framer_with_max_frame f.max_frame

encoded : Output → Encoded
encoded (ok out) = appended out
encoded (err e) = rejected recoverable

pub encode : LengthFramer → Str → Str → Encoded
unfolding encoded
encode s frame out =
    if ltb s.max_frame (length frame)
    then rejected recoverable
    else encoded (encode_frame frame out)

pub to_next : LengthFramer → Popped × FrameAccumulator → Next × LengthFramer
to_next s (need_more, acc) = (pending, record s { acc = acc })
to_next s (payload p, acc) = (Framed.frame p, record s { acc = acc })
to_next s (failed e, acc) = (fault fatal, record s { acc = acc })

-- `usize_max` is the largest `usize` of the target, which bounds `HEADER_LEN.checked_add(len)`.
module _ (usize_max : ℕ) where
  -- `as usize` of a `u32`.
  unfoldable pub as_usize : ℕ → ℕ
  as_usize n = n % suc usize_max

  pub next_frame : FrameAccumulator → Popped × FrameAccumulator
  unfolding as_usize
  next_frame acc =
      let len = as_usize (from_be_bytes acc.buf) in
      if ltb (length acc.buf) header_len
      then (need_more, acc)
      else if ltb acc.max_frame len
      then (failed too_large, cleared acc)
      else if ltb usize_max (header_len + len)
      then (failed length_overflow, cleared acc)
      else if ltb (length acc.buf) (header_len + len)
      then (need_more, acc)
      else (
        payload (take len (drop header_len acc.buf)),
        record acc { buf = drop len (drop header_len acc.buf) },
      )

  -- `LengthFramer` behind the trait.
  pub length_framer : Framer LengthFramer
  unfolding encode to_next
  length_framer = record {
    encode = encode;
    push_bytes = λ s bytes. record s { acc = push_bytes s.acc bytes };
    next_frame = λ s. to_next s (next_frame s.acc);
  }
