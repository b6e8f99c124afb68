-- ===== src/TcpFraming/Stream.antt =====
-- The frames that a `LengthFramer` encoded come back out of another, however the stream cuts them.
use native.Mathlib.Decide.{dec_lt}
use native.Mathlib.Nat.{mod-eq_of_lt}
use aimdb.Prelude.{
  ◌≢◌, ℕ, suc, ◌+◌, ◌^◌, ◌≤◌, ◌<◌, ◌≡◌, refl, ap, ◌∙◌, List, [], ◌∷◌, ◌++◌, append_assoc, some,
  length, length-append, take, drop, All, arith, ltb, if◌then◌else◌, Str,
}
use aimdb.Framed.{appended, closed}
use aimdb.Framed.Reassembly.{
  concat, IsNonempty, reads_of, NextOk, Reassembles, recv_all, recv_all_in-Sync,
}
use aimdb.TcpFraming.{
  header_len, FrameAccumulator, Popped, need_more, payload, to_be_bytes, from_be_bytes,
  encode_frame, push_bytes, as_usize, next_frame, LengthFramer, framer_with_max_frame, encode,
  to_next, encoded, length_framer,
}

-- A `u32` survives the header.
from_be_bytes-to_be_bytes :
    (n : ℕ) (rest : Str) → n < 2 ^ 32 → from_be_bytes (to_be_bytes n ++ rest) ≡ n
unfolding from_be_bytes to_be_bytes
from_be_bytes-to_be_bytes n rest h = omega arith

take-append : (e s : Str) → take (length e) (e ++ s) ≡ e
take-append [] s = refl
take-append (c ∷ e) s = ap (λ r. c ∷ r) (take-append e s)

drop-append : (e s : Str) → drop (length e) (e ++ s) ≡ s
drop-append [] s = refl
drop-append (c ∷ e) s = drop-append e s

-- A beginning of `e ++ s` that is at least as long as `e`.
split_front :
    (e s b rest : Str)
    → b ++ rest ≡ e ++ s
    → length e ≤ length b
    → (b' : Str) × (b ≡ e ++ b') × (b' ++ rest ≡ s)
split_front [] s b rest h le = (b, refl, h)
split_front (d ∷ e) s [] rest h le = absurd (omega arith)
split_front (d ∷ e) s (c ∷ b) rest h le =
    let (b', p, q) = split_front e s b rest (cc h) (omega arith) in (b', cc (h, p), q)

abbrev pub wire : List Str → Str
wire [] = []
wire (f ∷ fs) = to_be_bytes (length f) ++ (f ++ wire fs)

-- What the receiver takes: within its limit, a `u32`, and a length that its `usize` can add up.
abbrev pub Fits : ℕ → ℕ → Str → Type 0
Fits usize_max max f = (length f ≤ max) × (length f < 2 ^ 32) × (header_len + length f ≤ usize_max)

length-to_be_bytes : (n : ℕ) → length (to_be_bytes n) ≡ header_len
unfolding to_be_bytes
length-to_be_bytes n = refl

length-header : (n : ℕ) (b : Str) → length (to_be_bytes n ++ b) ≡ header_len + length b
unfolding to_be_bytes
length-header n b = omega arith

drop-header : (n : ℕ) (b : Str) → drop header_len (to_be_bytes n ++ b) ≡ b
unfolding to_be_bytes
drop-header n b = refl

module _ (usize_max : ℕ) where
  abbrev pub Sync : LengthFramer → Str → List Str → Type 0
  Sync s rest fs = (s.acc.buf ++ rest ≡ wire fs) × All (Fits usize_max s.acc.max_frame) fs

  as_usize_small : (n : ℕ) → n ≤ usize_max → as_usize usize_max n ≡ n
  unfolding as_usize
  as_usize_small n small = mod-eq_of_lt (omega arith)

  next_frame-short :
      (acc : FrameAccumulator)
      → length acc.buf < header_len
      → next_frame usize_max acc ≡ (need_more, acc)
  unfolding next_frame
  next_frame-short acc h = ground arith

  next_frame-header :
      (acc : FrameAccumulator) (f b : Str)
      → acc.buf ≡ to_be_bytes (length f) ++ b
      → Fits usize_max acc.max_frame f
      → next_frame usize_max acc ≡ (
          if ltb (length b) (length f)
          then (need_more, acc)
          else (payload (take (length f) b), record acc { buf = drop (length f) b }))
  unfolding next_frame
  next_frame-header acc f b e fits = ground (
    arith,
    ap (as_usize usize_max) (ap from_be_bytes e ∙ from_be_bytes-to_be_bytes (length f) b fits.1)
        ∙ as_usize_small (length f) (omega (arith, fits)),
    ap length e ∙ length-header (length f) b,
    ap (drop header_len) e ∙ drop-header (length f) b,
  )

  append_nil : (b r : Str) → b ++ r ≡ [] → b ≡ []
  append_nil [] r h = refl
  append_nil (c ∷ b) r h = absurd (cc)

  too_short :
      (n : ℕ) (b rest s : Str)
      → b ++ rest ≡ to_be_bytes n ++ s
      → length b < header_len + length s
      → rest ≢ []
  too_short n b rest s h l e =
      omega (arith, ap length h, length-append b rest, length-header n s, ap length e)

  next_ok :
      (s : LengthFramer) (rest : Str) (fs : List Str) (r : Popped × FrameAccumulator)
      → next_frame usize_max s.acc ≡ r
      → NextOk (length_framer usize_max) Sync rest fs (to_next s r)
      → NextOk (length_framer usize_max) Sync rest fs ((length_framer usize_max).next_frame s)
  unfolding length_framer
  next_ok s rest fs r e k = rw e k

  next-Sync :
      (s : LengthFramer) (rest : Str) (fs : List Str)
      → Sync s rest fs
      → NextOk (length_framer usize_max) Sync rest fs ((length_framer usize_max).next_frame s)
  unfolding to_next
  next-Sync s rest [] (e, fits) =
      next_ok s rest [] _
        (next_frame-short s.acc (omega (arith, ap length (append_nil s.acc.buf rest e))))
        ((e, fits), λ _. refl)
  next-Sync s rest (f ∷ fs) (e, (fit, fits)) = elim (dec_lt (length s.acc.buf) header_len) [
    | yes short ↦ next_ok s rest (f ∷ fs) _ (next_frame-short s.acc short) (
      (e, (fit, fits)),
      λ h. absurd (too_short (length f) s.acc.buf rest (f ++ wire fs) e (omega arith) h),
    )
    | no long ↦
        let (b, p, q) =
          split_front (to_be_bytes (length f)) (f ++ wire fs) s.acc.buf rest e
            (omega (arith, long, length-to_be_bytes (length f))) in
        elim (dec_lt (length b) (length f)) [
          | yes part ↦
              next_ok s rest (f ∷ fs) (need_more, s.acc)
                (next_frame-header s.acc f b p fit ∙ ground arith)
                (
                  (e, (fit, fits)),
                  λ h. absurd (
                      omega (
                        arith,
                        ap length q,
                        length-append b rest,
                        length-append f (wire fs),
                        ap length h,
                      )),
                )
          | no whole ↦
              let (b', p', q') = split_front f (wire fs) b rest q (omega arith) in
              next_ok s rest (f ∷ fs) (payload f, record (s.acc) { buf = b' })
                (next_frame-header s.acc f b p fit
                  ∙ ground (
                    arith,
                    ap (take (length f)) p' ∙ take-append f b',
                    ap (drop (length f)) p' ∙ drop-append f b',
                  ))
                (refl, (q', fits))
        ]
  ]

  -- The length framer keeps what a connection needs to deliver the frames.
  pub length_framer-Reassembles : Reassembles (length_framer usize_max) Sync
  unfolding length_framer push_bytes
  length_framer-Reassembles = record {
    push-Sync = λ s c rest fs y. (append_assoc s.acc.buf c rest ∙ y.0, y.1);
    next-Sync = next-Sync;
  }

  -- What the sender's framer writes for the frames, one after another.
  abbrev pub SentAs : LengthFramer → List Str → Str → Type 0
  SentAs s [] w = w ≡ []
  SentAs s (f ∷ fs) w =
      (out : Str) × (w' : Str) × (encode s f [] ≡ appended out) × (w ≡ out ++ w') × SentAs s fs w'

  encode-appended :
      (s : LengthFramer) (f : Str) {out : Str}
      → encode s f [] ≡ appended out
      → (out ≡ to_be_bytes (length f) ++ f) × (length f ≤ s.max_frame) × (length f < 2 ^ 32)
  unfolding encode encode_frame encoded
  encode-appended s f e = ground arith

  sent-wire :
      (s : LengthFramer) (fs : List Str) (w : Str)
      → SentAs s fs w
      → (w ≡ wire fs) × All (λ f. (length f ≤ s.max_frame) × (length f < 2 ^ 32)) fs
  sent-wire s [] w k = (k, tt)
  sent-wire s (f ∷ fs) w (out, w', e, p, k) =
      let (q, small, u32) = encode-appended s f e in
      let (r, fits) = sent-wire s fs w' k in
      (cc (p, q, r, append_assoc (to_be_bytes (length f)) f (wire fs)), ((small, u32), fits))

  fitting :
      (max m : ℕ) (fs : List Str)
      → max ≤ m
      → header_len + m ≤ usize_max
      → All (λ f. (length f ≤ max) × (length f < 2 ^ 32)) fs
      → All (Fits usize_max m) fs
  fitting max m [] le h k = tt
  fitting max m (f ∷ fs) le h k = (omega arith, fitting max m fs le h k.1)

  -- Whatever frames a sender's framer accepts, a fresh framer with the same limit or a larger one
  -- gives back in order and each once, in whatever chunks, but empty ones, their bytes arrive.
  pub length_delivery :
      (max m : ℕ) (fs chunks : List Str)
      → max ≤ m
      → header_len + m ≤ usize_max
      → SentAs (framer_with_max_frame max) fs (concat chunks)
      → All IsNonempty chunks
      → recv_all
          (length_framer usize_max)
          (suc (length fs))
          (length chunks + 2)
          (framer_with_max_frame m)
          (reads_of chunks)
        ≡ some (fs, closed)
  unfolding framer_with_max_frame
  length_delivery max m fs chunks le h k ne =
      let (w, fits) = sent-wire _ fs (concat chunks) k in
      recv_all_in-Sync (length_framer usize_max) Sync length_framer-Reassembles (suc (length fs))
        (length chunks + 2) _ chunks fs (w, fitting max m fs le h fits) ne (omega arith)
        (omega arith)
