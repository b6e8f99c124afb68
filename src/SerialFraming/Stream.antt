-- ===== src/SerialFraming/Stream.antt =====
-- The frames that `encode_frame` wrote come back out of the accumulator, however the stream cuts
-- them; after an overflow, from the next delimiter on.
use aimdb.Prelude.{
  map, ℕ, suc, ◌+◌, ◌≤◌, ◌≡◌, refl, sym, ap, ◌∙◌, ◌≢◌, ◌⊎◌, inl, inr, List, true, false, [], ◌∷◌,
  ◌++◌, append_assoc, some, length, length-append, All, arith, Str, contains,
}
use aimdb.Framed.{closed}
use aimdb.Framed.Reassembly.{
  concat, IsNonempty, reads_of, NextOk, Reassembles, recv_all, recv_all_in-Sync,
}
use aimdb.SerialFraming.{
  Cobs, CobsLaws, IsBytes, delim, FrameAccumulator, Popped, need_more, decoded, return, push_bytes,
  encode_frame, decode, take_chunk, delimited, frame_phase, skip_tail, round, next_loop, next_frame,
  to_next, cobs_framer, with_max_frame,
}
use aimdb.SerialFraming.Cut.{
  contains-append, position-none, position-first, take-length, drop-length, before, beyond, cut,
}

module _ (cobs : Cobs) where
  -- What a peer writes for the frames: `encode_frame` into one buffer after another.
  abbrev pub wire : List Str → Str
  wire [] = []
  wire (f ∷ fs) = cobs.encode_vec f ++ (delim ∷ wire fs)

  -- A frame of bytes whose encoding the receiver accepts.
  abbrev pub Fits : ℕ → Str → Type 0
  Fits max f = IsBytes f × (length (cobs.encode_vec f) ≤ max)

  round-need_more :
      (acc : FrameAccumulator)
      → acc.resyncing ≡ false
      → contains delim acc.buf ≡ false
      → length acc.buf ≤ acc.max_frame
      → round cobs acc ≡ return need_more acc
  unfolding round delimited
  round-need_more acc r h l = rw (r, position-none delim acc.buf h) (ground arith)

  round-decoded :
      (acc : FrameAccumulator) (e b p : Str)
      → acc.resyncing ≡ false
      → acc.buf ≡ e ++ (delim ∷ b)
      → contains delim e ≡ false
      → e ≢ []
      → cobs.decode_vec e ≡ some p
      → round cobs acc ≡ return (decoded p) (record acc { buf = b })
  unfolding round delimited take_chunk decode
  round-decoded acc [] b p r h n ne d = absurd (ne refl)
  round-decoded acc (c ∷ e) b p r h n ne d =
      rw
        (
          r,
          h,
          position-first (c ∷ e) b n,
          take-length (c ∷ e) (delim ∷ b),
          drop-length delim (c ∷ e) b,
        )
        (rw (d, decode))

  round-skipped :
      (acc : FrameAccumulator)
      → acc.resyncing ≡ true
      → contains delim acc.buf ≡ false
      → round cobs acc ≡ return need_more (record acc { buf = [] })
  unfolding round skip_tail
  round-skipped acc r h = rw (r, position-none delim acc.buf h)

  round-resumed :
      (acc : FrameAccumulator) (j b : Str)
      → acc.resyncing ≡ true
      → acc.buf ≡ j ++ (delim ∷ b)
      → contains delim j ≡ false
      → round cobs acc ≡ round cobs (record acc { buf = b; resyncing = false })
  unfolding round skip_tail
  round-resumed acc j b r h n =
      rw (r, h, position-first j b n, drop-length delim j b) (unfold frame_phase in refl)

  next_frame-return :
      (acc acc' : FrameAccumulator) (p : Popped)
      → round cobs acc ≡ return p acc'
      → next_frame cobs acc ≡ some (p, acc')
  unfolding next_frame next_loop
  next_frame-return acc acc' p e = rw (e, next_loop)

  -- In step: the buffer and what is still to arrive make up the encodings of the frames still due,
  -- while resyncing behind the tail of an abandoned frame.
  abbrev pub Sync : FrameAccumulator → Str → List Str → Type 0
  Sync acc rest fs =
      ((acc.resyncing ≡ false) × (acc.buf ++ rest ≡ wire fs)
        ⊎ (acc.resyncing ≡ true)
          × ((tail : Str) × (contains delim tail ≡ false)
              × (acc.buf ++ rest ≡ tail ++ (delim ∷ wire fs))))
      × All (Fits acc.max_frame) fs

  push-Sync :
      (acc : FrameAccumulator) (c rest : Str) (fs : List Str)
      → Sync acc (c ++ rest) fs
      → Sync (push_bytes acc c) rest fs
  unfolding push_bytes
  push-Sync acc c rest fs (inl (r, e), fits) = (inl (r, append_assoc acc.buf c rest ∙ e), fits)
  push-Sync acc c rest fs (inr (r, (tail, n, e)), fits) =
      (inr (r, (tail, n, append_assoc acc.buf c rest ∙ e)), fits)

  next_ok :
      (acc acc' : FrameAccumulator) (p : Popped) (rest : Str) (fs : List Str)
      → round cobs acc ≡ return p acc'
      → NextOk (cobs_framer cobs) Sync rest fs (to_next (some (p, acc')) acc)
      → NextOk (cobs_framer cobs) Sync rest fs ((cobs_framer cobs).next_frame acc)
  unfolding cobs_framer
  next_ok acc acc' p rest fs e k = rw (next_frame-return acc acc' p e) k

  no_delim_before :
      (e b r : Str)
      → contains delim e ≡ false
      → e ≡ b ++ r
      → (contains delim b ≡ false) × (contains delim r ≡ false) × (length b ≤ length e)
  no_delim_before e b r n h =
      ground
        (arith, contains-append delim b r, ap length h, length-append b r, ap (contains delim) h)

  append_nil_parts : (b r : Str) → b ++ r ≡ [] → (b ≡ []) × (r ≡ [])
  append_nil_parts [] r h = (refl, h)
  append_nil_parts (c ∷ b) r h = absurd (cc)

  not_nil : (tail s : Str) → tail ++ (delim ∷ s) ≡ [] → ⊥
  not_nil [] s h = cc
  not_nil (c ∷ tail) s h = cc

  module _ (laws : CobsLaws cobs) where
    framed_ok :
        (acc acc0 : FrameAccumulator) (rest : Str) (fs : List Str)
        → acc.resyncing ≡ false
        → acc.buf ++ rest ≡ wire fs
        → All (Fits acc.max_frame) fs
        → round cobs acc0 ≡ round cobs acc
        → NextOk (cobs_framer cobs) Sync rest fs ((cobs_framer cobs).next_frame acc0)
    unfolding to_next contains
    framed_ok acc acc0 rest [] r e fits same =
        let (b, n) = append_nil_parts acc.buf rest e in
        next_ok acc0 acc need_more rest []
          (same ∙ round-need_more acc r (rw b) (rw b (omega arith))) ((inl (r, e), fits), λ _. refl)
    framed_ok acc acc0 rest (f ∷ fs) r e ((bs, le), fits) same =
        elim (cut (cobs.encode_vec f) (wire fs) acc.buf rest e) [
          | before tail p q ↦
              let (n, _, l) =
                no_delim_before (cobs.encode_vec f) acc.buf tail (laws.no_delim f bs) p in
              next_ok acc0 acc need_more rest (f ∷ fs)
                (same ∙ round-need_more acc r n (omega arith))
                ((inl (r, e), ((bs, le), fits)), λ h. absurd (not_nil tail (wire fs) (sym q ∙ h)))
          | beyond b p q ↦
              next_ok acc0 (record acc { buf = b }) (decoded f) rest (f ∷ fs)
                (same
                  ∙ round-decoded acc (cobs.encode_vec f) b f r p (laws.no_delim f bs)
                      (laws.not_empty f bs) (laws.decode-encode f bs))
                (refl, (inl (r, q), fits))
        ]

    next-Sync :
        (acc : FrameAccumulator) (rest : Str) (fs : List Str)
        → Sync acc rest fs
        → NextOk (cobs_framer cobs) Sync rest fs ((cobs_framer cobs).next_frame acc)
    unfolding to_next
    next-Sync acc rest fs (inl (r, e), fits) = framed_ok acc acc rest fs r e fits refl
    next-Sync acc rest fs (inr (r, (tail, n, e)), fits) = elim (cut tail (wire fs) acc.buf rest e) [
      | before t p q ↦
          let (n', nt, _) = no_delim_before tail acc.buf t n p in
          next_ok acc (record acc { buf = [] }) need_more rest fs (round-skipped acc r n')
            ((inr (r, (t, nt, q)), fits), λ h. absurd (not_nil t (wire fs) (sym q ∙ h)))
      | beyond b p q ↦
          framed_ok (record acc { buf = b; resyncing = false }) acc rest fs refl q fits
            (round-resumed acc tail b r p n)
    ]

    -- The COBS framer keeps what a connection needs to deliver the frames, also while it resyncs.
    pub cobs_framer-Reassembles : Reassembles (cobs_framer cobs) Sync
    unfolding cobs_framer
    cobs_framer-Reassembles = record { push-Sync = push-Sync; next-Sync = next-Sync }

    encoded-wire : (fs : List Str) → concat (map (λ f. encode_frame cobs f []) fs) ≡ wire fs
    unfolding encode_frame
    encoded-wire [] = refl
    encoded-wire (f ∷ fs) =
        append_assoc (cobs.encode_vec f) (delim ∷ []) _
        ∙ ap (λ r. cobs.encode_vec f ++ (delim ∷ r)) (encoded-wire fs)

    -- Frames of bytes that fit, written one after another and read from a fresh accumulator in
    -- chunks of any length but none, are received in order and each once.
    pub cobs_delivery :
        (max : ℕ) (fs chunks : List Str)
        → All (Fits max) fs
        → All IsNonempty chunks
        → concat chunks ≡ concat (map (λ f. encode_frame cobs f []) fs)
        → recv_all
            (cobs_framer cobs)
            (suc (length fs))
            (length chunks + 2)
            (with_max_frame max)
            (reads_of chunks)
          ≡ some (fs, closed)
    unfolding with_max_frame
    cobs_delivery max fs chunks fits ne e =
        recv_all_in-Sync (cobs_framer cobs) Sync cobs_framer-Reassembles (suc (length fs))
          (length chunks + 2) _ chunks fs (inl (refl, e ∙ encoded-wire fs), fits) ne (omega arith)
          (omega arith)

    -- An accumulator that has dropped an oversized run skips the rest of it, up to a delimiter, and
    -- then receives the frames behind it, in order and each once.
    pub cobs_resync :
        (acc : FrameAccumulator) (tail : Str) (fs chunks : List Str)
        → acc.resyncing ≡ true
        → acc.buf ≡ []
        → contains delim tail ≡ false
        → All (Fits acc.max_frame) fs
        → All IsNonempty chunks
        → concat chunks ≡ tail ++ (delim ∷ concat (map (λ f. encode_frame cobs f []) fs))
        → recv_all (cobs_framer cobs) (suc (length fs)) (length chunks + 2) acc (reads_of chunks)
          ≡ some (fs, closed)
    cobs_resync acc tail fs chunks r b n fits ne e =
        recv_all_in-Sync (cobs_framer cobs) Sync cobs_framer-Reassembles (suc (length fs))
          (length chunks + 2) acc chunks fs (inr (r, (tail, n, cc (b, e, encoded-wire fs))), fits)
          ne (omega arith) (omega arith)
