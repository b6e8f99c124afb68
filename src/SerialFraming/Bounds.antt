-- ===== src/SerialFraming/Bounds.antt =====
-- `next_frame` always returns, and holds on to no more than `max_frame` bytes.
use aimdb.Prelude.{
  ℕ, zero, suc, ◌≤◌, ◌<◌, ◌≡◌, refl, inl, inr, false, [], ◌∷◌, Option, none, some, length,
  length-append, length-drop, take, drop, arith, Bool-cases, Option-cases, Str, position,
}
use aimdb.Framed.Receive.{NextShrinks, Shrinks}
use aimdb.SerialFraming.{
  Cobs, delim, FrameAccumulator, Popped, need_more, decoded, frame_error, Round, return, continue,
  push_bytes, decode, take_chunk, delimited, skip_tail, round, next_loop, next_frame, to_next,
  cobs_framer,
}

position-lt : (b : ℕ) (s : Str) {i : ℕ} → position b s ≡ some i → i < length s
unfolding position
position-lt b [] h = absurd (cc)
position-lt b (c ∷ s) h = elim (Option-cases (position b s)) [
  | inl e ↦ ground arith
  | inr (j, e) ↦ ground (arith, position-lt b s e)
]

-- What a round, or a call, leaves of `n` bytes and the limit `max`.
abbrev pub After : ℕ → ℕ → Popped × FrameAccumulator → Type 0
After n max (need_more, acc) = (acc.max_frame ≡ max) × (length acc.buf ≤ max) × (length acc.buf ≤ n)
After n max (decoded p, acc) = (acc.max_frame ≡ max) × (length acc.buf < n)
After n max (frame_error, acc) = (acc.max_frame ≡ max) × (length acc.buf < n)

abbrev RoundAfter : ℕ → ℕ → Round → Type 0
RoundAfter n max (return p acc) = After n max (p, acc)
RoundAfter n max (continue acc) = (acc.max_frame ≡ max) × (length acc.buf < n)

module _ (cobs : Cobs) where
  take_chunk_after :
      (n max : ℕ) (encoded : Str) (acc : FrameAccumulator)
      → acc.max_frame ≡ max
      → length acc.buf < n
      → RoundAfter n max (take_chunk cobs encoded acc)
  unfolding take_chunk decode
  take_chunk_after n max [] acc m h = (m, h)
  take_chunk_after n max (b ∷ bs) acc m h = elim (Option-cases (cobs.decode_vec (b ∷ bs))) [
    | inl e ↦ rw (e, decode) (m, h)
    | inr (p, e) ↦ rw (e, decode) (m, h)
  ]

  delimited_after :
      (n : ℕ) (acc : FrameAccumulator) (o : Option ℕ)
      → position delim acc.buf ≡ o
      → length acc.buf ≤ n
      → RoundAfter n acc.max_frame (delimited cobs acc o)
  unfolding delimited
  delimited_after n acc none e h = ground arith
  delimited_after n acc (some i) e h =
      take_chunk_after n acc.max_frame (take i acc.buf) _ refl
        (omega (arith, length-drop (suc i) acc.buf, position-lt delim acc.buf e))

  skip_tail_after :
      (n : ℕ) (acc : FrameAccumulator) (o : Option ℕ)
      → position delim acc.buf ≡ o
      → length acc.buf ≤ n
      → RoundAfter n acc.max_frame (skip_tail cobs acc o)
  unfolding skip_tail
  skip_tail_after n acc none e h = omega arith
  skip_tail_after n acc (some i) e h =
      delimited_after n (record acc { buf = drop (suc i) acc.buf; resyncing = false }) _ refl
        (omega (arith, length-drop (suc i) acc.buf))

  round_after :
      (acc : FrameAccumulator) → RoundAfter (length acc.buf) acc.max_frame (round cobs acc)
  unfolding round
  round_after acc = elim (Bool-cases acc.resyncing) [
    | inl r ↦ simp r (skip_tail_after (length acc.buf) acc _ refl (omega arith))
    | inr r ↦ simp r (delimited_after (length acc.buf) acc _ refl (omega arith))
  ]

  -- What a call answers.
  abbrev pub CallAfter : FrameAccumulator → Option (Popped × FrameAccumulator) → Type 0
  CallAfter acc none = ⊥
  CallAfter acc (some r) = After (length acc.buf) acc.max_frame r

  After-mono : (n m max : ℕ) (r : Popped × FrameAccumulator) → n ≤ m → After n max r → After m max r
  After-mono n m max (need_more, acc) le k = omega arith
  After-mono n m max (decoded p, acc) le k = omega arith
  After-mono n m max (frame_error, acc) le k = omega arith

  after_round :
      (fuel : ℕ)
      → ((acc : FrameAccumulator) → length acc.buf < fuel → CallAfter acc (next_loop cobs fuel acc))
      → (acc : FrameAccumulator) (r : Round) → RoundAfter (length acc.buf) acc.max_frame r
      → length acc.buf < suc fuel
      → CallAfter acc (elim r as (λ _. Option (Popped × FrameAccumulator)) [
        | return p acc' ↦ some (p, acc')
        | continue acc' ↦ next_loop cobs fuel acc'
      ])
  after_round fuel ih acc (return p acc') k h = k
  after_round fuel ih acc (continue acc') k h =
      widen (next_loop cobs fuel acc') (ih acc' (omega arith))
    where
      widen : (o : Option (Popped × FrameAccumulator)) → CallAfter acc' o → CallAfter acc o
      widen none c = c
      widen (some r) c =
          rw (← k.0)
            (After-mono (length acc'.buf) (length acc.buf) acc'.max_frame r (omega arith) c)

  next_loop_after :
      (fuel : ℕ) (acc : FrameAccumulator)
      → length acc.buf < fuel
      → CallAfter acc (next_loop cobs fuel acc)
  unfolding next_loop
  next_loop_after zero acc h = absurd (omega arith)
  next_loop_after (suc fuel) acc h =
      after_round fuel (next_loop_after fuel) acc (round cobs acc) (round_after acc) h

  -- On every buffer `next_frame` returns, and leaves the limit as it was. Where it asks for more it
  -- holds at most `max_frame` bytes; a frame or an error has taken at least one byte.
  pub cobs_next_frame-CallAfter : (acc : FrameAccumulator) → CallAfter acc (next_frame cobs acc)
  unfolding next_frame
  cobs_next_frame-CallAfter acc = next_loop_after (suc (length acc.buf)) acc (omega arith)

  to_next_shrinks :
      (acc : FrameAccumulator) (o : Option (Popped × FrameAccumulator))
      → CallAfter acc o
      → NextShrinks (cobs_framer cobs) (λ acc. length acc.buf) acc (to_next o acc)
  unfolding to_next
  to_next_shrinks acc none k = absurd k
  to_next_shrinks acc (some (need_more, acc')) k = omega arith
  to_next_shrinks acc (some (decoded p, acc')) k = omega arith
  to_next_shrinks acc (some (frame_error, acc')) k = omega arith

  -- So a connection over this framer ends each `recv`.
  pub cobs_framer-Shrinks : Shrinks (cobs_framer cobs) (λ acc. length acc.buf)
  unfolding cobs_framer push_bytes
  cobs_framer-Shrinks = record {
    next_shrinks = λ acc. to_next_shrinks acc (next_frame cobs acc) (cobs_next_frame-CallAfter acc);
    push_grows = λ acc bs. omega (arith, length-append acc.buf bs);
  }
