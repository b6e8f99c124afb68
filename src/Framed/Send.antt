-- ===== src/Framed/Send.antt =====
-- What `send` puts on the wire.
use aimdb.Prelude.{
  ◌⊎◌, ◌≢◌, inl, inr, ℕ, zero, suc, ◌≤◌, ◌<◌, ◌≡◌, refl, ap, sym, ◌∙◌, List, [], ◌∷◌, ◌++◌,
  append_assoc, length, take, drop, take-append-drop, length-drop, length-take, append-nil, arith,
  Str, All,
}
use aimdb.Framed.{
  Framer, appended, Write, written, write_failed, write_waits, part, Sent, sent, send_error,
  send_waiting, flush, chunks_of, chunks, write_chunks, send,
}
use aimdb.Framed.Reassembly.{concat}

-- Bytes of no write: the chunk is at most `n` long, and not empty.
abbrev pub IsChunk : ℕ → Str → Type 0
IsChunk n c = (0 < length c) × (length c ≤ n)

length-take_le : (n : ℕ) (bs : Str) → length (take n bs) ≤ n
length-take_le zero bs = omega arith
length-take_le (suc n) [] = omega arith
length-take_le (suc n) (b ∷ bs) = omega (arith, length-take_le n bs)

concat-chunks_of : (k n : ℕ) (bs : Str) → 0 < n → length bs ≤ k → concat (chunks_of k n bs) ≡ bs
unfolding chunks_of
concat-chunks_of zero n [] h l = refl
concat-chunks_of zero n (b ∷ bs) h l = absurd (omega arith)
concat-chunks_of (suc k) n [] h l = refl
concat-chunks_of (suc k) n (b ∷ bs) h l =
    ap (λ r. take n (b ∷ bs) ++ r)
      (concat-chunks_of k n (drop n (b ∷ bs)) h (omega (arith, length-drop n (b ∷ bs))))
    ∙ take-append-drop n (b ∷ bs)

chunks_of-All : (k n : ℕ) (bs : Str) → 0 < n → All (IsChunk n) (chunks_of k n bs)
unfolding chunks_of
chunks_of-All zero n bs h = tt
chunks_of-All (suc k) n [] h = tt
chunks_of-All (suc k) zero (b ∷ bs) h = absurd (omega arith)
chunks_of-All (suc k) (suc n) (b ∷ bs) h =
    ((omega arith, length-take_le (suc n) (b ∷ bs)), chunks_of-All k (suc n) (drop n bs) h)

part-prefix : (k : ℕ) (c : Str) → (rest : Str) × (concat (part k c) ++ rest ≡ c)
unfolding part
part-prefix zero c = (c, refl)
part-prefix (suc k) c = (
  drop (suc k) c,
  ap (λ r. r ++ drop (suc k) c) (append-nil (take (suc k) c)) ∙ take-append-drop (suc k) c,
)

part-All : (k n : ℕ) (c : Str) → IsChunk n c → All (IsChunk n) (part k c)
unfolding part
part-All zero n c whole = tt
part-All (suc k) n [] whole = absurd (omega (arith, whole.0))
part-All (suc k) n (b ∷ bs) whole = ((omega arith, omega (arith, whole.1, length-take k bs)), tt)

-- What stopped in a chunk leaves the rest of it and the chunks behind it.
part_left :
    (k : ℕ) (c : Str) (cs : List Str) → (rest : Str) × (concat (part k c) ++ rest ≡ c ++ concat cs)
part_left k c cs =
    let (rest, e) = part-prefix k c in
    (
      rest ++ concat cs,
      sym (append_assoc (concat (part k c)) rest (concat cs)) ∙ ap (λ r. r ++ concat cs) e,
    )

-- What is on the wire is a prefix of the bytes, and all of them if `send` succeeds.
write_chunks_prefix :
    (cs : List Str) (ws : List Write)
    → (rest : Str) × (concat (write_chunks cs ws).1 ++ rest ≡ concat cs)
      × ((write_chunks cs ws).0 ≡ sent → rest ≡ [])
unfolding write_chunks flush
write_chunks_prefix [] ws = ([], refl, λ _. refl)
write_chunks_prefix (c ∷ cs) [] = (c ++ concat cs, refl, λ e. cc)
write_chunks_prefix (c ∷ cs) (written ∷ ws) =
    let (rest, e, full) = write_chunks_prefix cs ws in
    (rest, append_assoc c (concat (write_chunks cs ws).1) rest ∙ ap (λ r. c ++ r) e, full)
write_chunks_prefix (c ∷ cs) (write_failed k err ∷ ws) =
    let (rest, e) = part_left k c cs in (rest, e, λ e. cc)
write_chunks_prefix (c ∷ cs) (write_waits k ∷ ws) =
    let (rest, e) = part_left k c cs in (rest, e, λ e. cc)

write_chunks-All :
    (n : ℕ) (cs : List Str) (ws : List Write)
    → All (IsChunk n) cs
    → All (IsChunk n) (write_chunks cs ws).1
unfolding write_chunks
write_chunks-All n [] ws all = tt
write_chunks-All n (c ∷ cs) [] all = tt
write_chunks-All n (c ∷ cs) (written ∷ ws) all = (all.0, write_chunks-All n cs ws all.1)
write_chunks-All n (c ∷ cs) (write_failed k err ∷ ws) all = part-All k n c all.0
write_chunks-All n (c ∷ cs) (write_waits k ∷ ws) all = part-All k n c all.0

whole_or_not : (r : Sent) (rest : Str) → (r ≡ sent → rest ≡ []) → (rest ≡ []) ⊎ (r ≢ sent)
whole_or_not sent rest h = inl (h refl)
whole_or_not (send_error e) rest h = inr (λ q. ground arith)
whole_or_not send_waiting rest h = inr (λ q. ground arith)

module _ {S : Type 0} (F : Framer S) where
  send-appended :
      (wc : ℕ) (s : S) (f out : Str) (ws : List Write)
      → F.encode s f [] ≡ appended out
      → send wc F s f ws ≡ write_chunks (chunks wc out) ws
  unfolding send
  send-appended wc s f out ws e = rw (e, send)

  -- What goes out for a frame that the framer encodes, in order and in chunks of 1 to `wc` bytes, is a
  -- prefix of the encoding, and the whole of it unless `send` reports that it failed or waits.
  pub send_wire :
      (wc : ℕ) (s : S) (f out : Str) (ws : List Write)
      → 0 < wc
      → F.encode s f [] ≡ appended out
      → (rest : Str) × (concat (send wc F s f ws).1 ++ rest ≡ out)
        × ((rest ≡ []) ⊎ ((send wc F s f ws).0 ≢ sent))
        × All (IsChunk wc) (send wc F s f ws).1
  unfolding chunks
  send_wire wc s f out ws h e =
      let cs = chunks_of (length out) wc out in
      let (rest, p, full) = write_chunks_prefix cs ws in
      let whole : concat (write_chunks cs ws).1 ++ rest ≡ out =
        p ∙ concat-chunks_of (length out) wc out h (omega arith) in
      rw (send-appended wc s f out ws e) (
        rest,
        whole,
        whole_or_not (write_chunks cs ws).0 rest full,
        write_chunks-All wc cs ws (chunks_of-All (length out) wc out h),
      )
