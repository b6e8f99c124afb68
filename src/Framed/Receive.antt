-- ===== src/Framed/Receive.antt =====
-- `recv` ends on every stream, whatever bytes it brings.
use aimdb.Prelude.{
  ℕ, zero, suc, ◌+◌, ◌≤◌, ◌<◌, ◌≡◌, refl, List, [], ◌∷◌, Option, some, length, arith, Str,
}
use aimdb.Framed.{
  recoverable, fatal, Next, pending, frame, fault, Framer, Read, bytes, failed, Received, Step,
  answer, again, read_step, match_next, recv,
}

-- Bytes that the framer holds, and that the reads may still bring; a read that brings some weighs
-- one more.
abbrev pub weight : List Read → ℕ
weight [] = 0
weight (bytes bs ∷ reads) = suc (length bs) + weight reads
weight (failed e ∷ reads) = suc (weight reads)

module _ {S : Type 0} (F : Framer S) (size : S → ℕ) where
  -- What a framer keeps for `recv` to end: a bad frame that it skips takes bytes with it.
  abbrev pub NextShrinks : S → Next × S → Type 0
  NextShrinks s (pending, s') = size s' ≤ size s
  NextShrinks s (frame f, s') = size s' ≤ size s
  NextShrinks s (fault recoverable, s') = size s' < size s
  NextShrinks s (fault fatal, s') = size s' ≤ size s

  pub record Shrinks : Type 0 where
    pub next_shrinks : (s : S) → NextShrinks s (F.next_frame s)
    pub push_grows : (s : S) (bs : Str) → size (F.push_bytes s bs) ≤ size s + length bs

  abbrev StepShrinks : S → List Read → Step S → Type 0
  StepShrinks s reads (answer r s' reads') = Unit {0}
  StepShrinks s reads (again s' reads') = size s' + weight reads' < size s + weight reads

  module _ (law : Shrinks) where
    read_step_shrinks :
        (s s' : S) (reads : List Read)
        → size s' ≤ size s
        → StepShrinks s reads (read_step F s' reads)
    unfolding read_step
    read_step_shrinks s s' [] h = tt
    read_step_shrinks s s' (bytes [] ∷ reads) h = tt
    read_step_shrinks s s' (bytes (b ∷ bs) ∷ reads) h = omega (arith, law.push_grows s' (b ∷ bs))
    read_step_shrinks s s' (failed e ∷ reads) h = tt

    match_next_shrinks :
        (s : S) (n : Next × S) (reads : List Read)
        → NextShrinks s n
        → StepShrinks s reads (match_next F n reads)
    unfolding match_next
    match_next_shrinks s (frame f, s') reads h = tt
    match_next_shrinks s (fault recoverable, s') reads h = omega arith
    match_next_shrinks s (fault fatal, s') reads h = tt
    match_next_shrinks s (pending, s') reads h = read_step_shrinks s s' reads h

    finish :
        (fuel : ℕ)
        → ((s : S) (reads : List Read)
            → size s + weight reads < fuel
            → (r : Received × S × List Read) × (recv F fuel s reads ≡ some r))
        → (s : S) (reads : List Read) (st : Step S) → StepShrinks s reads st
        → size s + weight reads < suc fuel
        → (r : Received × S × List Read) × ◌≡◌ {A = Option (Received × S × List Read)}
            (elim st as (λ _. Option (Received × S × List Read)) [
              | answer r s' reads' ↦ some (r, s', reads')
              | again s' reads' ↦ recv F fuel s' reads'
            ])
            (some r)
    finish fuel ih s reads (answer r s' reads') h le = ((r, s', reads'), refl)
    finish fuel ih s reads (again s' reads') h le = ih s' reads' (omega arith)

    -- `recv` returns, or waits for the stream, on all reads and from every state.
    pub recv_total :
        (fuel : ℕ) (s : S) (reads : List Read)
        → size s + weight reads < fuel
        → (r : Received × S × List Read) × (recv F fuel s reads ≡ some r)
    unfolding recv
    recv_total zero s reads h = absurd (omega arith)
    recv_total (suc fuel) s reads h =
        finish fuel (recv_total fuel) s reads (match_next F (F.next_frame s) reads)
          (match_next_shrinks s (F.next_frame s) reads (law.next_shrinks s)) h
