-- ===== src/Framed/Reassembly.antt =====
-- What a framer must keep for a connection to deliver the peer's frames, and that it then does,
-- however the stream cuts the bytes.
use aimdb.Prelude.{
  ℕ, zero, suc, ◌+◌, ◌≤◌, ◌<◌, ◌≡◌, refl, List, [], ◌∷◌, ◌++◌, Option, none, some, length, arith,
  Str, All,
}
use aimdb.Framed.{
  recoverable, fatal, Next, pending, frame, fault, Framer, Read, bytes, Received, message, closed,
  answer, again, read_step, match_next, recv,
}

abbrev pub concat : List Str → Str
concat [] = []
concat (c ∷ cs) = c ++ concat cs

abbrev pub IsNonempty : Str → Type 0
IsNonempty [] = ⊥
IsNonempty (b ∷ bs) = Unit {0}

-- The reads that bring the chunks and then the end of the stream.
abbrev pub reads_of : List Str → List Read
reads_of [] = bytes [] ∷ []
reads_of (c ∷ cs) = bytes c ∷ reads_of cs

module _ {S : Type 0} (F : Framer S) where
  -- The frames that `recv` gives until it gives none, and what it gives then.
  pub recv_all : ℕ → ℕ → S → List Read → Option (List Str × Received)
  recv_all zero fuel s reads = none
  recv_all (suc n) fuel s reads = elim (recv F fuel s reads) [
    | none ↦ none
    | some (message f, s', reads') ↦ elim (recv_all n fuel s' reads') [
      | none ↦ none
      | some (fs, r) ↦ some (f ∷ fs, r)
    ]
    | some (r, s', reads') ↦ some ([], r)
  ]

module _ {S : Type 0} (F : Framer S) (Sync : S → Str → List Str → Type 0) where
  -- `Sync s rest fs`: with `rest` still to arrive, the framer in state `s` has `fs` still to give.
  abbrev pub NextOk : Str → List Str → Next × S → Type 0
  NextOk rest fs (pending, s) = Sync s rest fs × (rest ≡ [] → fs ≡ [])
  NextOk rest [] (frame f, s) = ⊥
  NextOk rest (g ∷ fs) (frame f, s) = (f ≡ g) × Sync s rest fs
  NextOk rest fs (fault e, s) = ⊥

  pub record Reassembles : Type 0 where
    pub push-Sync :
        (s : S) (c rest : Str) (fs : List Str)
        → Sync s (c ++ rest) fs
        → Sync (F.push_bytes s c) rest fs
    pub next-Sync :
        (s : S) (rest : Str) (fs : List Str) → Sync s rest fs → NextOk rest fs (F.next_frame s)

  -- What one `recv` does from a state in sync, with the chunks `cs` and the end still to read.
  abbrev RecvOk : List Str → List Str → Option (Received × S × List Read) → Type 0
  RecvOk cs fs none = ⊥
  RecvOk cs [] (some (closed, s, reads)) = Unit {0}
  RecvOk cs (f ∷ fs) (some (message g, s, reads)) =
      (g ≡ f)
      × ((cs' : List Str) × (reads ≡ reads_of cs')
          × Sync s (concat cs') fs
          × All IsNonempty cs'
          × (length cs' ≤ length cs))
  RecvOk cs fs (some _) = ⊥

  RecvOk-mono :
      (c : Str) (cs fs : List Str) (o : Option (Received × S × List Read))
      → RecvOk cs fs o
      → RecvOk (c ∷ cs) fs o
  RecvOk-mono c cs [] (some (closed, s, reads)) k = k
  RecvOk-mono c cs (f ∷ fs) (some (message g, s, reads)) (e, (cs', p, q, r, le)) =
      (e, (cs', p, q, r, omega arith))
  RecvOk-mono c cs fs none k = k
  RecvOk-mono c cs fs (some _) k = k

  module _ (law : Reassembles) where
    on_next :
        (fuel : ℕ)
        → ((s : S) (cs fs : List Str)
            → Sync s (concat cs) fs
            → All IsNonempty cs
            → length cs + 1 < fuel
            → RecvOk cs fs (recv F fuel s (reads_of cs)))
        → (n : Next × S) (cs fs : List Str) → NextOk (concat cs) fs n
        → All IsNonempty cs
        → length cs + 1 < suc fuel
        → RecvOk cs fs
            (elim (match_next F n (reads_of cs)) as (λ _. Option (Received × S × List Read)) [
              | answer r s' reads' ↦ some (r, s', reads')
              | again s' reads' ↦ recv F fuel s' reads'
            ])
    unfolding match_next read_step
    on_next fuel ih (pending, s) [] [] ok ne h = tt
    on_next fuel ih (pending, s) [] (f ∷ fs) ok ne h = cc (ok.1 refl)
    on_next fuel ih (pending, s) ([] ∷ cs) fs ok ne h = absurd ne.0
    on_next fuel ih (pending, s) ((b ∷ bs) ∷ cs) fs ok ne h = RecvOk-mono (b ∷ bs) cs fs _ (
        ih (F.push_bytes s (b ∷ bs)) cs fs (law.push-Sync s (b ∷ bs) (concat cs) fs ok.0) ne.1
          (omega arith))
    on_next fuel ih (frame f, s) cs [] ok ne h = absurd ok
    on_next fuel ih (frame f, s) cs (g ∷ fs) ok ne h = (ok.0, (cs, refl, ok.1, ne, omega arith))
    on_next fuel ih (fault recoverable, s) cs fs ok ne h = absurd ok
    on_next fuel ih (fault fatal, s) cs fs ok ne h = absurd ok

    recv_in-Sync :
        (fuel : ℕ) (s : S) (cs fs : List Str)
        → Sync s (concat cs) fs
        → All IsNonempty cs
        → length cs + 1 < fuel
        → RecvOk cs fs (recv F fuel s (reads_of cs))
    unfolding recv
    recv_in-Sync zero s cs fs y ne h = absurd (omega arith)
    recv_in-Sync (suc fuel) s cs fs y ne h =
        on_next fuel (recv_in-Sync fuel) (F.next_frame s) cs fs (law.next-Sync s (concat cs) fs y)
          ne h

    after_recv :
        (n fuel : ℕ) (cs fs : List Str) (o : Option (Received × S × List Read))
        → ((cs' fs' : List Str) (s : S)
            → Sync s (concat cs') fs'
            → All IsNonempty cs'
            → length cs' + 1 < fuel
            → length fs' < n
            → recv_all F n fuel s (reads_of cs') ≡ some (fs', closed))
        → RecvOk cs fs o
        → length cs + 1 < fuel
        → length fs < suc n
        → ◌≡◌ {A = Option (List Str × Received)}
            (elim o as (λ _. Option (List Str × Received)) [
              | none ↦ none
              | some (message f, s', reads') ↦ elim (recv_all F n fuel s' reads') [
                | none ↦ none
                | some (fs, r) ↦ some (f ∷ fs, r)
              ]
              | some (r, s', reads') ↦ some ([], r)
            ])
            (some (fs, closed))
    after_recv n fuel cs [] (some (closed, s, reads)) ih k h l = refl
    after_recv n fuel cs (f ∷ fs) (some (message g, s, reads)) ih (e, (cs', p, y, ne, le)) h l =
        rw (p, ih cs' fs s y ne (omega arith) (omega arith), e)
    after_recv n fuel cs fs none ih k h l = absurd k
    after_recv n fuel cs fs (some _) ih k h l = absurd k

    -- From a state in sync, reading chunks that are not empty until the end of the stream gives the
    -- frames still due, in order and each once, and then reports the end.
    pub recv_all_in-Sync :
        (n fuel : ℕ) (s : S) (cs fs : List Str)
        → Sync s (concat cs) fs
        → All IsNonempty cs
        → length cs + 1 < fuel
        → length fs < n
        → recv_all F n fuel s (reads_of cs) ≡ some (fs, closed)
    unfolding recv_all
    recv_all_in-Sync zero fuel s cs fs y ne h l = absurd (omega arith)
    recv_all_in-Sync (suc n) fuel s cs fs y ne h l =
        after_recv n fuel cs fs (recv F fuel s (reads_of cs))
          (λ cs' fs' s' y' ne' h' l'. recv_all_in-Sync n fuel s' cs' fs' y' ne' h' l')
          (recv_in-Sync fuel s cs fs y ne h) h l
