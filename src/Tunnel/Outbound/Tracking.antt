-- ===== src/Tunnel/Outbound/Tracking.antt =====
-- How an outbound telegram of tunnel.rs is tracked.
use aimdb.Prelude.{
  ℕ, ◌+◌, ◌%◌, ◌≡◌, ◌≢◌, refl, sym, subst, ap, ◌∙◌, ◌⊎◌, inl, inr, List, [], ◌∷◌, ◌++◌, true, none,
  some, length, ◌==◌, ==_iff, Option-cases, if◌then◌else◌, arith,
}
use aimdb.Tunnel.{
  GroupWrite, Action, send, ack_timeout, PendingAck, Knx, IndexMap, ChannelState, Phase, backoff,
  connecting, connected, TunnelEngine,
}
use aimdb.Tunnel.Acks.{Entries, lookup, IndexMapLaws}
use aimdb.Tunnel.Engine.{is_connected, connected?}
use aimdb.Tunnel.Outbound.{make_room, track, request_frame, tracked, command_in, handle_command}

module _ {M : Type 0} (knx : Knx) (map : IndexMap M) where
  command_in_iff :
      (e : TunnelEngine M) (p : Phase M) (cmd : GroupWrite) (now : ℕ)
      → ((command_in knx map e p cmd now).1 ≡ connected? p)
        × ((connected? p ≡ true) ⊎ ((command_in knx map e p cmd now).0 ≡ e))
  unfolding command_in connected?
  command_in_iff e (backoff until) cmd now = (refl, inr refl)
  command_in_iff e (connecting sent_at) cmd now = (refl, inr refl)
  command_in_iff e (connected s) cmd now = (refl, inl refl)

  -- A command is taken exactly while connected, and a refused command changes nothing.
  handle_command_iff :
      (e : TunnelEngine M) (cmd : GroupWrite) (now : ℕ)
      → ((handle_command knx map e cmd now).1 ≡ is_connected e)
        × ((is_connected e ≡ true) ⊎ ((handle_command knx map e cmd now).0 ≡ e))
  unfolding handle_command is_connected
  handle_command_iff e cmd now = command_in_iff e e.phase cmd now

==_refl : (n : ℕ) → (n == n) ≡ true
==_refl n = (==_iff n n).1 refl

module _ {M : Type 0} (knx : Knx) (map : IndexMap M) (laws : IndexMapLaws map) where
  -- The map holds `p` under `seq`, and otherwise what it held, or that less one telegram that is
  -- reported lost.
  abbrev pub IsTracked : M → ℕ → PendingAck → M × List Action → Type 0
  IsTracked m seq p (m', lost) =
      ((lost ≡ [])
        × ((j : ℕ)
            → lookup j (map.entries m') ≡ (if seq == j then some p else lookup j (map.entries m))))
      ⊎ ((k : ℕ) × (lost ≡ ack_timeout k ∷ [])
          × (lookup k (map.entries m) ≢ none)
          × ((j : ℕ)
              → lookup j (map.entries m')
                ≡ (if seq == j then some p else if k == j then none else lookup j (map.entries m))))

  make_room_lem :
      (m : M) (es : Entries) (seq : ℕ) (p : PendingAck)
      → map.entries m ≡ es
      → map.insert m seq p ≡ none
      → IsTracked m seq p (make_room knx map m es seq p)
  unfolding make_room
  make_room_lem m [] seq p eq full =
      let (absent, size) = laws.insert_full m seq p full in absurd (ground (arith, ap length eq))
  make_room_lem m ((k, q) ∷ es) seq p eq full =
      let (absent, size) = laws.insert_full m seq p full in
      let held : lookup k (map.entries m) ≡ some q = rw eq (rw (==_refl k) refl) in
      let rest = map.remove m k in
      let (m', ok) =
        laws.insert_room rest seq p
          (omega (arith, laws.remove_length m k q held, laws.capacity m)) in
      rw ok (
        inr (
          k,
          refl,
          λ gone. ground (arith, held),
          λ j.
              laws.insert_lookup rest m' seq j p ok
              ∙ ap (λ o. if seq == j then some p else o) (laws.remove_lookup m k j),
        ))

  track_lem : (m : M) (seq : ℕ) (p : PendingAck) → IsTracked m seq p (track knx map m seq p)
  unfolding track
  track_lem m seq p = elim (Option-cases (map.insert m seq p)) [
    | inl full ↦ rw (full, track) (make_room_lem m (map.entries m) seq p refl full)
    | inr (m', ok) ↦ rw (ok, track) (inl (refl, λ j. laws.insert_lookup m m' seq j p ok))
  ]

  -- A command given while connected sends the telegram under the next sequence number, tracks it
  -- there with the configured tries, moves the sequence number on by one modulo 256, and leaves every
  -- other tracked telegram alone but for at most one, which is then reported lost before the send.
  pub handle_command_tracks :
      (e : TunnelEngine M) (s : ChannelState M) (cmd : GroupWrite) (now : ℕ)
      → e.phase ≡ connected s
      → (t : ChannelState M) × (lost : List Action) × ((handle_command knx map e cmd now).0.phase
          ≡ connected t)
        × (t.outbound_seq ≡ (s.outbound_seq + 1) % 256)
        × (t.channel_id ≡ s.channel_id)
        × IsTracked s.pending_acks s.outbound_seq
            (tracked knx map e.cfg now (request_frame knx map s cmd))
            (t.pending_acks, lost)
        × ((handle_command knx map e cmd now).0.actions
            ≡ (e.actions ++ lost)
              ++ (send (request_frame knx map s cmd) (some s.outbound_seq) ∷ []))
  unfolding handle_command command_in
  handle_command_tracks e s cmd now eq =
      let p = tracked knx map e.cfg now (request_frame knx map s cmd) in
      subst
        (λ q.
          (t : ChannelState M) × (lost : List Action) × ((command_in knx map e q cmd now).0.phase
            ≡ connected t)
          × (t.outbound_seq ≡ (s.outbound_seq + 1) % 256)
          × (t.channel_id ≡ s.channel_id)
          × IsTracked s.pending_acks s.outbound_seq p (t.pending_acks, lost)
          × ((command_in knx map e q cmd now).0.actions
              ≡ (e.actions ++ lost)
                ++ (send (request_frame knx map s cmd) (some s.outbound_seq) ∷ [])))
        (sym eq)
        (
          record s {
            outbound_seq = (s.outbound_seq + 1) % 256;
            pending_acks = (track knx map s.pending_acks s.outbound_seq p).0;
          },
          (track knx map s.pending_acks s.outbound_seq p).1,
          refl,
          refl,
          refl,
          track_lem s.pending_acks s.outbound_seq p,
          refl,
        )
