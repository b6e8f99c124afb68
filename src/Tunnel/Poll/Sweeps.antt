-- ===== src/Tunnel/Poll/Sweeps.antt =====
-- The acknowledgement sweep of `poll` against its description by entry.
use aimdb.Prelude.{
  ℕ, ◌≤◌, ◌≡◌, refl, ◌∙◌, [], Bool, true, false, ◌&&◌, Option, none, some, arith, leb, ltb,
  if◌then◌else◌,
}
use aimdb.Tunnel.{TunnelConfig, Knx, PendingAck, IndexMap, ChannelState, TunnelEngine}
use aimdb.Tunnel.Acks.{lookup, IndexMapLaws}
use aimdb.Tunnel.Acks.Sweep.{swept_entry, reports, loses, merged, sweep_all}
use aimdb.Tunnel.Poll.{ack_sweep}

merged_self :
    (cfg : TunnelConfig) (now : ℕ) (o : Option PendingAck)
    → merged cfg now o o ≡ swept_entry cfg now o
merged_self cfg now none = refl
merged_self cfg now (some p) = refl

and_if : (a b : Bool) → (if a then (if b then true else false) else false) ≡ (a && b)
and_if false b = refl
and_if true false = refl
and_if true true = refl

module _ {M : Type 0} (knx : Knx) (map : IndexMap M) (laws : IndexMapLaws map) where
  -- Once the sweep is due, it leaves under each sequence number what `swept_entry` says of the entry
  -- that stood there (on time: the same; overdue with tries left: armed again with one try less;
  -- overdue otherwise: gone), queues exactly the reports of the overdue entries in the map's order,
  -- and asks to drop the connection exactly if one was lost and retransmissions are configured.
  pub ack_sweep_lem :
      (e : TunnelEngine M) (s : ChannelState M) (now : ℕ)
      → s.next_ack_sweep ≤ now
      → ((j : ℕ)
          → lookup j (map.entries (ack_sweep knx map e s now).0.pending_acks)
            ≡ swept_entry e.cfg now (lookup j (map.entries s.pending_acks)))
        × ((ack_sweep knx map e s now).1 ≡ reports e.cfg now (map.entries s.pending_acks))
        × ((ack_sweep knx map e s now).2
            ≡ (loses e.cfg now (map.entries s.pending_acks) && ltb 0 e.cfg.ack_retransmits))
  unfolding ack_sweep
  ack_sweep_lem e s now due =
      let due? : leb s.next_ack_sweep now ≡ true = ground arith in
      let all =
        sweep_all map laws e.cfg now (map.entries s.pending_acks)
          (record { acks = s.pending_acks; actions = []; drop_connection = false })
          (laws.distinct s.pending_acks) (λ j p h. h) in
      rw due? (
        λ j. all.entries j ∙ merged_self e.cfg now (lookup j (map.entries s.pending_acks)),
        all.actions,
        all.drop
            ∙ and_if (loses e.cfg now (map.entries s.pending_acks)) (ltb 0 e.cfg.ack_retransmits),
      )
