-- ===== src/Tunnel/Acks.antt =====
-- The pending acknowledgements of tunnel.rs over what `heapless` documents of its index map.
pub mod Sweep
use aimdb.Prelude.{
  ℕ, ◌-◌, ◌≤◌, ◌<◌, ◌≡◌, List, [], ◌∷◌, ◌++◌, Bool, true, Option, none, some, length, ltb, ◌==◌,
  if◌then◌else◌,
}
use aimdb.Tunnel.{
  Action, send, ack_timeout, TunnelConfig, PendingAck, pending_ack_capacity, IndexMap,
}

abbrev pub Entries : Type 0
Entries = List (ℕ × PendingAck)

abbrev pub lookup : ℕ → Entries → Option PendingAck
lookup k [] = none
lookup k ((j, p) ∷ es) = if j == k then some p else lookup k es

-- Each key once.
abbrev pub Distinct : Entries → Type 0
Distinct [] = Unit {0}
Distinct ((j, p) ∷ es) = (lookup j es ≡ none) × Distinct es

-- What the engine relies on.
pub record IndexMapLaws {M : Type 0} (map : IndexMap M) : Type 0 where
  pub new_empty : map.entries map.new ≡ []
  pub distinct : (m : M) → Distinct (map.entries m)
  pub capacity : (m : M) → length (map.entries m) ≤ pending_ack_capacity
  pub insert_full :
      (m : M) (k : ℕ) (p : PendingAck)
      → map.insert m k p ≡ none
      → (lookup k (map.entries m) ≡ none) × (length (map.entries m) ≡ pending_ack_capacity)
  pub insert_lookup :
      (m m' : M) (k j : ℕ) (p : PendingAck)
      → map.insert m k p ≡ some m'
      → lookup j (map.entries m') ≡ (if k == j then some p else lookup j (map.entries m))
  pub insert_room :
      (m : M) (k : ℕ) (p : PendingAck)
      → length (map.entries m) < pending_ack_capacity
      → (m' : M) × (map.insert m k p ≡ some m')
  pub remove_lookup :
      (m : M) (k j : ℕ)
      → lookup j (map.entries (map.remove m k))
        ≡ (if k == j then none else lookup j (map.entries m))
  pub remove_length :
      (m : M) (k : ℕ) (p : PendingAck)
      → lookup k (map.entries m) ≡ some p
      → length (map.entries (map.remove m k)) < length (map.entries m)
  pub write_lookup :
      (m : M) (k j : ℕ) (p q : PendingAck)
      → lookup k (map.entries m) ≡ some q
      → lookup j (map.entries (map.write m k p))
        ≡ (if k == j then some p else lookup j (map.entries m))

-- The keys of the entries that have waited longer than the timeout: at most as many as the vector
-- that holds them.
unfoldable pub expired : ℕ → ℕ → Entries → List ℕ
expired now timeout [] = []
expired now timeout ((seq, pending) ∷ es) =
    let rest = expired now timeout es in
    if ltb timeout (now - pending.sent_at) then seq ∷ rest else rest

-- The loop over the expired keys: the map, the actions to append, and whether to drop the connection.
pub record Swept (M : Type 0) : Type 0 where
  pub acks : M
  pub actions : List Action
  pub drop_connection : Bool

module _ {M : Type 0} (map : IndexMap M) where
  retry_or_lose : TunnelConfig → ℕ → ℕ → PendingAck → Swept M → Swept M
  retry_or_lose cfg now seq pending s =
      if ltb 0 pending.retries_left
      then record s {
        acks =
            map.write s.acks seq
              (record pending { retries_left = pending.retries_left - 1; sent_at = now });
        actions = s.actions ++ (send pending.frame (some seq) ∷ []);
      }
      else record {
        acks = map.remove s.acks seq;
        actions = s.actions ++ (ack_timeout seq ∷ []);
        drop_connection = if ltb 0 cfg.ack_retransmits then true else s.drop_connection;
      }

  -- `get_mut`, which finds nothing for a key that is gone.
  unfoldable pub sweep_one : TunnelConfig → ℕ → ℕ → Swept M → Swept M
  unfolding retry_or_lose
  sweep_one cfg now seq s = elim (lookup seq (map.entries s.acks)) [
    | none ↦ s
    | some pending ↦ retry_or_lose cfg now seq pending s
  ]

  unfoldable pub sweep : TunnelConfig → ℕ → List ℕ → Swept M → Swept M
  sweep cfg now [] s = s
  sweep cfg now (seq ∷ seqs) s = sweep cfg now seqs (sweep_one cfg now seq s)
