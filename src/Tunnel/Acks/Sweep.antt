-- ===== src/Tunnel/Acks/Sweep.antt =====
-- What one sweep of tunnel.rs does to the tracked telegrams, against a description by entry.
use aimdb.Prelude.{
  ℕ, ◌-◌, ◌≡◌, refl, sym, subst, ap, ◌∙◌, List, [], ◌∷◌, ◌++◌, append_assoc, append-nil, Bool, true,
  false, Option, none, some, arith, ltb, ◌==◌, if◌then◌else◌, ==_iff, Bool-cases, inl, inr,
}
use aimdb.Tunnel.{Action, send, ack_timeout, TunnelConfig, PendingAck, IndexMap}
use aimdb.Tunnel.Acks.{
  Entries, lookup, Distinct, IndexMapLaws, expired, Swept, retry_or_lose, sweep_one, sweep,
}

-- Whether the entry has waited longer than the timeout.
abbrev pub IsOverdue? : TunnelConfig → ℕ → PendingAck → Bool
IsOverdue? cfg now p = ltb cfg.ack_timeout_ms (now - p.sent_at)

-- What becomes of an entry: on time it stays; overdue it is armed again with a try less, or lost.
abbrev pub retried : ℕ → PendingAck → Option PendingAck
retried now p =
    if ltb 0 p.retries_left
    then some (record p { retries_left = p.retries_left - 1; sent_at = now })
    else none

abbrev pub swept_entry : TunnelConfig → ℕ → Option PendingAck → Option PendingAck
swept_entry cfg now none = none
swept_entry cfg now (some p) = if IsOverdue? cfg now p then retried now p else some p

-- What the transport is told of it: the same frame again, or that it is lost.
abbrev pub report : ℕ → PendingAck → Action
report seq p = if ltb 0 p.retries_left then send p.frame (some seq) else ack_timeout seq

abbrev pub reports : TunnelConfig → ℕ → Entries → List Action
reports cfg now [] = []
reports cfg now ((seq, p) ∷ es) =
    if IsOverdue? cfg now p then report seq p ∷ reports cfg now es else reports cfg now es

-- Whether a telegram was lost.
abbrev pub loses : TunnelConfig → ℕ → Entries → Bool
loses cfg now [] = false
loses cfg now ((seq, p) ∷ es) =
    if IsOverdue? cfg now p
    then (if ltb 0 p.retries_left then loses cfg now es else true)
    else loses cfg now es

-- An entry that is swept, or one that is not among those.
abbrev pub merged : TunnelConfig → ℕ → Option PendingAck → Option PendingAck → Option PendingAck
merged cfg now none current = current
merged cfg now (some p) current = swept_entry cfg now (some p)

==_refl : (n : ℕ) → (n == n) ≡ true
==_refl n = (==_iff n n).1 refl

module _ {M : Type 0} (map : IndexMap M) (laws : IndexMapLaws map) where
  -- The entries `es` are still as they were.
  abbrev pub Holds : Entries → M → Type 0
  Holds es m = (j : ℕ) (p : PendingAck) → lookup j es ≡ some p → lookup j (map.entries m) ≡ some p

  tail-Holds :
      (seq : ℕ) (p : PendingAck) (es : Entries) (m : M)
      → Distinct ((seq, p) ∷ es)
      → Holds ((seq, p) ∷ es) m
      → Holds es m
  tail-Holds seq p es m d h j q e = elim (Bool-cases (seq == j)) [
    | inl same ↦ absurd (cc (d.0, e, (==_iff seq j).0 same))
    | inr other ↦ h j q (rw other e)
  ]

  one_retried :
      (cfg : TunnelConfig) (now seq : ℕ) (p : PendingAck) (s : Swept M)
      → lookup seq (map.entries s.acks) ≡ some p
      → sweep_one map cfg now seq s ≡ retry_or_lose map cfg now seq p s
  unfolding sweep_one
  one_retried cfg now seq p s e = rw (e, sweep_one)

  retry_lookup :
      (cfg : TunnelConfig) (now seq j : ℕ) (p : PendingAck) (s : Swept M)
      → lookup seq (map.entries s.acks) ≡ some p
      → lookup j (map.entries (retry_or_lose map cfg now seq p s).acks)
        ≡ (if seq == j then retried now p else lookup j (map.entries s.acks))
  unfolding retry_or_lose
  retry_lookup cfg now seq j p s e = ground (
    arith,
    laws.remove_lookup s.acks seq j,
    laws.write_lookup s.acks seq j (record p { retries_left = p.retries_left - 1; sent_at = now }) p
        e,
  )

  -- The other entries are left alone by one round.
  retry-Holds :
      (cfg : TunnelConfig) (now seq : ℕ) (p : PendingAck) (es : Entries) (s : Swept M)
      → lookup seq (map.entries s.acks) ≡ some p
      → lookup seq es ≡ none
      → Holds es s.acks
      → Holds es (retry_or_lose map cfg now seq p s).acks
  retry-Holds cfg now seq p es s e gone h j q l =
      retry_lookup cfg now seq j p s e ∙ (elim (Bool-cases (seq == j)) [
        | inl same ↦ absurd (cc (gone, l, (==_iff seq j).0 same))
        | inr other ↦ rw other (h j q l)
      ])

  pub record SweptAs (cfg : TunnelConfig) (now : ℕ) (es : Entries) (s t : Swept M) : Type 0 where
    pub entries :
        (j : ℕ)
        → lookup j (map.entries t.acks)
          ≡ merged cfg now (lookup j es) (lookup j (map.entries s.acks))
    pub actions : t.actions ≡ s.actions ++ reports cfg now es
    pub drop : t.drop_connection ≡ (
        if loses cfg now es
        then (if ltb 0 cfg.ack_retransmits then true else s.drop_connection)
        else s.drop_connection)

  late_step :
      (cfg : TunnelConfig) (now seq : ℕ) (p : PendingAck) (es : Entries) (s t : Swept M)
      → IsOverdue? cfg now p ≡ true
      → lookup seq (map.entries s.acks) ≡ some p
      → lookup seq es ≡ none
      → SweptAs cfg now es (retry_or_lose map cfg now seq p s) t
      → SweptAs cfg now ((seq, p) ∷ es) s t
  unfolding retry_or_lose
  late_step cfg now seq p es s t late e gone rest =
      let r = retry_or_lose map cfg now seq p s in
      let at : (j : ℕ)
          → lookup j (map.entries r.acks)
            ≡ (if seq == j then retried now p else lookup j (map.entries s.acks)) =
        λ j. retry_lookup cfg now seq j p s e in
      record {
        entries = λ j. rest.entries j ∙ (elim (Bool-cases (seq == j)) [
          | inl same ↦
              rw (same, late)
                (ap (λ k. merged cfg now (lookup k es) (lookup k (map.entries r.acks)))
                    (sym ((==_iff seq j).0 same))
                  ∙ rw gone (retry_lookup cfg now seq seq p s e ∙ rw (==_refl seq) refl))
          | inr diff ↦ rw diff (ap (merged cfg now (lookup j es)) (at j ∙ rw diff refl))
        ]);
        actions =
            rest.actions
            ∙ rw late
                (ground (arith, append_assoc s.actions (report seq p ∷ []) (reports cfg now es)));
        drop = rest.drop ∙ rw late (ground arith);
      }

  early_step :
      (cfg : TunnelConfig) (now seq : ℕ) (p : PendingAck) (es : Entries) (s t : Swept M)
      → IsOverdue? cfg now p ≡ false
      → lookup seq (map.entries s.acks) ≡ some p
      → lookup seq es ≡ none
      → SweptAs cfg now es s t
      → SweptAs cfg now ((seq, p) ∷ es) s t
  early_step cfg now seq p es s t early e gone rest = record {
    entries = λ j. rest.entries j ∙ (elim (Bool-cases (seq == j)) [
      | inl same ↦
          rw (same, early)
            (ap (λ k. merged cfg now (lookup k es) (lookup k (map.entries s.acks)))
                (sym ((==_iff seq j).0 same))
              ∙ rw (gone, e) refl)
      | inr diff ↦ rw diff refl
    ]);
    actions = rw early rest.actions;
    drop = rw early rest.drop;
  }

  pub sweep_all :
      (cfg : TunnelConfig) (now : ℕ) (es : Entries) (s : Swept M)
      → Distinct es
      → Holds es s.acks
      → SweptAs cfg now es s (sweep map cfg now (expired now cfg.ack_timeout_ms es) s)
  unfolding sweep expired
  sweep_all cfg now [] s d h = record {
    entries = λ j. refl;
    actions = sym (append-nil s.actions);
    drop = refl;
  }
  sweep_all cfg now ((seq, p) ∷ es) s d h =
      let e : lookup seq (map.entries s.acks) ≡ some p = h seq p (rw (==_refl seq) refl) in
      elim (Bool-cases (IsOverdue? cfg now p)) [
        | inl late ↦
            let r = retry_or_lose map cfg now seq p s in
            let rest =
              sweep_all cfg now es r d.1
                (retry-Holds cfg now seq p es s e d.0 (tail-Holds seq p es s.acks d h)) in
            rw late (
              subst
                (λ u.
                  SweptAs cfg now ((seq, p) ∷ es) s
                    (sweep map cfg now (expired now cfg.ack_timeout_ms es) u))
                (sym (one_retried cfg now seq p s e))
                (late_step cfg now seq p es s _ late e d.0 rest))
        | inr early ↦ rw early (
            early_step cfg now seq p es s _ early e d.0
              (sweep_all cfg now es s d.1 (tail-Holds seq p es s.acks d h)))
      ]
