-- ===== src/Tunnel/Tests/AckTable.antt =====
-- A concrete index map, an association list with each key once, for the examples.
use aimdb.Prelude.{
  ℕ, suc, ◌≤◌, ◌<◌, ◌≡◌, refl, sym, ap, ◌∙◌, ◌⊎◌, [], ◌∷◌, true, false, Option, none, some, length,
  arith, ltb, ◌==◌, ==_iff, Bool-cases, Option-cases, inl, inr, if◌then◌else◌,
}
use aimdb.Tunnel.{PendingAck, IndexMap, pending_ack_capacity}
use aimdb.Tunnel.Acks.{Entries, lookup, Distinct, IndexMapLaws}

abbrev pub put : ℕ → PendingAck → Entries → Entries
put k p [] = (k, p) ∷ []
put k p ((j, q) ∷ es) = let rest = put k p es in if j == k then (j, p) ∷ es else (j, q) ∷ rest

abbrev pub del : ℕ → Entries → Entries
del k [] = []
del k ((j, q) ∷ es) = let rest = del k es in if j == k then es else (j, q) ∷ rest

lookup-put :
    (j k : ℕ) (p : PendingAck) (es : Entries)
    → lookup j (put k p es) ≡ (if k == j then some p else lookup j es)
lookup-put j k p [] = refl
lookup-put j k p ((i, q) ∷ es) = ground (arith, lookup-put j k p es)

lookup-del :
    (j k : ℕ) (es : Entries)
    → Distinct es
    → lookup j (del k es) ≡ (if k == j then none else lookup j es)
lookup-del j k [] d = ground arith
lookup-del j k ((i, q) ∷ es) d = elim (Bool-cases (i == k)) [
  | inl e ↦ rw e (elim (Bool-cases (k == j)) [
    | inl f ↦ rw f (ap (λ x. lookup x es) (sym ((==_iff i k).0 e ∙ (==_iff k j).0 f)) ∙ d.0)
    | inr f ↦ ground arith
  ])
  | inr e ↦ ground (arith, lookup-del j k es d.1)
]

pub Distinct-put : (k : ℕ) (p : PendingAck) (es : Entries) → Distinct es → Distinct (put k p es)
Distinct-put k p [] d = (refl, tt)
Distinct-put k p ((i, q) ∷ es) d = elim (Bool-cases (i == k)) [
  | inl e ↦ rw e d
  | inr e ↦ rw e (ground (arith, lookup-put i k p es, d.0), Distinct-put k p es d.1)
]

pub Distinct-del : (k : ℕ) (es : Entries) → Distinct es → Distinct (del k es)
Distinct-del k [] d = tt
Distinct-del k ((i, q) ∷ es) d = elim (Bool-cases (i == k)) [
  | inl e ↦ rw e d.1
  | inr e ↦ rw e (ground (arith, lookup-del i k es d.1, d.0), Distinct-del k es d.1)
]

pub length-put-new :
    (k : ℕ) (p : PendingAck) (es : Entries)
    → lookup k es ≡ none
    → length (put k p es) ≡ suc (length es)
length-put-new k p [] h = refl
length-put-new k p ((i, q) ∷ es) h = ground (arith, length-put-new k p es)

pub length-put-room :
    (k : ℕ) (p : PendingAck) (es : Entries)
    → lookup k es ≡ none
    → ltb (length es) pending_ack_capacity ≡ true
    → length (put k p es) ≤ pending_ack_capacity
length-put-room k p es h room = ground (arith, length-put-new k p es h)

pub length-put-old :
    (k : ℕ) (p q : PendingAck) (es : Entries)
    → lookup k es ≡ some q
    → length (put k p es) ≡ length es
length-put-old k p q [] h = ground arith
length-put-old k p q ((i, r) ∷ es) h = ground (arith, length-put-old k p q es)

pub length-del-le : (k : ℕ) (es : Entries) → length (del k es) ≤ length es
length-del-le k [] = omega arith
length-del-le k ((i, q) ∷ es) = ground (arith, length-del-le k es)

length-del :
    (k : ℕ) (p : PendingAck) (es : Entries) → lookup k es ≡ some p → length (del k es) < length es
length-del k p [] h = ground arith
length-del k p ((i, q) ∷ es) h = ground (arith, length-del k p es)

abbrev pub Table : Type 0
Table = (es : Entries) × Distinct es × (length es ≤ pending_ack_capacity)

abbrev pub Found : Table → ℕ → Type 0
Found m k = (lookup k m.0 ≡ none) ⊎ ((q : PendingAck) × (lookup k m.0 ≡ some q))

abbrev pub Room : Table → Type 0
Room m =
    (ltb (length m.0) pending_ack_capacity ≡ true) ⊎ (ltb (length m.0) pending_ack_capacity ≡ false)

-- A key that is there is written over; a new one needs room.
unfoldable pub insert_at : (m : Table) (k : ℕ) → PendingAck → Found m k → Room m → Option Table
insert_at m k p (inr (q, h)) r =
    some (put k p m.0, Distinct-put k p m.0 m.1, omega (arith, length-put-old k p q m.0 h, m.2))
insert_at m k p (inl h) (inl room) =
    some (put k p m.0, Distinct-put k p m.0 m.1, length-put-room k p m.0 h room)
insert_at m k p (inl h) (inr full) = none

unfoldable pub write_at : (m : Table) (k : ℕ) → PendingAck → Found m k → Table
write_at m k p (inl h) = m
write_at m k p (inr (q, h)) =
    (put k p m.0, Distinct-put k p m.0 m.1, omega (arith, length-put-old k p q m.0 h, m.2))

abbrev pub table : IndexMap Table
table = record {
  new = ([], tt, omega arith);
  entries = λ m. m.0;
  insert = λ m k p.
      insert_at m k p (Option-cases (lookup k m.0))
        (Bool-cases (ltb (length m.0) pending_ack_capacity));
  remove = λ m k. (del k m.0, Distinct-del k m.0 m.1, omega (arith, length-del-le k m.0, m.2));
  write = λ m k p. write_at m k p (Option-cases (lookup k m.0));
}

full_at :
    (m : Table) (k : ℕ) (p : PendingAck) (c : Found m k) (r : Room m)
    → insert_at m k p c r ≡ none
    → (lookup k m.0 ≡ none) × (length m.0 ≡ pending_ack_capacity)
unfolding insert_at
full_at m k p (inr (q, h)) r e = absurd (cc e)
full_at m k p (inl h) (inl room) e = absurd (cc e)
full_at m k p (inl h) (inr full) e = (h, ground (arith, m.2, full))

lookup_at :
    (m m' : Table) (k j : ℕ) (p : PendingAck) (c : Found m k) (r : Room m)
    → insert_at m k p c r ≡ some m'
    → lookup j m'.0 ≡ (if k == j then some p else lookup j m.0)
unfolding insert_at
lookup_at m m' k j p (inr (q, h)) r e =
    ap (λ o. elim o as (λ _. Option PendingAck) [ none ↦ none | some t ↦ lookup j t.0 ]) (sym e)
    ∙ lookup-put j k p m.0
lookup_at m m' k j p (inl h) (inl room) e =
    ap (λ o. elim o as (λ _. Option PendingAck) [ none ↦ none | some t ↦ lookup j t.0 ]) (sym e)
    ∙ lookup-put j k p m.0
lookup_at m m' k j p (inl h) (inr full) e = absurd (cc e)

Room-at :
    (m : Table) (k : ℕ) (p : PendingAck) (c : Found m k) (r : Room m)
    → length m.0 < pending_ack_capacity
    → (m' : Table) × (insert_at m k p c r ≡ some m')
unfolding insert_at
Room-at m k p (inr (q, h)) r l = (_, refl)
Room-at m k p (inl h) (inl room) l = (_, refl)
Room-at m k p (inl h) (inr full) l = absurd (ground (arith, full, l))

lookup_write :
    (m : Table) (k j : ℕ) (p q : PendingAck) (c : Found m k)
    → lookup k m.0 ≡ some q
    → lookup j (write_at m k p c).0 ≡ (if k == j then some p else lookup j m.0)
unfolding write_at
lookup_write m k j p q (inl h) e = absurd (ground (arith, h, e))
lookup_write m k j p q (inr (r, h)) e = lookup-put j k p m.0

pub table-IndexMapLaws : IndexMapLaws table
table-IndexMapLaws = record {
  new_empty = refl;
  distinct = λ m. m.1;
  capacity = λ m. m.2;
  insert_full = λ m k p e. full_at m k p _ _ e;
  insert_lookup = λ m m' k j p e. lookup_at m m' k j p _ _ e;
  insert_room = λ m k p l. Room-at m k p _ _ l;
  remove_lookup = λ m k j. lookup-del j k m.0 m.1;
  remove_length = λ m k p e. length-del k p m.0 e;
  write_lookup = λ m k j p q e. lookup_write m k j p q _ e;
}
