-- ===== src/KeyTable/Assigned.antt =====
-- A key stands for one value, and a value keeps its key.
use aimdb.Prelude.{
  ℕ, ◌+◌, ◌-◌, ◌^◌, ◌≤◌, ◌<◌, ◌≡◌, refl, sym, ◌∙◌, List, [], ◌∷◌, ◌&&◌, Option, none, some, length,
  ltb, leb, arith, Bool-cases, Option-cases, inl, inr, Str, eq→str_eq,
}
use aimdb.KeyTable.{KeyTable, new, get, count_dropped, assign, key, index, name_of}
use aimdb.KeyTable.Consistent.{
  IsConsistent, new-IsConsistent, get_elem?-append, get_same, extended, extended-IsConsistent,
}

-- What a call does, by cases.
data Outcome (t : KeyTable) (name : Str) : Option ℕ × KeyTable → Type 0 where
  known : {id : ℕ} → get name t.by_name ≡ some id → Outcome t name (some id, t)
  added :
      get name t.by_name ≡ none
      → length t.names + 1 ≤ t.capacity
      → Outcome t name (some (length t.names + 1), extended t name)
  full : get name t.by_name ≡ none → Outcome t name (none, count_dropped t)

assign-Outcome :
    (t : KeyTable) (name : Str)
    → get name t.by_name ≡ none
    → Outcome t name (assign t name (length t.names + 1))
unfolding assign
assign-Outcome t name fresh =
    elim (Bool-cases (ltb (length t.names + 1) (2 ^ 16) && leb (length t.names + 1) t.capacity)) [
      | inl room ↦ rw room (added fresh (ground arith))
      | inr no_room ↦ rw no_room (full fresh)
    ]

key-Outcome : (t : KeyTable) (name : Str) → Outcome t name (key t name)
unfolding key
key-Outcome t name = elim (Option-cases (get name t.by_name)) [
  | inl fresh ↦ rw (fresh, key) (assign-Outcome t name fresh)
  | inr (id, found) ↦ rw (found, key) (known found)
]

Outcome-IsConsistent :
    {t : KeyTable} {name : Str} {r : Option ℕ × KeyTable}
    → IsConsistent t
    → Outcome t name r
    → IsConsistent r.1
unfolding count_dropped name_of index
Outcome-IsConsistent ok (known found) = ok
Outcome-IsConsistent {t} {name} ok (added fresh room) = extended-IsConsistent t name ok fresh room
Outcome-IsConsistent ok (full fresh) = record {
  listed = ok.listed;
  mapped = ok.mapped;
  bounded = ok.bounded;
}

-- The table is the larger one's beginning.
abbrev pub Grows : KeyTable → KeyTable → Type 0
Grows t u = (name : Str) (id : ℕ) → name_of t id ≡ some name → name_of u id ≡ some name

Outcome-Grows :
    {t : KeyTable} {name : Str} {r : Option ℕ × KeyTable} → Outcome t name r → Grows t r.1
unfolding count_dropped name_of index
Outcome-Grows (known found) n id e = e
Outcome-Grows {t} {name} (added fresh room) n id e = get_elem?-append t.names (id - 1) n name e
Outcome-Grows (full fresh) n id e = e

-- The calls for the names, one after another.
abbrev pub keys : KeyTable → List Str → KeyTable
keys t [] = t
keys t (name ∷ names) = keys (key t name).1 names

keys-IsConsistent : (t : KeyTable) (names : List Str) → IsConsistent t → IsConsistent (keys t names)
keys-IsConsistent t [] ok = ok
keys-IsConsistent t (name ∷ names) ok =
    keys-IsConsistent (key t name).1 names (Outcome-IsConsistent ok (key-Outcome t name))

keys-Grows : (t : KeyTable) (names : List Str) → Grows t (keys t names)
keys-Grows t [] n id e = e
keys-Grows t (name ∷ names) n id e =
    keys-Grows (key t name).1 names n id (Outcome-Grows (key-Outcome t name) n id e)

answered :
    {t : KeyTable} {name : Str} {r : Option ℕ × KeyTable} {id : ℕ}
    → IsConsistent t
    → Outcome t name r
    → r.0 ≡ some id
    → (0 < id) × (name_of r.1 id ≡ some name)
answered {name = name} ok (known found) e = ok.listed name _ (found ∙ e)
answered {t} {name} ok (added fresh room) e =
    (extended-IsConsistent t name ok fresh room).listed name _
      (get_same name name (length t.names + 1) t.by_name (eq→str_eq name name refl) ∙ e)
answered ok (full fresh) e = absurd (cc e)

pub key-IsConsistent : (t : KeyTable) (name : Str) → IsConsistent t → IsConsistent (key t name).1
key-IsConsistent t name ok = Outcome-IsConsistent ok (key-Outcome t name)

pub key-Grows : (t : KeyTable) (name : Str) → Grows t (key t name).1
key-Grows t name = Outcome-Grows (key-Outcome t name)

pub key-name_of :
    (t : KeyTable) (name : Str) (id : ℕ)
    → IsConsistent t
    → (key t name).0 ≡ some id
    → name_of (key t name).1 id ≡ some name
key-name_of t name id ok e = (answered ok (key-Outcome t name) e).1

-- Every table that calls make of a new one, in any number and order, is consistent: its map and its
-- list of names agree, and it holds at most as many names as its capacity.
keys_new-IsConsistent : (capacity : ℕ) (names : List Str) → IsConsistent (keys (new capacity) names)
keys_new-IsConsistent capacity names =
    keys-IsConsistent (new capacity) names (new-IsConsistent capacity)

key-found :
    (t : KeyTable) (name : Str) {id : ℕ} → get name t.by_name ≡ some id → (key t name).0 ≡ some id
unfolding key
key-found t name found = rw (found, key) refl

-- A name that was given a key keeps it: after any further calls the key stands for the name, and a
-- call for the name gives the same key.
pub key-keys :
    (t : KeyTable) (name : Str) (id : ℕ) (names : List Str)
    → IsConsistent t
    → (key t name).0 ≡ some id
    → (name_of (keys (key t name).1 names) id ≡ some name)
      × ((key (keys (key t name).1 names) name).0 ≡ some id)
key-keys t name id names ok e =
    let outcome = key-Outcome t name in
    let (pos, named) = answered ok outcome e in
    let later = keys-Grows (key t name).1 names name id named in
    let ok' = keys-IsConsistent (key t name).1 names (Outcome-IsConsistent ok outcome) in
    (later, key-found (keys (key t name).1 names) name (ok'.mapped name id pos later))

-- Two calls, with any calls between them, give the same key only for the same name.
key_injective :
    (t : KeyTable) (a b : Str) (id : ℕ) (names : List Str)
    → IsConsistent t
    → (key t a).0 ≡ some id
    → (key (keys (key t a).1 names) b).0 ≡ some id
    → a ≡ b
key_injective t a b id names ok first second =
    let u = keys (key t a).1 names in
    let ok' = keys-IsConsistent (key t a).1 names (Outcome-IsConsistent ok (key-Outcome t a)) in
    let named_a = keys-Grows (key t a).1 names a id (answered ok (key-Outcome t a) first).1 in
    let still_a = Outcome-Grows (key-Outcome u b) a id named_a in
    let named_b = (answered ok' (key-Outcome u b) second).1 in ground (arith, sym still_a ∙ named_b)
