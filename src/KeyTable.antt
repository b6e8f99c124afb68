-- ===== src/KeyTable.antt =====
-- aimdb-core/src/inbound_key.rs: the keys of a record, given out as values arrive. A call holds the
-- lock for its whole length, so that calls follow one another. `by_name` is the hash map as an
-- association list, and a key is its non-zero number.
pub mod Consistent
pub mod Assigned
mod Tests
use aimdb.Prelude.{
  ℕ, ◌+◌, ◌^◌, ◌-◌, List, [], ◌∷◌, ◌++◌, Bool, ◌&&◌, Option, none, some, length, get_elem?, ltb,
  leb, if◌then◌else◌, Str, str_eq,
}

pub record KeyTable : Type 0 where
  pub capacity : ℕ
  pub by_name : List (Str × ℕ)
  pub names : List Str
  pub dropped : ℕ

unfoldable pub new : ℕ → KeyTable
new capacity = record { capacity = capacity; by_name = []; names = []; dropped = 0 }

unfoldable pub get : Str → List (Str × ℕ) → Option ℕ
get name [] = none
get name ((n, id) ∷ entries) =
    let rest = get name entries in if str_eq n name then some id else rest

-- `checked_add`, whose failure leaves the counter as it is.
pub count_dropped : KeyTable → KeyTable
count_dropped t = record t {
  dropped = if ltb t.dropped (2 ^ 32 - 1) then t.dropped + 1 else t.dropped;
}

unfoldable pub assign : KeyTable → Str → ℕ → Option ℕ × KeyTable
unfolding count_dropped
assign t name id =
    if ltb id (2 ^ 16) && leb id t.capacity
    then (some id, record t { names = t.names ++ (name ∷ []); by_name = (name, id) ∷ t.by_name })
    else (none, count_dropped t)

unfoldable pub key : KeyTable → Str → Option ℕ × KeyTable
unfolding assign
key t name = elim (get name t.by_name) [
  | some id ↦ (some id, t)
  | none ↦ assign t name (length t.names + 1)
]

-- `KeyId::index`.
pub index : ℕ → ℕ
index id = id - 1

pub name_of : KeyTable → ℕ → Option Str
unfolding index
name_of t id = get_elem? t.names (index id)
