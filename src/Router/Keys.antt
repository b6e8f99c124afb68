-- ===== src/Router/Keys.antt =====
-- The keys that a router hands to its callbacks.
use aimdb.Prelude.{
  ℕ, zero, suc, ◌≡◌, refl, sym, ◌∙◌, List, [], ◌∷◌, Option, none, some, get_elem?, All, inl, inr,
  ◌⊎◌, Str, subst,
}
use mathlib.Core.List.{Memᴰ}
use aimdb.KeyTable.{KeyTable, name_of}
use aimdb.KeyTable.Consistent.{IsConsistent}
use aimdb.KeyTable.Assigned.{Grows}
use aimdb.TopicPattern.{TopicMatch, slice_at}
use aimdb.Router.{CompiledRoute, Tables, set_table, Call}

-- Each table stays where it is and keeps its names.
abbrev pub GrowAll : Tables → Tables → Type 0
GrowAll tables tables' =
    (i : ℕ) (t : KeyTable)
    → get_elem? tables i ≡ some t
    → (u : KeyTable) × (get_elem? tables' i ≡ some u) × Grows t u

pub GrowAll-refl : (tables : Tables) → GrowAll tables tables
GrowAll-refl tables i t at = (t, at, λ name id e. e)

pub GrowAll-trans : (a b c : Tables) → GrowAll a b → GrowAll b c → GrowAll a c
GrowAll-trans a b c p q i t at =
    let (u, at_u, grows) = p i t at in
    let (v, at_v, more) = q i u at_u in (v, at_v, λ name id e. more name id (grows name id e))

pub set_table-GrowAll :
    (i : ℕ) (t t' : KeyTable) (tables : Tables)
    → get_elem? tables i ≡ some t
    → Grows t t'
    → GrowAll tables (set_table i t' tables)
unfolding set_table
set_table-GrowAll i t t' [] at grows j u at_j = absurd (cc at_j)
set_table-GrowAll zero t t' (x ∷ tables) at grows zero u at_j =
    (t', refl, subst (λ y. Grows y t') (cc (sym at ∙ at_j)) grows)
set_table-GrowAll zero t t' (x ∷ tables) at grows (suc j) u at_j = (u, at_j, λ name id e. e)
set_table-GrowAll (suc i) t t' (x ∷ tables) at grows zero u at_j = (u, at_j, λ name id e. e)
set_table-GrowAll (suc i) t t' (x ∷ tables) at grows (suc j) u at_j =
    set_table-GrowAll i t t' tables at grows j u at_j

pub get_elem?-set_table :
    (i : ℕ) (t t' : KeyTable) (tables : Tables)
    → get_elem? tables i ≡ some t
    → get_elem? (set_table i t' tables) i ≡ some t'
unfolding set_table
get_elem?-set_table i t t' [] at = absurd (cc at)
get_elem?-set_table zero t t' (x ∷ tables) at = refl
get_elem?-set_table (suc i) t t' (x ∷ tables) at = get_elem?-set_table i t t' tables at

pub set_table-All :
    (i : ℕ) (t : KeyTable) (tables : Tables)
    → IsConsistent t
    → All IsConsistent tables
    → All IsConsistent (set_table i t tables)
unfolding set_table
set_table-All i t [] ok a = tt
set_table-All zero t (x ∷ tables) ok (ax, a) = (ok, a)
set_table-All (suc i) t (x ∷ tables) ok (ax, a) = (ax, set_table-All i t tables ok a)

pub IsConsistent-at :
    (i : ℕ) (t : KeyTable) (tables : Tables)
    → All IsConsistent tables
    → get_elem? tables i ≡ some t
    → IsConsistent t
IsConsistent-at i t [] a at = absurd (cc at)
IsConsistent-at zero t (x ∷ tables) (ax, a) at = subst IsConsistent (cc at) ax
IsConsistent-at (suc i) t (x ∷ tables) (ax, a) at = IsConsistent-at i t tables a at

-- The key of a match stands for the captured value, in the table that the route names.
pub record Named (key : Option (ℕ × ℕ)) (m : TopicMatch) (tables : Tables) : Type 0 where
  pub place : ℕ
  pub capture : ℕ
  pub table : KeyTable
  pub id : ℕ
  pub value : Str
  pub keyed : key ≡ some (place, capture)
  pub given : m.key ≡ some id
  pub there : get_elem? tables place ≡ some table
  pub captured : slice_at m.topic (get_elem? m.spans capture) ≡ some value
  pub named : name_of table id ≡ some value

abbrev pub KeyFits : Option (ℕ × ℕ) → TopicMatch → Tables → Type 0
KeyFits key m tables = ((key ≡ none) × (m.key ≡ none)) ⊎ Named key m tables

pub KeyFits-GrowAll :
    (key : Option (ℕ × ℕ)) (m : TopicMatch) (tables tables' : Tables)
    → GrowAll tables tables'
    → KeyFits key m tables
    → KeyFits key m tables'
KeyFits-GrowAll key m tables tables' grow (inl free) = inl free
KeyFits-GrowAll key m tables tables' grow (inr n) =
    let (u, at, grows) = grow n.place n.table n.there in
    inr record {
      place = n.place;
      capture = n.capture;
      table = u;
      id = n.id;
      value = n.value;
      keyed = n.keyed;
      given = n.given;
      there = at;
      captured = n.captured;
      named = grows n.value n.id n.named;
    }

-- A call made for one of the routes.
abbrev pub CallFits : List CompiledRoute → Str → Str → Tables → Call → Type 0
CallFits routes topic payload tables c =
    (r : CompiledRoute) × Memᴰ r routes
    × (c.ingest ≡ r.ingest)
    × (c.topic_match.topic ≡ topic)
    × (c.payload ≡ payload)
    × KeyFits r.key c.topic_match tables
