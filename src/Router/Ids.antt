-- ===== src/Router/Ids.antt =====
-- The identifiers of a router hold the filter of each route.
use aimdb.Prelude.{
  ℕ, suc, ◌≡◌, refl, sym, ap, ◌∙◌, List, [], ◌∷◌, some, get_elem?, All, All-imp, Bool-cases, inl,
  inr, map, Str, str_eq, str_eq→eq,
}
use mathlib.Core.List.{Memᴰ}
use aimdb.Router.{CompiledRoute, str_le, insert, sort, dedup, resource_ids}

pub place_of : (ids : List Str) (a : Str) → Memᴰ a ids → (i : ℕ) × (get_elem? ids i ≡ some a)
place_of [] a mem = elim mem [ ]
place_of (x ∷ ids) a (Memᴰ.head e) = (0, ap some (sym e))
place_of (x ∷ ids) a (Memᴰ.tail mem) = let (i, at) = place_of ids a mem in (suc i, at)

mem_swapped :
    (a s t : Str) (ts us : List Str)
    → Memᴰ a (s ∷ t ∷ ts)
    → (Memᴰ a (s ∷ ts) → Memᴰ a us)
    → Memᴰ a (t ∷ us)
mem_swapped a s t ts us (Memᴰ.head e) ih = Memᴰ.tail (ih (Memᴰ.head e))
mem_swapped a s t ts us (Memᴰ.tail (Memᴰ.head e)) ih = Memᴰ.head e
mem_swapped a s t ts us (Memᴰ.tail (Memᴰ.tail m)) ih = Memᴰ.tail (ih (Memᴰ.tail m))

mem-insert : (a s : Str) (ts : List Str) → Memᴰ a (s ∷ ts) → Memᴰ a (insert s ts)
unfolding insert
mem-insert a s [] mem = mem
mem-insert a s (t ∷ ts) mem = elim (Bool-cases (str_le s t)) [
  | inl e ↦ rw e mem
  | inr e ↦ rw e (mem_swapped a s t ts (insert s ts) mem (mem-insert a s ts))
]

mem-sort : (a : Str) (ss : List Str) → Memᴰ a ss → Memᴰ a (sort ss)
unfolding sort
mem-sort a [] mem = mem
mem-sort a (s ∷ ss) (Memᴰ.head e) = mem-insert a s (sort ss) (Memᴰ.head e)
mem-sort a (s ∷ ss) (Memᴰ.tail m) = mem-insert a s (sort ss) (Memᴰ.tail (mem-sort a ss m))

mem-dedup : (a : Str) (ss : List Str) → Memᴰ a ss → Memᴰ a (dedup ss)
unfolding dedup
mem-dedup a [] mem = mem
mem-dedup a (s ∷ []) mem = mem
mem-dedup a (s ∷ t ∷ ts) (Memᴰ.tail m) = elim (Bool-cases (str_eq s t)) [
  | inl e ↦ rw e (mem-dedup a (t ∷ ts) m)
  | inr e ↦ rw e (Memᴰ.tail (mem-dedup a (t ∷ ts) m))
]
mem-dedup a (s ∷ t ∷ ts) (Memᴰ.head q) = elim (Bool-cases (str_eq s t)) [
  | inl e ↦ rw e (mem-dedup a (t ∷ ts) (Memᴰ.head (q ∙ str_eq→eq s t e)))
  | inr e ↦ rw e (Memᴰ.head q)
]

own_filters :
    (routes : List CompiledRoute)
    → All
        (λ (r : CompiledRoute). Memᴰ r.filter (map (λ (s : CompiledRoute). s.filter) routes))
        routes
own_filters [] = tt
own_filters (r ∷ routes) = (
  Memᴰ.head refl,
  All-imp (λ (s : CompiledRoute). Memᴰ s.filter (map (λ (q : CompiledRoute). q.filter) routes))
      (λ (s : CompiledRoute). Memᴰ s.filter (map (λ (q : CompiledRoute). q.filter) (r ∷ routes)))
      routes (λ s m. Memᴰ.tail m) (own_filters routes),
)

pub resource_ids-mem :
    (routes : List CompiledRoute)
    → All (λ (r : CompiledRoute). Memᴰ r.filter (resource_ids routes)) routes
unfolding resource_ids
resource_ids-mem routes =
    All-imp (λ (s : CompiledRoute). Memᴰ s.filter (map (λ (q : CompiledRoute). q.filter) routes))
      (λ (s : CompiledRoute).
        Memᴰ s.filter (dedup (sort (map (λ (q : CompiledRoute). q.filter) routes))))
      routes (λ s m. mem-dedup s.filter _ (mem-sort s.filter _ m)) (own_filters routes)
