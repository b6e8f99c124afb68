-- ===== src/Router.antt =====
-- aimdb-core/src/router.rs: messages to the records whose routes match, and the filters to subscribe.
-- A callback is a number, and what it answers is a parameter. Routes share key tables, so a route
-- names its table by the place in a list of them. Log lines are left out.
pub mod Ids
pub mod Keys
pub mod Served
pub mod Beats
pub mod Subscriptions
mod Tests
use aimdb.Prelude.{
  ℕ, zero, suc, ◌-◌, ◌^◌, List, [], ◌∷◌, ◌++◌, map, Bool, true, false, not, ◌&&◌, ◌||◌, Option,
  none, some, length, get_elem?, ltb, leb, ◌==◌, if◌then◌else◌, Str, str_eq,
}
use mathlib.Core.Option
use aimdb.KeyTable
use aimdb.KeyTable.{KeyTable}
use aimdb.TopicPattern.{Spans, TopicMatch, slice_at, max_captures}

-- The trait of a compiled pattern.
pub record TopicFilter : Type 0 where
  pub filter : Str
  pub is_literal : Bool
  pub matches : Str → Spans → Bool × Spans

pub record CompiledRoute : Type 0 where
  pub filter : Str
  pub matcher : Option (Str → Spans → Bool × Spans)
  pub names : List Str
  pub key : Option (ℕ × ℕ)
  pub ingest : ℕ

-- `CompiledRoute::pattern`.
unfoldable pub pattern : TopicFilter → List Str → Option (ℕ × ℕ) → ℕ → CompiledRoute
pattern f names key ingest = record {
  filter = f.filter;
  matcher = if f.is_literal then none else some f.matches;
  names = names;
  key = key;
  ingest = ingest;
}

unfoldable pub matches_by : Option (Str → Spans → Bool × Spans) → Str → Str → Spans → Bool × Spans
matches_by none filter topic spans = (str_eq filter topic, spans)
matches_by (some m) filter topic spans =
    if leb (length topic) (2 ^ 16 - 1) then m topic spans else (false, spans)

-- `CompiledRoute::matches`.
unfoldable pub route_matches : CompiledRoute → Str → Spans → Bool × Spans
unfolding matches_by
route_matches route topic spans = matches_by route.matcher route.filter topic spans

abbrev pub Tables : Type 0
Tables = List KeyTable

unfoldable pub set_table : ℕ → KeyTable → Tables → Tables
set_table i t [] = []
set_table zero t (u ∷ tables) = t ∷ tables
set_table (suc i) t (u ∷ tables) = u ∷ set_table i t tables

-- The key of a captured value, from the table there is.
unfoldable pub key_in : Tables → ℕ → Option KeyTable → Option Str → Option (Option ℕ) × Tables
unfolding set_table
key_in tables i none value = (none, tables)
key_in tables i (some t) none = (none, tables)
key_in tables i (some t) (some v) =
    let (k, t') = KeyTable.key t v in (Option.map (λ id. some id) k, set_table i t' tables)

unfoldable pub key_by : Option (ℕ × ℕ) → Tables → Str → Spans → Option (Option ℕ) × Tables
unfolding key_in
key_by none tables topic spans = (some none, tables)
key_by (some (i, capture)) tables topic spans =
    key_in tables i (get_elem? tables i) (slice_at topic (get_elem? spans capture))

-- What an ingest callback was called with, and whether it took the message.
pub record Call : Type 0 where
  pub ingest : ℕ
  pub topic_match : TopicMatch
  pub payload : Str
  pub taken : Bool

unfoldable pub no_spans : ℕ → Spans
no_spans zero = []
no_spans (suc n) = (0, 0) ∷ no_spans n

module _ (ingested : ℕ → TopicMatch → Str → Bool) where
  unfoldable pub call : CompiledRoute → Str → Str → Spans → Option ℕ → Call
  call route topic payload spans key =
      let m : TopicMatch = record {
        topic = topic;
        names = route.names;
        spans = spans;
        key = key;
      } in
      record {
        ingest = route.ingest;
        topic_match = m;
        payload = payload;
        taken = ingested route.ingest m payload;
      }

  unfoldable pub call_keyed :
      CompiledRoute → Str → Str → Spans → Option (Option ℕ) × Tables → List Call × Tables
  unfolding call
  call_keyed route topic payload spans (none, tables) = ([], tables)
  call_keyed route topic payload spans (some key, tables) =
      (call route topic payload spans key ∷ [], tables)

  -- One route: nothing if it does not match or its key table is full.
  unfoldable pub try_route : CompiledRoute → Str → Str → Bool × Spans → Tables → List Call × Tables
  unfolding call_keyed key_by
  try_route route topic payload (false, spans) tables = ([], tables)
  try_route route topic payload (true, spans) tables =
      call_keyed route topic payload spans (key_by route.key tables topic spans)

  -- `Router::route`: the calls made, in the order of the routes.
  unfoldable pub route : List CompiledRoute → Tables → Str → Str → List Call × Tables
  unfolding try_route route_matches no_spans
  route [] tables topic payload = ([], tables)
  route (r ∷ routes) tables topic payload =
      let (calls, tables') =
        try_route r topic payload (route_matches r topic (no_spans max_captures)) tables in
      let (later, tables'') = route routes tables' topic payload in (calls ++ later, tables'')

-- The order of strings is that of their bytes.
unfoldable pub str_le : Str → Str → Bool
str_le [] t = true
str_le (c ∷ s) [] = false
str_le (c ∷ s) (d ∷ t) = ltb c d || (c == d && str_le s t)

unfoldable pub insert : Str → List Str → List Str
insert s [] = s ∷ []
insert s (t ∷ ts) = if str_le s t then s ∷ t ∷ ts else t ∷ insert s ts

-- `sort_unstable_by`: equal strings cannot be told apart.
unfoldable pub sort : List Str → List Str
unfolding insert
sort [] = []
sort (s ∷ ss) = insert s (sort ss)

unfoldable pub dedup : List Str → List Str
dedup [] = []
dedup (s ∷ []) = s ∷ []
dedup (s ∷ t ∷ ts) = let rest = dedup (t ∷ ts) in if str_eq s t then rest else s ∷ rest

unfoldable pub resource_ids : List CompiledRoute → List Str
unfolding sort dedup
resource_ids routes = dedup (sort (map (λ (r : CompiledRoute). r.filter) routes))

module _ (covers : Str → Str → Bool) where
  -- The filter `b` at place `j` makes the filter `a` at place `i` needless.
  unfoldable pub beats : ℕ → Str → ℕ → Str → Bool
  beats j b i a = not (j == i) && covers b a && (ltb j i || not (covers a b))

  unfoldable pub beaten : ℕ → Str → ℕ → List Str → Bool
  unfolding beats
  beaten i a j [] = false
  beaten i a j (b ∷ bs) = beats j b i a || beaten i a (suc j) bs

  unfoldable pub keep : List Str → ℕ → List Str → List Str
  unfolding beaten
  keep ids i [] = []
  keep ids i (a ∷ later) =
      let rest = keep ids (suc i) later in if beaten i a 0 ids then rest else a ∷ rest

  unfoldable pub subscriptions : List CompiledRoute → List Str
  unfolding keep
  subscriptions routes = keep (resource_ids routes) 0 (resource_ids routes)
