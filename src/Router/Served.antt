-- ===== src/Router/Served.antt =====
-- What routing a message does to the key tables, and the calls that it makes.
use aimdb.Prelude.{
  ℕ, ◌≡◌, refl, ap, ◌∙◌, List, [], ◌∷◌, Bool, true, false, Option, none, some, get_elem?, All,
  All-append, inl, inr, Str,
}
use mathlib.Core.List.{Memᴰ}
use mathlib.Core.Option
use aimdb.KeyTable
use aimdb.KeyTable.{KeyTable, name_of}
use aimdb.KeyTable.Consistent.{IsConsistent}
use aimdb.KeyTable.Assigned.{key-IsConsistent, key-Grows, key-name_of}
use aimdb.TopicPattern.{Spans, TopicMatch, slice_at, max_captures}
use aimdb.Router.{
  CompiledRoute, route_matches, Tables, key_in, key_by, Call, no_spans, call, call_keyed, try_route,
  route,
}
use aimdb.Router.Keys.{
  GrowAll, GrowAll-refl, GrowAll-trans, set_table-GrowAll, get_elem?-set_table, set_table-All,
  IsConsistent-at, KeyFits, KeyFits-GrowAll, CallFits,
}

-- What asking for a key does.
record Keyed (key : Option (ℕ × ℕ)) (tables : Tables) (topic : Str) (spans : Spans)
    (out : Option (Option ℕ) × Tables) : Type 0 where
  consistent : All IsConsistent out.1
  grow : GrowAll tables out.1
  fits :
      (m : TopicMatch)
      → out.0 ≡ some m.key
      → m.topic ≡ topic
      → m.spans ≡ spans
      → KeyFits key m out.1

mapped_key :
    (k : Option ℕ) (key : Option ℕ)
    → Option.map (λ id. some id) k ≡ some key
    → (id : ℕ) × (k ≡ some id) × (key ≡ some id)
mapped_key none key e = absurd (cc e)
mapped_key (some id) key e = (id, refl, cc e)

module _ (i capture : ℕ) (tables : Tables) (topic : Str) (spans : Spans)
    (ok : All IsConsistent tables) where
  given_key :
      (t : KeyTable) (v : Str)
      → get_elem? tables i ≡ some t
      → slice_at topic (get_elem? spans capture) ≡ some v
      → Keyed (some (i, capture)) tables topic spans (key_in tables i (some t) (some v))
  unfolding key_in
  given_key t v at cut =
      let ok_t = IsConsistent-at i t tables ok at in
      let t' = (KeyTable.key t v).1 in
      record {
        consistent = set_table-All i t' tables (key-IsConsistent t v ok_t) ok;
        grow = set_table-GrowAll i t t' tables at (key-Grows t v);
        fits = λ m e same_topic same_spans.
            let (id, given, here) = mapped_key (KeyTable.key t v).0 m.key e in
            inr record {
              place = i;
              capture = capture;
              table = t';
              id = id;
              value = v;
              keyed = refl;
              given = here;
              there = get_elem?-set_table i t t' tables at;
              captured =
                  ap (λ s. slice_at s (get_elem? m.spans capture)) same_topic
                  ∙ ap (λ (s : Spans). slice_at topic (get_elem? s capture)) same_spans
                  ∙ cut;
              named = key-name_of t v id ok_t given;
            };
      }

  key_in-Keyed :
      (t? : Option KeyTable) (v? : Option Str)
      → get_elem? tables i ≡ t?
      → slice_at topic (get_elem? spans capture) ≡ v?
      → Keyed (some (i, capture)) tables topic spans (key_in tables i t? v?)
  unfolding key_in
  key_in-Keyed none v? at cut = record {
    consistent = ok;
    grow = GrowAll-refl tables;
    fits = λ m e _ _. absurd (cc e);
  }
  key_in-Keyed (some t) none at cut = record {
    consistent = ok;
    grow = GrowAll-refl tables;
    fits = λ m e _ _. absurd (cc e);
  }
  key_in-Keyed (some t) (some v) at cut = given_key t v at cut

key_by-Keyed :
    (key : Option (ℕ × ℕ)) (tables : Tables) (topic : Str) (spans : Spans)
    → All IsConsistent tables
    → Keyed key tables topic spans (key_by key tables topic spans)
unfolding key_by
key_by-Keyed none tables topic spans ok = record {
  consistent = ok;
  grow = GrowAll-refl tables;
  fits = λ m e _ _. inl (refl, cc e);
}
key_by-Keyed (some (i, capture)) tables topic spans ok =
    key_in-Keyed i capture tables topic spans ok (get_elem? tables i)
      (slice_at topic (get_elem? spans capture)) refl refl

-- What routing a message does: the tables stay consistent and keep their names, and each call is made
-- for one of the routes.
pub record Served (routes : List CompiledRoute) (topic payload : Str) (tables : Tables)
    (out : List Call × Tables) : Type 0 where
  pub consistent : All IsConsistent out.1
  pub grow : GrowAll tables out.1
  pub fits : All (CallFits routes topic payload out.1) out.0

module _ (ingested : ℕ → TopicMatch → Str → Bool) (topic payload : Str) where
  call_keyed-Served :
      (r : CompiledRoute) (spans : Spans) (tables : Tables) (out : Option (Option ℕ) × Tables)
      → Keyed r.key tables topic spans out
      → Served (r ∷ []) topic payload tables (call_keyed ingested r topic payload spans out)
  unfolding call_keyed call
  call_keyed-Served r spans tables (none, tables') k = record {
    consistent = k.consistent;
    grow = k.grow;
    fits = tt;
  }
  call_keyed-Served r spans tables (some key, tables') k = record {
    consistent = k.consistent;
    grow = k.grow;
    fits = (
      (
        r,
        Memᴰ.head refl,
        refl,
        refl,
        refl,
        k.fits (call ingested r topic payload spans key).topic_match refl refl refl,
      ),
      tt,
    );
  }

  try_route-Served :
      (r : CompiledRoute) (m : Bool × Spans) (tables : Tables)
      → All IsConsistent tables
      → Served (r ∷ []) topic payload tables (try_route ingested r topic payload m tables)
  unfolding try_route
  try_route-Served r (false, spans) tables ok = record {
    consistent = ok;
    grow = GrowAll-refl tables;
    fits = tt;
  }
  try_route-Served r (true, spans) tables ok =
      call_keyed-Served r spans tables (key_by r.key tables topic spans)
        (key_by-Keyed r.key tables topic spans ok)

  CallFits-head :
      (r : CompiledRoute) (routes : List CompiledRoute) (a b : Tables) (calls : List Call)
      → GrowAll a b
      → All (CallFits (r ∷ []) topic payload a) calls
      → All (CallFits (r ∷ routes) topic payload b) calls
  CallFits-head r routes a b [] grow h = tt
  CallFits-head r routes a b (c ∷ calls) grow ((s, Memᴰ.head e, p, q, w, fits), h) = (
    (s, Memᴰ.head e, p, q, w, KeyFits-GrowAll s.key c.topic_match a b grow fits),
    CallFits-head r routes a b calls grow h,
  )
  CallFits-head r routes a b (c ∷ calls) grow ((s, Memᴰ.tail mem, p, q, w, fits), h) = elim mem [ ]

  CallFits-tail :
      (r : CompiledRoute) (routes : List CompiledRoute) (b : Tables) (calls : List Call)
      → All (CallFits routes topic payload b) calls
      → All (CallFits (r ∷ routes) topic payload b) calls
  CallFits-tail r routes b [] h = tt
  CallFits-tail r routes b (c ∷ calls) ((s, mem, p, q, w, fits), h) =
      ((s, Memᴰ.tail mem, p, q, w, fits), CallFits-tail r routes b calls h)

  -- From consistent key tables routing a message leaves consistent tables in which every key that was
  -- given still stands for its name; and every call is made for one of the routes, with the topic and the
  -- payload, and its key, if the route has one, stands in the table of the route for the value captured.
  pub route-Served :
      (routes : List CompiledRoute) (tables : Tables)
      → All IsConsistent tables
      → Served routes topic payload tables (route ingested routes tables topic payload)
  unfolding route
  route-Served [] tables ok = record { consistent = ok; grow = GrowAll-refl tables; fits = tt }
  route-Served (r ∷ routes) tables ok =
      let m = route_matches r topic (no_spans max_captures) in
      let (calls, tables') = try_route ingested r topic payload m tables in
      let here = try_route-Served r m tables ok in
      let (later, tables'') = route ingested routes tables' topic payload in
      let there = route-Served routes tables' here.consistent in
      record {
        consistent = there.consistent;
        grow = GrowAll-trans tables tables' tables'' here.grow there.grow;
        fits =
            All-append (CallFits (r ∷ routes) topic payload tables'') calls later
              (CallFits-head r routes tables' tables'' calls there.grow here.fits)
              (CallFits-tail r routes tables'' later there.fits);
      }
