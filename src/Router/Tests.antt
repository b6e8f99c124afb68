-- ===== src/Router/Tests.antt =====
-- Runs of aimdb-core/src/router.rs over the exact grammar, and the theorems at them.
use aimdb.Prelude.{
  ℕ, ◌≡◌, refl, List, [], ◌∷◌, Bool, true, none, some, All, Str, str_eq, str_eq→eq, str_eq_refl,
  ◌∙◌, ap,
}
use mathlib.Core.List.{Memᴰ}
use aimdb.KeyTable
use aimdb.KeyTable.{KeyTable}
use aimdb.KeyTable.Consistent.{new-IsConsistent}
use aimdb.TopicPattern.{TopicMatch, Spans, slice_at}
use aimdb.Router.{CompiledRoute, subscriptions, Call, route}
use aimdb.Router.Beats.{CoversLaws}
use aimdb.Router.Subscriptions.{Antichain, subscriptions_lem}
use aimdb.Router.Served.{Served, route-Served}

abbrev one_byte : ℕ → Str
one_byte c = c ∷ []

-- A matcher that captures the whole topic.
abbrev any_topic : Str → Spans → Bool × Spans
any_topic topic spans = (true, (0, 1) ∷ [])

abbrev exact_route : CompiledRoute
exact_route = record { filter = one_byte b'b'; matcher = none; names = []; key = none; ingest = 1 }

abbrev keyed_route : CompiledRoute
keyed_route = record {
  filter = one_byte b'+';
  matcher = some any_topic;
  names = one_byte b'x' ∷ [];
  key = some (0, 0);
  ingest = 2;
}

abbrev routes : List CompiledRoute
routes = exact_route ∷ keyed_route ∷ exact_route ∷ []

-- Every callback takes its message.
abbrev takes_all : ℕ → TopicMatch → Str → Bool
takes_all ingest m payload = true

abbrev ingests : List Call → List ℕ
ingests [] = []
ingests (c ∷ calls) = c.ingest ∷ ingests calls

all_three :
    ingests (route takes_all routes (KeyTable.new 1 ∷ []) (one_byte b'b') []).0 ≡ 1 ∷ 2 ∷ 1 ∷ []
unfolding route str_eq KeyTable.new KeyTable.key KeyTable.get slice_at
all_three = refl

no_room : ingests (route takes_all routes (KeyTable.new 0 ∷ []) (one_byte b'b') []).0 ≡ 1 ∷ 1 ∷ []
unfolding route str_eq KeyTable.new KeyTable.key KeyTable.get slice_at
no_room = refl

route-Served_example :
    Served routes
      (one_byte b'b')
      []
      (KeyTable.new 1 ∷ [])
      (route takes_all routes (KeyTable.new 1 ∷ []) (one_byte b'b') [])
route-Served_example =
    route-Served takes_all (one_byte b'b') [] routes (KeyTable.new 1 ∷ []) (new-IsConsistent 1, tt)

-- The covering that a grammar has if it names none: equality.
exact-CoversLaws : CoversLaws str_eq
exact-CoversLaws = record {
  covers_refl = str_eq_refl;
  covers_trans = λ a b c p q. ap (λ s. str_eq s c) (str_eq→eq a b p) ∙ q;
}

subscriptions_lem_example :
    All
      (λ (r : CompiledRoute).
        (b : Str) × Memᴰ b (subscriptions str_eq routes) × (str_eq b r.filter ≡ true))
      routes
    × Antichain str_eq exact-CoversLaws (subscriptions str_eq routes)
subscriptions_lem_example = subscriptions_lem str_eq exact-CoversLaws routes
