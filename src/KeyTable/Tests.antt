-- ===== src/KeyTable/Tests.antt =====
-- Examples for the key table: two keys for three names.
use aimdb.Prelude.{◌≡◌, refl, [], ◌∷◌, none, some, Str, str_eq}
use aimdb.KeyTable.{new, get, assign, key, name_of}
use aimdb.KeyTable.Consistent.{new-IsConsistent}
use aimdb.KeyTable.Assigned.{keys, key-keys}

abbrev name_a : Str
name_a = b'a' ∷ []

abbrev name_b : Str
name_b = b'b' ∷ []

abbrev name_c : Str
name_c = b'c' ∷ []

first_key : (key (new 2) name_a).0 ≡ some 1
unfolding key new get
first_key = refl

second_call : (key (keys (key (new 2) name_a).1 (name_b ∷ [])) name_a).0 ≡ some 1
unfolding key new get str_eq assign
second_call = refl

full_table : (key (keys (new 2) (name_a ∷ name_b ∷ [])) name_c).0 ≡ none
unfolding key new get str_eq assign
full_table = refl

key-keys_example :
    (name_of (keys (key (new 2) name_a).1 (name_b ∷ name_c ∷ [])) 1 ≡ some name_a)
    × ((key (keys (key (new 2) name_a).1 (name_b ∷ name_c ∷ [])) name_a).0 ≡ some 1)
key-keys_example = key-keys (new 2) name_a 1 (name_b ∷ name_c ∷ []) (new-IsConsistent 2) first_key
