-- ===== src/KeyTable/Consistent.antt =====
-- The map and the list of names of a key table agree, and go on agreeing when a name is added.
use aimdb.Prelude.{
  ℕ, zero, suc, ◌+◌, ◌-◌, ◌≤◌, ◌<◌, ◌≡◌, refl, sym, ap, ◌∙◌, List, [], ◌∷◌, ◌++◌, true, false, none,
  some, length, length-append, get_elem?, arith, Bool-cases, inl, inr, ◌⊎◌, Str, str_eq, str_eq→eq,
  eq→str_eq,
}
use aimdb.KeyTable.{KeyTable, new, get, index, name_of}

-- The map and the list of names say the same, and there are no more names than the capacity.
pub record IsConsistent (t : KeyTable) : Type 0 where
  pub listed :
      (name : Str) (id : ℕ) → get name t.by_name ≡ some id → (0 < id) × (name_of t id ≡ some name)
  pub mapped :
      (name : Str) (id : ℕ) → 0 < id → name_of t id ≡ some name → get name t.by_name ≡ some id
  pub bounded : length t.names ≤ t.capacity

pub new-IsConsistent : (capacity : ℕ) → IsConsistent (new capacity)
unfolding new get name_of
new-IsConsistent capacity = record {
  listed = λ name id e. absurd (cc e);
  mapped = λ name id pos e. absurd (cc e);
  bounded = omega arith;
}

pub get_elem?-append :
    (names : List Str) (i : ℕ) (name new_name : Str)
    → get_elem? names i ≡ some name
    → get_elem? (names ++ (new_name ∷ [])) i ≡ some name
get_elem?-append [] i name new_name e = absurd (cc e)
get_elem?-append (n ∷ names) zero name new_name e = e
get_elem?-append (n ∷ names) (suc i) name new_name e = get_elem?-append names i name new_name e

get_elem?-last :
    (names : List Str) (name : Str) → get_elem? (names ++ (name ∷ [])) (length names) ≡ some name
get_elem?-last [] name = refl
get_elem?-last (n ∷ names) name = get_elem?-last names name

-- Behind the old names stands the new one.
get_elem?-new :
    (names : List Str) (i : ℕ) (name new_name : Str)
    → get_elem? (names ++ (new_name ∷ [])) i ≡ some name
    → (get_elem? names i ≡ some name) ⊎ ((i ≡ length names) × (new_name ≡ name))
get_elem?-new [] zero name new_name e = inr (refl, cc e)
get_elem?-new [] (suc i) name new_name e = absurd (cc e)
get_elem?-new (n ∷ names) zero name new_name e = inl e
get_elem?-new (n ∷ names) (suc i) name new_name e = elim (get_elem?-new names i name new_name e) [
  | inl old ↦ inl old
  | inr (last, same) ↦ inr (ap suc last, same)
]

-- A name that is new, with room for it.
abbrev pub extended : KeyTable → Str → KeyTable
extended t name = record t {
  names = t.names ++ (name ∷ []);
  by_name = (name, length t.names + 1) ∷ t.by_name;
}

pub get_same :
    (name n : Str) (id : ℕ) (entries : List (Str × ℕ))
    → str_eq name n ≡ true
    → get n ((name, id) ∷ entries) ≡ some id
unfolding get
get_same name n id entries same = rw same refl

get_other :
    (name n : Str) (id : ℕ) (entries : List (Str × ℕ))
    → str_eq name n ≡ false
    → get n ((name, id) ∷ entries) ≡ get n entries
unfolding get
get_other name n id entries other = rw other refl

absent_here :
    (t : KeyTable) (name n : Str) (id : ℕ)
    → get name t.by_name ≡ none
    → get n t.by_name ≡ some id
    → name ≡ n
    → ⊥
absent_here t name n id fresh found q =
    ground (arith, sym fresh ∙ ap (λ k. get k t.by_name) q ∙ found)

pub extended-IsConsistent :
    (t : KeyTable) (name : Str)
    → IsConsistent t
    → get name t.by_name ≡ none
    → length t.names + 1 ≤ t.capacity
    → IsConsistent (extended t name)
unfolding get name_of index
extended-IsConsistent t name ok fresh room = record {
  listed = λ n id e. elim (Bool-cases (str_eq name n)) [
    | inl same ↦
        let found = get_same name n (length t.names + 1) t.by_name same in
        let q = str_eq→eq name n same in
        let same_id : length t.names + 1 ≡ id = ground (arith, found, e) in
        let last : id - 1 ≡ length t.names = omega (arith, same_id) in
        (
          omega (arith, same_id),
          ap (get_elem? (t.names ++ (name ∷ []))) last ∙ get_elem?-last t.names name ∙ ap some q,
        )
    | inr other ↦
        let old =
          ok.listed n id (sym (get_other name n (length t.names + 1) t.by_name other) ∙ e) in
        (old.0, get_elem?-append t.names (id - 1) n name old.1)
  ];
  mapped = λ n id pos e. elim (get_elem?-new t.names (id - 1) n name e) [
    | inl old ↦ elim (Bool-cases (str_eq name n)) [
      | inl same ↦
          absurd (absent_here t name n id fresh (ok.mapped n id pos old) (str_eq→eq name n same))
      | inr other ↦ get_other name n (length t.names + 1) t.by_name other ∙ ok.mapped n id pos old
    ]
    | inr (last, same) ↦
        get_same name n (length t.names + 1) t.by_name (eq→str_eq name n same)
        ∙ ap some (omega (arith, last, pos))
  ];
  bounded = omega (arith, length-append t.names (name ∷ []), room);
}
