-- ===== src/Prelude/Text.antt =====
-- A Rust `str` as the list of its bytes, with the methods of `str` that the program calls.
use Prim.Native.Nat.{ℕ, suc}
use mathlib.Core.Path.{◌≡◌, refl}
use mathlib.Core.Bool.{Bool, true, false, ◌&&◌, ◌||◌}
use mathlib.Core.Option.{Option, none, some}
use mathlib.Core.Option
use mathlib.Core.List.{List, [], ◌∷◌, ◌++◌}
use native.Mathlib.Omega.{arith}
use aimdb.Prelude.Tests.{◌==◌, if◌then◌else◌}

abbrev pub Str : Type 0
Str = List ℕ

unfoldable pub str_eq : Str → Str → Bool
str_eq [] [] = true
str_eq [] (d ∷ t) = false
str_eq (c ∷ s) [] = false
str_eq (c ∷ s) (d ∷ t) = c == d && str_eq s t

pub str_eq→eq : (s t : Str) → str_eq s t ≡ true → s ≡ t
unfolding str_eq
str_eq→eq [] [] h = refl
str_eq→eq [] (d ∷ t) h = ground arith
str_eq→eq (c ∷ s) [] h = ground arith
str_eq→eq (c ∷ s) (d ∷ t) h = ground (arith, str_eq→eq s t)

pub str_eq_refl : (s : Str) → str_eq s s ≡ true
unfolding str_eq
str_eq_refl [] = refl
str_eq_refl (c ∷ s) = ground (arith, str_eq_refl s)

pub eq→str_eq : (s t : Str) → s ≡ t → str_eq s t ≡ true
eq→str_eq s t e = cc (str_eq_refl s)

-- `str::contains(char)`
unfoldable pub contains : ℕ → Str → Bool
contains b [] = false
contains b (c ∷ s) = c == b || contains b s

-- `str::starts_with(&str)`
unfoldable pub starts_with : Str → Str → Bool
starts_with [] t = true
starts_with (c ∷ s) [] = false
starts_with (c ∷ s) (d ∷ t) = c == d && starts_with s t

-- `str::strip_suffix(&str)`, the suffix first.
unfoldable pub strip_suffix : Str → Str → Option Str
strip_suffix suf [] = if str_eq [] suf then some [] else none
strip_suffix suf (c ∷ s) =
    if str_eq (c ∷ s) suf then some [] else Option.map (λ p. c ∷ p) (strip_suffix suf s)

pub strip_suffix-append : (suf s p : Str) → strip_suffix suf s ≡ some p → s ≡ p ++ suf
unfolding strip_suffix
strip_suffix-append suf [] p h = ground (arith, str_eq→eq [] suf)
strip_suffix-append suf (c ∷ s) p h =
    grind (arith, str_eq→eq (c ∷ s) suf, λ (q : Str). strip_suffix-append suf s q)

unfoldable pub cons_head : ℕ → List Str → List Str
cons_head c [] = (c ∷ []) ∷ []
cons_head c (x ∷ xs) = (c ∷ x) ∷ xs

-- `str::split(char)`: the pieces between the separators, at least one.
unfoldable pub split : ℕ → Str → List Str
unfolding cons_head
split sep [] = [] ∷ []
split sep (c ∷ s) = let rest = split sep s in if c == sep then [] ∷ rest else cons_head c rest

-- `iter().position(|&c| c == b)`
unfoldable pub position : ℕ → Str → Option ℕ
position b [] = none
position b (c ∷ s) = if c == b then some 0 else Option.map suc (position b s)
