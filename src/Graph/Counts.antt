-- ===== src/Graph/Counts.antt =====
-- How often a key stands in a list, and what the edges of a graph still ask for.
use aimdb.Prelude.{
  ℕ, ◌+◌, ◌≡◌, List, [], ◌∷◌, ◌++◌, ◌&&◌, ◌==◌, if◌then◌else◌, arith, Str, str_eq, str_eq→eq,
  str_eq_refl,
}

abbrev pub hit : Str → Str → ℕ
hit x k = if str_eq x k then 1 else 0

abbrev pub count : Str → List Str → ℕ
count k [] = 0
count k (x ∷ xs) = hit x k + count k xs

pub count-append : (k : Str) (xs ys : List Str) → count k (xs ++ ys) ≡ count k xs + count k ys
count-append k [] ys = omega arith
count-append k (x ∷ xs) ys = omega (arith, count-append k xs ys)

-- The edges, each as its input and its output.
abbrev pub Edges : Type 0
Edges = List (Str × Str)

-- The outputs that `i` is an input of.
abbrev pub outputs : Str → Edges → List Str
outputs i [] = []
outputs i ((j, o) ∷ es) = if str_eq j i then o ∷ outputs i es else outputs i es

-- How many edges into `k` come from a key that has not started.
abbrev pub waiting : Edges → List Str → Str → ℕ
waiting [] started k = 0
waiting ((i, o) ∷ es) started k =
    (if str_eq o k && count i started == 0 then 1 else 0) + waiting es started k

-- What starting `x` takes off.
pub waiting-start :
    (es : Edges) (started : List Str) (x k : Str)
    → count x started ≡ 0
    → waiting es started k ≡ waiting es (started ++ (x ∷ [])) k + count k (outputs x es)
waiting-start [] started x k fresh = omega arith
waiting-start ((i, o) ∷ es) started x k fresh = ground (
  arith,
  waiting-start es started x k fresh,
  count-append i started (x ∷ []),
  str_eq→eq i x,
  str_eq→eq x i,
  str_eq_refl x,
)
