-- ===== src/Graph/Random.antt =====
-- SplitMix64 of aimdb-core/src/graph.rs, and the place that it draws.
use Prim.Native.Nat.{digits, differ, bit_xor, bit_xor-bitwise}
use aimdb.Prelude.{ℕ, zero, suc, ◌+◌, ◌*◌, ◌/◌, ◌%◌, ◌^◌, ◌<◌, arith}

-- `x ^ (x >> k)`.
xor_shift : ℕ → ℕ → ℕ
xor_shift k x = bit_xor x (x / 2 ^ k)

wrapping_mul : ℕ → ℕ → ℕ
wrapping_mul a b = a * b % 2 ^ 64

-- The state advances by a constant, and the number drawn is a hash of it.
next_state : ℕ → ℕ
next_state s = (s + 0x9E3779B97F4A7C15) % 2 ^ 64

mix : ℕ → ℕ
unfolding xor_shift wrapping_mul
mix s =
    let first = wrapping_mul (xor_shift 30 s) 0xBF58476D1CE4E5B9 in
    let second = wrapping_mul (xor_shift 27 first) 0x94D049BB133111EB in xor_shift 31 second

unfoldable pub next : ℕ → ℕ × ℕ
unfolding next_state mix
next s = let s' = next_state s in (mix s', s')

-- An index below `len`, and the next state.
unfoldable pub below : ℕ → ℕ → ℕ × ℕ
unfolding next
below s len = let (drawn, s') = next s in (drawn * len / 2 ^ 64, s')

differ-le : (x y : ℕ) → x < 2 → y < 2 → differ x y < 2
differ-le zero y p q = q
differ-le (suc x) zero p q = p
differ-le (suc x) (suc y) p q = differ-le x y (omega arith) (omega arith)

-- Digits of numbers below the same power of two stay below it.
digits-lt : (w n a b : ℕ) → a < 2 ^ w → b < 2 ^ w → digits (λ b. b) differ n a b < 2 ^ w
digits-lt w zero a b p q = q
digits-lt w (suc n) zero b p q = q
digits-lt zero (suc n) (suc a) b p q = absurd (omega arith)
digits-lt (suc w) (suc n) (suc a) b p q =
    let half : suc a / 2 < 2 ^ w = omega arith in
    let rest = digits-lt w n (suc a / 2) (b / 2) half (omega arith) in
    omega (arith, rest, differ-le (suc a % 2) (b % 2))

xor-lt : (w a b : ℕ) → a < 2 ^ w → b < 2 ^ w → bit_xor a b < 2 ^ w
xor-lt w a b p q = omega (arith, digits-lt w a a b p q, bit_xor-bitwise a b)

mix-lt : (s : ℕ) → mix s < 2 ^ 64
unfolding mix xor_shift wrapping_mul
mix-lt s =
    let second =
      xor_shift 27 (wrapping_mul (xor_shift 30 s) 0xBF58476D1CE4E5B9)
      * 0x94D049BB133111EB
      % 2 ^ 64 in
    xor-lt 64 second (second / 2 ^ 31) (omega arith) (omega arith)

mul-lt : (a b n : ℕ) → a < b → 0 < n → a * n < b * n
mul-lt a b n p pos = grind arith

pub below-lt : (s len : ℕ) → 0 < len → (below s len).0 < len
unfolding below next
below-lt s len pos =
    let drawn = mix (next_state s) in
    omega (arith, mul-lt drawn (2 ^ 64) len (mix-lt (next_state s)) pos)
