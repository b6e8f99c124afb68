-- ===== src/SessionClient/Doubling.antt =====
-- The delays of a client, without the count of attempts: each is twice the one before, up to a limit.
use native.Mathlib.Decide.{dec_lt}
use native.Mathlib.Nat.{pow-le-pow_right, mul-le-mul_left}
use aimdb.Prelude.{
  ℕ, suc, ◌+◌, ◌-◌, ◌*◌, ◌^◌, ◌≤◌, ◌<◌, min, max, ◌≡◌, refl, sym, ap, subst, ◌∙◌, ◌⊎◌, List, [],
  ◌∷◌, ◌++◌, Bool, true, false, Option, none, some, arith, All, inl, inr,
}
use aimdb.SessionClient.{
  ClientConfig, u64_max, backoff_delay, reconnect_after, disconnected, handles_dropped, Trial,
  dial_failed, session, attempted, client_loop, slept,
}
use aimdb.SessionClient.Backoff.{IsDelay, client_loop-IsDelay}

-- What the delays grow to: the upper bound, or the base delay if that is larger, unless doubling it sixteen
-- times gives less.
abbrev pub limit : ClientConfig → ℕ
limit config =
    min (min (config.reconnect_delay * 2 ^ 16) u64_max)
      (max config.max_reconnect_delay config.reconnect_delay)

-- The delays that follow, the next one after a failed dial being this one. A connection starts them over.
abbrev pub doubled : ClientConfig → ℕ → List Trial → List ℕ
doubled config d [] = []
doubled config d (dial_failed true ∷ trials) = []
doubled config d (dial_failed false ∷ trials) =
    d ∷ doubled config (min (2 * d) (limit config)) trials
doubled config d (session handles_dropped ∷ trials) = []
doubled config d (session disconnected ∷ trials) =
    config.reconnect_delay ∷ doubled config (min (2 * config.reconnect_delay) (limit config)) trials

twice : (base n : ℕ) → base * 2 ^ suc n ≡ 2 * (base * 2 ^ n)
twice base n = grind arith

below_top : (base n : ℕ) → n ≤ 15 → 2 * (base * 2 ^ n) ≤ base * 2 ^ 16
below_top base n h =
    let powers : 2 ^ suc n ≤ 2 ^ 16 =
      pow-le-pow_right {n = 2} (omega arith) {i = suc n} {j = 16} (omega arith) in
    let products : base * 2 ^ suc n ≤ base * 2 ^ 16 = mul-le-mul_left base powers in
    omega (arith, twice base n, products)

backoff-doubles :
    (config : ClientConfig) (n : ℕ)
    → backoff_delay config (n + 2) ≡ min (2 * backoff_delay config (n + 1)) (limit config)
unfolding backoff_delay
backoff-doubles config n = elim (dec_lt n 16) [
  | yes small ↦
      let next : min (n + 2 - 1) 16 ≡ suc n = omega arith in
      let this : min (n + 1 - 1) 16 ≡ n = omega arith in
      rw (next, this)
        (omega
          (arith, twice config.reconnect_delay n, below_top config.reconnect_delay n (omega arith)))
  | no large ↦
      let next : min (n + 2 - 1) 16 ≡ 16 = omega arith in
      let this : min (n + 1 - 1) 16 ≡ 16 = omega arith in rw (next, this) (omega arith)
]

backoff-first :
    (config : ClientConfig)
    → config.reconnect_delay ≤ u64_max
    → backoff_delay config 1 ≡ config.reconnect_delay
unfolding backoff_delay
backoff-first config small = omega arith

-- It may stop before it is told to.
abbrev pub IsLimited : ClientConfig → Type 0
IsLimited config = (config.reconnect ≡ false) ⊎ (0 < config.max_reconnect_attempts)

reconnect_after-cases :
    (config : ClientConfig) (attempt : ℕ)
    → (((reconnect_after config attempt).0 ≡ none) × IsLimited config)
      ⊎ (reconnect_after config attempt ≡ (some (backoff_delay config (attempt + 1)), attempt + 1))
unfolding reconnect_after
reconnect_after-cases config attempt = ground arith

-- The loop sleeps these delays, or the first of them if it is limited.
abbrev pub Doubles : ClientConfig → List ℕ → List ℕ → Type 0
Doubles config delays all =
    (rest : List ℕ) × (delays ++ rest ≡ all) × ((rest ≡ []) ⊎ IsLimited config)

slept-Doubles :
    (config : ClientConfig) (d : ℕ) (r : Option ℕ × ℕ) (n : ℕ) (later : ℕ → List ℕ × Bool)
    (all : List ℕ)
    → ((r.0 ≡ none) × IsLimited config) ⊎ (r ≡ (some d, n))
    → Doubles config (later n).0 all
    → Doubles config (slept r.0 (later r.1)).0 (d ∷ all)
unfolding slept
slept-Doubles config d r n later all (inl (none_left, limited)) h =
    rw none_left (d ∷ all, refl, inr limited)
slept-Doubles config d r n later all (inr goes) (rest, e, whole) =
    rw goes (rest, ap (λ ds. d ∷ ds) e, whole)

-- The attempt that the loop makes next, with its delay.
tried-Doubles :
    (config : ClientConfig) (attempt d : ℕ) (later : ℕ → List ℕ × Bool) (all : List ℕ)
    → d ≡ backoff_delay config (attempt + 1)
    → Doubles config (later (attempt + 1)).0 all
    → Doubles config
        (slept (reconnect_after config attempt).0 (later (reconnect_after config attempt).1)).0
        (d ∷ all)
tried-Doubles config attempt d later all is h =
    slept-Doubles config d (reconnect_after config attempt) (attempt + 1) later all
      (subst
        (λ b.
          (((reconnect_after config attempt).0 ≡ none) × IsLimited config)
          ⊎ (reconnect_after config attempt ≡ (some b, attempt + 1)))
        (sym is) (reconnect_after-cases config attempt))
      h

following :
    (config : ClientConfig) (attempt d : ℕ)
    → d ≡ backoff_delay config (attempt + 1)
    → min (2 * d) (limit config) ≡ backoff_delay config (attempt + 1 + 1)
following config attempt d is =
    ap (λ b. min (2 * b) (limit config)) is
    ∙ sym (backoff-doubles config attempt)
    ∙ ap (backoff_delay config) (omega arith)

looped :
    (config : ClientConfig) (attempt d : ℕ) (trials : List Trial)
    → config.reconnect_delay ≤ u64_max
    → d ≡ backoff_delay config (attempt + 1)
    → Doubles config (client_loop config attempt trials).0 (doubled config d trials)
unfolding client_loop attempted
looped config attempt d [] small is = ([], refl, inl refl)
looped config attempt d (dial_failed true ∷ trials) small is = ([], refl, inl refl)
looped config attempt d (session handles_dropped ∷ trials) small is = ([], refl, inl refl)
looped config attempt d (dial_failed false ∷ trials) small is =
    tried-Doubles config attempt d (λ n. client_loop config n trials)
      (doubled config (min (2 * d) (limit config)) trials) is
      (looped config (attempt + 1) (min (2 * d) (limit config)) trials small
        (following config attempt d is))
looped config attempt d (session disconnected ∷ trials) small is =
    let first = sym (backoff-first config small) in
    tried-Doubles config 0 config.reconnect_delay (λ n. client_loop config n trials)
      (doubled config (min (2 * config.reconnect_delay) (limit config)) trials) first
      (looped config 1 (min (2 * config.reconnect_delay) (limit config)) trials small
        (following config 0 config.reconnect_delay first))

-- Whatever the dials and connections do, the delays that the loop sleeps are the doubling ones, starting over
-- after each connection, or the first of them where reconnection is off or attempts are limited; and each is at
-- least the base delay and at most the larger one of the base delay and the upper bound.
pub client_loop-Doubles :
    (config : ClientConfig) (trials : List Trial)
    → config.reconnect_delay ≤ u64_max
    → Doubles config (client_loop config 0 trials).0 (doubled config config.reconnect_delay trials)
      × All (IsDelay config) (client_loop config 0 trials).0
client_loop-Doubles config trials small = (
  looped config 0 config.reconnect_delay trials small (sym (backoff-first config small)),
  client_loop-IsDelay config 0 trials small,
)
