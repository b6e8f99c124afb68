-- ===== src/SessionClient/Backoff.antt =====
-- The delays between the dials of a client.
use aimdb.Prelude.{
  ℕ, zero, suc, ◌+◌, ◌-◌, ◌*◌, ◌^◌, ◌≤◌, ◌<◌, min, max, ◌≡◌, refl, List, [], ◌∷◌, Bool, true, false,
  Option, none, some, arith, leb, leb→le, All, Bool-cases, inl, inr, length,
}
use aimdb.SessionClient.{
  ClientConfig, u64_max, backoff_delay, reconnect_after, disconnected, handles_dropped, Trial,
  dial_failed, session, attempted, client_loop, slept,
}

pow-pos : (k : ℕ) → 0 < 2 ^ k
pow-pos zero = omega arith
pow-pos (suc k) = omega (arith, pow-pos k)

pub mul-le : (a k : ℕ) → a ≤ a * 2 ^ k
mul-le a k = grind (arith, pow-pos k)

backoff_bounds :
    (config : ClientConfig) (attempt : ℕ)
    → config.reconnect_delay ≤ u64_max
    → (config.reconnect_delay ≤ backoff_delay config attempt)
      × (backoff_delay config attempt ≤ max config.max_reconnect_delay config.reconnect_delay)
unfolding backoff_delay
backoff_bounds config attempt small =
    omega (arith, mul-le config.reconnect_delay (min (attempt - 1) 16))

-- A delay of the loop.
abbrev pub IsDelay : ClientConfig → ℕ → Type 0
IsDelay config d =
    (config.reconnect_delay ≤ d) × (d ≤ max config.max_reconnect_delay config.reconnect_delay)

reconnect_after-IsDelay :
    (config : ClientConfig) (attempt d : ℕ)
    → config.reconnect_delay ≤ u64_max
    → (reconnect_after config attempt).0 ≡ some d
    → IsDelay config d
unfolding reconnect_after
reconnect_after-IsDelay config attempt d small at =
    let bounds = backoff_bounds config (attempt + 1) small in ground (arith, bounds)

attempted-IsDelay :
    (config : ClientConfig) (attempt : ℕ) (t : Trial) (d : ℕ)
    → config.reconnect_delay ≤ u64_max
    → (attempted config attempt t).0 ≡ some d
    → IsDelay config d
unfolding attempted
attempted-IsDelay config attempt (dial_failed true) d small at = absurd (cc at)
attempted-IsDelay config attempt (dial_failed false) d small at =
    reconnect_after-IsDelay config attempt d small at
attempted-IsDelay config attempt (session handles_dropped) d small at = absurd (cc at)
attempted-IsDelay config attempt (session disconnected) d small at =
    reconnect_after-IsDelay config 0 d small at

slept-All :
    (P : ℕ → Type 0) (o : Option ℕ) (later : List ℕ × Bool)
    → ((d : ℕ) → o ≡ some d → P d)
    → All P later.0
    → All P (slept o later).0
unfolding slept
slept-All P none later h all = tt
slept-All P (some d) later h all = (h d refl, all)

-- Every delay that the loop sleeps, if the base delay fits 64 bits, is at least the base delay and at most
-- the larger one of the base delay and the upper bound.
pub client_loop-IsDelay :
    (config : ClientConfig) (attempt : ℕ) (trials : List Trial)
    → config.reconnect_delay ≤ u64_max
    → All (IsDelay config) (client_loop config attempt trials).0
unfolding client_loop
client_loop-IsDelay config attempt [] small = tt
client_loop-IsDelay config attempt (t ∷ trials) small =
    slept-All (IsDelay config) (attempted config attempt t).0
      (client_loop config (attempted config attempt t).1 trials)
      (λ d at. attempted-IsDelay config attempt t d small at)
      (client_loop-IsDelay config (attempted config attempt t).1 trials small)

-- This many dials that fail, none for good.
abbrev pub failed_dials : ℕ → List Trial
failed_dials zero = []
failed_dials (suc n) = dial_failed false ∷ failed_dials n

-- With these many attempts made and a limit, the loop sleeps before each further attempt and stops at the limit.
abbrev pub Exhausts : ClientConfig → ℕ → List ℕ × Bool → Type 0
Exhausts config attempt (delays, runs) =
    (length delays + suc attempt ≡ config.max_reconnect_attempts) × (runs ≡ false)

stops :
    (config : ClientConfig) (attempt : ℕ)
    → config.reconnect ≡ true
    → attempt < config.max_reconnect_attempts
    → leb config.max_reconnect_attempts (attempt + 1) ≡ true
    → reconnect_after config attempt ≡ (none, suc attempt)
unfolding reconnect_after
stops config attempt on below last = ground arith

sleeps :
    (config : ClientConfig) (attempt : ℕ)
    → config.reconnect ≡ true
    → leb config.max_reconnect_attempts (attempt + 1) ≡ false
    → reconnect_after config attempt ≡ (some (backoff_delay config (suc attempt)), suc attempt)
unfolding reconnect_after
sleeps config attempt on more = ground arith

exhausted :
    (config : ClientConfig) (attempt n : ℕ)
    → config.reconnect ≡ true
    → attempt < config.max_reconnect_attempts
    → config.max_reconnect_attempts ≤ attempt + n
    → Exhausts config attempt (client_loop config attempt (failed_dials n))
unfolding client_loop attempted slept
exhausted config attempt zero on below enough = absurd (omega arith)
exhausted config attempt (suc n) on below enough =
    elim (Bool-cases (leb config.max_reconnect_attempts (attempt + 1))) [
      | inl last ↦
          let e = leb→le config.max_reconnect_attempts (attempt + 1) last in
          rw (stops config attempt on below last) (omega arith, refl)
      | inr more ↦
          let (count, over) = exhausted config (suc attempt) n on (ground arith) (omega arith) in
          rw (sleeps config attempt on more) (omega arith, over)
    ]

-- With reconnection on and a limit above 0, the loop stops when as many dials fail as the limit says, having
-- slept one time less.
pub client_loop-Exhausts :
    (config : ClientConfig) (n : ℕ)
    → config.reconnect ≡ true
    → 0 < config.max_reconnect_attempts
    → config.max_reconnect_attempts ≤ n
    → Exhausts config 0 (client_loop config 0 (failed_dials n))
client_loop-Exhausts config n on limit enough = exhausted config 0 n on limit (omega arith)
