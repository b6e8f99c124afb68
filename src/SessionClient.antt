-- ===== src/SessionClient.antt =====
-- aimdb-core/src/session/client.rs: the engine behind a client's handles. Times are milliseconds; a `u64`
-- saturates where the source says so.
pub mod Backoff
pub mod Doubling
pub mod Sinks
pub mod Calls
mod Tests
use aimdb.Prelude.{
  ℕ, ◌+◌, ◌-◌, ◌*◌, ◌^◌, min, max, List, [], ◌∷◌, Bool, true, false, not, ◌&&◌, Option, none, some,
  leb, ◌==◌, if◌then◌else◌,
}

pub record ClientConfig : Type 0 where
  pub reconnect : Bool
  pub reconnect_delay : ℕ
  pub max_reconnect_delay : ℕ
  pub max_reconnect_attempts : ℕ
  pub keepalive_interval : Option ℕ
  pub max_offline_queue : ℕ
  pub sends_hello : Bool

abbrev pub default_config : ClientConfig
default_config = record {
  reconnect = true;
  reconnect_delay = 200;
  max_reconnect_delay = 200;
  max_reconnect_attempts = 0;
  keepalive_interval = none;
  max_offline_queue = 256;
  sends_hello = false;
}

abbrev pub u64_max : ℕ
u64_max = 2 ^ 64 - 1

unfoldable pub backoff_delay : ClientConfig → ℕ → ℕ
backoff_delay config attempt =
    let base = config.reconnect_delay in
    let cap = max config.max_reconnect_delay base in
    let shift = min (attempt - 1) 16 in min (min (base * 2 ^ shift) u64_max) cap

-- The delay to sleep before the next dial, or none to stop; and the number of attempts.
unfoldable pub reconnect_after : ClientConfig → ℕ → Option ℕ × ℕ
reconnect_after config attempt =
    if not config.reconnect
    then (none, attempt)
    else if not (config.max_reconnect_attempts == 0)
        && leb config.max_reconnect_attempts (attempt + 1)
    then (none, attempt + 1)
    else (some (backoff_delay config (attempt + 1)), attempt + 1)

pub data Ended : Type 0 where
  disconnected handles_dropped : Ended

-- What one round of the loop meets: a dial that fails, for good if it is closed, or a connection that ends.
pub data Trial : Type 0 where
  dial_failed : (closed : Bool) → Trial
  session : Ended → Trial

unfoldable pub attempted : ClientConfig → ℕ → Trial → Option ℕ × ℕ
unfolding reconnect_after
attempted config attempt (dial_failed true) = (none, attempt)
attempted config attempt (dial_failed false) = reconnect_after config attempt
attempted config attempt (session handles_dropped) = (none, 0)
attempted config attempt (session disconnected) = reconnect_after config 0

-- A delay comes before the rounds that follow; without one the loop stops.
unfoldable pub slept : Option ℕ → List ℕ × Bool → List ℕ × Bool
slept none later = ([], false)
slept (some d) (delays, runs) = (d ∷ delays, runs)

-- The delays that the loop sleeps, and whether it still runs after these rounds.
unfoldable pub client_loop : ClientConfig → ℕ → List Trial → List ℕ × Bool
unfolding attempted slept
client_loop config attempt [] = ([], true)
client_loop config attempt (t ∷ trials) =
    let (delay, attempt') = attempted config attempt t in
    slept delay (client_loop config attempt' trials)
