-- ===== src/SessionClient/Tests.antt =====
-- Runs of client_loop of aimdb-core/src/session/client.rs, and the theorem at one.
use aimdb.Prelude.{◌≡◌, refl, List, [], ◌∷◌, true, false, none, All, arith}
use aimdb.SessionClient.{
  ClientConfig, default_config, disconnected, handles_dropped, Trial, dial_failed, session,
  client_loop, backoff_delay, reconnect_after, attempted, slept,
}
use aimdb.SessionClient.Doubling.{doubled, Doubles, client_loop-Doubles}
use aimdb.SessionClient.Backoff.{IsDelay, Exhausts, failed_dials, client_loop-Exhausts}

abbrev patient : ClientConfig
patient = record {
  reconnect = true;
  reconnect_delay = 200;
  max_reconnect_delay = 1000;
  max_reconnect_attempts = 5;
  keepalive_interval = none;
  max_offline_queue = 256;
  sends_hello = false;
}

abbrev trials : List Trial
trials = dial_failed false ∷ dial_failed false ∷ session disconnected ∷ session handles_dropped ∷ []

doubles : client_loop patient 0 (failed_dials 9) ≡ (200 ∷ 400 ∷ 800 ∷ 1000 ∷ [], false)
unfolding client_loop attempted reconnect_after backoff_delay slept
doubles = refl

starts_over : client_loop patient 0 trials ≡ (200 ∷ 400 ∷ 200 ∷ [], false)
unfolding client_loop attempted reconnect_after backoff_delay slept
starts_over = refl

stays_fixed : backoff_delay default_config 40 ≡ 200
unfolding backoff_delay
stays_fixed = refl

client_loop-Doubles_example :
    Doubles patient (200 ∷ 400 ∷ 200 ∷ []) (doubled patient 200 trials)
    × All (IsDelay patient) (200 ∷ 400 ∷ 200 ∷ [])
unfolding client_loop attempted reconnect_after backoff_delay slept
client_loop-Doubles_example = client_loop-Doubles patient trials (omega arith)

client_loop-Exhausts_example : Exhausts patient 0 (client_loop patient 0 (failed_dials 9))
client_loop-Exhausts_example = client_loop-Exhausts patient 9 refl (omega arith) (omega arith)
