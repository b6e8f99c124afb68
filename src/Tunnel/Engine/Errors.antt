-- ===== src/Tunnel/Engine/Errors.antt =====
-- Socket errors in a row.
use aimdb.Prelude.{ℕ, ◌≡◌, refl, sym, ap, ◌∙◌, List, [], ◌∷◌, ◌++◌, append_assoc, append-nil}
use aimdb.Tunnel.{add_ms, Action, reset_socket, Phase, backoff, connecting, connected, TunnelEngine}
use aimdb.Tunnel.Engine.{backed_off, handle_socket_error}

-- One error at each of the times.
abbrev pub errors : {M : Type 0} → TunnelEngine M → List ℕ → TunnelEngine M
errors e [] = e
errors e (t ∷ ts) = errors (handle_socket_error e t) ts

abbrev pub resets : List ℕ → List Action
resets [] = []
resets (t ∷ ts) = reset_socket ∷ resets ts

module _ {M : Type 0} where
  backed_off_once : (p : Phase M) (a b : ℕ) → backed_off (backed_off p a) b ≡ backed_off p a
  unfolding backed_off
  backed_off_once (backoff until) a b = refl
  backed_off_once (connecting sent_at) a b = refl
  backed_off_once (connected s) a b = refl

  errors_after :
      (e : TunnelEngine M) (p : Phase M) (a : ℕ) (ts : List ℕ)
      → e.phase ≡ backed_off p a
      → (errors e ts).phase ≡ backed_off p a
  unfolding handle_socket_error
  errors_after e p a [] eq = eq
  errors_after e p a (t ∷ ts) eq = errors_after (handle_socket_error e t) p a ts (
      ap (λ q. backed_off q (add_ms t e.cfg.reconnect_backoff_ms)) eq
      ∙ backed_off_once p a (add_ms t e.cfg.reconnect_backoff_ms))

  errors_actions :
      (e : TunnelEngine M) (ts : List ℕ) → (errors e ts).actions ≡ e.actions ++ resets ts
  unfolding handle_socket_error
  errors_actions e [] = sym (append-nil e.actions)
  errors_actions e (t ∷ ts) =
      errors_actions (handle_socket_error e t) ts
      ∙ append_assoc e.actions (reset_socket ∷ []) (resets ts)

  -- However many socket errors follow the first, at whatever times, the reconnect is due when the
  -- first one (or the backoff that was running before it) says, and each error asks the transport
  -- once more to reset its socket, after the actions already queued.
  socket_errors :
      (e : TunnelEngine M) (t : ℕ) (ts : List ℕ)
      → ((errors e (t ∷ ts)).phase ≡ backed_off e.phase (add_ms t e.cfg.reconnect_backoff_ms))
        × ((errors e (t ∷ ts)).actions ≡ e.actions ++ resets (t ∷ ts))
  unfolding handle_socket_error
  socket_errors e t ts = (
    errors_after (handle_socket_error e t) e.phase (add_ms t e.cfg.reconnect_backoff_ms) ts refl,
    errors_actions e (t ∷ ts),
  )
