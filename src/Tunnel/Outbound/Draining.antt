-- ===== src/Tunnel/Outbound/Draining.antt =====
-- What `drain_actions` of tunnel.rs makes of the queue.
use aimdb.Prelude.{
  ℕ, suc, zero, ◌<◌, ◌≡◌, refl, sym, ap, ◌∙◌, List, [], ◌∷◌, ◌++◌, append_assoc, append-nil, Bool,
  true, false, Option, none, some, length, ◌||◌, Str, arith,
}
use aimdb.Tunnel.{
  Action, send, telegram, reset_socket, ack_timeout, Knx, IndexMap, Phase, backoff, connecting,
  connected, TunnelEngine,
}
use aimdb.Tunnel.Engine.{next_action}
use aimdb.Tunnel.Outbound.{
  Effect, sent, forwarded, warned, unsent_in, send_failed, untrack, apply, drain, drain_actions,
}

-- What the actions do: their effects, and whether one asks for a reset.
abbrev pub effects_of : List Action → List Effect
effects_of [] = []
effects_of (send frame await_ack ∷ as') = sent frame ∷ effects_of as'
effects_of (telegram addr payload ∷ as') = forwarded addr payload ∷ effects_of as'
effects_of (reset_socket ∷ as') = effects_of as'
effects_of (ack_timeout seq ∷ as') = warned seq ∷ effects_of as'

abbrev pub asks_reset : List Action → Bool
asks_reset [] = false
asks_reset (reset_socket ∷ as') = true
asks_reset (send frame await_ack ∷ as') = asks_reset as'
asks_reset (telegram addr payload ∷ as') = asks_reset as'
asks_reset (ack_timeout seq ∷ as') = asks_reset as'

module _ {M : Type 0} (knx : Knx) (map : IndexMap M) where
  unsent_actions :
      (e : TunnelEngine M) (p : Phase M) (seq : ℕ) → (unsent_in knx map e p seq).actions ≡ e.actions
  unfolding unsent_in
  unsent_actions e (backoff until) seq = refl
  unsent_actions e (connecting sent_at) seq = refl
  unsent_actions e (connected s) seq = refl

  untrack_actions :
      (ok : Bool) (e : TunnelEngine M) (o : Option ℕ) → (untrack knx map ok e o).actions ≡ e.actions
  unfolding untrack send_failed
  untrack_actions true e none = refl
  untrack_actions true e (some seq) = refl
  untrack_actions false e none = refl
  untrack_actions false e (some seq) = unsent_actions e e.phase seq

  -- What `drain` ends with on a queue, from what was done before.
  Drained : List Action → Bool × List Effect → Option (TunnelEngine M × Bool × List Effect) → Type 0
  Drained as' (reset, done) o =
      (e' : TunnelEngine M) × (o ≡ some (e', (reset || asks_reset as'), done ++ effects_of as'))
      × (e'.actions ≡ [])

  next_action_nil : (e : TunnelEngine M) → e.actions ≡ [] → next_action e ≡ none
  unfolding next_action
  next_action_nil e q = rw (q, next_action) refl

  next_action_cons :
      (e : TunnelEngine M) (a : Action) (as' : List Action)
      → e.actions ≡ a ∷ as'
      → next_action e ≡ some (a, record e { actions = as' })
  unfolding next_action
  next_action_cons e a as' q = rw (q, next_action) refl

  or_true : (b : Bool) → (b || true) ≡ true
  or_true false = refl
  or_true true = refl

  or_false : (b : Bool) → (b || false) ≡ b
  or_false false = refl
  or_false true = refl

  -- One more effect done.
  Drained-more :
      (as' : List Action) (reset : Bool) (done : List Effect) (x : Effect)
      (o : Option (TunnelEngine M × Bool × List Effect))
      → Drained as' (reset, done ++ (x ∷ [])) o
      → (e' : TunnelEngine M) × (o
          ≡ some (e', (reset || asks_reset as'), done ++ (x ∷ effects_of as')))
        × (e'.actions ≡ [])
  unfolding Drained
  Drained-more as' reset done x o (e', eq, q) = (
    e',
    eq
        ∙ ap (λ d. some (e', (reset || asks_reset as'), d))
            (append_assoc done (x ∷ []) (effects_of as')),
    q,
  )

  drain_lem :
      (fuel : ℕ) (io : Str → Bool) (e : TunnelEngine M) (as' : List Action) (reset : Bool)
      (done : List Effect)
      → e.actions ≡ as'
      → length as' < fuel
      → Drained as' (reset, done) (drain knx map fuel io e (reset, done))
  unfolding drain apply Drained
  drain_lem zero io e as' reset done q h = ground arith
  drain_lem (suc fuel) io e [] reset done q h =
      rw (next_action_nil e q, drain)
        (
          e,
          ap (λ b. some (e, b, done)) (sym (or_false reset))
              ∙ ap (λ d. some (e, (reset || false), d)) (sym (append-nil done)),
          q,
        )
  drain_lem (suc fuel) io e (send frame await_ack ∷ as') reset done q h =
      let e1 : TunnelEngine M = record e { actions = as' } in
      rw (next_action_cons e (send frame await_ack) as' q, drain)
        (Drained-more as' reset done (sent frame) _ (
          drain_lem fuel io (untrack knx map (io frame) e1 await_ack) as' reset
            (done ++ (sent frame ∷ [])) (untrack_actions (io frame) e1 await_ack) (omega arith)))
  drain_lem (suc fuel) io e (telegram addr payload ∷ as') reset done q h =
      rw (next_action_cons e (telegram addr payload) as' q, drain)
        (Drained-more as' reset done (forwarded addr payload) _ (
          drain_lem fuel io (record e { actions = as' }) as' reset
            (done ++ (forwarded addr payload ∷ [])) refl (omega arith)))
  drain_lem (suc fuel) io e (reset_socket ∷ as') reset done q h =
      let (e', eq, q') =
        drain_lem fuel io (record e { actions = as' }) as' true done refl (omega arith) in
      rw (next_action_cons e reset_socket as' q, drain)
        (e', eq ∙ ap (λ b. some (e', b, done ++ effects_of as')) (sym (or_true reset)), q')
  drain_lem (suc fuel) io e (ack_timeout seq ∷ as') reset done q h =
      rw (next_action_cons e (ack_timeout seq) as' q, drain)
        (Drained-more as' reset done (warned seq) _ (
          drain_lem fuel io (record e { actions = as' }) as' reset (done ++ (warned seq ∷ [])) refl
            (omega arith)))

  -- Draining always ends, whether or not the socket takes the frames: with the queue empty, the
  -- effect of every queued action done once and in order, and a reset asked for exactly if one was
  -- queued.
  pub drain_actions_lem :
      (io : Str → Bool) (e : TunnelEngine M)
      → (e' : TunnelEngine M) × (drain_actions knx map io e
          ≡ some (e', asks_reset e.actions, effects_of e.actions))
        × (e'.actions ≡ [])
  unfolding drain_actions Drained
  drain_actions_lem io e =
      drain_lem (suc (length e.actions)) io e e.actions false [] refl (omega arith)
