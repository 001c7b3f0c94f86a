-- ===== src/Daemon/Shutdown.antt =====
-- Signals and the shutdown (src/agentvm/daemon.py).
use agent_vm.Base.{
  ℕ, Bool, true, false, some, List, [], ◌∷◌, ◌++◌, append_assoc, ◌≡◌, refl, ◌⊎◌, inl, inr,
}
use agent_vm.Store.Connection.{Store, close}
use agent_vm.Metrics.{metrics_exporter_stopped}
use agent_vm.Capacity.{CapacityManager}
use agent_vm.Bridge.{Bridge}
use agent_vm.Daemon.{
  server_told_to_exit, drained, Effect, logged, Server, store_closed, DaemonState, Event, signal,
  turn, handle, handle_all, signal_handler, async_graceful_shutdown, stop_accepting, drain,
  stop_metrics,
}

-- What a daemon that serves holds.
pub record Serving (F : Type 0) : Type 0 where
  pub server : Server
  pub capacity_manager : CapacityManager
  pub bridge_manager : Bridge F
  pub store : Store
  pub effects : List Effect

-- The steps of the shutdown.
abbrev pub shutdown_effects : List Effect
shutdown_effects =
    server_told_to_exit ∷ drained 60 ∷ logged metrics_exporter_stopped ∷ store_closed ∷ []

module _ {F : Type 0} where
  -- The daemon once it serves.
  abbrev pub serving : Serving F → DaemonState F
  serving s = record {
    server = some s.server;
    session_manager = true;
    capacity_manager = some s.capacity_manager;
    bridge_manager = some s.bridge_manager;
    metrics = true;
    store = some s.store;
    shutting_down = false;
    sigterm_handled = true;
    sigint_handled = true;
    scheduled = 0;
    effects = s.effects;
  }

  -- After a signal, with the shutdown scheduled or not.
  abbrev pub signalled : ℕ → Serving F → DaemonState F
  signalled n s = record (serving s) { shutting_down = true; scheduled = n }

  -- After the shutdown: each step once, in its order.
  abbrev pub stopped : Serving F → DaemonState F
  stopped s = record (serving s) {
    server = some (record (s.server) { should_exit = true });
    store = some (close s.store).1;
    shutting_down = true;
    effects = s.effects ++ shutdown_effects;
  }

  stopped-handle : (event : Event) (s : Serving F) → handle event (stopped s) ≡ stopped s
  unfolding handle signal_handler
  stopped-handle (signal b) s = refl
  stopped-handle turn s = refl

  turn-signalled : (s : Serving F) → handle turn (signalled 1 s) ≡ stopped s
  unfolding handle async_graceful_shutdown stop_accepting drain stop_metrics
  turn-signalled s = simp append_assoc

  signal-signalled :
      (b : Bool) (n : ℕ) (s : Serving F) → handle (signal b) (signalled n s) ≡ signalled n s
  unfolding handle signal_handler
  signal-signalled b n s = refl

  -- While it serves, is told to stop, or is stopped.
  abbrev IsKnown : Serving F → DaemonState F → Type 0
  IsKnown s d = (d ≡ serving s) ⊎ ((d ≡ signalled 1 s) ⊎ ((d ≡ signalled 0 s) ⊎ (d ≡ stopped s)))

  handle-IsKnown :
      (event : Event) (s : Serving F) (d : DaemonState F) → IsKnown s d → IsKnown s (handle event d)
  unfolding handle signal_handler
  handle-IsKnown (signal true) s d (inl e) = inr (inl (rw e))
  handle-IsKnown (signal false) s d (inl e) = inr (inr (inl (rw e)))
  handle-IsKnown turn s d (inl e) = inl (rw e)
  handle-IsKnown (signal b) s d (inr (inl e)) = inr (inl (rw e))
  handle-IsKnown turn s d (inr (inl e)) = inr (inr (inr (rw e (turn-signalled s))))
  handle-IsKnown (signal b) s d (inr (inr (inl e))) = inr (inr (inl (rw e)))
  handle-IsKnown turn s d (inr (inr (inl e))) = inr (inr (inl (rw e)))
  handle-IsKnown event s d (inr (inr (inr e))) = inr (inr (inr (rw e (stopped-handle event s))))

  handle_all-IsKnown :
      (events : List Event) (s : Serving F) (d : DaemonState F)
      → IsKnown s d
      → IsKnown s (handle_all events d)
  unfolding handle_all
  handle_all-IsKnown [] s d k = k
  handle_all-IsKnown (event ∷ events) s d k =
      handle_all-IsKnown events s (handle event d) (handle-IsKnown event s d k)

  -- However calls of `_signal_handler`, with a running event loop or without, and the loop's turns follow one another,
  -- the daemon serves untouched, has a shutdown scheduled, has the flag set with none scheduled, or
  -- has stopped with each step of the shutdown done once, in order, and its store closed.
  pub handle_all-serving :
      (events : List Event) (s : Serving F)
      → (handle_all events (serving s) ≡ serving s)
        ⊎ ((handle_all events (serving s) ≡ signalled 1 s)
            ⊎ ((handle_all events (serving s) ≡ signalled 0 s)
                ⊎ (handle_all events (serving s) ≡ stopped s)))
  handle_all-serving events s = handle_all-IsKnown events s (serving s) (inl refl)
