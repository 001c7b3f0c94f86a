-- ===== src/Daemon.antt =====
-- src/agentvm/daemon.py: the components that it holds, its startup, its signal handler and its
-- shutdown. The shutdown's awaits only let signals in, which find the flag set, so it is one step.
pub mod Run
pub mod Shutdown
pub mod Startup
pub mod Failure
pub mod Loaded
pub mod Restart
pub mod Again
mod Tests
use agent_vm.Base.{
  ℕ, zero, suc, Bool, true, false, Option, none, some, List, [], ◌∷◌, ◌++◌, map, if◌then◌else◌, ℤ,
}
use agent_vm.Python.Result.{Result, ok, raise, ◌>>=◌, value_error}
use agent_vm.Python.Text.{Text, lower}
use agent_vm.Python.Value.{Object}
use agent_vm.Store.Schema.{Database}
use agent_vm.Store.Connection.{Store, new_store, initialize, close}
use agent_vm.Store.Vms.{list_vms, get_active_vms}
use agent_vm.Capacity.{CapacityManager}
use agent_vm.Capacity.Reconcile.{
  Item, dict, Answer, rows, awaiting_raised, MetadataQueries, reconcile_allocations,
}
use agent_vm.Config.Records.{AgentVmConfig}
use agent_vm.Storage.{make_each, storage_paths}
use agent_vm.Bridge.{Bridge, new_bridge}
use agent_vm.Metrics.{LogEntry, start_exporter, stop_exporter, exporter_host}
use agent_vm.Api.{App, create_app}
use agent_vm.Python.Exec
use agent_vm.Python.Exec.{Exec, lift}

-- What the daemon does that can be seen, in order; `drained` has the timeout of `drain_all_sessions`.
pub data Effect : Type 0 where
  server_told_to_exit store_closed : Effect
  drained : ℕ → Effect
  logged : LogEntry → Effect

abbrev pub drain_timeout_seconds : ℕ
drain_timeout_seconds = 60

-- `uvicorn.Server`, by its configuration and the attribute that the shutdown sets
pub record Server : Type 0 where
  pub app : App
  pub host : Text
  pub port : ℤ
  pub log_level : Text
  pub should_exit : Bool

-- `_DaemonState`, with the signals whose handler is set, the tasks that are scheduled and the effects
-- so far. A session manager and a metrics collector have no state: they are there or not.
pub record DaemonState (F : Type 0) : Type 0 where
  pub server : Option Server
  pub session_manager : Bool
  pub capacity_manager : Option CapacityManager
  pub bridge_manager : Option (Bridge F)
  pub metrics : Bool
  pub store : Option Store
  pub shutting_down : Bool
  pub sigterm_handled : Bool
  pub sigint_handled : Bool
  pub scheduled : ℕ
  pub effects : List Effect

module _ {F : Type 0} where
  -- `_DaemonState()`
  abbrev pub new_state : DaemonState F
  new_state = record {
    server = none;
    session_manager = false;
    capacity_manager = none;
    bridge_manager = none;
    metrics = false;
    store = none;
    shutting_down = false;
    sigterm_handled = false;
    sigint_handled = false;
    scheduled = 0;
    effects = [];
  }

  abbrev pub note : Effect → DaemonState F → DaemonState F
  note effect d = record d { effects = d.effects ++ effect ∷ [] }

  -- the four steps of `_async_graceful_shutdown`
  abbrev pub tell_to_exit : Option Server → DaemonState F → DaemonState F
  tell_to_exit none d = d
  tell_to_exit (some server) d =
      note server_told_to_exit (record d { server = some (record server { should_exit = true }) })

  unfoldable pub stop_accepting : DaemonState F → DaemonState F
  stop_accepting d = tell_to_exit d.server d

  unfoldable pub drain : DaemonState F → DaemonState F
  drain d = if d.session_manager then note (drained drain_timeout_seconds) d else d

  unfoldable pub stop_metrics : DaemonState F → DaemonState F
  stop_metrics d = if d.metrics then note (logged stop_exporter) d else d

  abbrev pub close_found : Option Store → DaemonState F → DaemonState F
  close_found none d = d
  close_found (some s) d = note store_closed (record d { store = some (close s).1 })

  unfoldable pub async_graceful_shutdown : DaemonState F → DaemonState F
  async_graceful_shutdown d =
      let ended = stop_metrics (drain (stop_accepting d)) in close_found ended.store ended

  -- `loop_running` is whether `get_running_loop` returns.
  unfoldable pub signal_handler : Bool → DaemonState F → DaemonState F
  signal_handler loop_running d = if d.shutting_down then d else record d {
    shutting_down = true;
    scheduled = if loop_running then suc d.scheduled else d.scheduled;
  }

  abbrev pub run_scheduled : ℕ → DaemonState F → DaemonState F
  run_scheduled zero d = d
  run_scheduled (suc n) d = async_graceful_shutdown (record d { scheduled = n })

-- A call of `_signal_handler`, or the event loop's turn to run a scheduled task.
pub data Event : Type 0 where
  signal : Bool → Event
  turn : Event

module _ {F : Type 0} where
  unfoldable pub handle : Event → DaemonState F → DaemonState F
  handle (signal loop_running) d = signal_handler loop_running d
  handle turn d = run_scheduled d.scheduled d

  unfoldable pub handle_all : List Event → DaemonState F → DaemonState F
  handle_all [] d = d
  handle_all (event ∷ events) d = handle_all events (handle event d)
