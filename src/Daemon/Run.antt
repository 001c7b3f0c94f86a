-- ===== src/Daemon/Run.antt =====
-- `run_daemon` of src/agentvm/daemon.py.
use agent_vm.Base.{true, false, some, List, [], map, if◌then◌else◌}
use agent_vm.Python.Result.{Result, ok, raise, value_error}
use agent_vm.Python.Text.{Text, lower}
use agent_vm.Python.Value.{Object}
use agent_vm.Store.Schema.{Database}
use agent_vm.Store.Connection.{Store, Opening, new_store, initialize}
use agent_vm.Store.Vms.{list_vms, get_active_vms}
use agent_vm.Capacity.{CapacityManager}
use agent_vm.Capacity.Reconcile.{
  dict, Answer, rows, awaiting_raised, MetadataQueries, reconcile_allocations,
}
use agent_vm.Config.Records.{AgentVmConfig}
use agent_vm.Storage.{make_each, storage_paths}
use agent_vm.Bridge.{new_bridge}
use agent_vm.Metrics.{start_exporter, exporter_host}
use agent_vm.Api.{create_app}
use agent_vm.Python.Exec.{Exec, lift, ◌>>=◌, ◌>>◌}
use agent_vm.Daemon.{logged, Server, DaemonState, note}

-- `make` is the outcome of `mkdir` and `chmod` at a path.
unfoldable pub ensure_storage_tree : (Text → Result (Unit {0})) → AgentVmConfig → Result (Unit {0})
ensure_storage_tree make config = make_each make (storage_paths config.storage)

-- `CapacityManager(config)`
abbrev pub new_capacity_manager : AgentVmConfig → CapacityManager
new_capacity_manager config = record {
  reserved_cores = config.resources.reserved_cores;
  reserved_memory_mb = config.resources.reserved_memory_mb;
  max_vms = config.host.max_vms;
  allocations = [];
}

-- What the capacity manager is given of the store.
abbrev pub answer_of : Result (List Object) → Answer
answer_of (ok objects) = rows (map dict objects)
answer_of (raise error) = awaiting_raised error

unfoldable pub queries : Store → MetadataQueries
queries s = record {
  get_active_vms = some (ok (answer_of (get_active_vms s).0));
  list_vms = some (λ status. ok (answer_of (list_vms status s).0));
}

-- The capacity manager after the call, and `except ValueError`: where it raises, nothing is assigned.
abbrev pub reconciled :
    CapacityManager → Result CapacityManager → Result (Unit {0}) × CapacityManager
reconciled m (ok m') = (ok tt, m')
reconciled m (raise value_error) = (ok tt, m)
reconciled m (raise error) = (raise error, m)

-- `uvicorn.Server(uvicorn.Config(…))`
abbrev pub new_server : AgentVmConfig → Server
new_server config = record {
  app = create_app;
  host = config.api.host;
  port = config.api.port;
  log_level = lower config.observability.log_level;
  should_exit = false;
}

-- What `run_daemon` is given: the database at the default path, what the steps of opening it come to,
-- the outcomes of making the directories of the storage tree, the MAC factory, what `uvicorn.Config` and
-- `uvicorn.Server` come to, and the two `signal.signal`. `serve` is `uvicorn.Server.serve`: what it comes
-- to, and what it and all that runs meanwhile leave of the daemon.
pub record Machine (F : Type 0) : Type 0 where
  pub file : Database
  pub opening : Opening
  pub make : Text → Result (Unit {0})
  pub factory : F
  pub uvicorn : Server → Result (Unit {0})
  pub sigterm : Result (Unit {0})
  pub sigint : Result (Unit {0})
  pub serve : Server → Exec (DaemonState F) (Unit {0})

abbrev pub store_if : Result (Unit {0}) → Store → Result Store
store_if (ok _) store = ok store
store_if (raise error) store = raise error

module _ {F : Type 0} where
  unfoldable pub open_store : Machine F → Exec (DaemonState F) Store
  open_store machine d =
      let (result, store) = initialize machine.opening (new_store false machine.file) in
      (store_if result store, record d { store = some store })

  unfoldable pub reconcile : AgentVmConfig → Store → Exec (DaemonState F) (Unit {0})
  reconcile config store d =
      let manager = new_capacity_manager config in
      let (result, manager) = reconciled manager (reconcile_allocations (queries store) manager) in
      (result, record d { capacity_manager = some manager })

  unfoldable pub register_signal_handlers : Machine F → Exec (DaemonState F) (Unit {0})
  register_signal_handlers machine = do
    lift machine.sigterm
    λ d. (ok tt, record d { sigterm_handled = true })
    lift machine.sigint
    λ d. (ok tt, record d { sigint_handled = true })

  abbrev pub start_metrics : AgentVmConfig → DaemonState F → DaemonState F
  start_metrics config d =
      if config.observability.metrics_enabled
      then note (logged (start_exporter config.observability.metrics_port exporter_host)) d
      else d

  -- the steps after the storage tree, up to the server; what `ensure_bridge` returns is only logged
  unfoldable pub wire : Machine F → AgentVmConfig → DaemonState F → DaemonState F
  wire machine config d =
      let bridged = record d {
        bridge_manager = some (new_bridge config.network.bridge_name machine.factory);
      } in
      start_metrics config (record bridged { session_manager = true; metrics = true })

  -- `run_daemon` before `serve`
  unfoldable pub start_up : Machine F → AgentVmConfig → Exec (DaemonState F) (Unit {0})
  start_up machine config = do
    store ← open_store machine
    reconcile config store
    lift (ensure_storage_tree machine.make config)
    λ d. (ok tt, wire machine config d)
    lift (machine.uvicorn (new_server config))
    λ d. (ok tt, record d { server = some (new_server config) })
    register_signal_handlers machine

  unfoldable pub run_daemon : Machine F → AgentVmConfig → Exec (DaemonState F) (Unit {0})
  run_daemon machine config = start_up machine config >> machine.serve (new_server config)
