-- ===== src/Daemon/Failure.antt =====
-- What is left where `run_daemon` fails (src/agentvm/daemon.py).
use agent_vm.Base.{true, false, Option, none, some, ◌≡◌}
use agent_vm.Python.Result.{Error, Result, raise, overflow_error}
use agent_vm.Store.Connection.{Store, new_store}
use agent_vm.Capacity.{CapacityManager}
use agent_vm.Config.Records.{AgentVmConfig}
use agent_vm.Daemon.{DaemonState, new_state}
use agent_vm.Daemon.Run.{Machine, new_server, new_capacity_manager, ensure_storage_tree}
use agent_vm.Daemon.Shutdown.{serving}
use agent_vm.Daemon.Startup.{serving_on, store_of}

module _ {F : Type 0} (machine : Machine F) (config : AgentVmConfig) where
  -- The daemon with a store and at most a capacity manager, which is all that there is before the bridge.
  abbrev pub begun : Store → Option CapacityManager → DaemonState F
  begun s m = record new_state { store = some s; capacity_manager = m }

  -- The daemon before the handlers of the signals are set.
  abbrev pub unhandled : CapacityManager → DaemonState F
  unhandled m = record (serving (serving_on machine config m)) {
    sigterm_handled = false;
    sigint_handled = false;
  }

  -- What raised the exception, and what the daemon holds then.
  pub data HasFailed (error : Error) (d : DaemonState F) : Type 0 where
    no_directory :
        machine.opening.mkdir ≡ raise error
        → d ≡ begun (new_store false machine.file) none
        → HasFailed error d
    not_connected :
        machine.opening.connected ≡ raise error
        → d ≡ begun (new_store false machine.file) none
        → HasFailed error d
    not_set_up :
        machine.opening.set_up ≡ raise error
        → d ≡ begun (store_of machine.file) none
        → HasFailed error d
    overflowed :
        error ≡ overflow_error
        → d ≡ begun (store_of machine.file) (some (new_capacity_manager config))
        → HasFailed error d
    no_tree :
        (m : CapacityManager)
        → ensure_storage_tree machine.make config ≡ raise error
        → d ≡ begun (store_of machine.file) (some m)
        → HasFailed error d
    no_server :
        (m : CapacityManager)
        → machine.uvicorn (new_server config) ≡ raise error
        → d ≡ record (unhandled m) { server = none }
        → HasFailed error d
    no_sigterm :
        (m : CapacityManager) → machine.sigterm ≡ raise error → d ≡ unhandled m → HasFailed error d
    no_sigint :
        (m : CapacityManager)
        → machine.sigint ≡ raise error
        → d ≡ record (unhandled m) { sigterm_handled = true }
        → HasFailed error d
    not_served :
        (m : CapacityManager)
        → machine.serve (new_server config) (serving (serving_on machine config m))
          ≡ (raise error, d)
        → HasFailed error d
