-- ===== src/Daemon/Again.antt =====
-- A daemon that is stopped, and the next one on the database that it leaves (src/agentvm/daemon.py,
-- src/agentvm/db/store.py, src/agentvm/host/capacity.py).
use agent_vm.Base.{ap, ◌∙◌, false, some, List, All, true, ◌≡◌, refl, text_eq}
use agent_vm.Python.Result.{ok}
use agent_vm.Python.Dict.{lookup}
use agent_vm.Python.Text.{Text}
use agent_vm.Store.Connection.{Store, close}
use agent_vm.Store.Calls.{Call, perform_all}
use agent_vm.Store.Calls.Closed.{is_connection_call, perform_all-closed}
use agent_vm.Store.Calls.Kept.{perform_all-in_memory}
use agent_vm.Store.WellFormed.{IsWellFormed}
use agent_vm.Store.WellFormed.Preserved.{perform_all-IsWellFormed}
use agent_vm.Capacity.{CapacityManager}
use agent_vm.Capacity.Rebuild.{last_entry}
use agent_vm.Capacity.Returns.{passes}
use agent_vm.Config.Records.{AgentVmConfig}
use agent_vm.Daemon.{new_state, async_graceful_shutdown, stop_accepting, drain, stop_metrics}
use agent_vm.Daemon.Run.{Machine, new_server, start_up, ensure_storage_tree}
use agent_vm.Daemon.Shutdown.{Serving, serving}
use agent_vm.Daemon.Startup.{serving_on, store_of, active_of, start_up-returns, opened}

-- What the store that is closed holds.
close-file :
    (s : Store)
    → s.in_memory ≡ false
    → (close s).1 ≡ record (store_of s.database) { connected = false }
unfolding close
close-file s file = rw file refl

module _ {F : Type 0} where
  -- The daemon once calls were made of its store.
  abbrev pub called : List Call → Serving F → Serving F
  called calls s = record s { store = perform_all calls s.store }

  async_graceful_shutdown-serving :
      (s : Serving F) → (async_graceful_shutdown (serving s)).store ≡ some (close s.store).1
  unfolding async_graceful_shutdown stop_accepting drain stop_metrics
  async_graceful_shutdown-serving s = refl

  -- On a well-formed database file, where the store can be opened, the directories and the server can be
  -- made, the handlers of the signals can be set and the loop passes the file's active VMs, the startup
  -- comes to the call of `serve`. Whatever calls are then made of the store, once
  -- `_async_graceful_shutdown` has run the store is closed on the database of the calls, which is
  -- well-formed, and no later call that neither opens nor closes the connection changes it. A startup on
  -- that file next, with the same conditions, comes to the call of `serve` with the allocations of its
  -- active VMs, of each id that of the last record that counts.
  pub start_up-again :
      (machine : Machine F) (config next_config : AgentVmConfig) (calls later : List Call)
      → IsWellFormed machine.file
      → All (λ call. is_connection_call call ≡ false) later
      → machine.opening ≡ opened
      → ensure_storage_tree machine.make config ≡ ok tt
      → ensure_storage_tree machine.make next_config ≡ ok tt
      → machine.uvicorn (new_server config) ≡ ok tt
      → machine.uvicorn (new_server next_config) ≡ ok tt
      → machine.sigterm ≡ ok tt
      → machine.sigint ≡ ok tt
      → All (λ vm. passes vm ≡ true) (active_of machine.file)
      → All
          (λ vm. passes vm ≡ true)
          (active_of (perform_all calls (store_of machine.file)).database)
      → let file = (perform_all calls (store_of machine.file)).database in
        let closed = record (store_of file) { connected = false } in
        let next = record machine { file = file } in
        (m : CapacityManager) × (m' : CapacityManager) × (start_up machine config new_state
          ≡ (ok tt, serving (serving_on machine config m)))
        × ((async_graceful_shutdown (serving (called calls (serving_on machine config m)))).store
            ≡ some closed)
        × (perform_all later closed ≡ closed)
        × (IsWellFormed file)
        × (start_up next next_config new_state ≡ (ok tt, serving (serving_on next next_config m')))
        × ((id : Text) → lookup id m'.allocations ≡ last_entry id (active_of file))
  start_up-again machine config next_config calls later valid others opening made made' up up'
        sigterm sigint passed passed' =
      let store = perform_all calls (store_of machine.file) in
      let next = record machine { file = store.database } in
      let (m, returned, _) =
        start_up-returns machine config opening made up sigterm sigint passed in
      let (m', returned', rebuilt) =
        start_up-returns next next_config opening made' up' sigterm sigint passed' in
      (
        m,
        m',
        returned,
        async_graceful_shutdown-serving (called calls (serving_on machine config m))
            ∙ ap some (close-file store (perform_all-in_memory calls (store_of machine.file) refl)),
        perform_all-closed later _ refl others,
        perform_all-IsWellFormed calls (store_of machine.file) valid,
        returned',
        rebuilt,
      )
