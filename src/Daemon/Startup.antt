-- ===== src/Daemon/Startup.antt =====
-- The startup of `run_daemon` (src/agentvm/daemon.py) on the database file of an earlier run.
use agent_vm.Base.{
  [], ◌∷◌, if◌then◌else◌, Bool-cases, inl, inr, All, text_eq, true, false, List, map, filter, ◌≡◌,
  refl, sym, ◌∙◌,
}
use agent_vm.Python.Result.{ok, ok-injective}
use agent_vm.Python.Dict.{lookup}
use agent_vm.Python.Text.{Text, codes}
use agent_vm.Python.Value.{Object}
use agent_vm.Store.Schema.{Database}
use agent_vm.Store.Connection.{Store, Opening, initialize, connect, query}
use agent_vm.Store.Rows.{decode_vm}
use agent_vm.Store.Vms.{get_active_vms, is_active}
use agent_vm.Capacity.Reconcile.{reconcile_allocations, dict, active_items, ask, fetch_active_vms}
use agent_vm.Capacity.Rebuild.{last_entry, reconcile_allocations-last_entry}
use agent_vm.Capacity.Returns.{passes, reconcile_allocations-returns}
use agent_vm.Config.Records.{AgentVmConfig}
use agent_vm.Metrics.{metrics_exporter_started}
use agent_vm.Bridge.{new_bridge}
use agent_vm.Capacity.{CapacityManager}
use agent_vm.Daemon.{logged, new_state}
use agent_vm.Daemon.Run.{
  Machine, new_capacity_manager, new_server, queries, open_store, reconcile, wire, start_up,
  register_signal_handlers, ensure_storage_tree,
}
use agent_vm.Daemon.Shutdown.{Serving, serving}

-- The active VMs of a file, as the capacity manager reads them.
abbrev pub active_of : Database → List Object
active_of file = active_items (map dict (map decode_vm (filter is_active file.vms)))

-- Every step of opening the store returns.
abbrev pub opened : Opening
opened = record { mkdir = ok tt; connected = ok tt; set_up = ok tt }

-- The store of a file, opened.
abbrev pub store_of : Database → Store
store_of file = record { in_memory = false; connected = true; database = file }

pub fetch_active_vms-queries :
    (file : Database) → fetch_active_vms (queries (store_of file)) ≡ ok (active_of file)
unfolding fetch_active_vms ask queries get_active_vms query
fetch_active_vms-queries file = refl

-- What a startup on a machine comes to before `serve`, with the capacity manager `m`.
abbrev pub serving_on : {F : Type 0} → Machine F → AgentVmConfig → CapacityManager → Serving F
serving_on machine config m = record {
  server = new_server config;
  capacity_manager = m;
  bridge_manager = new_bridge config.network.bridge_name machine.factory;
  store = store_of machine.file;
  effects =
      if config.observability.metrics_enabled
      then logged (metrics_exporter_started config.observability.metrics_port (codes "127.0.0.1"))
        ∷ []
      else [];
}

module _ {F : Type 0} (machine : Machine F) (config : AgentVmConfig) where
  start_up-serving :
      (m : CapacityManager)
      → machine.opening ≡ opened
      → reconcile_allocations (queries (store_of machine.file)) (new_capacity_manager config) ≡ ok m
      → ensure_storage_tree machine.make config ≡ ok tt
      → machine.uvicorn (new_server config) ≡ ok tt
      → machine.sigterm ≡ ok tt
      → machine.sigint ≡ ok tt
      → start_up machine config new_state ≡ (ok tt, serving (serving_on machine config m))
  unfolding start_up open_store initialize connect reconcile wire register_signal_handlers
  start_up-serving m opening returned made up sigterm sigint =
      let mkdir : machine.opening.mkdir ≡ ok tt = rw opening refl in
      let connected : machine.opening.connected ≡ ok tt = rw opening refl in
      let set_up : machine.opening.set_up ≡ ok tt = rw opening refl in
      elim (Bool-cases config.observability.metrics_enabled) [
        | inl enabled ↦
            rw (mkdir, connected, set_up, returned, made, up, enabled, sigterm, sigint) refl
        | inr disabled ↦
            rw (mkdir, connected, set_up, returned, made, up, disabled, sigterm, sigint) refl
      ]

  -- Where the store can be opened, the directories of the storage tree and the server can be made, the
  -- handlers of the signals can be set and the loop passes the file's active VMs, the startup comes to
  -- the call of `serve`: with the server, the bridge and the exporter that the configuration says, the
  -- file's database open and unchanged, and the allocations of its active VMs, of each id that of the
  -- last record that counts, and no other.
  pub start_up-returns :
      machine.opening ≡ opened
      → ensure_storage_tree machine.make config ≡ ok tt
      → machine.uvicorn (new_server config) ≡ ok tt
      → machine.sigterm ≡ ok tt
      → machine.sigint ≡ ok tt
      → All (λ vm. passes vm ≡ true) (active_of machine.file)
      → (m : CapacityManager) × (start_up machine config new_state
          ≡ (ok tt, serving (serving_on machine config m)))
        × ((id : Text) → lookup id m.allocations ≡ last_entry id (active_of machine.file))
  start_up-returns opening made up sigterm sigint all =
      let m = new_capacity_manager config in
      let file = machine.file in
      let asked = fetch_active_vms-queries file in
      let (m', returned) =
        (reconcile_allocations-returns (queries (store_of file)) m (active_of file) asked).1 all in
      let (vms, fetched, kept, _, _) =
        reconcile_allocations-last_entry (queries (store_of file)) m m' returned in
      let e = ok-injective (sym fetched ∙ asked) in
      (m', start_up-serving m' opening returned made up sigterm sigint, λ id. kept id ∙ rw e refl)
