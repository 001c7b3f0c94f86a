-- ===== src/Daemon/Tests.antt =====
-- Runs of src/agentvm/vm/manager.py over a small store, and of src/agentvm/daemon.py after it.
use agent_vm.Base.{
  false, All, map, filter, contains, true, none, some, List, [], ◌∷◌, filter, contains, pos, ◌≡◌,
  ◌≢◌, refl, text_eq, string_eq, ◌⊎◌,
}
use agent_vm.Python.Result
use agent_vm.Python.Result.{Result, ok, raise, value_error, type_error, os_error, overflow_error}
use agent_vm.Python.Dict.{lookup}
use agent_vm.Python.Exec.{lift}
use agent_vm.Python.Text.{Text, codes}
use agent_vm.Python.Value.{Value, float, str, Float}
use agent_vm.Sql.{bind_int}
use agent_vm.Store.Schema.{empty_database}
use agent_vm.Store.Connection.{Store}
use agent_vm.Store.Rows.{bind_vm, decode_vm}
use agent_vm.Store.Vms.{is_active}
use agent_vm.Store.Records.{get_allocation_by_vm}
use agent_vm.Capacity.{CapacityManager}
use agent_vm.Capacity.Returns.{passes}
use agent_vm.Capacity.Reconcile.{dict, reconcile_allocations, active_items}
use agent_vm.VmManager.{VmManager, create_vm, destroy_vm, get_vm_status}
use agent_vm.VmManager.Status.{VmSpec, vm_record, provided, overlay}
use agent_vm.VmManager.Lifecycle.{
  over_metadata, row_of, new_status, get_vm_status-create_vm, get_vm_status-destroy_vm,
}
use agent_vm.Capacity.Rebuild.{last_entry}
use agent_vm.Config.Defaults.{no_file, default_config, load_defaults}
use agent_vm.Store.Calls.{Call, perform, perform_all, create_vm_call, delete_vm_call}
use agent_vm.Store.WellFormed.{IsWellFormed, empty-IsWellFormed}
use agent_vm.Daemon.{async_graceful_shutdown, new_state, signal, turn, handle_all}
use agent_vm.Daemon.Run.{Machine, new_capacity_manager, queries, start_up, ensure_storage_tree}
use agent_vm.Daemon.Shutdown.{Serving, serving, signalled, stopped, handle_all-serving}
use agent_vm.Daemon.Startup.{serving_on, store_of, active_of}
use agent_vm.Daemon.Loaded.{start_up-load}
use agent_vm.Daemon.Again.{called, start_up-again}
use agent_vm.Daemon.Restart.{allocation_of_spec, reconcile_allocations-create_vm}

abbrev spec : VmSpec
spec = record {
  vm_id = codes "v-1";
  session_id = codes "s-1";
  image_id = codes "debian";
  cpu_cores = pos 2;
  memory_mb = pos 4;
  disk_gb = pos 10;
}

abbrev opened : Store
opened = record { in_memory = true; connected = true; database = empty_database }

abbrev float_only : Value → Result Float
float_only (float f) = ok f
float_only _ = raise type_error

-- A manager whose provider knows that the VM is running.
abbrev manager : VmManager Store Unit
manager = record {
  store = record { create_vm = none; delete_vm = none; get_vm = none };
  capacity_manager = none;
  runtime_state_provider = some (λ id. ok (some (("state", str (codes "running")) ∷ [])));
  to_float = float_only;
}

fits : bind_vm (row_of (codes "t1") spec) ≡ ok tt
unfolding bind_vm bind_int
fits = refl

get_vm_status-create_vm_example :
    ((create_vm (over_metadata (codes "t1") manager) spec opened).0
      ≡ ok (record { vm_id = codes "v-1"; ssh_host = codes "127.0.0.1"; ssh_port = pos 22 }))
    × ((get_vm_status
          (over_metadata (codes "t1") manager)
          (codes "v-1")
          (create_vm (over_metadata (codes "t1") manager) spec opened).1).0
        ≡ Result.◌>>=◌
            (provided (codes "v-1") (manager.runtime_state_provider))
            (overlay (manager.to_float) (new_status spec)))
unfolding contains
get_vm_status-create_vm_example =
    get_vm_status-create_vm (codes "t1") manager opened refl spec fits refl

get_vm_status-destroy_vm_example :
    ((destroy_vm (over_metadata (codes "t1") manager) (codes "v-1") opened).0 ≡ ok tt)
    × ((get_vm_status
          (over_metadata (codes "t1") manager)
          (codes "v-1")
          (destroy_vm (over_metadata (codes "t1") manager) (codes "v-1") opened).1).0
        ≡ raise value_error)
    × ((get_allocation_by_vm
          (codes "v-1")
          (destroy_vm (over_metadata (codes "t1") manager) (codes "v-1") opened).1).0
        ≡ ok none)
    × ((other : Text)
        → other ≢ codes "v-1"
        → (get_vm_status
            (over_metadata (codes "t1") manager)
            other
            (destroy_vm (over_metadata (codes "t1") manager) (codes "v-1") opened).1).0
          ≡ (get_vm_status (over_metadata (codes "t1") manager) other opened).0)
get_vm_status-destroy_vm_example =
    get_vm_status-destroy_vm (codes "t1") manager opened refl (codes "v-1")

abbrev before : CapacityManager
before = record {
  reserved_cores = [];
  reserved_memory_mb = pos 0;
  max_vms = pos 4;
  allocations = [];
}

none_before :
    All (λ vm. passes vm ≡ true) (active_items (map dict (map decode_vm (filter is_active []))))
unfolding filter active_items
none_before = tt

reconcile_allocations-create_vm_example :
    (c' : CapacityManager) × (reconcile_allocations
        (queries (create_vm (over_metadata (codes "t1") manager) spec opened).1)
        before
      ≡ ok c')
    × (lookup (codes "v-1") c'.allocations ≡ some (allocation_of_spec spec))
unfolding contains
reconcile_allocations-create_vm_example =
    reconcile_allocations-create_vm (codes "t1") manager opened spec refl fits refl refl none_before
      before

abbrev machine : Machine Unit
machine = record {
  file = empty_database;
  opening = record { mkdir = ok tt; connected = ok tt; set_up = ok tt };
  make = λ _. ok tt;
  factory = tt;
  uvicorn = λ _. ok tt;
  sigterm = ok tt;
  sigint = ok tt;
  serve = λ _. lift (ok tt);
}

abbrev at_work : Serving Unit
at_work = serving_on machine default_config (new_capacity_manager default_config)

handle_all-serving_example :
    (handle_all (signal true ∷ signal true ∷ turn ∷ turn ∷ []) (serving at_work) ≡ serving at_work)
    ⊎ ((handle_all (signal true ∷ signal true ∷ turn ∷ turn ∷ []) (serving at_work)
          ≡ signalled 1 at_work)
        ⊎ ((handle_all (signal true ∷ signal true ∷ turn ∷ turn ∷ []) (serving at_work)
              ≡ signalled 0 at_work)
            ⊎ (handle_all (signal true ∷ signal true ∷ turn ∷ turn ∷ []) (serving at_work)
                ≡ stopped at_work)))
handle_all-serving_example =
    handle_all-serving (signal true ∷ signal true ∷ turn ∷ turn ∷ []) at_work

no_active : All (λ vm. passes vm ≡ true) (active_of empty_database)
unfolding filter active_items
no_active = tt

start_up-load_example :
    (m : CapacityManager) × (start_up machine default_config new_state
      ≡ (ok tt, serving (serving_on machine default_config m)))
    × ((id : Text) → lookup id m.allocations ≡ last_entry id (active_of empty_database))
start_up-load_example =
    start_up-load no_file none default_config machine load_defaults refl (λ _ _. refl) refl refl
      refl no_active

-- A machine on which no directory of the storage tree can be made.
abbrev full_disk : Machine Unit
full_disk = record machine { make = λ _. raise os_error }

abbrev calls : List Call
calls = create_vm_call (codes "t1") (vm_record spec) ∷ []

abbrev later : List Call
later = delete_vm_call (codes "v-1") ∷ []

passed :
    All (λ vm. passes vm ≡ true) (active_of (perform_all calls (store_of empty_database)).database)
unfolding perform_all active_items filter perform agent_vm.Store.Vms.create_vm
    agent_vm.Store.Rows.vm_row agent_vm.Store.Codec.require lookup vm_record
    agent_vm.Store.Codec.int_field agent_vm.Python.Value.dumps agent_vm.Store.Connection.execute
    agent_vm.Store.Rows.insert_vm bind_vm bind_int agent_vm.Sql.insert_unique contains is_active
    agent_vm.Store.Codec.text_field agent_vm.Python.Value.to_str
    agent_vm.Capacity.Reconcile.is_active_item agent_vm.Python.Text.lower decode_vm
    agent_vm.Store.Codec.decode_row agent_vm.Python.Dict.insert passes
    agent_vm.Capacity.Reconcile.vm_id_of agent_vm.Capacity.Reconcile.allocation_of
    agent_vm.Capacity.Reconcile.number agent_vm.Capacity.Reconcile.to_int
passed = (refl, tt)

start_up-again_example :
    let file = (perform_all calls (store_of empty_database)).database in
    let closed = record (store_of file) { connected = false } in
    let next = record machine { file = file } in
    (m : CapacityManager) × (m' : CapacityManager) × (start_up machine default_config new_state
      ≡ (ok tt, serving (serving_on machine default_config m)))
    × ((async_graceful_shutdown
          (serving (called calls (serving_on machine default_config m)))).store
        ≡ some closed)
    × (perform_all later closed ≡ closed)
    × (IsWellFormed file)
    × (start_up next default_config new_state
        ≡ (ok tt, serving (serving_on next default_config m')))
    × ((id : Text) → lookup id m'.allocations ≡ last_entry id (active_of file))
start_up-again_example =
    start_up-again machine default_config default_config calls later empty-IsWellFormed (refl, tt)
      refl (unfold ensure_storage_tree in refl) (unfold ensure_storage_tree in refl) refl refl refl
      refl no_active passed
