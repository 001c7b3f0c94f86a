-- ===== src/Daemon/Loaded.antt =====
-- A daemon starts on every configuration that `load` accepts (src/agentvm/config.py,
-- src/agentvm/daemon.py).
use agent_vm.Base.{All, true, Option, List, [], ◌∷◌, ◌≡◌, refl, text_eq}
use agent_vm.Python.Result.{Result, ok}
use agent_vm.Python.Dict.{lookup}
use agent_vm.Python.Text.{Text}
use agent_vm.Capacity.{CapacityManager}
use agent_vm.Capacity.Rebuild.{last_entry}
use agent_vm.Capacity.Returns.{passes}
use agent_vm.Config.Records.{AgentVmConfig}
use agent_vm.Config.Validate.{required_dirs}
use agent_vm.Config.{Surroundings, load}
use agent_vm.Config.Valid.{load-IsValid}
use agent_vm.Storage.{make_each, storage_paths}
use agent_vm.Daemon.{new_state}
use agent_vm.Daemon.Run.{Machine, new_server, start_up, ensure_storage_tree}
use agent_vm.Daemon.Shutdown.{serving}
use agent_vm.Daemon.Startup.{serving_on, active_of, start_up-returns, opened}

make_each-All :
    (make : Text → Result (Unit {0})) (paths : List Text)
    → All (λ p. make p ≡ ok tt) paths
    → make_each make paths ≡ ok tt
make_each-All make [] _ = refl
make_each-All make (path ∷ paths) (made, others) = rw made (make_each-All make paths others)

-- Where the store can be opened, the server can be made, the handlers of the signals can be set, every
-- directory that `load` could make can be made with its mode, and the loop passes the file's active VMs,
-- the startup on a configuration that `load` returned comes to the call of `serve`: the file's database
-- open and unchanged, with the allocations of its active VMs, of each id that of the last record that
-- counts.
pub start_up-load :
    {F : Type 0} (w : Surroundings) (config_path : Option Text) (config : AgentVmConfig)
    (machine : Machine F)
    → load w config_path ≡ ok config
    → machine.opening ≡ opened
    → ((path : Text) → w.mkdir path ≡ ok tt → machine.make path ≡ ok tt)
    → machine.uvicorn (new_server config) ≡ ok tt
    → machine.sigterm ≡ ok tt
    → machine.sigint ≡ ok tt
    → All (λ vm. passes vm ≡ true) (active_of machine.file)
    → (m : CapacityManager) × (start_up machine config new_state
        ≡ (ok tt, serving (serving_on machine config m)))
      × ((id : Text) → lookup id m.allocations ≡ last_entry id (active_of machine.file))
unfolding required_dirs
start_up-load w config_path config machine loaded opening makes up sigterm sigint all =
    let (_, (_, (_, (base, (images, (vm_data, (shared, (proxy, _)))))))) =
      load-IsValid w config_path loaded in
    let made =
      make_each-All machine.make (storage_paths config.storage) (
        makes _ base,
        (makes _ images, (makes _ vm_data, (makes _ shared, (makes _ proxy, tt)))),
      ) in
    start_up-returns machine config opening (unfold ensure_storage_tree in made) up sigterm sigint
      all
