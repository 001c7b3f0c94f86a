-- ===== src/Storage.antt =====
-- `StorageManager` (src/agentvm/storage/manager.py).
use agent_vm.Base.{List, [], ◌∷◌}
use agent_vm.Python.Result.{Result, ok, ◌>>◌}
use agent_vm.Python.Text.{Text}
use agent_vm.Config.Records.{StorageConfig}

-- The loop: the first directory that is not made ends it.
abbrev pub make_each : (Text → Result (Unit {0})) → List Text → Result (Unit {0})
make_each make [] = ok tt
make_each make (path ∷ paths) = make path >> make_each make paths

abbrev pub storage_paths : StorageConfig → List Text
storage_paths c = c.base_dir ∷ c.base_images_dir ∷ c.vm_data_dir ∷ c.shared_dir ∷ c.proxy_dir ∷ []

-- `mkdir` is the outcome of making a directory and its parents.
unfoldable pub ensure_storage_tree : (Text → Result (Unit {0})) → StorageConfig → Result (Unit {0})
ensure_storage_tree mkdir c = make_each mkdir (storage_paths c)
