-- ===== src/VmManager.antt =====
-- `VMManager` of src/agentvm/vm/manager.py, over any metadata store and any capacity manager.
pub mod Status
pub mod Lifecycle
use agent_vm.Base.{Option, none, some, ℤ, pos}
use mathlib.Core.Option
use agent_vm.Python.Result.{Result, raise, value_error}
use agent_vm.Python.Exec.{Exec, pure, lift, ◌>>=◌, ◌>>◌}
use agent_vm.Python.Text.{Text, codes}
use agent_vm.Python.Value.{Value, Float, Object}
use agent_vm.VmManager.Status.{VmSpec, VmConnectionInfo, VmStatus, vm_record, status_of}

-- The store's methods as `getattr` finds them, none where one is missing or not callable. What
-- `create_vm` and `delete_vm` return is not looked at; `get_vm` returns none for what is no dict.
pub record MetadataStore (S : Type 0) : Type 0 where
  pub create_vm : Option (Object → Exec S (Unit {0}))
  pub delete_vm : Option (Text → Exec S (Unit {0}))
  pub get_vm : Option (Text → Exec S (Option Object))

-- A runtime state provider returns none for what is no dict. `to_float` is Python's `float`.
pub record VmManager (S R : Type 0) : Type 0 where
  pub store : MetadataStore S
  pub capacity_manager : Option (Option (ℤ → ℤ → ℤ → Result R))
  pub runtime_state_provider : Option (Text → Result (Option Object))
  pub to_float : Value → Result Float

-- A call of a method that may be missing.
abbrev pub call : {S A : Type 0} → Option (Exec S A) → Exec S A
call none = lift (raise value_error)
call (some method) = method

module _ {S R : Type 0} (m : VmManager S R) where
  unfoldable pub create_vm : VmSpec → Exec S VmConnectionInfo
  create_vm spec =
      call (Option.map (λ create. create (vm_record spec)) (m.store.create_vm))
      >> pure (record { vm_id = spec.vm_id; ssh_host = codes "127.0.0.1"; ssh_port = pos 22 })

  unfoldable pub destroy_vm : Text → Exec S (Unit {0})
  destroy_vm vm_id = call (Option.map (λ delete. delete vm_id) (m.store.delete_vm))

  unfoldable pub get_vm_status : Text → Exec S VmStatus
  get_vm_status vm_id = call (Option.map (λ get. get vm_id) (m.store.get_vm)) >>= λ found.
      lift (status_of m.to_float m.runtime_state_provider vm_id found)

  unfoldable pub check_host_capacity : VmSpec → Result R
  check_host_capacity spec = elim m.capacity_manager [
    | none ↦ raise value_error
    | some none ↦ raise value_error
    | some (some check_spec) ↦ check_spec spec.cpu_cores spec.memory_mb spec.disk_gb
  ]
