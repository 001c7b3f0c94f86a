-- ===== src/VmManager/Status.antt =====
-- What `get_vm_status` (src/agentvm/vm/manager.py) reads out of a record and a runtime state.
use agent_vm.Base.{Option, none, some, [], ◌∷◌, ℤ, pos, string_eq}
use agent_vm.Python.Result.{Result, ok, raise, ◌>>=◌, value_error}
use agent_vm.Python.Dict.{get_or}
use agent_vm.Python.Text.{Text, codes}
use agent_vm.Python.Value.{int_of, Value, int, float, str, Float, finite, Object, to_str}

pub record VmSpec : Type 0 where
  pub vm_id : Text
  pub session_id : Text
  pub image_id : Text
  pub cpu_cores : ℤ
  pub memory_mb : ℤ
  pub disk_gb : ℤ

pub record VmConnectionInfo : Type 0 where
  pub vm_id : Text
  pub ssh_host : Text
  pub ssh_port : ℤ

pub record VmStatus : Type 0 where
  pub vm_id : Text
  pub session_id : Text
  pub state : Text
  pub cpu_percent : Float
  pub memory_mb : ℤ

-- the record that `create_vm` stores
unfoldable pub vm_record : VmSpec → Object
vm_record spec =
    ("id", str spec.vm_id)
    ∷ ("session_id", str spec.session_id)
    ∷ ("base_image", str spec.image_id)
    ∷ ("cpu_cores", int spec.cpu_cores)
    ∷ ("memory_mb", int spec.memory_mb)
    ∷ ("disk_gb", int spec.disk_gb)
    ∷ ("status", str (codes "creating"))
    ∷ []

-- what the record says of the VM
unfoldable pub recorded_status : Text → Object → Result VmStatus
recorded_status vm_id record_ = do
  memory_mb ← int_of (get_or "memory_mb" (int (pos 0)) record_)
  ok (record {
    vm_id = vm_id;
    session_id = to_str (get_or "session_id" (str []) record_);
    state = to_str (get_or "status" (str (codes "unknown")) record_);
    cpu_percent = finite (codes "0.0") (pos 0);
    memory_mb = memory_mb;
  })

-- what the runtime state says over it
unfoldable pub overlay : (Value → Result Float) → VmStatus → Option Object → Result VmStatus
overlay to_float status none = ok status
overlay to_float status (some runtime_state) = do
  cpu_percent ← to_float (get_or "cpu_percent" (float status.cpu_percent) runtime_state)
  memory_mb ← int_of (get_or "memory_mb" (int status.memory_mb) runtime_state)
  ok (record status {
    state = to_str (get_or "state" (str status.state) runtime_state);
    cpu_percent = cpu_percent;
    memory_mb = memory_mb;
  })

abbrev pub provided : Text → Option (Text → Result (Option Object)) → Result (Option Object)
provided vm_id none = ok none
provided vm_id (some provider) = provider vm_id

-- the status for what `get_vm` returned
unfoldable pub status_of :
    (Value → Result Float)
    → Option (Text → Result (Option Object))
    → Text
    → Option Object
    → Result VmStatus
status_of to_float provider vm_id none = raise value_error
status_of to_float provider vm_id (some record_) = do
  status ← recorded_status vm_id record_
  runtime_state ← provided vm_id provider
  overlay to_float status runtime_state
