-- ===== src/Capacity/Reconcile.antt =====
-- `reconcile_allocations`, `_fetch_active_vms` and `_to_int` of src/agentvm/host/capacity.py.
use agent_vm.Base.{
  Bool, true, false, ◌||◌, Option, none, some, List, [], ◌∷◌, ℤ, String, ◌==◌, text_eq, string_eq,
  if◌then◌else◌,
}
use agent_vm.Python.Result.{Error, Result, ok, raise, ◌>>=◌, key_error, value_error, type_error}
use agent_vm.Python.Dict.{Dict, lookup, get_or, insert}
use agent_vm.Python.Lines.{is_empty}
use agent_vm.Python.Text.{Text, codes, lower, parse_int}
use agent_vm.Python.Value.{Value, int, float, str, bytes, Object, to_str, truncate}
use agent_vm.Capacity.{Allocation, CapacityManager}

-- `_to_int`
unfoldable pub to_int : Value → Result ℤ
to_int (int z) = ok z
to_int (float f) = truncate f
to_int (str t) = parse_int t
to_int (bytes _ content) = parse_int content
to_int _ = raise type_error

-- One element of the list that a store returns.
pub data Item : Type 0 where
  dict : Object → Item
  not_dict : Item

-- What a store's query returns, once awaited where it is awaitable.
pub data Answer : Type 0 where
  rows : List Item → Answer
  not_list : Answer
  awaiting_raised : Error → Answer

-- A metadata store, seen by `hasattr`: the call of `get_active_vms`, if it has one, and the call of
-- `list_vms`, if it has one, with `status="running"` or with no argument.
pub record MetadataQueries : Type 0 where
  pub get_active_vms : Option (Result Answer)
  pub list_vms : Option (Option Text → Result Answer)

-- `try: list_vms(status="running")`, `except TypeError: list_vms()`
abbrev pub list_running : (Option Text → Result Answer) → Result Answer → Result Answer
list_running list_vms (raise type_error) = list_vms none
list_running list_vms answer = answer

unfoldable pub ask : MetadataQueries → Result Answer
ask store = elim store.get_active_vms [
  | some answer ↦ answer
  | none ↦ elim store.list_vms [
    | some list_vms ↦ list_running list_vms (list_vms (some (codes "running")))
    | none ↦ raise type_error
  ]
]

unfoldable pub is_active_item : Object → Bool
is_active_item vm =
    let status = lower (to_str (get_or "status" (str (codes "running")) vm)) in
    (status == codes "running") || (status == codes "creating")

-- the loop of `_fetch_active_vms`
unfoldable pub active_items : List Item → List Object
active_items [] = []
active_items (not_dict ∷ items) = active_items items
active_items (dict vm ∷ items) =
    if is_active_item vm then vm ∷ active_items items else active_items items

abbrev pub settle : Answer → Result (List Object)
settle (rows items) = ok (active_items items)
settle not_list = raise type_error
settle (awaiting_raised error) = raise error

-- `_fetch_active_vms`
unfoldable pub fetch_active_vms : MetadataQueries → Result (List Object)
fetch_active_vms store = do answer ← ask store; settle answer

-- `str(vm.get("id", vm.get("vm_id", "")))`
unfoldable pub vm_id_of : Object → Text
vm_id_of vm = to_str (get_or "id" (get_or "vm_id" (str []) vm) vm)

-- `_to_int(vm[name])`
unfoldable pub number : String → Object → Result ℤ
number name vm = elim (lookup name vm) [ none ↦ raise key_error | some value ↦ to_int value ]

unfoldable pub allocation_of : Object → Result Allocation
allocation_of vm = do
  cpu_cores ← number "cpu_cores" vm
  memory_mb ← number "memory_mb" vm
  disk_gb ← number "disk_gb" vm
  ok (record { cpu_cores = cpu_cores; memory_mb = memory_mb; disk_gb = disk_gb })

-- `except (KeyError, TypeError, ValueError)`
abbrev pub is_caught : Error → Bool
is_caught key_error = true
is_caught type_error = true
is_caught value_error = true
is_caught _ = false

-- The `try` statement for one record with a non-empty id.
abbrev pub record_allocation :
    Text → Result Allocation → Dict Text Allocation → Result (Dict Text Allocation)
record_allocation vm_id (ok a) rebuilt = ok (insert vm_id a rebuilt)
record_allocation vm_id (raise error) rebuilt = if is_caught error then ok rebuilt else raise error

-- one round of the loop
unfoldable pub add_vm : Object → Dict Text Allocation → Result (Dict Text Allocation)
add_vm vm rebuilt =
    if is_empty (vm_id_of vm)
    then ok rebuilt
    else record_allocation (vm_id_of vm) (allocation_of vm) rebuilt

-- the loop of `reconcile_allocations`
unfoldable pub rebuild : List Object → Dict Text Allocation → Result (Dict Text Allocation)
rebuild [] rebuilt = ok rebuilt
rebuild (vm ∷ vms) rebuilt = do rebuilt' ← add_vm vm rebuilt; rebuild vms rebuilt'

-- The manager is replaced only where the whole loop ends.
unfoldable pub reconcile_allocations : MetadataQueries → CapacityManager → Result CapacityManager
reconcile_allocations store m = do
  vms ← fetch_active_vms store
  rebuilt ← rebuild vms []
  ok (record m { allocations = rebuilt })
