-- ===== src/Capacity/Tests.antt =====
-- Runs of src/agentvm/host/capacity.py on a small host.
use agent_vm.Base.{
  All, ◌^◌, true, false, none, some, List, [], ◌∷◌, ℤ, map, pos, ◌+ℤ◌, ◌-ℤ◌, max_ℤ, filter,
  contains, text_eq, ◌≡◌, refl, arith, ◌↔◌, Nodup,
}
use agent_vm.Python.Result.{ok}
use agent_vm.Python.Dict.{keys, lookup, get_or, insert}
use agent_vm.Python.Lines.{split_lines, words, is_empty}
use agent_vm.Python.Text.{Text, codes, starts_with, lower, parse_int, join}
use agent_vm.Python.Value.{Value, null, int, str, Object, to_str}
use agent_vm.Capacity.{
  Allocation, CapacityManager, HostCapacity, CapacityCheckResult, total, distinct, get_capacity,
  check_spec, shortfalls, allocate,
}
use agent_vm.Capacity.Readings.{
  Host, contents, read_cpu_total, count_processors, find_total, second_int, fallback, cpu_total,
  memory_total, disk_capacity, kib_to_mib,
}
use agent_vm.Capacity.Admission.{Fits, admit, here, next, IsWithin, check_spec-Fits}
use agent_vm.Capacity.Overcommit.{Reach-IsWithin}
use agent_vm.Capacity.Reconcile.{
  dict, not_dict, rows, MetadataQueries, ask, is_active_item, active_items, fetch_active_vms,
  vm_id_of, number, allocation_of, add_vm, rebuild, reconcile_allocations, to_int,
}
use agent_vm.Capacity.Returns.{passes, reconcile_allocations-returns}
use agent_vm.Python.Requests.{in_turn}
use agent_vm.Capacity.Ledger.{
  Request, allocate_request, release_request, served, meant, held, ledger_refines,
}
use agent_vm.Capacity.Unordered.{view}
use agent_vm.Capacity.Reordered.{reconcile_allocations-perm}
use mathlib.Core.List.Perm
use agent_vm.Capacity.Rebuild.{last_entry, reconcile_allocations-last_entry}

abbrev small_host : Host
small_host = record {
  cpuinfo = contents (codes "processor : 0\nprocessor : 1\nprocessor : 2\n");
  meminfo = contents (codes "MemTotal: 8192 kB\n");
  cpu_count = none;
  statvfs = some (record { f_frsize = 1024 ^ 2; f_blocks = 102400; f_bavail = 51200 });
}

abbrev empty_manager : CapacityManager
empty_manager = record {
  reserved_cores = pos 0 ∷ pos 0 ∷ [];
  reserved_memory_mb = pos 2;
  max_vms = pos 2;
  allocations = [];
}

abbrev small_vm : Allocation
small_vm = record { cpu_cores = pos 2; memory_mb = pos 4; disk_gb = pos 10 }

abbrev one_vm : CapacityManager
one_vm = record empty_manager { allocations = (codes "vm-1", small_vm) ∷ [] }

abbrev left : HostCapacity
left = record {
  total_cpu = pos 3;
  available_cpu = pos 2;
  total_memory_mb = pos 8;
  available_memory_mb = pos 6;
  total_disk_gb = pos 100;
  available_disk_gb = pos 50;
  active_vm_count = 0;
  max_vm_count = pos 2;
}

abbrev enough : CapacityCheckResult
enough = record {
  sufficient = true;
  available_cpu = pos 2;
  available_memory_mb = pos 6;
  available_disk_gb = pos 50;
  shortfall = none;
}

three_cpus : read_cpu_total small_host ≡ ok 3
unfolding cpu_total count_processors split_lines starts_with fallback filter
three_cpus = refl

capacity_left : get_capacity small_host empty_manager ≡ ok left
unfolding get_capacity cpu_total count_processors split_lines starts_with memory_total find_total
    second_int words parse_int kib_to_mib disk_capacity distinct total max_ℤ ◌-ℤ◌
capacity_left = refl

checked : check_spec small_host empty_manager (pos 2) (pos 4) (pos 10) ≡ ok enough
unfolding check_spec shortfalls get_capacity cpu_total count_processors split_lines starts_with
    memory_total find_total second_int words parse_int kib_to_mib disk_capacity distinct total max_ℤ
    ◌-ℤ◌
checked = refl

names_memory :
    check_spec small_host one_vm (pos 0) (pos 3) (pos 10)
    ≡ ok (record {
      sufficient = false;
      available_cpu = pos 0;
      available_memory_mb = pos 2;
      available_disk_gb = pos 40;
      shortfall = some (codes "memory");
    })
unfolding check_spec shortfalls get_capacity cpu_total count_processors split_lines starts_with
    memory_total find_total second_int words parse_int kib_to_mib disk_capacity distinct total join
    max_ℤ ◌-ℤ◌ ◌+ℤ◌
names_memory = refl

allocated : allocate (codes "vm-1") small_vm empty_manager ≡ ok one_vm
unfolding allocate contains insert
allocated = refl

empty_fits : IsWithin small_host 3 empty_manager
unfolding memory_total find_total split_lines starts_with second_int words parse_int kib_to_mib
    disk_capacity distinct total max_ℤ ◌-ℤ◌
empty_fits = record {
  nonneg = tt;
  cpu = omega arith;
  memory = omega arith;
  disk = omega arith;
  count = omega arith;
}

Reach-IsWithin_example : IsWithin small_host 3 one_vm
Reach-IsWithin_example =
    Reach-IsWithin small_host 3 three_cpus
      (next here (
        admit (codes "vm-1") small_vm enough (omega arith, omega arith, omega arith) checked refl
          allocated))
      empty_fits

check_spec-Fits_example :
    (r : CapacityCheckResult) × (check_spec small_host empty_manager (pos 2) (pos 4) (pos 10)
      ≡ ok r)
    × ((r.sufficient ≡ true) ↔ Fits left (pos 2) (pos 4) (pos 10))
    × ((r.shortfall ≡ none) ↔ Fits left (pos 2) (pos 4) (pos 10))
check_spec-Fits_example =
    check_spec-Fits small_host empty_manager (pos 2) (pos 4) (pos 10) left capacity_left

-- A record that a store holds.
abbrev vm_object : Value → Value → Object
vm_object id memory_mb =
    ("id", id)
    ∷ ("status", str (codes "Running"))
    ∷ ("cpu_cores", str (codes " 2 "))
    ∷ ("memory_mb", memory_mb)
    ∷ ("disk_gb", int (pos 10))
    ∷ []

abbrev queries : MetadataQueries
queries = record {
  get_active_vms = some (
      ok (
        rows (
          dict (vm_object (str (codes "vm-1")) (int (pos 4)))
          ∷ not_dict
          ∷ dict (vm_object (str (codes "vm-2")) null)
          ∷ [])));
  list_vms = none;
}

reconciled : reconcile_allocations queries empty_manager ≡ ok one_vm
unfolding reconcile_allocations fetch_active_vms ask active_items is_active_item get_or lookup
    to_str lower rebuild add_vm vm_id_of is_empty allocation_of number to_int parse_int insert
reconciled = refl

reconcile_allocations-last_entry_example :
    (vms : List Object) × (fetch_active_vms queries ≡ ok vms)
    × ((id : Text) → lookup id (one_vm.allocations) ≡ last_entry id vms)
    × Nodup (keys (one_vm.allocations))
    × (one_vm ≡ record empty_manager { allocations = one_vm.allocations })
reconcile_allocations-last_entry_example =
    reconcile_allocations-last_entry queries empty_manager one_vm reconciled

abbrev active_objects : List Object
active_objects =
    vm_object (str (codes "vm-1")) (int (pos 4)) ∷ vm_object (str (codes "vm-2")) null ∷ []

fetched : fetch_active_vms queries ≡ ok active_objects
unfolding fetch_active_vms ask active_items is_active_item lookup to_str lower
fetched = refl

reconcile_allocations-returns_example :
    ((m' : CapacityManager) × (reconcile_allocations queries empty_manager ≡ ok m'))
    ↔ All (λ vm. passes vm ≡ true) active_objects
reconcile_allocations-returns_example =
    reconcile_allocations-returns queries empty_manager active_objects fetched

-- The same records in the other order.
abbrev reversed : MetadataQueries
reversed = record {
  get_active_vms = some (
      ok (
        rows (
          dict (vm_object (str (codes "vm-2")) null)
          ∷ dict (vm_object (str (codes "vm-1")) (int (pos 4)))
          ∷ [])));
  list_vms = none;
}

abbrev reversed_objects : List Object
reversed_objects =
    vm_object (str (codes "vm-2")) null ∷ vm_object (str (codes "vm-1")) (int (pos 4)) ∷ []

fetched_reversed : fetch_active_vms reversed ≡ ok reversed_objects
unfolding fetch_active_vms ask active_items is_active_item lookup to_str lower
fetched_reversed = refl

distinct_ids : Nodup (map vm_id_of active_objects)
unfolding vm_id_of to_str lookup contains
distinct_ids = (refl, (refl, tt))

reconcile_allocations-perm_example :
    (m₂ : CapacityManager) × (reconcile_allocations reversed empty_manager ≡ ok m₂)
    × (view one_vm ≡ view m₂)
    × ((host : Host) (cpu_cores memory_mb disk_gb : ℤ)
        → check_spec host one_vm cpu_cores memory_mb disk_gb
          ≡ check_spec host m₂ cpu_cores memory_mb disk_gb)
reconcile_allocations-perm_example =
    reconcile_allocations-perm queries reversed empty_manager active_objects reversed_objects one_vm
      fetched fetched_reversed (Perm.swap _ _ []) distinct_ids reconciled

abbrev requests : List Request
requests =
    allocate_request (codes "vm-1") small_vm
    ∷ allocate_request (codes "vm-1") small_vm
    ∷ release_request (codes "vm-1")
    ∷ []

ledger_refines_example :
    ((in_turn served requests empty_manager).0 ≡ (in_turn meant requests (held empty_manager)).0)
    × (held (in_turn served requests empty_manager).1
        ≡ (in_turn meant requests (held empty_manager)).1)
    × Nodup (keys (in_turn served requests empty_manager).1.allocations)
ledger_refines_example = ledger_refines requests empty_manager tt
