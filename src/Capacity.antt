-- ===== src/Capacity.antt =====
-- `CapacityManager` of src/agentvm/host/capacity.py: the allocations, and what is left of the host.
pub mod Readings
pub mod Accounting
pub mod Admission
pub mod Overcommit
pub mod Reconcile
pub mod Rebuild
pub mod Returns
pub mod Errors
pub mod Unordered
pub mod Reordered
pub mod Ledger
mod Tests
use agent_vm.Base.{
  int_eq, ℕ, ◌+◌, Bool, true, false, Option, none, some, List, [], ◌∷◌, ◌++◌, ℤ, pos, ◌+ℤ◌, ◌-ℤ◌,
  max_ℤ, ltb_ℤ, leb_ℤ, length, contains, if◌then◌else◌, Eq, ◌==◌, text_eq, ◌≡◌, ◌↔◌, arith,
}
use agent_vm.Python.Result.{Result, ok, raise, ◌>>=◌, raise_if, value_error}
use agent_vm.Python.Dict.{Dict, keys, values, lookup, insert, erase}
use agent_vm.Python.Text.{Text, codes, join}
use agent_vm.Capacity.Readings.{Host, read_cpu_total, read_memory_total_mb, read_disk_capacity_gb}

-- `_Allocation`
pub record Allocation : Type 0 where
  pub cpu_cores : ℤ
  pub memory_mb : ℤ
  pub disk_gb : ℤ

pub record HostCapacity : Type 0 where
  pub total_cpu : ℤ
  pub available_cpu : ℤ
  pub total_memory_mb : ℤ
  pub available_memory_mb : ℤ
  pub total_disk_gb : ℤ
  pub available_disk_gb : ℤ
  pub active_vm_count : ℕ
  pub max_vm_count : ℤ

pub record CapacityCheckResult : Type 0 where
  pub sufficient : Bool
  pub available_cpu : ℤ
  pub available_memory_mb : ℤ
  pub available_disk_gb : ℤ
  pub shortfall : Option Text

-- The parts of the configuration that the manager reads, and its allocations.
pub record CapacityManager : Type 0 where
  pub reserved_cores : List ℤ
  pub reserved_memory_mb : ℤ
  pub max_vms : ℤ
  pub allocations : Dict Text Allocation

-- `sum(… for entry in self._allocations.values())`
unfoldable pub total : (Allocation → ℤ) → List Allocation → ℤ
total part [] = pos 0
total part (a ∷ allocations) = part a +ℤ total part allocations

-- `set(xs)`, as the elements in the order of their last occurrence
unfoldable pub distinct : List ℤ → List ℤ
unfolding contains
distinct [] = []
distinct (x ∷ xs) = if contains x xs then distinct xs else x ∷ distinct xs

unfoldable pub get_capacity : Host → CapacityManager → Result HostCapacity
get_capacity host m = do
  total_cpu ← read_cpu_total host
  let reserved_cpu = pos (length (distinct m.reserved_cores))
  let allocated_cpu = total (λ a. a.cpu_cores) (values m.allocations)
  let total_memory_mb = read_memory_total_mb host
  let allocated_memory_mb = total (λ a. a.memory_mb) (values m.allocations)
  let disk = read_disk_capacity_gb host
  let allocated_disk_gb = total (λ a. a.disk_gb) (values m.allocations)
  ok (record {
    total_cpu = pos total_cpu;
    available_cpu = max_ℤ (pos total_cpu -ℤ reserved_cpu -ℤ allocated_cpu) (pos 0);
    total_memory_mb = total_memory_mb;
    available_memory_mb =
        max_ℤ (total_memory_mb -ℤ m.reserved_memory_mb -ℤ allocated_memory_mb) (pos 0);
    total_disk_gb = pos disk.0;
    available_disk_gb = max_ℤ (pos disk.1 -ℤ allocated_disk_gb) (pos 0);
    active_vm_count = length m.allocations;
    max_vm_count = m.max_vms;
  })

-- `shortfalls.append(name)`, if the test holds
abbrev pub append_if : Bool → Text → List Text → List Text
append_if true name shortfalls = shortfalls ++ name ∷ []
append_if false name shortfalls = shortfalls

-- the list `shortfalls` of `check_spec`
unfoldable pub shortfalls : HostCapacity → ℤ → ℤ → ℤ → List Text
shortfalls c cpu_cores memory_mb disk_gb =
    append_if (ltb_ℤ c.available_disk_gb disk_gb) (codes "disk") (
      append_if (ltb_ℤ c.available_memory_mb memory_mb) (codes "memory") (
        append_if (ltb_ℤ c.available_cpu cpu_cores) (codes "cpu")
          (append_if (leb_ℤ c.max_vm_count (pos c.active_vm_count)) (codes "vm_count") [])))

abbrev pub check_result : HostCapacity → List Text → CapacityCheckResult
check_result c [] = record {
  sufficient = true;
  available_cpu = c.available_cpu;
  available_memory_mb = c.available_memory_mb;
  available_disk_gb = c.available_disk_gb;
  shortfall = none;
}
check_result c (name ∷ names) = record {
  sufficient = false;
  available_cpu = c.available_cpu;
  available_memory_mb = c.available_memory_mb;
  available_disk_gb = c.available_disk_gb;
  shortfall = some (join (codes ", ") (name ∷ names));
}

unfoldable pub check_spec : Host → CapacityManager → ℤ → ℤ → ℤ → Result CapacityCheckResult
check_spec host m cpu_cores memory_mb disk_gb = do
  capacity ← get_capacity host m
  ok (check_result capacity (shortfalls capacity cpu_cores memory_mb disk_gb))

unfoldable pub allocate : Text → Allocation → CapacityManager → Result CapacityManager
allocate vm_id a m = do
  _ ← raise_if (contains vm_id (keys m.allocations)) value_error
  ok (record m { allocations = insert vm_id a m.allocations })

unfoldable pub release : Text → CapacityManager → CapacityManager
release vm_id m = record m { allocations = erase vm_id m.allocations }
