-- ===== src/Capacity/Admission.antt =====
-- `check_spec` (src/agentvm/host/capacity.py) against the capacity that it reads, and a host on
-- which VMs are admitted only after it.
use agent_vm.Base.{
  ℕ, suc, true, none, List, [], ◌∷◌, ℤ, pos, ◌+ℤ◌, ◌-ℤ◌, ◌≤ℤ◌, max_ℤ, int_laws, max_ℤ_bounds,
  length, text_eq, ◌≡◌, ◌↔◌, arith, All,
}
use agent_vm.Python.Result.{ok}
use agent_vm.Python.Dict.{values}
use agent_vm.Python.Text.{Text}
use agent_vm.Capacity.{
  Allocation, CapacityManager, HostCapacity, CapacityCheckResult, total, distinct, get_capacity,
  check_spec, shortfalls, check_result, allocate, release,
}
use agent_vm.Capacity.Readings.{Host, read_memory_total_mb, read_disk_capacity_gb}

-- The request fits: a VM more is allowed, and each resource is there.
pub record Fits (c : HostCapacity) (cpu_cores memory_mb disk_gb : ℤ) : Type 0 where
  pub count : pos (suc c.active_vm_count) ≤ℤ c.max_vm_count
  pub cpu : cpu_cores ≤ℤ c.available_cpu
  pub memory : memory_mb ≤ℤ c.available_memory_mb
  pub disk : disk_gb ≤ℤ c.available_disk_gb

Fits-shortfalls :
    (c : HostCapacity) (cpu memory disk : ℤ)
    → shortfalls c cpu memory disk ≡ []
    → Fits c cpu memory disk
unfolding shortfalls
Fits-shortfalls c cpu memory disk h = ground arith

shortfalls-Fits :
    (c : HostCapacity) (cpu memory disk : ℤ)
    → Fits c cpu memory disk
    → shortfalls c cpu memory disk ≡ []
unfolding shortfalls
shortfalls-Fits c cpu memory disk h = ground arith

check_result_lem :
    (c : HostCapacity) (names : List Text)
    → (((check_result c names).sufficient ≡ true) ↔ (names ≡ []))
      × (((check_result c names).shortfall ≡ none) ↔ (names ≡ []))
check_result_lem c [] = ground arith
check_result_lem c (name ∷ names) = ground arith

-- Where `get_capacity` returns a capacity, `check_spec` answers; the answer is sufficient exactly
-- where the request fits that capacity, the VM count included, and it has no shortfall exactly where
-- the request fits.
pub check_spec-Fits :
    (host : Host) (m : CapacityManager) (cpu memory disk : ℤ) (c : HostCapacity)
    → get_capacity host m ≡ ok c
    → (r : CapacityCheckResult) × (check_spec host m cpu memory disk ≡ ok r)
      × ((r.sufficient ≡ true) ↔ Fits c cpu memory disk)
      × ((r.shortfall ≡ none) ↔ Fits c cpu memory disk)
unfolding check_spec
check_spec-Fits host m cpu memory disk c h =
    let names = shortfalls c cpu memory disk in
    let (sufficient, shortfall) = check_result_lem c names in
    (
      check_result c names,
      rw h,
      (
        λ yes_. Fits-shortfalls c cpu memory disk (sufficient.0 yes_),
        λ fits. sufficient.1 (shortfalls-Fits c cpu memory disk fits),
      ),
      (
        λ nothing. Fits-shortfalls c cpu memory disk (shortfall.0 nothing),
        λ fits. shortfall.1 (shortfalls-Fits c cpu memory disk fits),
      ),
    )

-- What is asked for leaves room: the sum stays within the limit.
pub within_limit :
    (limit s x : ℤ)
    → pos 0 ≤ℤ x
    → x ≤ℤ max_ℤ (limit -ℤ s) (pos 0)
    → s ≤ℤ max_ℤ limit (pos 0)
    → x +ℤ s ≤ℤ max_ℤ limit (pos 0)
within_limit limit s x h k w =
    omega (int_laws, max_ℤ_bounds (limit -ℤ s) (pos 0), max_ℤ_bounds limit (pos 0))

abbrev pub IsNonneg : Allocation → Type 0
IsNonneg a = (pos 0 ≤ℤ a.cpu_cores) × (pos 0 ≤ℤ a.memory_mb) × (pos 0 ≤ℤ a.disk_gb)

-- What the host and the configuration leave for VMs.
pub record Limits : Type 0 where
  pub cpu : ℤ
  pub memory : ℤ
  pub disk : ℤ

abbrev pub limits : Host → ℕ → CapacityManager → Limits
limits host cpus m = record {
  cpu = pos cpus -ℤ pos (length (distinct m.reserved_cores));
  memory = read_memory_total_mb host -ℤ m.reserved_memory_mb;
  disk = pos (read_disk_capacity_gb host).1;
}

-- No resource is promised beyond what the host has, less the reservations, and no VM beyond the count.
pub record IsWithin (host : Host) (cpus : ℕ) (m : CapacityManager) : Type 0 where
  pub nonneg : All IsNonneg (values m.allocations)
  pub cpu :
      total (λ a. a.cpu_cores) (values m.allocations) ≤ℤ max_ℤ (limits host cpus m).cpu (pos 0)
  pub memory :
      total (λ a. a.memory_mb) (values m.allocations) ≤ℤ max_ℤ (limits host cpus m).memory (pos 0)
  pub disk :
      total (λ a. a.disk_gb) (values m.allocations) ≤ℤ max_ℤ (limits host cpus m).disk (pos 0)
  pub count : pos (length m.allocations) ≤ℤ max_ℤ m.max_vms (pos 0)

-- One VM is admitted after `check_spec` found it sufficient, or one is released.
pub data Step (host : Host) : CapacityManager → CapacityManager → Type 0 where
  admit :
      {m m' : CapacityManager} (id : Text) (a : Allocation) (r : CapacityCheckResult)
      → IsNonneg a
      → check_spec host m a.cpu_cores a.memory_mb a.disk_gb ≡ ok r
      → r.sufficient ≡ true
      → allocate id a m ≡ ok m'
      → Step host m m'
  free : {m m' : CapacityManager} (id : Text) → m' ≡ release id m → Step host m m'

pub data Reach (host : Host) (m : CapacityManager) : CapacityManager → Type 0 where
  here : Reach host m m
  next : {m' m'' : CapacityManager} → Reach host m m' → Step host m' m'' → Reach host m m''
