-- ===== src/Capacity/Overcommit.antt =====
-- Admission after `check_spec` never overcommits the host (src/agentvm/host/capacity.py).
use agent_vm.Base.{
  ℕ, ◌≤◌, false, List, [], ◌∷◌, ℤ, pos, ◌-ℤ◌, ◌≤ℤ◌, max_ℤ, int_laws, max_ℤ_bounds, length, contains,
  text_eq, ◌≡◌, arith, All, Bool-cases, inl, inr, text_beq,
}
use agent_vm.Python.Result.{ok, ok-injective}
use agent_vm.Python.Dict.{Dict, keys, values, insert, erase}
use agent_vm.Python.Text.{Text}
use agent_vm.Capacity.{
  Allocation, CapacityManager, HostCapacity, total, distinct, get_capacity, allocate, release,
}
use agent_vm.Capacity.Readings.{Host, read_cpu_total, read_memory_total_mb, read_disk_capacity_gb}
use agent_vm.Capacity.Accounting.{total-insert_new, length-insert_new}
use agent_vm.Capacity.Admission.{
  Fits, Step, admit, free, Reach, here, next, IsNonneg, IsWithin, within_limit, check_spec-Fits,
}

-- What `get_capacity` returns on a host with that many CPUs.
abbrev capacity : Host → ℕ → CapacityManager → HostCapacity
capacity host cpus m = record {
  total_cpu = pos cpus;
  available_cpu =
      max_ℤ
        (pos cpus
          -ℤ pos (length (distinct m.reserved_cores))
          -ℤ total (λ a. a.cpu_cores) (values m.allocations))
        (pos 0);
  total_memory_mb = read_memory_total_mb host;
  available_memory_mb =
      max_ℤ
        (read_memory_total_mb host
          -ℤ m.reserved_memory_mb
          -ℤ total (λ a. a.memory_mb) (values m.allocations))
        (pos 0);
  total_disk_gb = pos (read_disk_capacity_gb host).0;
  available_disk_gb =
      max_ℤ (pos (read_disk_capacity_gb host).1 -ℤ total (λ a. a.disk_gb) (values m.allocations))
        (pos 0);
  active_vm_count = length m.allocations;
  max_vm_count = m.max_vms;
}

get_capacity-eq :
    (host : Host) (cpus : ℕ) (m : CapacityManager)
    → read_cpu_total host ≡ ok cpus
    → get_capacity host m ≡ ok (capacity host cpus m)
unfolding get_capacity
get_capacity-eq host cpus m h = rw h

allocate-eq-ok :
    (id : Text) (a : Allocation) (m : CapacityManager) {m' : CapacityManager}
    → allocate id a m ≡ ok m'
    → (contains id (keys m.allocations) ≡ false)
      × (m' ≡ record m { allocations = insert id a m.allocations })
unfolding allocate
allocate-eq-ok id a m h = ground arith

All-values-insert :
    (id : Text) (a : Allocation) (d : Dict Text Allocation)
    → IsNonneg a
    → All IsNonneg (values d)
    → All IsNonneg (values (insert id a d))
unfolding insert
All-values-insert id a [] ha _ = (ha, tt)
All-values-insert id a ((j, b) ∷ d) ha (hb, h) = elim (Bool-cases (text_beq j id)) [
  | inl same ↦ rw same (ha, h)
  | inr other ↦ rw other (hb, All-values-insert id a d ha h)
]

All-values-erase :
    (id : Text) (d : Dict Text Allocation)
    → All IsNonneg (values d)
    → All IsNonneg (values (erase id d))
unfolding erase
All-values-erase id [] _ = tt
All-values-erase id ((j, b) ∷ d) (hb, h) = elim (Bool-cases (text_beq j id)) [
  | inl same ↦ rw same h
  | inr other ↦ rw other (hb, All-values-erase id d h)
]

-- Less is allocated after a release.
total-erase :
    (part : Allocation → ℤ) (id : Text) (d : Dict Text Allocation)
    → All (λ a. pos 0 ≤ℤ part a) (values d)
    → total part (values (erase id d)) ≤ℤ total part (values d)
unfolding erase total
total-erase part id [] _ = omega arith
total-erase part id ((j, b) ∷ d) (hb, h) = elim (Bool-cases (text_beq j id)) [
  | inl same ↦ rw same (omega int_laws)
  | inr other ↦ rw other (omega (int_laws, total-erase part id d h))
]

length-erase : (id : Text) (d : Dict Text Allocation) → length (erase id d) ≤ length d
unfolding erase
length-erase id [] = omega arith
length-erase id ((j, b) ∷ d) = ground (arith, length-erase id d)

part_nonneg :
    (part : Allocation → ℤ)
    → ((a : Allocation) → IsNonneg a → pos 0 ≤ℤ part a)
    → (entries : List Allocation) → All IsNonneg entries
    → All (λ a. pos 0 ≤ℤ part a) entries
part_nonneg part h [] _ = tt
part_nonneg part h (a ∷ entries) (ha, k) = (h a ha, part_nonneg part h entries k)

module _ (host : Host) (cpus : ℕ) (readable : read_cpu_total host ≡ ok cpus) where
  Fits-IsWithin :
      (m : CapacityManager) (id : Text) (a : Allocation)
      → IsNonneg a
      → contains id (keys m.allocations) ≡ false
      → Fits (capacity host cpus m) a.cpu_cores a.memory_mb a.disk_gb
      → IsWithin host cpus m
      → IsWithin host cpus (record m { allocations = insert id a m.allocations })
  Fits-IsWithin m id a ha fresh fits w = record {
    nonneg = All-values-insert id a m.allocations ha w.nonneg;
    cpu =
        rw (total-insert_new (λ b. b.cpu_cores) id a m.allocations fresh)
          (within_limit _ _ a.cpu_cores ha.0 fits.cpu w.cpu);
    memory =
        rw (total-insert_new (λ b. b.memory_mb) id a m.allocations fresh)
          (within_limit _ _ a.memory_mb ha.1 fits.memory w.memory);
    disk =
        rw (total-insert_new (λ b. b.disk_gb) id a m.allocations fresh)
          (within_limit _ _ a.disk_gb ha.2 fits.disk w.disk);
    count =
        rw (length-insert_new id a m.allocations fresh)
          (omega (arith, fits.count, max_ℤ_bounds m.max_vms (pos 0)));
  }

  release-IsWithin :
      (m : CapacityManager) (id : Text) → IsWithin host cpus m → IsWithin host cpus (release id m)
  unfolding release
  release-IsWithin m id w =
      let d = m.allocations in
      let cpu =
        total-erase (λ b. b.cpu_cores) id d (part_nonneg _ (λ a h. h.0) (values d) w.nonneg) in
      let memory =
        total-erase (λ b. b.memory_mb) id d (part_nonneg _ (λ a h. h.1) (values d) w.nonneg) in
      let disk =
        total-erase (λ b. b.disk_gb) id d (part_nonneg _ (λ a h. h.2) (values d) w.nonneg) in
      record {
        nonneg = All-values-erase id d w.nonneg;
        cpu = omega (arith, cpu, w.cpu);
        memory = omega (arith, memory, w.memory);
        disk = omega (arith, disk, w.disk);
        count = omega (arith, length-erase id d, w.count);
      }

  Step-IsWithin :
      {m m' : CapacityManager} → Step host m m' → IsWithin host cpus m → IsWithin host cpus m'
  Step-IsWithin {m} (admit id a r ha checked enough allocated) w =
      let (fresh, grown) = allocate-eq-ok id a m allocated in
      let (r', checked', sufficient, _) =
        check_spec-Fits host m a.cpu_cores a.memory_mb a.disk_gb (capacity host cpus m)
          (get_capacity-eq host cpus m readable) in
      let e : r' ≡ r = ok-injective (cc (checked, checked')) in
      rw grown (Fits-IsWithin m id a ha fresh (sufficient.0 (cc (e, enough))) w)
  Step-IsWithin {m} (free id e) w = rw e (release-IsWithin m id w)

  -- On a host whose CPUs can be counted, a manager that is within the host's limits and has no negative
  -- allocation stays so, however admissions of VMs with no negative size, each after `check_spec` found it
  -- sufficient, and releases follow one another: no sum of allocated CPUs, memory or disk exceeds
  -- what the host has less the reservations, and no count of VMs exceeds `max_vms`.
  pub Reach-IsWithin :
      {m m' : CapacityManager} → Reach host m m' → IsWithin host cpus m → IsWithin host cpus m'
  Reach-IsWithin here w = w
  Reach-IsWithin (next r step) w = Step-IsWithin step (Reach-IsWithin r w)
