-- ===== src/Capacity/Unordered.antt =====
-- The capacity manager (src/agentvm/host/capacity.py) up to the order of its allocations.
use mathlib.Core.Logic.{∥∥₁_elim}
use mathlib.Core.List.{Perm, Permᴰ}
use mathlib.Core.Quot
use mathlib.Core.Quot.{Quot, Quot-set}
use agent_vm.Base.{suc, ℤ, int_laws, length, ◌≡◌, refl, ◌∙◌, ap}
use agent_vm.Python.Result.{Result}
use agent_vm.Python.Dict.{Dict, values}
use agent_vm.Python.Text.{Text}
use agent_vm.Capacity.Readings.{Host}
use agent_vm.Capacity.{
  Allocation, CapacityManager, CapacityCheckResult, total, get_capacity, check_spec,
}

total-Permᴰ :
    (part : Allocation → ℤ) {d d' : Dict Text Allocation}
    → Permᴰ d d'
    → total part (values d) ≡ total part (values d')
unfolding total
total-Permᴰ part Permᴰ.nil = refl
total-Permᴰ part (Permᴰ.cons e p) = rw (e, total-Permᴰ part p) refl
total-Permᴰ part (Permᴰ.swap e e') = rw (e, e') (omega int_laws)
total-Permᴰ part (Permᴰ.trans p q) = total-Permᴰ part p ∙ total-Permᴰ part q

length-Permᴰ : {d d' : Dict Text Allocation} → Permᴰ d d' → length d ≡ length d'
length-Permᴰ Permᴰ.nil = refl
length-Permᴰ (Permᴰ.cons e p) = ap suc (length-Permᴰ p)
length-Permᴰ (Permᴰ.swap e e') = refl
length-Permᴰ (Permᴰ.trans p q) = length-Permᴰ p ∙ length-Permᴰ q

-- Managers that differ in the order of their allocations only.
pub record SameAllocations (m m' : CapacityManager) : Type 0 where
  pub configured : m' ≡ record m { allocations = m'.allocations }
  pub allocated : Perm m.allocations m'.allocations

-- What is left of the host, as far as the allocations say.
abbrev pub View : Type 0
View = Quot SameAllocations

abbrev pub view : CapacityManager → View
view = Quot.mk

get_capacity-perm :
    (host : Host) (m : CapacityManager) (d : Dict Text Allocation)
    → Perm m.allocations d
    → get_capacity host m ≡ get_capacity host (record m { allocations = d })
unfolding get_capacity
get_capacity-perm host m d p = ∥∥₁_elim p (hlevel) (λ q.
    rw
      (
        total-Permᴰ (λ a. a.cpu_cores) q,
        total-Permᴰ (λ a. a.memory_mb) q,
        total-Permᴰ (λ a. a.disk_gb) q,
        length-Permᴰ q,
      )
      refl)

pub check_spec-SameAllocations :
    (host : Host) (cpu_cores memory_mb disk_gb : ℤ) (m m' : CapacityManager)
    → SameAllocations m m'
    → check_spec host m cpu_cores memory_mb disk_gb ≡ check_spec host m' cpu_cores memory_mb disk_gb
unfolding check_spec
check_spec-SameAllocations host cpu_cores memory_mb disk_gb m m' same =
    rw (same.configured, get_capacity-perm host m m'.allocations (same.allocated)) refl

-- `check_spec` on managers up to the order.
abbrev pub check_view : Host → ℤ → ℤ → ℤ → View → Result CapacityCheckResult
check_view host cpu_cores memory_mb disk_gb =
    Quot.lift (hlevel) (λ m. check_spec host m cpu_cores memory_mb disk_gb)
      (check_spec-SameAllocations host cpu_cores memory_mb disk_gb)
