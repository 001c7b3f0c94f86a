-- ===== src/Capacity/Returns.antt =====
-- When `reconcile_allocations` (src/agentvm/host/capacity.py) returns.
use agent_vm.Base.{
  false, not, Bool, true, ◌||◌, List, [], ◌∷◌, ◌≡◌, ◌↔◌, refl, arith, All, Bool-cases, inl, inr,
}
use agent_vm.Python.Result.{Error, Result, ok, raise, >>=-eq-ok}
use agent_vm.Python.Dict.{Dict}
use agent_vm.Python.Lines.{is_empty}
use agent_vm.Python.Text.{Text}
use agent_vm.Python.Value.{Object}
use agent_vm.Capacity.{Allocation, CapacityManager}
use agent_vm.Python.Failing.{Raises, returns, raises}
use agent_vm.Capacity.Errors.{is_number_error, is_overflow, allocation_of-Raises, uncaught_lem}
use agent_vm.Capacity.Reconcile.{
  MetadataQueries, fetch_active_vms, vm_id_of, allocation_of, is_caught, record_allocation, add_vm,
  rebuild, reconcile_allocations,
}

-- Reading the numbers ends in an `OverflowError`, as it does at an infinite float.
abbrev pub overflows : Result Allocation → Bool
overflows (ok a) = false
overflows (raise error) = is_overflow error

-- The record has no id, or its numbers do not overflow.
unfoldable pub passes : Object → Bool
passes vm = is_empty (vm_id_of vm) || not (overflows (allocation_of vm))

caught_lem : (error : Error) → is_caught error ≡ true → is_overflow error ≡ false
caught_lem error h = ground arith

record_allocation-returns :
    (id : Text) (d : Dict Text Allocation) {r : Result Allocation}
    → Raises is_number_error r
    → ((d' : Dict Text Allocation) × (record_allocation id r d ≡ ok d'))
      ↔ (not (overflows r) ≡ true)
record_allocation-returns id d returns = (λ _. refl, λ _. (_, refl))
record_allocation-returns id d (raises {error} passed) = elim (Bool-cases (is_caught error)) [
  | inl caught ↦ rw (caught, caught_lem error caught) (λ _. refl, λ _. (d, refl))
  | inr uncaught ↦
      rw (uncaught, uncaught_lem error passed uncaught) (λ (_, h). absurd cc, λ h. absurd cc)
]

add_vm-returns :
    (vm : Object) (d : Dict Text Allocation)
    → ((d' : Dict Text Allocation) × (add_vm vm d ≡ ok d')) ↔ (passes vm ≡ true)
unfolding add_vm passes
add_vm-returns vm d = elim (Bool-cases (is_empty (vm_id_of vm))) [
  | inl nameless ↦ rw nameless (λ _. refl, λ _. (d, refl))
  | inr named ↦ rw named (record_allocation-returns (vm_id_of vm) d (allocation_of-Raises vm))
]

rebuild-passes :
    (vms : List Object) (d : Dict Text Allocation) {d' : Dict Text Allocation}
    → rebuild vms d ≡ ok d'
    → All (λ vm. passes vm ≡ true) vms
unfolding rebuild
rebuild-passes [] d h = tt
rebuild-passes (vm ∷ vms) d h =
    let (d₁, added, rest) = >>=-eq-ok (add_vm vm d) _ h in
    ((add_vm-returns vm d).0 (d₁, added), rebuild-passes vms d₁ rest)

rebuild-returns :
    (vms : List Object) (d : Dict Text Allocation)
    → All (λ vm. passes vm ≡ true) vms
    → (d' : Dict Text Allocation) × (rebuild vms d ≡ ok d')
unfolding rebuild
rebuild-returns [] d _ = (d, refl)
rebuild-returns (vm ∷ vms) d (pass, all) =
    let (d₁, added) = (add_vm-returns vm d).1 pass in rw added (rebuild-returns vms d₁ all)

-- Where the store's query returns active records, `reconcile_allocations` returns exactly where none of
-- them has both a non-empty id and numbers whose reading ends in an `OverflowError`.
pub reconcile_allocations-returns :
    (store : MetadataQueries) (m : CapacityManager) (vms : List Object)
    → fetch_active_vms store ≡ ok vms
    → ((m' : CapacityManager) × (reconcile_allocations store m ≡ ok m'))
      ↔ All (λ vm. passes vm ≡ true) vms
unfolding reconcile_allocations
reconcile_allocations-returns store m vms fetched = (
  λ (m', h).
      let (d, rebuilt, _) = >>=-eq-ok (rebuild vms []) _ (rw fetched at h) in
      rebuild-passes vms [] rebuilt,
  λ all.
      let (d, rebuilt) = rebuild-returns vms [] all in
      (record m { allocations = d }, rw (fetched, rebuilt) refl),
)
