-- ===== src/Capacity/Errors.antt =====
-- What `reconcile_allocations` (src/agentvm/host/capacity.py) can raise.
use agent_vm.Base.{
  arith, Bool, true, false, List, [], ◌∷◌, String, string_eq, ◌≡◌, refl, Bool-cases, inl, inr,
  Option-cases,
}
use agent_vm.Python.Result.{Error, Result, ok, raise, key_error, overflow_error}
use agent_vm.Python.Dict.{Dict, lookup}
use agent_vm.Python.Failing.{Raises, returns, raises, Raises->>=, Raises-if, weaken, raised}
use agent_vm.Python.Failing.Number.{is_int_error, parse_int-Raises, truncate-Raises}
use agent_vm.Python.Lines.{is_empty}
use agent_vm.Python.Text.{Text}
use agent_vm.Python.Value.{Value, null, bool, int, float, str, bytes, nested, Object}
use agent_vm.Capacity.{Allocation, CapacityManager}
use agent_vm.Capacity.Reconcile.{
  MetadataQueries, to_int, number, allocation_of, is_caught, record_allocation, add_vm, vm_id_of,
  rebuild, fetch_active_vms, reconcile_allocations,
}

abbrev pub is_number_error : Error → Bool
is_number_error key_error = true
is_number_error error = is_int_error error

abbrev pub is_overflow : Error → Bool
is_overflow overflow_error = true
is_overflow _ = false

to_int-Raises : (v : Value) → Raises is_int_error (to_int v)
unfolding to_int
to_int-Raises null = raises refl
to_int-Raises (bool b) = raises refl
to_int-Raises (int z) = returns
to_int-Raises (float f) = truncate-Raises f
to_int-Raises (str t) = parse_int-Raises t
to_int-Raises (bytes t content) = parse_int-Raises content
to_int-Raises (nested t) = raises refl

number_error_of_int : (error : Error) → is_int_error error ≡ true → is_number_error error ≡ true
number_error_of_int error h = ground arith

number-Raises : (name : String) (vm : Object) → Raises is_number_error (number name vm)
unfolding number
number-Raises name vm = elim (Option-cases (lookup name vm)) [
  | inl absent ↦ rw (number, absent) (raises refl)
  | inr (value, found) ↦ rw (number, found) (weaken number_error_of_int (to_int-Raises value))
]

pub allocation_of-Raises : (vm : Object) → Raises is_number_error (allocation_of vm)
unfolding allocation_of
allocation_of-Raises vm = search (Raises->>=, number-Raises, returns)

pub uncaught_lem :
    (error : Error)
    → is_number_error error ≡ true
    → is_caught error ≡ false
    → is_overflow error ≡ true
uncaught_lem error h uncaught = ground arith

record_allocation-Raises :
    (id : Text) (d : Dict Text Allocation) {r : Result Allocation}
    → Raises is_number_error r
    → Raises is_overflow (record_allocation id r d)
record_allocation-Raises id d returns = returns
record_allocation-Raises id d (raises {error} passed) = elim (Bool-cases (is_caught error)) [
  | inl caught ↦ rw caught returns
  | inr uncaught ↦ rw uncaught (raises (uncaught_lem error passed uncaught))
]

add_vm-Raises : (vm : Object) (d : Dict Text Allocation) → Raises is_overflow (add_vm vm d)
unfolding add_vm
add_vm-Raises vm d =
    Raises-if (is_empty (vm_id_of vm)) returns
      (record_allocation-Raises (vm_id_of vm) d (allocation_of-Raises vm))

rebuild-Raises : (vms : List Object) (d : Dict Text Allocation) → Raises is_overflow (rebuild vms d)
unfolding rebuild
rebuild-Raises [] d = returns
rebuild-Raises (vm ∷ vms) d = Raises->>= (add_vm-Raises vm d) (rebuild-Raises vms)

overflow_lem : (error : Error) → is_overflow error ≡ true → error ≡ overflow_error
overflow_lem error h = ground arith

-- Where the store's query returns, `reconcile_allocations` raises nothing but an `OverflowError`.
pub reconcile_allocations-raise :
    (store : MetadataQueries) (m : CapacityManager) (vms : List Object) (error : Error)
    → fetch_active_vms store ≡ ok vms
    → reconcile_allocations store m ≡ raise error
    → error ≡ overflow_error
unfolding reconcile_allocations
reconcile_allocations-raise store m vms error fetched h = overflow_lem error (
    raised {test = is_overflow} (Raises->>= (rebuild-Raises vms []) (λ d. returns))
      (rw fetched at h))
