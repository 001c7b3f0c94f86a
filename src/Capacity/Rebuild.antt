-- ===== src/Capacity/Rebuild.antt =====
-- What `reconcile_allocations` (src/agentvm/host/capacity.py) makes of a store's records.
use agent_vm.Base.{
  Option, none, some, List, [], ◌∷◌, ◌==◌, text_eq, if◌then◌else◌, ◌≡◌, refl, arith, Nodup, ◌∙◌,
  Bool-cases, inl, inr,
}
use agent_vm.Python.Result.{Result, ok, raise, >>=-eq-ok, ok-injective}
use agent_vm.Python.Dict.{Dict, keys, lookup, or_else, lookup-insert, insert-Nodup}
use agent_vm.Python.Lines.{is_empty}
use agent_vm.Python.Text.{Text}
use agent_vm.Python.Value.{Object}
use agent_vm.Capacity.{Allocation, CapacityManager}
use agent_vm.Capacity.Reconcile.{
  MetadataQueries, fetch_active_vms, vm_id_of, allocation_of, add_vm, record_allocation, rebuild,
  reconcile_allocations,
}

-- What one record says of an id.
abbrev valid : Result Allocation → Option Allocation
valid (ok a) = some a
valid (raise _) = none

unfoldable pub entry : Text → Object → Option Allocation
entry id vm =
    if is_empty (vm_id_of vm)
    then none
    else if vm_id_of vm == id
    then valid (allocation_of vm)
    else none

-- The last valid record of an id.
unfoldable pub last_entry : Text → List Object → Option Allocation
last_entry id [] = none
last_entry id (vm ∷ vms) = or_else (last_entry id vms) (entry id vm)

lookup-record_allocation :
    (k id : Text) (r : Result Allocation) (d : Dict Text Allocation) {d' : Dict Text Allocation}
    → record_allocation id r d ≡ ok d'
    → lookup k d' ≡ or_else (if id == k then valid r else none) (lookup k d)
lookup-record_allocation k id (ok a) d h = ground (arith, lookup-insert id k a d)
lookup-record_allocation k id (raise e) d h = ground arith

lookup-add_vm :
    (k : Text) (vm : Object) (d : Dict Text Allocation) {d' : Dict Text Allocation}
    → add_vm vm d ≡ ok d'
    → lookup k d' ≡ or_else (entry k vm) (lookup k d)
unfolding add_vm entry
lookup-add_vm k vm d {d'} h =
    ground (arith, lookup-record_allocation k (vm_id_of vm) (allocation_of vm) d {d' = d'})

or_else_assoc : (a b c : Option Allocation) → or_else a (or_else b c) ≡ or_else (or_else a b) c
or_else_assoc none b c = refl
or_else_assoc (some v) b c = refl

lookup-rebuild :
    (k : Text) (vms : List Object) (d : Dict Text Allocation) {d' : Dict Text Allocation}
    → rebuild vms d ≡ ok d'
    → lookup k d' ≡ or_else (last_entry k vms) (lookup k d)
unfolding rebuild last_entry
lookup-rebuild k [] d h = ground arith
lookup-rebuild k (vm ∷ vms) d h =
    let (d₁, added, rest) = >>=-eq-ok (add_vm vm d) _ h in
    lookup-rebuild k vms d₁ rest
    ∙ rw (lookup-add_vm k vm d added) (or_else_assoc (last_entry k vms) (entry k vm) (lookup k d))

record_allocation-Nodup :
    (id : Text) (r : Result Allocation) (d : Dict Text Allocation) {d' : Dict Text Allocation}
    → record_allocation id r d ≡ ok d'
    → Nodup (keys d)
    → Nodup (keys d')
record_allocation-Nodup id (ok a) d h n = rw (← ok-injective h) (insert-Nodup id a d n)
record_allocation-Nodup id (raise e) d {d'} h n = let same : d ≡ d' = ground arith in rw (← same) n

add_vm-Nodup :
    (vm : Object) (d : Dict Text Allocation) {d' : Dict Text Allocation}
    → add_vm vm d ≡ ok d'
    → Nodup (keys d)
    → Nodup (keys d')
unfolding add_vm
add_vm-Nodup vm d {d'} h n = elim (Bool-cases (is_empty (vm_id_of vm))) [
  | inl nameless ↦ let same : d ≡ d' = ground arith in rw (← same) n
  | inr named ↦ record_allocation-Nodup (vm_id_of vm) (allocation_of vm) d (ground arith) n
]

rebuild-Nodup :
    (vms : List Object) (d : Dict Text Allocation) {d' : Dict Text Allocation}
    → rebuild vms d ≡ ok d'
    → Nodup (keys d)
    → Nodup (keys d')
unfolding rebuild
rebuild-Nodup [] d h n = rw (← ok-injective h) n
rebuild-Nodup (vm ∷ vms) d h n =
    let (d₁, added, rest) = >>=-eq-ok (add_vm vm d) _ h in
    rebuild-Nodup vms d₁ rest (add_vm-Nodup vm d added n)

or_else-none : (o : Option Allocation) → or_else o none ≡ o
or_else-none none = refl
or_else-none (some a) = refl

-- Where `reconcile_allocations` returns, the store's query returned active records, and every id has
-- the allocation of the last of them with that non-empty id and three numbers, or none where there
-- is none; no id stands twice, and the rest of the manager is as it was.
pub reconcile_allocations-last_entry :
    (store : MetadataQueries) (m m' : CapacityManager)
    → reconcile_allocations store m ≡ ok m'
    → (vms : List Object) × (fetch_active_vms store ≡ ok vms)
      × ((id : Text) → lookup id m'.allocations ≡ last_entry id vms)
      × Nodup (keys m'.allocations)
      × (m' ≡ record m { allocations = m'.allocations })
unfolding reconcile_allocations
reconcile_allocations-last_entry store m m' h =
    let (vms, fetched, h₁) = >>=-eq-ok (fetch_active_vms store) _ h in
    let (d, rebuilt, h₂) = >>=-eq-ok (rebuild vms []) _ h₁ in
    let e : record m { allocations = d } ≡ m' = ok-injective h₂ in
    (
      vms,
      fetched,
      λ id.
          rw (← e)
            (lookup-rebuild id vms [] rebuilt ∙ unfold lookup in or_else-none (last_entry id vms)),
      rw (← e) (rebuild-Nodup vms [] rebuilt tt),
      rw (← e),
    )
