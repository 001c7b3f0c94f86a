-- ===== src/Daemon/Restart.antt =====
-- What the capacity manager knows after a restart (src/agentvm/daemon.py, src/agentvm/host/capacity.py)
-- of a VM that was created before it (src/agentvm/vm/manager.py).
use agent_vm.Base.{
  All, All-append, Bool, true, false, ◌||◌, some, List, [], ◌∷◌, ◌++◌, map, filter, filter-append,
  contains, text_eq, string_eq, beq_refl, ◌≡◌, refl, ◌∙◌, ap, sym, arith,
}
use agent_vm.Python.Result.{ok, ok-injective}
use agent_vm.Python.Dict.{lookup, setdefault, insert}
use agent_vm.Python.Lines.{is_empty}
use agent_vm.Python.Text.{Text, lower}
use agent_vm.Python.Value.{Object, to_str}
use agent_vm.Store.Schema.{VmRow}
use agent_vm.Store.Codec.{decode_row, set_defaults, payload_object}
use agent_vm.Store.Connection.{Store, query}
use agent_vm.Store.Rows.{bind_vm, decode_vm}
use agent_vm.Store.Vms.{get_active_vms, is_active}
use agent_vm.Capacity.{Allocation, CapacityManager}
use agent_vm.Capacity.Reconcile.{
  dict, active_items, is_active_item, ask, fetch_active_vms, vm_id_of, allocation_of, number,
  to_int, reconcile_allocations,
}
use agent_vm.Capacity.Returns.{passes, reconcile_allocations-returns}
use agent_vm.Capacity.Rebuild.{entry, last_entry, reconcile_allocations-last_entry}
use agent_vm.VmManager.{VmManager, create_vm}
use agent_vm.Store.Vms.Lookup.{get_vm-create_vm, create_vm-eq}
use agent_vm.VmManager.Status.{VmSpec, vm_record}
use agent_vm.VmManager.Lifecycle.{row_of, over_metadata, create_vm-metadata, vm_row-vm_record}
use agent_vm.Daemon.Run.{queries}

last_entry-append :
    (id : Text) (vms : List Object) (vm : Object) (a : Allocation)
    → entry id vm ≡ some a
    → last_entry id (vms ++ vm ∷ []) ≡ some a
unfolding last_entry
last_entry-append id [] vm a h = h
last_entry-append id (v ∷ vms) vm a h = rw (last_entry-append id vms vm a h) refl

active_items-append :
    (objects : List Object) (vm : Object)
    → is_active_item vm ≡ true
    → active_items (map dict (objects ++ vm ∷ [])) ≡ active_items (map dict objects) ++ vm ∷ []
unfolding active_items
active_items-append [] vm h = rw h
active_items-append (o ∷ objects) vm h = ground (arith, active_items-append objects vm h)

map-append_one :
    {A B : Type 0} (f : A → B) (xs : List A) (x : A) → map f (xs ++ x ∷ []) ≡ map f xs ++ f x ∷ []
map-append_one f [] x = refl
map-append_one f (y ∷ xs) x = ap (◌∷◌ (f y)) (map-append_one f xs x)

abbrev pub allocation_of_spec : VmSpec → Allocation
allocation_of_spec spec = record {
  cpu_cores = spec.cpu_cores;
  memory_mb = spec.memory_mb;
  disk_gb = spec.disk_gb;
}

is_active_item-row :
    (now : Text) (spec : VmSpec) → is_active_item (decode_vm (row_of now spec)) ≡ true
unfolding is_active_item decode_vm decode_row set_defaults payload_object vm_record setdefault
    lookup insert to_str lower
is_active_item-row now spec = refl

vm_id_of-row : (now : Text) (spec : VmSpec) → vm_id_of (decode_vm (row_of now spec)) ≡ spec.vm_id
unfolding vm_id_of decode_vm decode_row set_defaults payload_object vm_record setdefault lookup
    insert to_str
vm_id_of-row now spec = refl

allocation_of-row :
    (now : Text) (spec : VmSpec)
    → allocation_of (decode_vm (row_of now spec)) ≡ ok (allocation_of_spec spec)
unfolding allocation_of number to_int decode_vm decode_row set_defaults payload_object vm_record
    setdefault lookup insert
allocation_of-row now spec = refl

entry-row :
    (now : Text) (spec : VmSpec)
    → is_empty spec.vm_id ≡ false
    → entry spec.vm_id (decode_vm (row_of now spec)) ≡ some (allocation_of_spec spec)
unfolding entry
entry-row now spec named =
    rw (vm_id_of-row now spec, named, beq_refl spec.vm_id, allocation_of-row now spec) refl

filter-row :
    (now : Text) (spec : VmSpec) → filter is_active (row_of now spec ∷ []) ≡ row_of now spec ∷ []
unfolding filter is_active
filter-row now spec = refl

-- What the daemon asks a store with the VM's row at the end.
fetch_active_vms-row :
    (now : Text) (spec : VmSpec) (s : Store) (vms : List VmRow)
    → s.connected ≡ true
    → s.database.vms ≡ vms ++ row_of now spec ∷ []
    → fetch_active_vms (queries s)
      ≡ ok (
          active_items (map dict (map decode_vm (filter is_active vms)))
          ++ decode_vm (row_of now spec) ∷ [])
unfolding fetch_active_vms ask queries get_active_vms query
fetch_active_vms-row now spec s vms c h =
    let objects = map decode_vm (filter is_active vms) in
    rw
      (
        c,
        h,
        filter-append,
        filter-row now spec,
        map-append_one decode_vm (filter is_active vms) (row_of now spec),
      )
      (ap ok
        (active_items-append objects (decode_vm (row_of now spec)) (is_active_item-row now spec)))

or-true : (b : Bool) → (b || true) ≡ true
or-true true = refl
or-true false = refl

passes-row : (now : Text) (spec : VmSpec) → passes (decode_vm (row_of now spec)) ≡ true
unfolding passes
passes-row now spec =
    rw (allocation_of-row now spec) (or-true (is_empty (vm_id_of (decode_vm (row_of now spec)))))

-- Where `create_vm` over an open metadata store creates a VM with a non-empty id that is new and
-- sizes that fit 64 bits, and the loop passes the active VMs that were there before,
-- `reconcile_allocations` over that store returns, whatever the capacity manager held, and has exactly
-- the VM's sizes allocated for it.
pub reconcile_allocations-create_vm :
    {R : Type 0} (now : Text) (m : VmManager Store R) (s : Store) (spec : VmSpec)
    → s.connected ≡ true
    → bind_vm (row_of now spec) ≡ ok tt
    → contains spec.vm_id (map (λ r. r.id) s.database.vms) ≡ false
    → is_empty spec.vm_id ≡ false
    → All
        (λ vm. passes vm ≡ true)
        (active_items (map dict (map decode_vm (filter is_active s.database.vms))))
    → (c : CapacityManager)
    → (c' : CapacityManager) × (reconcile_allocations
          (queries (create_vm (over_metadata now m) spec s).1)
          c
        ≡ ok c')
      × (lookup spec.vm_id c'.allocations ≡ some (allocation_of_spec spec))
reconcile_allocations-create_vm now m s spec connected fits fresh named all c =
    let row = row_of now spec in
    let made =
      (get_vm-create_vm s connected now (vm_record spec) row (vm_row-vm_record now spec) fits
        fresh).0 in
    let left =
      (create_vm-metadata now m spec s row.id made).1
      ∙ create_vm-eq s connected now (vm_record spec) row (vm_row-vm_record now spec) fits fresh in
    let s' : Store = record s {
      database = record (s.database) { vms = s.database.vms ++ row ∷ [] };
    } in
    let asked = fetch_active_vms-row now spec s' s.database.vms connected refl in
    let pass = All-append _ _ (decode_vm row ∷ []) all (passes-row now spec, tt) in
    let (c', returned) = (reconcile_allocations-returns (queries s') c _ asked).1 pass in
    let (vms, fetched, kept, _, _) = reconcile_allocations-last_entry (queries s') c c' returned in
    let e = ok-injective (sym fetched ∙ asked) in
    (
      c',
      rw left returned,
      kept spec.vm_id ∙ rw e (last_entry-append spec.vm_id _ _ _ (entry-row now spec named)),
    )
